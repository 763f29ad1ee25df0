-- ===== src/Base/Texts.antt =====
-- Go's strings.Contains and strings.TrimSpace.
use Prim.Native.Nat.{ℕ}
use Prim.Native.Char.{Char, code}
use Prim.Native.String.{String}
use mathlib.Core.Bool.{Bool, true, false, not, ◌&&◌, ◌||◌}
use mathlib.Core.List.{List, [], ◌∷◌}
use text.Mathlib.Text.{find?}
use zhigu.Base.Tests.{is_null, leb, ◌==◌, if◌then◌else◌}

unfoldable pub contains : String → String → Bool
contains s sub = not (is_null (find? s sub))

-- Some of the words stands in the text.
unfoldable pub contains_any : String → List String → Bool
unfolding contains
contains_any text [] = false
contains_any text (w ∷ ws) = contains text w || contains_any text ws

-- unicode.IsSpace.
abbrev is_space : ℕ → Bool
is_space c =
    leb 9 c && leb c 13
    || c == 32
    || c == 0x85
    || c == 0xa0
    || c == 0x1680
    || leb 0x2000 c && leb c 0x200a
    || c == 0x2028
    || c == 0x2029
    || c == 0x202f
    || c == 0x205f
    || c == 0x3000

abbrev is_blank : String → Bool
is_blank String.[] = true
is_blank (String.◌∷◌ _ _) = false

abbrev trim_left : String → String
trim_left String.[] = String.[]
trim_left (String.◌∷◌ c s) = elim (is_space (code c)) [
  | true ↦ trim_left s
  | false ↦ String.◌∷◌ c s
]

abbrev drop_space : Char → String → String
drop_space c s = if is_space (code c) && is_blank s then String.[] else String.◌∷◌ c s

abbrev trim_right : String → String
trim_right String.[] = String.[]
trim_right (String.◌∷◌ c s) = drop_space c (trim_right s)

unfoldable pub trim_space : String → String
trim_space s = trim_left (trim_right s)

-- The code points of a text.
abbrev pub codes : String → List ℕ
codes String.[] = []
codes (String.◌∷◌ c s) = code c ∷ codes s

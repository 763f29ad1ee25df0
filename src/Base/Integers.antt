-- ===== src/Base/Integers.antt =====
-- Whole numbers with their sign, over the native numbers, and a decimal library of them alone.
use Prim.Native.Nat.{ℕ, suc, ◌+◌, ◌-◌, ◌*◌, ◌/◌, ◌≤◌}
use Prim.Native.Char.{code}
use Prim.Native.String.{String}
use mathlib.Core.Bool.{Bool, ◌&&◌}
use mathlib.Core.Option.{Option, none, some}
use zhigu.Base.Tests.{ltb, leb, ◌==◌, if◌then◌else◌}
use zhigu.Base.Decimal.{Decimals}

-- `negsuc n` is -(n + 1).
pub data ℤ : Type 0 where
  pos : ℕ → ℤ
  negsuc : ℕ → ℤ

abbrev pub pos_part : ℤ → ℕ
pos_part (pos n) = n
pos_part (negsuc n) = 0

abbrev pub neg_part : ℤ → ℕ
neg_part (pos n) = 0
neg_part (negsuc n) = suc n

abbrev pub sub_ℕ : ℕ → ℕ → ℤ
sub_ℕ a b = if leb b a then pos (a - b) else negsuc (b - a - 1)

infixl 65 ◌+ℤ◌ ◌-ℤ◌
infixl 70 ◌*ℤ◌
infix 50 ◌≤ℤ◌
unfoldable pub ◌+ℤ◌ : ℤ → ℤ → ℤ
a +ℤ b = sub_ℕ (pos_part a + pos_part b) (neg_part a + neg_part b)

unfoldable pub ◌-ℤ◌ : ℤ → ℤ → ℤ
a -ℤ b = sub_ℕ (pos_part a + neg_part b) (neg_part a + pos_part b)

unfoldable pub ◌*ℤ◌ : ℤ → ℤ → ℤ
a *ℤ b =
    sub_ℕ (pos_part a * pos_part b + neg_part a * neg_part b)
      (pos_part a * neg_part b + neg_part a * pos_part b)

abbrev pub ◌≤ℤ◌ : ℤ → ℤ → Type 0
a ≤ℤ b = pos_part a + neg_part b ≤ pos_part b + neg_part a

abbrev pub ltb_ℤ : ℤ → ℤ → Bool
ltb_ℤ a b = ltb (pos_part a + neg_part b) (pos_part b + neg_part a)

abbrev pub eqb_ℤ : ℤ → ℤ → Bool
eqb_ℤ a b = pos_part a + neg_part b == pos_part b + neg_part a

-- The integral part of a quotient.
unfoldable pub div_ℤ : ℤ → ℤ → ℤ
div_ℤ a b =
    if eqb_ℤ b (pos 0)
    then pos 0
    else sub_ℕ
        ((pos_part a * pos_part b + neg_part a * neg_part b)
          / (pos_part b * pos_part b + neg_part b * neg_part b))
        ((pos_part a * neg_part b + neg_part a * pos_part b)
          / (pos_part b * pos_part b + neg_part b * neg_part b))

abbrev digits : String → ℕ → Option ℕ
digits String.[] acc = some acc
digits (String.◌∷◌ c s) acc =
    let rest = digits s (10 * acc + (code c - 48)) in
    if leb 48 (code c) && leb (code c) 57 then rest else none

abbrev whole_number : String → Option ℤ
whole_number String.[] = none
whole_number (String.◌∷◌ c s) = elim (digits (String.◌∷◌ c s) 0) [
  | none ↦ none
  | some n ↦ some (pos n)
]

-- Decimals without fractions.
abbrev pub whole : Decimals
whole = record {
  Decimal = ℤ;
  zero = pos 0;
  of_nat = pos;
  parse = whole_number;
  show = λ _. "";
  add = ◌+ℤ◌;
  sub = ◌-ℤ◌;
  mul = ◌*ℤ◌;
  div = div_ℤ;
  floor = λ a. a;
  ceil = λ a. a;
  round_bank = λ _ a. a;
  lt = ltb_ℤ;
  eq = eqb_ℤ;
}

-- ===== src/Strategy/Json.antt =====
-- What encoding/json makes of the conditions of a strategy.
use zhigu.Base.{
  ℕ, suc, ◌+◌, ◌<◌, ◌≡◌, ap, ◌∙◌, inl, inr, Bool, true, false, Option, none, some, List, [], ◌∷◌,
  String, str_eq, ltb, ◌&&◌, ◌-◌, ℤ, pos, negsuc, if◌then◌else◌, arith, Bool-cases, All, All-map,
}

-- A literal of a number: whether it is that of an integer, whether it is below 0, and the size of
-- its integral part.
pub record Number : Type 0 where
  pub integral : Bool
  pub negative : Bool
  pub size : ℕ

-- A text keeps its literal between the quotes beside its value. An object has the keys that
-- json.Unmarshal leaves in a map, each once.
mutual
  pub data Json : Type 0 where
    null : Json
    bool : Bool → Json
    number : Number → Json
    text : String → String → Json
    array : Items → Json
    object : Fields → Json

  pub data Items : Type 0 where
    nil : Items
    cons : Json → Items → Items

  pub data Fields : Type 0 where
    end : Fields
    field : String → Json → Fields → Fields

abbrev pub items_of : Items → List Json
items_of nil = []
items_of (cons j js) = j ∷ items_of js

-- obj[key].
abbrev pub get : String → Fields → Option Json
get key end = none
get key (field k j fs) = if str_eq k key then some j else get key fs

abbrev pub keys : Fields → List String
keys end = []
keys (field k j fs) = k ∷ keys fs

-- json.Unmarshal into a map: null leaves a nil map, which has no keys; none is an error, or a raw
-- message that is missing.
abbrev pub as_map : Option Json → Option Fields
as_map (some null) = some end
as_map (some (object fs)) = some fs
as_map _ = none

-- json.Unmarshal into a slice, with its error left out: null and what is no array give no items.
abbrev pub as_items : Json → List Json
as_items (array js) = items_of js
as_items _ = []

abbrev pub is_array : Json → Bool
is_array (array js) = true
is_array null = true
is_array _ = false

-- json.Unmarshal into an int: null leaves the 0, and a fraction is an error.
abbrev pub int_of : Number → ℤ
int_of n = if n.negative && ltb 0 n.size then negsuc (n.size - 1) else pos n.size

abbrev pub integral_only : Number → Option ℤ
integral_only n = if n.integral then some (int_of n) else none

abbrev pub as_int : Json → Option ℤ
as_int null = some (pos 0)
as_int (number n) = integral_only n
as_int _ = none

-- A float64 in an `any`, and its int: the fraction is cut off.
abbrev pub float_int : Json → Option ℤ
float_int (number n) = some (int_of n)
float_int _ = none

-- The text of a raw message with the quotes around it trimmed, as far as it can be an operator.
abbrev pub raw_op : Option Json → String
raw_op (some (text raw _)) = raw
raw_op _ = ""

-- A string in an `any`.
abbrev pub as_string : Option Json → Option String
as_string (some (text _ value)) = some value
as_string _ = none

-- The height of the tree, above which a recursion into it does not go.
unfoldable mutual
  pub height : Json → ℕ
  height (array js) = suc (height_items js)
  height (object fs) = suc (height_fields fs)
  height null = 0
  height (bool b) = 0
  height (number n) = 0
  height (text r s) = 0

  pub height_items : Items → ℕ
  height_items nil = 0
  height_items (cons j js) = suc (height j) + height_items js

  pub height_fields : Fields → ℕ
  height_fields end = 0
  height_fields (field k j fs) = suc (height j) + height_fields fs

pub height-get :
    (key : String) (fs : Fields) {j : Json} → get key fs ≡ some j → height j < height_fields fs
unfolding height
height-get key end h = absurd (cc)
height-get key (field k j fs) h = elim (Bool-cases (str_eq k key)) [
  | inl e ↦ ground arith
  | inr e ↦ let rest = height-get key fs (rw (e, get) at h) in omega (arith, rest)
]

pub height-items_of : (js : Items) → All (λ j. height j < height_items js) (items_of js)
unfolding height
height-items_of nil = tt
height-items_of (cons j js) = (
  omega arith,
  All-map (λ i. height i < height_items js) (λ i. height i < height_items (cons j js)) (items_of js)
      (λ i h. omega arith) (height-items_of js),
)

some-injective : {A : Type 0} {a b : A} → some a ≡ some b → a ≡ b
some-injective h = cc

pub height-child :
    (key : String) (raw : Json) {obj : Fields} {j : Json}
    → as_map (some raw) ≡ some obj
    → get key obj ≡ some j
    → height j < height raw
unfolding height
height-child key Json.null {obj} {j} e h = absurd (cc (ap (get key) (some-injective e)))
height-child key (Json.object fs) {obj} {j} e h =
    let found : get key fs ≡ some j = ap (get key) (some-injective e) ∙ h in
    let lt = height-get key fs found in omega (arith, lt)
height-child key (Json.bool b) e h = absurd (cc)
height-child key (Json.number n) e h = absurd (cc)
height-child key (Json.text r s) e h = absurd (cc)
height-child key (Json.array js) e h = absurd (cc)

pub height-as_items : (list : Json) → All (λ j. height j < height list) (as_items list)
unfolding height
height-as_items (Json.array js) =
    All-map (λ j. height j < height_items js) (λ j. height j < suc (height_items js)) (items_of js)
      (λ j h. omega arith) (height-items_of js)
height-as_items Json.null = tt
height-as_items (Json.bool b) = tt
height-as_items (Json.number n) = tt
height-as_items (Json.text r s) = tt
height-as_items (Json.object fs) = tt

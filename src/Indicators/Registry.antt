-- ===== src/Indicators/Registry.antt =====
-- service/indicators/engine.go: the registry of the indicators, and the specifications of series.
use zhigu.Base.{
  ℕ, ◌+◌, ◌-◌, Bool, true, false, Option, none, some, List, [], ◌∷◌, String, str_eq, map, first,
  ltb, leb, ◌==◌, ◌&&◌, ◌||◌, if◌then◌else◌, Result, ok, err, Error, ◌>>=◌, trim_space, codes,
}

-- The Type of a Descriptor.
pub data Kind : Type 0 where
  atr bias boll cci ema kdj ma macd obv rsi vol wr : Kind

abbrev pub type_name : Kind → String
type_name atr = "ATR"
type_name bias = "BIAS"
type_name boll = "BOLL"
type_name cci = "CCI"
type_name ema = "EMA"
type_name kdj = "KDJ"
type_name ma = "MA"
type_name macd = "MACD"
type_name obv = "OBV"
type_name rsi = "RSI"
type_name vol = "VOL"
type_name wr = "WR"

-- strings.ToLower of the types.
abbrev pub lower_name : Kind → String
lower_name atr = "atr"
lower_name bias = "bias"
lower_name boll = "boll"
lower_name cci = "cci"
lower_name ema = "ema"
lower_name kdj = "kdj"
lower_name ma = "ma"
lower_name macd = "macd"
lower_name obv = "obv"
lower_name rsi = "rsi"
lower_name vol = "vol"
lower_name wr = "wr"

-- A parameter with its default and its range. The ranges begin above 0, so that a number below 0 is
-- refused as 0 is, and 0 stands for it.
pub record Param : Type 0 where
  pub name : String
  pub default_value : ℕ
  pub lowest : ℕ
  pub highest : ℕ

pub record Descriptor : Type 0 where
  pub kind : Kind
  pub params : List Param
  pub outputs : List String

abbrev pub period : String → ℕ → Param
period name n = record { name = name; default_value = n; lowest = 2; highest = 500 }

abbrev pub one_period : Kind → ℕ → String → Descriptor
one_period kind n output = record { kind = kind; params = period "n" n ∷ []; outputs = output ∷ [] }

abbrev pub descriptor : Kind → Descriptor
descriptor atr = one_period atr 14 "atr"
descriptor bias = one_period bias 6 "bias"
descriptor boll = record {
  kind = boll;
  params = period "n" 20 ∷ record { name = "k"; default_value = 2; lowest = 1; highest = 10 } ∷ [];
  outputs = "mid" ∷ "upper" ∷ "lower" ∷ [];
}
descriptor cci = one_period cci 14 "cci"
descriptor ema = one_period ema 12 "ema"
descriptor kdj = record {
  kind = kdj;
  params = period "n" 9 ∷ period "m1" 3 ∷ period "m2" 3 ∷ [];
  outputs = "k" ∷ "d" ∷ "j" ∷ [];
}
descriptor ma = one_period ma 20 "ma"
descriptor macd = record {
  kind = macd;
  params = period "fast" 12 ∷ period "slow" 26 ∷ period "signal" 9 ∷ [];
  outputs = "dif" ∷ "dea" ∷ "hist" ∷ [];
}
descriptor obv = record { kind = obv; params = []; outputs = "obv" ∷ [] }
descriptor rsi = one_period rsi 12 "rsi"
descriptor vol = record {
  kind = vol;
  params = period "ma5" 5 ∷ period "ma10" 10 ∷ [];
  outputs = "volume" ∷ "ma5" ∷ "ma10" ∷ [];
}
descriptor wr = one_period wr 10 "wr"

-- Sorted by the types.
abbrev pub registry : List Kind
registry = atr ∷ bias ∷ boll ∷ cci ∷ ema ∷ kdj ∷ ma ∷ macd ∷ obv ∷ rsi ∷ vol ∷ wr ∷ []

-- strings.ToUpper, as far as its result can be a type: the letters a to z, and ı and ſ, whose capitals
-- are I and S.
abbrev pub capital : ℕ → ℕ
capital c =
    if leb 97 c && leb c 122
    then c - 32
    else if c == 0x131
    then 73
    else if c == 0x17f
    then 83
    else c

abbrev pub same_codes : List ℕ → List ℕ → Bool
same_codes [] [] = true
same_codes [] (c ∷ cs) = false
same_codes (b ∷ bs) [] = false
same_codes (b ∷ bs) (c ∷ cs) = b == c && same_codes bs cs

abbrev pub has_type : String → Kind → Bool
has_type typ kind = same_codes (map capital (codes (trim_space typ))) (codes (type_name kind))

unfoldable pub lookup : String → Option Descriptor
lookup typ = elim (first (has_type typ) registry) [
  | none ↦ none
  | some kind ↦ some (descriptor kind)
]

-- A map as the list of its entries.
abbrev pub Params : Type 0
Params = List (String × ℕ)

abbrev pub entry : String → Params → Option ℕ
entry name [] = none
entry name ((k, v) ∷ ps) = if str_eq k name then some v else entry name ps

-- `s.Params[name]`, 0 where there is none.
abbrev pub or_0 : Option ℕ → ℕ
or_0 none = 0
or_0 (some v) = v

abbrev pub param : String → Params → ℕ
param name ps = or_0 (entry name ps)

pub record Spec : Type 0 where
  pub id : String
  pub type : String
  pub params : Params

-- A Spec that NormalizeSpec returned: its type is that of a descriptor.
pub record NormalSpec : Type 0 where
  pub id : String
  pub kind : Kind
  pub params : Params

abbrev pub chosen : Param → Option ℕ → ℕ
chosen p none = p.default_value
chosen p (some v) = v

unfoldable pub normalize_params : List Param → Params → Result Params
normalize_params [] given = ok []
normalize_params (p ∷ ps) given =
    let v = chosen p (entry p.name given) in
    let rest = normalize_params ps given in
    if ltb v p.lowest || ltb p.highest v
    then err Error.invalid_input
    else do out ← rest; ok ((p.name, v) ∷ out)

unfoldable pub warmup_of : NormalSpec → ℕ
warmup_of s = elim s.kind [
  | rsi ↦ param "n" s.params + 1
  | obv ↦ 2
  | vol ↦
      let w = param "ma5" s.params in
      if ltb w (param "ma10" s.params) then param "ma10" s.params else w
  | macd ↦ param "slow" s.params + param "signal" s.params - 1
  | _ ↦ param "n" s.params
]

-- The result under the type of the descriptor, with that type in small letters for an empty id.
abbrev pub normal : Spec → Kind → Params → NormalSpec
normal s kind params = record {
  id = if str_eq s.id "" then lower_name kind else s.id;
  kind = kind;
  params = params;
}

abbrev pub with_warmup : NormalSpec → NormalSpec × ℕ
with_warmup s = (s, warmup_of s)

unfoldable pub normalize_spec : Spec → Result (NormalSpec × ℕ)
normalize_spec s = elim (lookup s.type) [
  | none ↦ err Error.invalid_input
  | some d ↦ do
    params ← normalize_params d.params s.params
    ok (with_warmup (normal s d.kind params))
]

-- The Spec that a normalized one is.
abbrev pub spec_of : NormalSpec → Spec
spec_of s = record { id = s.id; type = type_name s.kind; params = s.params }

-- ===== src/Base/Decimal.antt =====
-- The operations of github.com/shopspring/decimal that the services call.
use Prim.Native.Nat.{ℕ}
use Prim.Native.String.{String}
use mathlib.Core.Bool.{Bool, not}
use mathlib.Core.Option.{Option, none, some}
use zhigu.Base.Tests.{if◌then◌else◌}

pub record Decimals : Type 1 where
  pub Decimal : Type 0
  -- Zero, and NewFromInt of a number that is not negative.
  pub zero : Decimal
  pub of_nat : ℕ → Decimal
  -- NewFromString, and String.
  pub parse : String → Option Decimal
  pub show : Decimal → String
  pub add : Decimal → Decimal → Decimal
  pub sub : Decimal → Decimal → Decimal
  pub mul : Decimal → Decimal → Decimal
  -- Div, which panics at a divisor of zero; the services test for it or divide by a number above it.
  pub div : Decimal → Decimal → Decimal
  pub floor : Decimal → Decimal
  pub ceil : Decimal → Decimal
  pub round_bank : ℕ → Decimal → Decimal
  pub lt : Decimal → Decimal → Bool
  pub eq : Decimal → Decimal → Bool

module _ (d : Decimals) where
  -- LessThanOrEqual, Neg and Abs by the others.
  abbrev pub le : d.Decimal → d.Decimal → Bool
  le a b = not (d.lt b a)

  abbrev pub neg : d.Decimal → d.Decimal
  neg a = d.sub d.zero a

  abbrev pub abs : d.Decimal → d.Decimal
  abs a = if d.lt a d.zero then neg a else a

  abbrev pub or_zero : Option d.Decimal → d.Decimal
  or_zero none = d.zero
  or_zero (some a) = a

  -- RequireFromString, which panics where no decimal stands; the texts in the code are decimals.
  abbrev pub required : String → d.Decimal
  required s = or_zero (d.parse s)

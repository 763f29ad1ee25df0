-- ===== src/Base/Results.antt =====
-- The errors of the services and the results that carry them, with `do`.
use mathlib.Core.Path.{◌≡◌, refl}
use mathlib.Core.Logic.{◌⊎◌, inl, inr}
use mathlib.Core.Bool.{Bool, true, false}

-- ErrQuotaExceeded, ErrRevisionConflict, ErrNotFound, ErrInvalidInput, ErrIdempotencyConflict, and
-- an error of the database itself, such as a violated constraint; of service/finance the codes
-- MISSING_REQUEST_ID, BUDGET_EXCEEDED, RESERVATION_NOT_FOUND, RUN_CLOSED, CANCEL_IN_PROGRESS
-- and LEASE_LOST; of service/strategy the codes STRATEGY_INVALID and STRATEGY_UNSUPPORTED; and
-- unreadable, the error of gorm where a column does not deserialize.
pub data Error : Type 0 where
  quota_exceeded revision_conflict not_found invalid_input idempotency_conflict database : Error
  missing_request_id budget_exceeded reservation_not_found run_closed cancel_in_progress lease_lost
        strategy_invalid strategy_unsupported unreadable :
      Error

-- What a Go function returns that ends with `error`.
pub data Result {ℓ} (A : Type ℓ) : Type ℓ where
  ok : A → Result A
  err : Error → Result A

module _ {ℓ} {A : Type ℓ} where
  pub Result-cases : (r : Result A) → ((a : A) × (r ≡ ok a)) ⊎ ((e : Error) × (r ≡ err e))
  Result-cases (ok a) = inl (a, refl)
  Result-cases (err e) = inr (e, refl)

  -- A transaction that fails is rolled back.
  abbrev pub commit : A → Result A → A
  commit before (ok after) = after
  commit before (err _) = before

  -- `if err != nil { return err }`, and the rest of the body.
  infixl 5 ◌>>=◌
  abbrev pub ◌>>=◌ {κ} : {B : Type κ} → Result A → (A → Result B) → Result B
  err e >>= rest = err e
  ok value >>= rest = rest value

  -- What a chain that succeeds has gone through.
  pub >>=-eq-ok {κ} :
      {B : Type κ} (step : Result A) (rest : A → Result B) {b : B}
      → (step >>= rest) ≡ ok b
      → (value : A) × (step ≡ ok value) × (rest value ≡ ok b)
  >>=-eq-ok (err e) rest h = cc
  >>=-eq-ok (ok value) rest h = (value, refl, h)

-- `if !test { return e }`.
abbrev pub guard : Bool → Error → Result (Unit {0})
guard test e = elim test [ true ↦ ok tt | false ↦ err e ]

infixl 5 ◌>>◌
abbrev pub ◌>>◌ {κ} : {B : Type κ} → Result (Unit {0}) → Result B → Result B
checks >> rest = checks >>= λ _. rest

pub guard-eq-ok {κ} :
    {B : Type κ} (test : Bool) (e : Error) (rest : Result B) {b : B}
    → (guard test e >> rest) ≡ ok b
    → (test ≡ true) × (rest ≡ ok b)
guard-eq-ok true e rest h = (refl, h)
guard-eq-ok false e rest h = (cc, cc)

-- ===== src/Futures/Budget/Held.antt =====
-- The amounts and the tokens that reservations hold on an account.
use zhigu.Base.{
  ℕ, ◌+◌, ◌≤◌, ◌≡◌, refl, inl, inr, Bool, true, false, ◌&&◌, ◌||◌, List, [], ◌∷◌, String, count,
  count-Elem, update, update_none, Elem, ◌==◌, if◌then◌else◌, arith,
}
use zhigu.Futures.Budget.Ledger.{
  AccountScope, user, module_wide, BudgetAccount, BudgetReservation, ReservationState, reserved,
  settled, unknown, is_account, same_scope, is_attempt,
}
use zhigu.Futures.Budget.Settle.{is_reserved}

-- A settlement as unknown keeps what was reserved.
abbrev pub is_outstanding : ReservationState → Bool
is_outstanding settled = false
is_outstanding _ = true

reserved_outstanding : (st : ReservationState) → is_reserved st ≡ true → is_outstanding st ≡ true
reserved_outstanding reserved h = refl
reserved_outstanding settled h = absurd (cc)
reserved_outstanding unknown h = refl

-- The sum over the rows with `p` that are not settled.
unfoldable pub held :
    (BudgetReservation → ℕ) → (BudgetReservation → Bool) → List BudgetReservation → ℕ
held weight p [] = 0
held weight p (r ∷ rs) = (if p r && is_outstanding r.state then weight r else 0) + held weight p rs

abbrev pub of_scope : AccountScope → ℕ → ℕ → Bool
of_scope user owner_id r_owner = r_owner == owner_id
of_scope module_wide owner_id r_owner = owner_id == 0

-- The reservation counts on the account: on the user's, and on the module's.
abbrev pub belongs : BudgetAccount → BudgetReservation → Bool
belongs a r = r.budget_day == a.budget_date && of_scope a.scope a.owner_id r.owner_id

belongs_split :
    (s : AccountScope) (owner_id day r_owner r_day : ℕ)
    → (r_day == day && of_scope s owner_id r_owner) ≡ (
        (same_scope s user && owner_id == r_owner && day == r_day)
        || (same_scope s module_wide && owner_id == 0 && day == r_day))
belongs_split user owner_id day r_owner r_day = ground arith
belongs_split module_wide owner_id day r_owner r_day = ground arith

-- These are the two accounts that a reservation and its settlement update.
pub belongs-eq :
    (a : BudgetAccount) (r : BudgetReservation)
    → belongs a r
      ≡ (is_account user r.owner_id r.budget_day a || is_account module_wide 0 r.budget_day a)
belongs-eq a r = belongs_split a.scope a.owner_id a.budget_date r.owner_id r.budget_day

-- Settling the one row of an attempt releases what it holds.
pub held-settle :
    (weight : BudgetReservation → ℕ) (a : BudgetAccount) (attempt_id : String)
    (r : BudgetReservation) (rs : List BudgetReservation)
    → Elem r rs
    → is_attempt attempt_id r ≡ true
    → is_reserved r.state ≡ true
    → count (is_attempt attempt_id) rs ≤ 1
    → held weight
          (belongs a)
          (update (is_attempt attempt_id) (λ q. record q { state = settled }) rs)
        + (if belongs a r then weight r else 0)
      ≡ held weight (belongs a) rs
unfolding held update count
held-settle weight a attempt_id r [] m t live one = absurd m
held-settle weight a attempt_id r (q ∷ rs) (inl e) t live one =
    let same =
      update_none (is_attempt attempt_id) (λ q. record q { state = settled }) rs (ground arith) in
    rw (e, same, t, reserved_outstanding r.state live) (ground arith)
held-settle weight a attempt_id r (q ∷ rs) (inr m) t live one =
    let some_row = count-Elem (is_attempt attempt_id) r rs m t in
    let more = held-settle weight a attempt_id r rs m t live (ground arith) in ground arith

pub held-unknown :
    (weight : BudgetReservation → ℕ) (a : BudgetAccount) (test : BudgetReservation → Bool)
    (rs : List BudgetReservation)
    → ((q : BudgetReservation) → weight (record q { state = unknown }) ≡ weight q)
    → ((q : BudgetReservation) → test q ≡ true → is_reserved q.state ≡ true)
    → held weight (belongs a) (update test (λ q. record q { state = unknown }) rs)
      ≡ held weight (belongs a) rs
unfolding held update
held-unknown weight a test [] same live = refl
held-unknown weight a test (q ∷ rs) same live =
    let more = held-unknown weight a test rs same live in
    ground (arith, same q, live q, reserved_outstanding q.state)

-- ===== src/Futures/Budget/Booked.antt =====
-- What a reservation and a settlement do to the books of one account.
use zhigu.Base.{
  ℕ, ◌+◌, ◌≤◌, ◌≡◌, refl, sym, Bool, true, false, List, ◌∷◌, hit, if◌then◌else◌, arith,
}
use zhigu.Futures.Budget.Ledger.{
  AccountScope, user, module_wide, Reservation, BudgetAccount, BudgetReservation, is_account,
  charged, new_reservation,
}
use zhigu.Futures.Budget.Settle.{settled_account}
use zhigu.Futures.Budget.Limits.{scopes_differ}
use zhigu.Futures.Budget.Held.{held, belongs, belongs-eq}

-- The reserved amount is exactly what is held, and the tokens are at least that.
abbrev pub Booked : List BudgetReservation → BudgetAccount → Type 0
Booked rs a =
    (a.reserved_cny ≡ held (λ r. r.amount_cny) (belongs a) rs)
    × (held (λ r. r.tokens) (belongs a) rs ≤ a.tokens)

charges_hit :
    (request : Reservation) (rs : List BudgetReservation) (a : BudgetAccount) (b c : Bool)
    → is_account user request.owner_id request.budget_day a ≡ b
    → is_account module_wide 0 request.budget_day a ≡ c
    → Booked rs a
    → Booked (new_reservation request ∷ rs) (
        if c
        then charged request (if b then charged request a else a)
        else (if b then charged request a else a))
unfolding held
charges_hit request rs a true true e k booked =
    absurd (scopes_differ a request.owner_id 0 request.budget_day e k)
charges_hit request rs a true false e k (money, tokens) =
    let mine = belongs-eq a (new_reservation request) in (ground arith, ground arith)
charges_hit request rs a false true e k (money, tokens) =
    let mine = belongs-eq a (new_reservation request) in (ground arith, ground arith)
charges_hit request rs a false false e k (money, tokens) =
    let mine = belongs-eq a (new_reservation request) in (ground arith, ground arith)

-- Neither update changes what an account is.
pub is_account-charged :
    (request : Reservation) (a : BudgetAccount) (b : Bool) (scope : AccountScope) (owner_id day : ℕ)
    → is_account scope owner_id day (if b then charged request a else a)
      ≡ is_account scope owner_id day a
is_account-charged request a true scope owner_id day = refl
is_account-charged request a false scope owner_id day = refl

-- A new reservation is charged to the accounts that it counts on.
pub charges-Booked :
    (request : Reservation) (rs : List BudgetReservation) (a : BudgetAccount)
    → Booked rs a
    → Booked (new_reservation request ∷ rs) (
        hit
          (is_account module_wide 0 request.budget_day)
          (charged request)
          (hit (is_account user request.owner_id request.budget_day) (charged request) a))
charges-Booked request rs a booked =
    charges_hit request rs a _ _ refl
      (sym (
        is_account-charged request a (is_account user request.owner_id request.budget_day a)
          module_wide 0 request.budget_day))
      booked

pub settles_hit :
    (r : BudgetReservation) (amount spent : ℕ) (rs qs : List BudgetReservation) (a : BudgetAccount)
    (b c : Bool)
    → is_account user r.owner_id r.budget_day a ≡ b
    → is_account module_wide 0 r.budget_day a ≡ c
    → (held (λ q. q.amount_cny) (belongs a) qs + (if belongs a r then r.amount_cny else 0)
        ≡ held (λ q. q.amount_cny) (belongs a) rs)
    → (held (λ q. q.tokens) (belongs a) qs + (if belongs a r then r.tokens else 0)
        ≡ held (λ q. q.tokens) (belongs a) rs)
    → Booked rs a
    → Booked qs (
        if c
        then settled_account r amount spent (if b then settled_account r amount spent a else a)
        else (if b then settled_account r amount spent a else a))
settles_hit r amount spent rs qs a true true e k h n booked =
    absurd (scopes_differ a r.owner_id 0 r.budget_day e k)
settles_hit r amount spent rs qs a true false e k h n (money, tokens) =
    let mine = belongs-eq a r in (ground arith, ground arith)
settles_hit r amount spent rs qs a false true e k h n (money, tokens) =
    let mine = belongs-eq a r in (ground arith, ground arith)
settles_hit r amount spent rs qs a false false e k h n (money, tokens) =
    let mine = belongs-eq a r in (ground arith, ground arith)

pub is_account-settled :
    (r : BudgetReservation) (amount spent : ℕ) (a : BudgetAccount) (b : Bool) (scope : AccountScope)
    (owner_id day : ℕ)
    → is_account scope owner_id day (if b then settled_account r amount spent a else a)
      ≡ is_account scope owner_id day a
is_account-settled r amount spent a true scope owner_id day = refl
is_account-settled r amount spent a false scope owner_id day = refl

-- A settlement takes what its reservation holds.
pub settles-Booked :
    (r : BudgetReservation) (amount spent : ℕ) (rs qs : List BudgetReservation) (a : BudgetAccount)
    → (held (λ q. q.amount_cny) (belongs a) qs + (if belongs a r then r.amount_cny else 0)
        ≡ held (λ q. q.amount_cny) (belongs a) rs)
    → (held (λ q. q.tokens) (belongs a) qs + (if belongs a r then r.tokens else 0)
        ≡ held (λ q. q.tokens) (belongs a) rs)
    → Booked rs a
    → Booked qs (
        hit
          (is_account module_wide 0 r.budget_day)
          (settled_account r amount spent)
          (hit (is_account user r.owner_id r.budget_day) (settled_account r amount spent) a))
settles-Booked r amount spent rs qs a h n booked =
    settles_hit r amount spent rs qs a _ _ refl
      (sym (
        is_account-settled r amount spent a (is_account user r.owner_id r.budget_day a) module_wide
          0 r.budget_day))
      h n booked

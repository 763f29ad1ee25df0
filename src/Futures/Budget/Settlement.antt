-- ===== src/Futures/Budget/Settlement.antt =====
-- Every transaction of budget.go as a step, and what the steps keep.
use zhigu.Base.{
  ℕ, ◌≤◌, ◌≡◌, inl, inr, true, String, count, All, ltb, ok, >>=-eq-ok, guard-eq-ok, arith,
  Bool-cases,
}
use zhigu.Futures.Budget.Ledger.{
  AccountScope, user, module_wide, Reservation, BudgetReservation, BudgetUsage, Ledger, is_account,
  seed_account, new_account, reserve,
}
use zhigu.Futures.Budget.Settle.{
  is_reserved, find_attempt, insert_usage, usage_of, settle_unknown, settle_known, settle_account,
  settling, settle_accounts,
}
use zhigu.Futures.Budget.Limits.{Within, Keyed, reserve-Within, settle_account-Within}

-- One committed transaction; a settlement names the reservation that it finds.
pub data LedgerStep (l t : Ledger) : Type 0 where
  seeds :
      (scope : AccountScope) (owner_id day limit models tools tokens : ℕ)
      → t ≡ seed_account scope owner_id day limit models tools tokens l
      → LedgerStep l t
  reserves :
      (request : Reservation) (r : BudgetReservation)
      → reserve request l ≡ ok (r, t)
      → LedgerStep l t
  settles :
      (owner_id : ℕ) (attempt_id : String) (amount tokens : ℕ) (r : BudgetReservation)
      → find_attempt attempt_id owner_id l ≡ ok r
      → settle_known owner_id attempt_id amount tokens l ≡ ok t
      → LedgerStep l t
  gives_up :
      (owner_id : ℕ) (attempt_id : String) (amount tokens : ℕ)
      → settle_unknown owner_id attempt_id amount tokens l ≡ ok t
      → LedgerStep l t

-- A settlement takes no more than was reserved.
abbrev pub Affordable : {l t : Ledger} → LedgerStep l t → Type 0
Affordable (settles owner_id attempt_id amount tokens r found h) =
    (amount ≤ r.amount_cny) × (tokens ≤ r.tokens)
Affordable _ = Unit

-- The parts of a settlement.
pub settle_known-eq-ok :
    (owner_id : ℕ) (attempt_id : String) (amount tokens : ℕ) (l t : Ledger) (r : BudgetReservation)
    → find_attempt attempt_id owner_id l ≡ ok r
    → settle_known owner_id attempt_id amount tokens l ≡ ok t
    → (is_reserved r.state ≡ true)
      × (u : Ledger) × (settle_account r amount tokens user owner_id (settling attempt_id l) ≡ ok u)
      × (v : Ledger) × (settle_account r amount tokens module_wide 0 u ≡ ok v)
      × (insert_usage (usage_of r attempt_id owner_id "known") v ≡ ok t)
unfolding settle_known
settle_known-eq-ok owner_id attempt_id amount tokens l t r found h =
    let (held, h1) = guard-eq-ok _ _ _ (rw (found, settle_known) at h) in
    let (v, hv, h2) =
      >>=-eq-ok (settle_accounts owner_id amount tokens (settling attempt_id l) r)
        (insert_usage (usage_of r attempt_id owner_id "known")) h1 in
    let (u, hu, h3) =
      >>=-eq-ok (settle_account r amount tokens user owner_id (settling attempt_id l))
        (settle_account r amount tokens module_wide 0) hv in
    (held, u, hu, v, h3, h2)

pub insert_usage-accounts :
    (w : BudgetUsage) (l t : Ledger)
    → insert_usage w l ≡ ok t
    → (t.accounts ≡ l.accounts) × (t.reservations ≡ l.reservations)
insert_usage-accounts w l t h = ground arith

pub settle_unknown-accounts :
    (owner_id : ℕ) (attempt_id : String) (amount tokens : ℕ) (l t : Ledger)
    → settle_unknown owner_id attempt_id amount tokens l ≡ ok t
    → t.accounts ≡ l.accounts
unfolding settle_unknown
settle_unknown-accounts owner_id attempt_id amount tokens l t h = ground arith

seed_account-Within :
    (scope : AccountScope) (owner_id day limit models tools tokens : ℕ) (l : Ledger)
    → All Within l.accounts
    → All Within (seed_account scope owner_id day limit models tools tokens l).accounts
unfolding seed_account
seed_account-Within scope owner_id day limit models tools tokens l w =
    elim (Bool-cases (ltb 0 (count (is_account scope owner_id day) l.accounts))) [
      | inl e ↦ rw (e, seed_account) w
      | inr e ↦
          let empty : Within (new_account scope owner_id day limit models tools tokens) = record {
            money = omega arith;
            models = omega arith;
            tools = omega arith;
            tokens = λ _. omega arith;
          } in
          rw (e, seed_account) (empty, w)
    ]

-- The accounts stay within their limits, whatever is seeded, reserved and given up, and by
-- settlements that take no more money and tokens than was reserved.
pub LedgerStep-Within :
    {l t : Ledger} (step : LedgerStep l t)
    → Affordable step
    → All Within l.accounts
    → Keyed l
    → All Within t.accounts
LedgerStep-Within {l} {t} (seeds scope owner_id day limit models tools tokens e) cheap w keyed =
    rw e (seed_account-Within scope owner_id day limit models tools tokens l w)
LedgerStep-Within {l} {t} (reserves request r h) cheap w keyed =
    reserve-Within request l t keyed w h
LedgerStep-Within {l} {t} (settles owner_id attempt_id amount tokens r found h) (cheap, short) w
      keyed =
    let (_, u, hu, v, hv, ht) =
      settle_known-eq-ok owner_id attempt_id amount tokens l t r found h in
    let half =
      settle_account-Within r amount tokens user owner_id (settling attempt_id l) cheap short hu
        w in
    rw (insert_usage-accounts _ v t ht).0
      (settle_account-Within r amount tokens module_wide 0 u cheap short hv half)
LedgerStep-Within {l} {t} (gives_up owner_id attempt_id amount tokens h) cheap w keyed =
    rw (settle_unknown-accounts owner_id attempt_id amount tokens l t h) w

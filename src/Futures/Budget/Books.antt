-- ===== src/Futures/Budget/Books.antt =====
-- The books balance after every transaction of budget.go, and settlements can be paid.
use zhigu.Base.{
  ℕ, ◌≤◌, ◌<◌, ◌≡◌, refl, sym, inl, inr, false, List, [], ◌∷◌, count, count_mono, All, All-map, ltb,
  arith, Bool-cases,
}
use zhigu.Futures.Budget.Ledger.{
  AccountScope, user, module_wide, BudgetAccount, BudgetReservation, Ledger, is_account,
  seed_account, new_account,
}
use zhigu.Futures.Budget.Settlement.{LedgerStep, seeds, reserves, settles, gives_up}
use zhigu.Futures.Budget.Balance.{
  Balanced, reserve-Balanced, settle_known-Balanced, settle_unknown-Balanced,
}
use zhigu.Futures.Budget.Attempts.{same_scope_trans}
use zhigu.Futures.Budget.Held.{held, belongs}

held_nothing :
    (weight : BudgetReservation → ℕ) (a : BudgetAccount) (rs : List BudgetReservation)
    → All (λ r. belongs a r ≡ false) rs
    → held weight (belongs a) rs ≡ 0
unfolding held
held_nothing weight a [] none_here = refl
held_nothing weight a (r ∷ rs) none_here =
    ground (arith, none_here.0, held_nothing weight a rs none_here.1)

-- A reservation that would count on an account that is not there lacks one of its two accounts.
belongs_nowhere :
    (scope : AccountScope) (owner_id day limit models tools tokens : ℕ) (r : BudgetReservation)
    (rows : List BudgetAccount)
    → count (is_account scope owner_id day) rows ≡ 0
    → 0 < count (is_account user r.owner_id r.budget_day) rows
    → 0 < count (is_account module_wide 0 r.budget_day) rows
    → belongs (new_account scope owner_id day limit models tools tokens) r ≡ false
belongs_nowhere user owner_id day limit models tools tokens r rows e mine all =
    elim (Bool-cases (belongs (new_account user owner_id day limit models tools tokens) r)) [
      | inl k ↦
          let same =
            count_mono (is_account user r.owner_id r.budget_day) (is_account user owner_id day) rows
              (λ a h. ground arith) in
          absurd (ground arith)
      | inr k ↦ k
    ]
belongs_nowhere module_wide owner_id day limit models tools tokens r rows e mine all =
    elim (Bool-cases (belongs (new_account module_wide owner_id day limit models tools tokens) r)) [
      | inl k ↦
          let same =
            count_mono (is_account module_wide 0 r.budget_day) (is_account module_wide owner_id day)
              rows (λ a h. ground arith) in
          absurd (ground arith)
      | inr k ↦ k
    ]

-- Of one key, the new account is the first.
new_key :
    (scope : AccountScope) (owner_id day limit models tools tokens : ℕ) (rows : List BudgetAccount)
    → count (is_account scope owner_id day) rows ≡ 0
    → (other : AccountScope) (other_owner other_day : ℕ)
    → count (is_account other other_owner other_day) rows ≤ 1
    → count
        (is_account other other_owner other_day)
        (new_account scope owner_id day limit models tools tokens ∷ rows)
      ≤ 1
unfolding count
new_key scope owner_id day limit models tools tokens rows e other other_owner other_day one =
    elim (Bool-cases (
      is_account other other_owner other_day
        (new_account scope owner_id day limit models tools tokens))) [
          | inl k ↦
              let same =
                count_mono (is_account other other_owner other_day) (is_account scope owner_id day)
                  rows (λ a h. ground (arith, same_scope_trans other scope a.scope)) in
              ground arith
          | inr k ↦ ground arith
        ]

seed_account-Balanced :
    (scope : AccountScope) (owner_id day limit models tools tokens : ℕ) (l : Ledger)
    → Balanced l
    → Balanced (seed_account scope owner_id day limit models tools tokens l)
unfolding seed_account count
seed_account-Balanced scope owner_id day limit models tools tokens l b =
    elim (Bool-cases (ltb 0 (count (is_account scope owner_id day) l.accounts))) [
      | inl e ↦ rw (e, seed_account) b
      | inr e ↦
          let free : count (is_account scope owner_id day) l.accounts ≡ 0 = ground arith in
          let made = new_account scope owner_id day limit models tools tokens in
          let idle =
            All-map _ (λ r. belongs made r ≡ false) l.reservations
              (λ r there.
                belongs_nowhere scope owner_id day limit models tools tokens r l.accounts free
                  there.0 there.1)
              b.backed in
          rw (e, seed_account)
            (record {
              keyed = λ s o d.
                  new_key scope owner_id day limit models tools tokens l.accounts free s o d
                    (b.keyed s o d);
              attempts = b.attempts;
              backed =
                  All-map _ _ l.reservations
                    (λ r there. (omega (arith, there.0), omega (arith, there.1))) b.backed;
              books = (
                (
                  sym (held_nothing (λ r. r.amount_cny) made l.reservations idle),
                  rw (held_nothing (λ r. r.tokens) made l.reservations idle) (omega arith),
                ),
                b.books,
              );
            })
    ]

-- Every transaction keeps the books balanced: the keys stay unique, each reservation keeps the account
-- of its user and that of the module, what each account has reserved stays exactly the sum of the
-- amounts of its reservations that are not settled as known, and its tokens at least theirs.
pub LedgerStep-Balanced : {l t : Ledger} → LedgerStep l t → Balanced l → Balanced t
LedgerStep-Balanced {l} (seeds scope owner_id day limit models tools tokens e) b =
    rw e (seed_account-Balanced scope owner_id day limit models tools tokens l b)
LedgerStep-Balanced {l} {t} (reserves request r h) b = reserve-Balanced request l t h b
LedgerStep-Balanced {l} {t} (settles owner_id attempt_id amount tokens r found h) b =
    settle_known-Balanced owner_id attempt_id amount tokens l t r found h b
LedgerStep-Balanced {l} {t} (gives_up owner_id attempt_id amount tokens h) b =
    settle_unknown-Balanced owner_id attempt_id amount tokens l t h b

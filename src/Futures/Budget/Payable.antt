-- ===== src/Futures/Budget/Payable.antt =====
-- What was reserved can be settled: SettleKnown never meets the check on reserved_cny, and the other
-- columns only have to hold the cost.
use zhigu.Base.{
  ℕ, ◌+◌, ◌-◌, ◌^◌, ◌<◌, ◌||◌, All-both, ◌≤◌, ◌≡◌, refl, inl, inr, Bool, true, false, List, ◌∷◌,
  String, str_eq, count, count_none, first-Elem, update, All, Elem, All-map, All-update, ok, arith,
  Bool-cases,
}
use zhigu.Futures.Budget.Ledger.{
  AccountScope, user, module_wide, BudgetAccount, BudgetReservation, BudgetUsage, Ledger,
  is_account, is_attempt,
}
use zhigu.Futures.Budget.Settle.{
  is_reserved, owned_attempt, find_attempt, out_of_range, settle_known, settle_account,
  settled_account, settling, settle_accounts, settle_found, uncovered, insert_usage, usage_of,
}
use zhigu.Futures.Budget.Limits.{scopes_differ}
use zhigu.Futures.Budget.Booked.{Booked}
use zhigu.Futures.Budget.Balance.{Balanced, find_attempt-eq-ok}
use zhigu.Futures.Budget.Held.{belongs-eq, held-settle}

-- The columns of an account have room for the cost and the tokens.
abbrev pub Fits : BudgetReservation → ℕ → ℕ → BudgetAccount → Type 0
Fits r amount tokens a = (a.spent_cny + amount < 10 ^ 38) × (a.tokens + tokens - r.tokens < 2 ^ 31)

-- The account of the reservation's owner or that of the module, of its day.
abbrev pub is_charged : BudgetReservation → BudgetAccount → Bool
is_charged r a =
    is_account user r.owner_id r.budget_day a || is_account module_wide 0 r.budget_day a

abbrev Covered : BudgetReservation → ℕ → ℕ → AccountScope → ℕ → BudgetAccount → Type 0
Covered r amount tokens scope owner_id a =
    (uncovered r scope owner_id a ≡ false) × (out_of_range r amount tokens scope owner_id a ≡ false)

-- An account holds what is reserved on it.
Booked-Covered :
    (attempt_id : String) (r : BudgetReservation) (amount tokens : ℕ) (rs : List BudgetReservation)
    (a : BudgetAccount)
    → Elem r rs
    → is_attempt attempt_id r ≡ true
    → is_reserved r.state ≡ true
    → count (is_attempt attempt_id) rs ≤ 1
    → (is_charged r a ≡ true → Fits r amount tokens a)
    → Booked rs a
    → Covered r amount tokens user r.owner_id a × Covered r amount tokens module_wide 0 a
Booked-Covered attempt_id r amount tokens rs a m mine live one room (money, _) =
    let whole = held-settle (λ q. q.amount_cny) a attempt_id r rs m mine live one in
    let where_to = belongs-eq a r in
    (
      (ground arith, in_range user r.owner_id (λ e. ground arith)),
      (ground arith, in_range module_wide 0 (λ e. ground arith)),
    )
  where
    in_range :
        (scope : AccountScope) (owner_id : ℕ)
        → (is_account scope owner_id r.budget_day a ≡ true → is_charged r a ≡ true)
        → out_of_range r amount tokens scope owner_id a ≡ false
    in_range scope owner_id charged = elim (Bool-cases (is_account scope owner_id r.budget_day a)) [
      | inl e ↦ let (spent, used) = room (charged e) in ground arith
      | inr e ↦ rw e refl
    ]

Covered-settled_account :
    (r : BudgetReservation) (amount tokens owner_id : ℕ) (a : BudgetAccount)
    → is_account user owner_id r.budget_day a ≡ true
    → Covered r amount tokens module_wide 0 (settled_account r amount tokens a)
Covered-settled_account r amount tokens owner_id a e =
    elim (Bool-cases (is_account module_wide 0 r.budget_day a)) [
      | inl k ↦ absurd (scopes_differ a owner_id 0 r.budget_day e k)
      | inr k ↦ rw k (refl, refl)
    ]

settle_account-pays :
    (r : BudgetReservation) (amount tokens : ℕ) (scope : AccountScope) (owner_id : ℕ) (l : Ledger)
    → All (Covered r amount tokens scope owner_id) l.accounts
    → (t : Ledger) × (settle_account r amount tokens scope owner_id l ≡ ok t)
      × (t.accounts
          ≡ update
              (is_account scope owner_id r.budget_day)
              (settled_account r amount tokens)
              l.accounts)
      × (t.usage ≡ l.usage)
settle_account-pays r amount tokens scope owner_id l covered =
    let none_short =
      count_none (uncovered r scope owner_id) l.accounts
        (All-map _ _ l.accounts (λ a c. c.0) covered) in
    let none_over =
      count_none (out_of_range r amount tokens scope owner_id) l.accounts
        (All-map _ _ l.accounts (λ a c. c.1) covered) in
    (
      record l {
        accounts =
            update (is_account scope owner_id r.budget_day) (settled_account r amount tokens)
              l.accounts;
      },
      rw (none_short, none_over, settle_account) refl,
      refl,
      refl,
    )

abbrev pub usage_for : String → BudgetUsage → Bool
usage_for attempt_id w = str_eq w.attempt_id attempt_id

-- On balanced books an attempt that is still reserved, and has no usage yet, can be settled as known
-- by its owner at any cost and number of tokens, neither below 0, for which spent_cny (NUMERIC(38,12))
-- and tokens (INTEGER) of the two accounts have room.
pub settle_known-succeeds :
    (owner_id : ℕ) (attempt_id : String) (amount tokens : ℕ) (l : Ledger) (r : BudgetReservation)
    → Balanced l
    → find_attempt attempt_id owner_id l ≡ ok r
    → is_reserved r.state ≡ true
    → count (usage_for attempt_id) l.usage ≡ 0
    → All (λ a. is_charged r a ≡ true → Fits r amount tokens a) l.accounts
    → (t : Ledger) × (settle_known owner_id attempt_id amount tokens l ≡ ok t)
unfolding settle_known
settle_known-succeeds owner_id attempt_id amount tokens l r b found live unused room =
    let (here, mine, owner) = find_attempt-eq-ok attempt_id owner_id l found in
    let m = first-Elem (owned_attempt attempt_id owner_id) l.reservations here in
    let covers =
      All-map (λ a. (is_charged r a ≡ true → Fits r amount tokens a) × Booked l.reservations a)
        (λ a. Covered r amount tokens user r.owner_id a × Covered r amount tokens module_wide 0 a)
        l.accounts
        (λ a h.
          Booked-Covered attempt_id r amount tokens l.reservations a m mine live
            (b.attempts attempt_id) h.0 h.1)
        (All-both _ _ l.accounts room b.books) in
    let (u, hu, rows, same) =
      settle_account-pays r amount tokens user owner_id (settling attempt_id l)
        (rw owner (All-map _ _ l.accounts (λ a c. c.0) covers)) in
    let (v, hv, _, same_v) = settle_account-pays r amount tokens module_wide 0 u (
      rw rows (
        All-update (Covered r amount tokens module_wide 0) _ (settled_account r amount tokens)
          l.accounts (λ a e _. Covered-settled_account r amount tokens owner_id a e)
          (All-map _ _ l.accounts (λ a c. c.1) covers))) in
    (
      record v { usage = usage_of r attempt_id owner_id "known" ∷ v.usage },
      rw
          (
            found, settle_known, settle_found, live, settle_accounts, hu, hv, insert_usage, same_v,
            same, unused,
          )
          refl,
    )

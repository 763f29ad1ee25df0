-- ===== src/Futures/Budget/Limits.antt =====
-- No account goes over its limits: budget.go, Reserve and the settlements.
use zhigu.Base.{
  ℕ, ◌+◌, ◌≤◌, ◌<◌, ◌≡◌, inl, inr, true, some, count, first, update, All, All-update,
  All-update_known, count-zero_All, first_only, first-count, ok, arith, Option-cases,
}
use zhigu.Futures.Budget.Ledger.{
  AccountScope, user, module_wide, Reservation, BudgetAccount, BudgetReservation, Ledger,
  is_account, same_scope, is_model, is_tool, charged, add_budget_usage, insert_reservation,
  new_reservation, reserve,
}
use zhigu.Futures.Budget.Settle.{settle_account, settled_account, uncovered}

-- What is reserved and spent is within the limit, and so are the calls; a token limit of 0 is none.
pub record Within (a : BudgetAccount) : Type 0 where
  pub money : a.reserved_cny + a.spent_cny ≤ a.limit_cny
  pub models : a.model_calls ≤ a.model_call_limit
  pub tools : a.tool_calls ≤ a.tool_call_limit
  pub tokens : 0 < a.token_limit → a.tokens ≤ a.token_limit

-- The primary key of futures_budget_accounts.
abbrev pub Keyed : Ledger → Type 0
Keyed l =
    (scope : AccountScope) (owner_id day : ℕ) → count (is_account scope owner_id day) l.accounts ≤ 1

abbrev Room : Reservation → BudgetAccount → Type 0
Room request a =
    (a.reserved_cny + a.spent_cny + request.amount_cny ≤ a.limit_cny)
    × (is_model request ≡ true → a.model_calls < a.model_call_limit)
    × (is_tool request ≡ true → a.tool_calls < a.tool_call_limit)
    × (0 < a.token_limit → a.tokens + request.tokens ≤ a.token_limit)

charged-Within :
    (request : Reservation) (a : BudgetAccount)
    → Room request a
    → Within a
    → Within (charged request a)
charged-Within request a room w = record {
  money = ground (arith, room.0);
  models = ground (arith, room.1, w.models);
  tools = ground (arith, room.2, w.tools);
  tokens = room.3;
}

-- What Reserve has found when it goes on.
pub reserve-eq-ok :
    (request : Reservation) (l t : Ledger) (u m : BudgetAccount) {r : BudgetReservation}
    → first (is_account user request.owner_id request.budget_day) l.accounts ≡ some u
    → first (is_account module_wide 0 request.budget_day) l.accounts ≡ some m
    → reserve request l ≡ ok (r, t)
    → Room request u
      × Room request m
      × (insert_reservation request (
            add_budget_usage module_wide 0 request.budget_day request
              (add_budget_usage user request.owner_id request.budget_day request l))
          ≡ ok t)
      × (r ≡ new_reservation request)
unfolding reserve
reserve-eq-ok request l t u m hu hm h = ground arith

pub one_scope : (s : AccountScope) → same_scope s user ≡ true → same_scope s module_wide ≡ true → ⊥
one_scope user h k = cc
one_scope module_wide h k = cc

pub scopes_differ :
    (a : BudgetAccount) (owner_id other day : ℕ)
    → is_account user owner_id day a ≡ true
    → is_account module_wide other day a ≡ true
    → ⊥
scopes_differ a owner_id other day h k = one_scope a.scope (ground arith) (ground arith)

-- What Reserve found of an account holds of every row with its key.
rooms :
    (request : Reservation) (scope : AccountScope) (owner_id day : ℕ) (l : Ledger)
    (a : BudgetAccount)
    → Keyed l
    → first (is_account scope owner_id day) l.accounts ≡ some a
    → Room request a
    → All (λ b. is_account scope owner_id day b ≡ true → Room request b) l.accounts
rooms request scope owner_id day l a keyed h room =
    let one = first-count (is_account scope owner_id day) l.accounts h in
    first_only (is_account scope owner_id day) (Room request) l.accounts
      (omega (arith, keyed scope owner_id day)) h room

charges-Within :
    (request : Reservation) (scope : AccountScope) (owner_id day : ℕ) (l : Ledger)
    → All (λ b. is_account scope owner_id day b ≡ true → Room request b) l.accounts
    → All Within l.accounts
    → All Within (add_budget_usage scope owner_id day request l).accounts
charges-Within request scope owner_id day l room w =
    All-update_known _ Within (is_account scope owner_id day) (charged request) l.accounts
      (λ b e space within. charged-Within request b (space e) within) room w

pub reserve-accounts :
    (request : Reservation) (l t : Ledger) {r : BudgetReservation}
    → reserve request l ≡ ok (r, t)
    → (u : BudgetAccount) × (first (is_account user request.owner_id request.budget_day) l.accounts
        ≡ some u)
      × (m : BudgetAccount) × (first (is_account module_wide 0 request.budget_day) l.accounts
          ≡ some m)
unfolding reserve
reserve-accounts request l t h =
    elim (Option-cases (first (is_account user request.owner_id request.budget_day) l.accounts)) [
      | inl e ↦ absurd (ground arith)
      | inr (u, hu) ↦
          elim (Option-cases (first (is_account module_wide 0 request.budget_day) l.accounts)) [
            | inl e ↦ absurd (ground arith)
            | inr (m, hm) ↦ (u, hu, m, hm)
          ]
    ]

pub insert_reservation-accounts :
    (request : Reservation) (l : Ledger) {t : Ledger}
    → insert_reservation request l ≡ ok t
    → t.accounts ≡ l.accounts
insert_reservation-accounts request l h = ground arith

pub reserve-Within :
    (request : Reservation) (l t : Ledger) {r : BudgetReservation}
    → Keyed l
    → All Within l.accounts
    → reserve request l ≡ ok (r, t)
    → All Within t.accounts
reserve-Within request l t keyed w h =
    let (u, hu, m, hm) = reserve-accounts request l t h in
    let (room_u, room_m, inserted, _) = reserve-eq-ok request l t u m hu hm h in
    let charged_user = add_budget_usage user request.owner_id request.budget_day request l in
    let first_half =
      charges-Within request user request.owner_id request.budget_day l
        (rooms request user request.owner_id request.budget_day l u keyed hu room_u) w in
    let still =
      All-update (λ b. is_account module_wide 0 request.budget_day b ≡ true → Room request b)
        (is_account user request.owner_id request.budget_day) (charged request) l.accounts
        (λ b e _ k. absurd (scopes_differ b request.owner_id 0 request.budget_day e k))
        (rooms request module_wide 0 request.budget_day l m keyed hm room_m) in
    let whole =
      charges-Within request module_wide 0 request.budget_day charged_user still first_half in
    rw (insert_reservation-accounts request _ inserted) whole

settled_account-Within :
    (r : BudgetReservation) (amount tokens : ℕ) (a : BudgetAccount)
    → amount ≤ r.amount_cny
    → tokens ≤ r.tokens
    → r.amount_cny ≤ a.reserved_cny
    → Within a
    → Within (settled_account r amount tokens a)
settled_account-Within r amount tokens a cheap short covered w = record {
  money = omega (arith, w.money);
  models = w.models;
  tools = w.tools;
  tokens = λ limited. omega (arith, w.tokens limited);
}

pub settle_account-eq-ok :
    (r : BudgetReservation) (amount tokens : ℕ) (scope : AccountScope) (owner_id : ℕ) (l : Ledger)
    {t : Ledger}
    → settle_account r amount tokens scope owner_id l ≡ ok t
    → (count (uncovered r scope owner_id) l.accounts ≡ 0)
      × (t.accounts
          ≡ update
              (is_account scope owner_id r.budget_day)
              (settled_account r amount tokens)
              l.accounts)
      × (t.reservations ≡ l.reservations)
settle_account-eq-ok r amount tokens scope owner_id l h = ground arith

-- A settlement that costs no more than was reserved.
pub settle_account-Within :
    (r : BudgetReservation) (amount tokens : ℕ) (scope : AccountScope) (owner_id : ℕ) (l : Ledger)
    {t : Ledger}
    → amount ≤ r.amount_cny
    → tokens ≤ r.tokens
    → settle_account r amount tokens scope owner_id l ≡ ok t
    → All Within l.accounts
    → All Within t.accounts
settle_account-Within r amount tokens scope owner_id l cheap short h w =
    let (none_short, e, _) = settle_account-eq-ok r amount tokens scope owner_id l h in
    rw e (
      All-update_known (λ a. uncovered r scope owner_id a ≡ true → ⊥) Within
        (is_account scope owner_id r.budget_day) (settled_account r amount tokens) l.accounts
        (λ a k covered within.
          settled_account-Within r amount tokens a cheap short (ground arith) within)
        (count-zero_All (uncovered r scope owner_id) (λ _. ⊥) l.accounts none_short) w)

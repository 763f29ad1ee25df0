-- ===== src/Futures/Budget/Settle.antt =====
-- service/futures/budget.go: SettleUnknown and SettleKnown.
use zhigu.Base.{
  ℕ, ◌+◌, ◌-◌, Bool, true, false, ◌&&◌, none, some, ◌∷◌, String, str_eq, count, first, update, ltb,
  leb, ◌||◌, ◌^◌, ◌==◌, if◌then◌else◌, Result, ok, err, Error, ◌>>=◌, ◌>>◌, guard,
}
use zhigu.Futures.Budget.Ledger.{
  AccountScope, user, module_wide, BudgetAccount, ReservationState, reserved, settled, unknown,
  BudgetReservation, BudgetUsage, Ledger, is_account, is_attempt,
}

abbrev pub is_reserved : ReservationState → Bool
is_reserved reserved = true
is_reserved _ = false

abbrev pub owned_attempt : String → ℕ → BudgetReservation → Bool
owned_attempt attempt_id owner_id r = is_attempt attempt_id r && r.owner_id == owner_id

abbrev pub find_attempt : String → ℕ → Ledger → Result BudgetReservation
find_attempt attempt_id owner_id l =
    elim (first (owned_attempt attempt_id owner_id) l.reservations) [
      | none ↦ err Error.not_found
      | some r ↦ ok r
    ]

-- The primary key of futures_usage is attempt_id.
abbrev pub insert_usage : BudgetUsage → Ledger → Result Ledger
insert_usage w l =
    if ltb 0 (count (λ (v : BudgetUsage). str_eq v.attempt_id w.attempt_id) l.usage)
    then err Error.database
    else ok (record l { usage = w ∷ l.usage })

abbrev pub usage_of : BudgetReservation → String → ℕ → String → BudgetUsage
usage_of r attempt_id owner_id state = record {
  attempt_id = attempt_id;
  owner_id = owner_id;
  run_id = r.run_id;
  usage_state = state;
}

abbrev pub still_reserved : String → ℕ → BudgetReservation → Bool
still_reserved attempt_id owner_id r = owned_attempt attempt_id owner_id r && is_reserved r.state

-- The amount and the tokens that the callers pass are not used.
unfoldable pub settle_unknown : ℕ → String → ℕ → ℕ → Ledger → Result Ledger
settle_unknown owner_id attempt_id amount tokens l = do
  r ← find_attempt attempt_id owner_id l
  guard (count (still_reserved attempt_id owner_id) l.reservations == 1) Error.not_found
  insert_usage (usage_of r attempt_id owner_id "unknown") (record l {
    reservations =
        update (still_reserved attempt_id owner_id) (λ q. record q { state = unknown })
          l.reservations;
  })

-- The cost and the tokens that a provider reports are at least 0. Both columns are what was reserved less; the number of tokens was at least that.
abbrev pub settled_account : BudgetReservation → ℕ → ℕ → BudgetAccount → BudgetAccount
settled_account r amount tokens a = record a {
  reserved_cny = a.reserved_cny - r.amount_cny;
  spent_cny = a.spent_cny + amount;
  tokens = a.tokens + tokens - r.tokens;
}

-- `reserved_cny` is checked to be at least 0.
abbrev pub uncovered : BudgetReservation → AccountScope → ℕ → BudgetAccount → Bool
uncovered r scope owner_id a =
    is_account scope owner_id r.budget_day a && ltb a.reserved_cny r.amount_cny

-- spent_cny is NUMERIC(38,12) and tokens INTEGER.
abbrev pub out_of_range : BudgetReservation → ℕ → ℕ → AccountScope → ℕ → BudgetAccount → Bool
out_of_range r amount tokens scope owner_id a =
    is_account scope owner_id r.budget_day a
    && (leb (10 ^ 38) (a.spent_cny + amount) || leb (2 ^ 31) (a.tokens + tokens - r.tokens))

abbrev pub settle_account : BudgetReservation → ℕ → ℕ → AccountScope → ℕ → Ledger → Result Ledger
settle_account r amount tokens scope owner_id l =
    if ltb 0 (count (uncovered r scope owner_id) l.accounts)
    then err Error.database
    else if ltb 0 (count (out_of_range r amount tokens scope owner_id) l.accounts)
    then err Error.database
    else ok (record l {
      accounts =
          update (is_account scope owner_id r.budget_day) (settled_account r amount tokens)
            l.accounts;
    })

abbrev pub settling : String → Ledger → Ledger
settling attempt_id l = record l {
  reservations = update (is_attempt attempt_id) (λ q. record q { state = settled }) l.reservations;
}

abbrev pub settle_accounts : ℕ → ℕ → ℕ → Ledger → BudgetReservation → Result Ledger
settle_accounts owner_id amount tokens l r = do
  t ← settle_account r amount tokens user owner_id l
  settle_account r amount tokens module_wide 0 t

-- The transaction once its reservation is read.
abbrev pub settle_found : ℕ → String → ℕ → ℕ → Ledger → BudgetReservation → Result Ledger
settle_found owner_id attempt_id amount tokens l r = do
  guard (is_reserved r.state) Error.revision_conflict
  t ← settle_accounts owner_id amount tokens (settling attempt_id l) r
  insert_usage (usage_of r attempt_id owner_id "known") t

unfoldable pub settle_known : ℕ → String → ℕ → ℕ → Ledger → Result Ledger
settle_known owner_id attempt_id amount tokens l = do
  r ← find_attempt attempt_id owner_id l
  settle_found owner_id attempt_id amount tokens l r

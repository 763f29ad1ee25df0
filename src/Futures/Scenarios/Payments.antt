-- ===== src/Futures/Scenarios/Payments.antt =====
-- Tests of the budget, and instances of the theorems on it.
use zhigu.Base.{
  ◌^◌, ◌+◌, ◌≡◌, refl, inl, true, [], count, update, All, Result, ok, err, Error, arith,
}
use zhigu.Futures.Budget.Ledger.{
  user, module_wide, Reservation, BudgetReservation, Ledger, is_model, is_tool, seed_account,
  reserve, new_reservation,
}
use zhigu.Futures.Budget.Settle.{settle_known, settle_unknown, find_attempt}
use zhigu.Futures.Budget.Limits.{Within}
use zhigu.Futures.Budget.Settlement.{LedgerStep, seeds, reserves, settles, LedgerStep-Within}
use zhigu.Futures.Budget.Balance.{Balanced}
use zhigu.Futures.Budget.Books.{LedgerStep-Balanced}
use zhigu.Futures.Budget.Payable.{settle_known-succeeds}
use zhigu.Futures.Budget.Once.{settled_once}
use zhigu.Futures.Budget.Attempts.{
  begin_model_attempt, begin_tool_attempt, begin_model_attempt-refused,
}

abbrev empty_ledger : Ledger
empty_ledger = record { accounts = []; reservations = []; usage = [] }

abbrev request : Reservation
request = record {
  attempt_id = "model_1";
  owner_id = 7;
  run_id = "run_1";
  budget_day = 20_000;
  amount_cny = 300;
  tokens = 5_000;
  kind = "model";
  max_model_calls = 8;
  max_tool_calls = 24;
  max_tokens = 48_000;
}

abbrev tool_request : Reservation
tool_request = record request { attempt_id = "tool_1"; kind = "tool" }

abbrev first_seed : Ledger
first_seed = seed_account user 7 20_000 1_000 8 24 48_000 empty_ledger

abbrev seeded : Ledger
seeded = seed_account module_wide 0 20_000 9_000 8 24 48_000 first_seed

abbrev reservation : Result (BudgetReservation × Ledger)
reservation = reserve request seeded

abbrev after : Result (BudgetReservation × Ledger) → Ledger
after (ok (_, t)) = t
after (err _) = empty_ledger

abbrev left : Result Ledger → Ledger
left (ok t) = t
left (err _) = empty_ledger

reserved_ok : reservation ≡ ok (new_reservation request, after reservation)
unfolding reserve seed_account count update
reserved_ok = refl

abbrev settlement : Result Ledger
settlement = settle_known 7 "model_1" 250 4_000 (after reservation)

settlement_ok : settlement ≡ ok (left settlement)
unfolding reserve seed_account count update settle_known
settlement_ok = refl

attempt_found : find_attempt "model_1" 7 (after reservation) ≡ ok (new_reservation request)
unfolding reserve seed_account count update
attempt_found = refl

empty-Balanced : Balanced empty_ledger
unfolding count
empty-Balanced = record {
  keyed = λ scope owner_id day. omega arith;
  attempts = λ i. omega arith;
  backed = tt;
  books = tt;
}

seeded-Balanced : Balanced seeded
seeded-Balanced =
    LedgerStep-Balanced (seeds module_wide 0 20_000 9_000 8 24 48_000 refl)
      (LedgerStep-Balanced (seeds user 7 20_000 1_000 8 24 48_000 refl) empty-Balanced)

reserved-Balanced : Balanced (after reservation)
reserved-Balanced =
    LedgerStep-Balanced (reserves request (new_reservation request) reserved_ok) seeded-Balanced

abbrev the_settlement : LedgerStep (after reservation) (left settlement)
the_settlement = settles 7 "model_1" 250 4_000 (new_reservation request) attempt_found settlement_ok

LedgerStep-Balanced_example : Balanced (left settlement)
LedgerStep-Balanced_example = LedgerStep-Balanced the_settlement reserved-Balanced

reserved-Within : All Within (after reservation).accounts
unfolding reserve seed_account count update
reserved-Within = (
  record {
    money = omega arith;
    models = omega arith;
    tools = omega arith;
    tokens = λ _. omega arith;
  },
  (
    record {
      money = omega arith;
      models = omega arith;
      tools = omega arith;
      tokens = λ _. omega arith;
    },
    tt,
  ),
)

LedgerStep-Within_example : All Within (left settlement).accounts
LedgerStep-Within_example =
    LedgerStep-Within the_settlement (omega arith, omega arith) reserved-Within
      reserved-Balanced.keyed

settle_known-succeeds_example :
    (t : Ledger) × (settle_known 7 "model_1" 250 4_000 (after reservation) ≡ ok t)
unfolding reserve seed_account count update
settle_known-succeeds_example =
    settle_known-succeeds 7 "model_1" 250 4_000 (after reservation) (new_reservation request)
      reserved-Balanced attempt_found refl refl
      ((λ _. (omega arith, omega arith)), ((λ _. (omega arith, omega arith)), tt))

-- More tokens than an INTEGER holds: the update fails, and the transaction with it.
too_many_tokens :
    settle_known 7 "model_1" 250 (2 ^ 31 + 5_000) (after reservation) ≡ err Error.database
unfolding reserve seed_account count update settle_known
too_many_tokens = refl

settled_once_example :
    (settle_known 7 "model_1" 1 1 (left settlement) ≡ err Error.revision_conflict)
    × (settle_unknown 7 "model_1" 1 1 (left settlement) ≡ err Error.not_found)
settled_once_example =
    settled_once 7 "model_1" 250 4_000 (after reservation) (left settlement) (inl settlement_ok) 1 1

begin_model_attempt-refused_example :
    ((begin_model_attempt request empty_ledger).1 ≡ err Error.quota_exceeded)
    × (is_model tool_request ≡ true
        → (begin_model_attempt tool_request (begin_model_attempt request empty_ledger).0).1
          ≡ err Error.quota_exceeded)
    × (is_tool tool_request ≡ true
        → (begin_tool_attempt tool_request (begin_model_attempt request empty_ledger).0).1
          ≡ err Error.quota_exceeded)
begin_model_attempt-refused_example =
    begin_model_attempt-refused request empty_ledger refl refl tool_request refl refl

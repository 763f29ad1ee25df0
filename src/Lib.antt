-- ===== src/Lib.antt =====
-- A model of the core of the Zhigu server (app/server), and what is proved of it.
--
-- The server keeps research runs, notifications and budgets in PostgreSQL tables; every operation is
-- one transaction. A table is the list of its rows, a transaction a function from a store to a result
-- with the next store, and a failed transaction leaves the store as it was. `UPDATE … WHERE` is
-- Base.Tables.update, its RowsAffected and `SELECT count(*)` are Base.Tables.count, and `First` is
-- Base.Tables.first or, with an ORDER BY, Base.Order.least. Row locks and the advisory locks make the
-- transactions of one table take turns, so that a history is a sequence of them.
--
-- Futures.Store: the rows (app/server/model/futures/models.go, migrations/futures/001_init.sql).
-- Futures.Run: scheduler.go and runs.go of app/server/service/futures. claim_queued_run is
--   ClaimQueuedRun, renew_run_lease RenewRunLease, set_run_stage SetRunStage, fail_run FailRun,
--   acknowledge_canceled_run AcknowledgeCanceledRun, expire_stale_runs ExpireStaleRuns, complete_run
--   CompleteRun, cancel_run CancelRun.
-- Futures.Create: CreateRun of domain_runs.go with its idempotency keys (domain.go,
--   deletion_idempotency.go).
-- Futures.Idempotency: what a repeated CreateRun does.
-- Futures.Notify and Futures.Outbox: writeNotification (domain_hypotheses.go) and outbox.go.
-- Futures.Lifecycle: the transactions on runs as a step relation; its histories.
-- Futures.Budget: budget.go, and the attempts of model_gateway.go and internal_tools.go.
-- Futures.Hypothesis: hypotheses.go; acknowledge_hypothesis is AcknowledgeHypothesis,
--   transition_hypothesis TransitionHypothesis, and so on; edit_hypothesis is the
--   action edit of PatchHypothesis in domain_hypotheses.go.
-- Futures.Scenarios: tests, and the theorems at concrete stores.
-- Finance.Verdict: verdict.go of app/server/service/finance, with LooksLikeOutlook of normalize.go.
-- Finance.Snapshot and Finance.Calls: the budget of calls, run_state.go and budget_service.go.
-- Finance.Runs: the rows of finance runs, run_state.go and worker.go; cas_update_run is casUpdateRun,
--   reap_expired_leases reapExpiredLeases, and so on.
-- Finance.Scenarios: tests, and the theorems at concrete values.
-- Indicators.Averages and Indicators.Oscillators: the twelve indicators, calc.go of
--   app/server/service/indicators (sma_close is smaClose, kdj KDJ, and so on), as scans over the bars.
-- Indicators.Registry and Indicators.Engine: engine.go, NormalizeSpec, warmupOf and Compute, and
--   cross.go. The other children are proofs: Causal, Oscillators and Foresight that no value depends
--   on later bars, Warmup, Lengths, Ranges and Readiness where values are ready, Idempotent.
-- Strategy.Document: dsl.go of app/server/service/strategy, Compile and the walk over its conditions.
-- Strategy.Eval: eval.go, and EvalCondWithChecks of editor.go.
-- Strategy.Json: a document as encoding/json leaves it, a tree in which a field may be missing.
-- Strategy.Ready and Strategy.Warm: the readiness of conditions past the warmup.
-- Backtest.Ledger: lots, prices, limits and fees of app/server/service/backtest/engine.go, with
--   TradingRule of app/server/service/market/types.go.
-- Backtest.Orders: execute of engine.go. Backtest.Shares and Backtest.Accounts: what it books.
-- Backtest.Actions: applyActions, hitRisk and noteEquity of engine.go, and causal.go.
-- Backtest.Days and Backtest.Run: Run of engine.go, its loop over the days and what stands around it.
--   Backtest.Kept: its invariants as a record of what each step keeps; Backtest.Flat and
--   Backtest.Later fill it. Backtest.Metrics: metrics of engine.go; Backtest.RoundTrips: its counts.
-- Indicators.Scenarios, Strategy.Scenarios, Backtest.Scenarios and Backtest.Simulations: tests, and
--   the theorems at concrete values.
--
-- The runs use the outbox through write_notification and through the row that create_run adds; the
-- worker claims, renews, stages, completes and fails runs; the reader creates and cancels them; the
-- clock of the server expires them. A finance run reserves its calls in the books of Finance.Calls
-- under the snapshot of its policy, and its report ends with the verdicts of Finance.Verdict. A
-- strategy is compiled, its indicators are computed over the bars, its conditions read their series at
-- the index of a day, and the order that follows from them is executed at the open of the next.
--
-- Decimals are those of github.com/shopspring/decimal, a parameter of the indicators, strategies and
-- backtests: Base.Decimal has its operations, Backtest.Laws what its documentation says of sums and
-- order, and the tests take Base.Integers.whole, whole numbers alone.
--
-- Numbers are natural numbers. Times are nanoseconds since an instant of their own, identifiers of
-- the database are strings, and amounts of money are multiples of 10⁻¹² CNY, the scale of the
-- columns: rounding of an amount to that scale is left to the caller. Generations, versions,
-- attempts and reserved amounts stay within their columns, the cost and the tokens that a provider
-- reports are at least 0 and are tested against the columns, and a negative limit of calls stands
-- as 0. New uuids are arguments. The collation of ids is an argument of the lookups that order by
-- id, and the rows that another transaction has locked are one of those that skip them. The clock
-- is read once in a transaction. A payload of the outbox may be no JSON object, which fails when
-- the row is read; elsewhere, what json.Unmarshal makes of a stored or given document stands in its
-- place, and hashJSON is a string of its own.
--
-- Bounds and fuel: process_loop takes one round for a delivery or a failure, and each round leaves
-- fewer due rows, so that fuel above their number is enough; a row that fails is due later. The walks
-- over a condition have fuel above the height of its tree, and each step goes to a child.
--
-- Not modelled: deletion of runs and of drafts, so that the histories are those in which nothing is
-- deleted; errors of the connection; the JSON snapshots that CreateRun stores beside the run; the
-- rest of the service finance, among it the claiming of runs and the tokens that it revokes; the
-- parser of JSON and the editor of strategies; the hash of a backtest; the services market, intel
-- and workbench; HTTP handlers, start-up and the Python workers, which are input and output.
mod Base
pub mod Futures
pub mod Finance
pub mod Indicators
pub mod Strategy
pub mod Backtest

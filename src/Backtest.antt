-- ===== src/Backtest.antt =====
-- service/backtest: the simulation of a strategy over past bars.
pub mod Laws
pub mod Ledger
pub mod Orders
pub mod Shares
pub mod Accounts
pub mod Actions
pub mod Days
pub mod Run
pub mod Metrics
pub mod RoundTrips
pub mod Kept
pub mod Later
pub mod Flat
pub mod Scenarios
mod Simulations

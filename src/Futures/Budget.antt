-- ===== src/Futures/Budget.antt =====
-- service/futures/budget.go and the attempts of model_gateway.go and internal_tools.go.
pub mod Ledger
pub mod Settle
pub mod Attempts
pub mod Limits
pub mod Held
pub mod Booked
pub mod Balance
pub mod Books
pub mod Payable
pub mod Settlement
pub mod Once

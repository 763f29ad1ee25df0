-- ===== src/Strategy.antt =====
-- service/strategy: the rules of a strategy, their compilation and their evaluation.
pub mod Json
pub mod Document
pub mod Eval
pub mod Ready
pub mod Warm
mod Scenarios

-- ===== src/Indicators.antt =====
-- service/indicators: the series of the technical indicators.
pub mod Averages
pub mod Oscillators
pub mod Registry
pub mod Engine
pub mod Causal
pub mod Foresight
pub mod Warmup
pub mod Ranges
pub mod Lengths
pub mod Readiness
pub mod Idempotent
mod Scenarios

-- ===== src/Futures/Scenarios.antt =====
-- Tests of the models of service/futures at concrete stores, and instances of their theorems.
mod Data
mod Runs
mod Deliveries
mod Payments
mod Views

-- ===== src/Budgets.antt =====
-- Spend budgets and request ceilings of API keys: crates/heterion-router-gateway/src/budgets.rs and
-- crates/heterion-router-db/src/budget_repos.rs.
pub mod Calendar
pub mod Months
pub mod Starts
pub mod Rpm
pub mod Windows
pub mod Quota
pub mod Judge
pub mod Verdicts
pub mod Warnings
pub mod Enforce
pub mod Fairness
pub mod Refusals
pub mod Admin
pub mod Upsert
mod Tests

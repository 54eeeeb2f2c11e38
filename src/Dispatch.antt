-- ===== src/Dispatch.antt =====
-- Dispatch of a request to the backends: crates/heterion-router-gateway/src/routing.rs, lines 30-458,
-- with `rejects_reasoning_effort` of reasoning.rs and the attribution token of backend.rs there.
pub mod Request
pub mod Clean
pub mod Effort
pub mod Ring
pub mod Slots
pub mod Resolve
pub mod Running
pub mod Complete
pub mod Outcome
pub mod Explained
pub mod Budget
pub mod Calls
mod Tests

-- ===== src/Examples.antt =====
-- Concrete runs of the components, and the theorems applied to them.
mod Rates
mod Patterns
mod Approvals
mod Decisions
mod Coordinator
mod Loops
mod Audit
mod Tasks

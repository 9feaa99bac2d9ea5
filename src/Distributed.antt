-- ===== src/Distributed.antt =====
-- src/distributed: the coordinator that leases jobs to remote workers.
pub mod Store
pub mod Guards
pub mod Leases
pub mod Workers
pub mod Submission
pub mod Completion
pub mod Views
pub mod Calls
pub mod Machine
pub mod Progress
pub mod Next
pub mod LeaseSteps
pub mod StoreSteps
pub mod History
pub mod Fencing
pub mod Ownership
pub mod Idempotence

-- ===== src/Evidence.antt =====
-- src/evidence: the hash chain of audit records and the file that holds it.
pub mod Ports
pub mod AuditChain
pub mod FileAuditStore

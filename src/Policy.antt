-- ===== src/Policy.antt =====
-- src/policy: what decides whether a tool call may run.
pub mod RateLimiter
pub mod GlobMatch
pub mod Approvals
pub mod AsCode
pub mod CommandPolicy
pub mod Engine

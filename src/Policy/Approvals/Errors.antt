-- ===== src/Policy/Approvals/Errors.antt =====
-- What an operation leaves behind when it throws, and what an expired request does.
use folder_forge.Base.{
  ℕ, ◌≤◌, String, ◌≡◌, Bool, true, some, arith, string_eq, lookup, lookup-insert, beq_refl,
}
use folder_forge.Policy.Approvals.{
  ApprovalRequest, ApprovalEngine, raised, resolution_expired, pending, expired, Scope,
}
use folder_forge.Policy.Approvals.Resolve.{approve_request, approve}

-- Approving a pending request at or after its expiry, with a store that takes the write or no
-- store, throws "expired", whoever approves and in whatever scope: the request is then stored as
-- expired, and no session allowance is added.
pub approve_expired :
    (disk : ApprovalRequest → Bool) (seen now : ℕ) (id approver : String) (scope : Scope)
    (e : ApprovalEngine) (req : ApprovalRequest)
    → lookup id e.requests ≡ some req
    → req.id ≡ id
    → req.state ≡ pending
    → req.expires_at ≤ seen
    → disk (record req { state = expired; resolved_at = some now }) ≡ true
    → ((approve disk seen now id scope approver e).0 ≡ raised resolution_expired)
      × (lookup id (approve disk seen now id scope approver e).1.requests
          ≡ some (record req { state = expired; resolved_at = some now }))
      × ((approve disk seen now id scope approver e).1.session_allowed ≡ e.session_allowed)
unfolding approve approve_request
approve_expired disk seen now id approver scope e req found same waiting late ok = ground (
  arith,
  lookup-insert id id (record req { state = expired; resolved_at = some now }) e.requests,
  beq_refl id,
)

-- ===== src/Policy/Approvals/Grants.antt =====
-- Who gets an approval, and what a session allowance comes from.
use folder_forge.Base.{
  ℕ, ◌<◌, String, ◌≡◌, ◌≢◌, Bool, some, arith, if◌then◌else◌, string_eq, eq_iff, lookup,
  lookup-insert, beq_refl,
}
use folder_forge.Policy.Approvals.{
  ApprovalRequest, ApprovalEngine, returned, pending, approved, Scope, is_once, session_key,
  requester_key_of, add,
}
use folder_forge.Policy.Approvals.Resolve.{approve_request, approve}

-- What a request becomes when it is approved.
abbrev pub approved_as : Scope → String → ℕ → ApprovalRequest → ApprovalRequest
approved_as scope approver now req = record req {
  state = approved;
  approver_id = some approver;
  resolved_at = some now;
  scope = scope;
}

-- If `approve` returns a request for an id whose request was pending: the reading of the clock that is
-- compared with the expiry was before it, the approver is not its requester, the returned and stored
-- request is the old one with its state, approver, resolution time and scope set, and the session
-- allowances gain the key of the requester and the tool in session scope and nothing in once scope.
pub approve_grants :
    (disk : ApprovalRequest → Bool) (seen now : ℕ) (id approver : String) (scope : Scope)
    (e e' : ApprovalEngine) (req r : ApprovalRequest)
    → approve disk seen now id scope approver e ≡ (returned (some r), e')
    → lookup id e.requests ≡ some req
    → req.id ≡ id
    → req.state ≡ pending
    → (seen < req.expires_at)
      × (req.requester_id ≢ approver)
      × (r ≡ approved_as scope approver now req)
      × (lookup id e'.requests ≡ some r)
      × (e'.session_allowed ≡ (
          if is_once scope
          then e.session_allowed
          else add (session_key req.tool (requester_key_of req)) e.session_allowed))
unfolding approve approve_request
approve_grants disk seen now id approver scope e e' req r h found same waiting = ground (
  arith,
  lookup-insert id id (approved_as scope approver now req) e.requests,
  beq_refl id,
  eq_iff req.requester_id approver,
)

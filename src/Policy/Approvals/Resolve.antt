-- ===== src/Policy/Approvals/Resolve.antt =====
-- `expireIfNeeded`, `approve`, `deny`, `get`, `pending` and `all` of src/policy/approvals.ts.
use folder_forge.Base.{
  ℕ, String, Bool, not, ◌||◌, Option, none, some, List, [], ◌∷◌, ltb, leb, if◌then◌else◌, ◌==◌,
  string_eq, filter, lookup, map,
}
use folder_forge.Policy.Approvals.{
  ApprovalRequest, ApprovalEngine, Outcome, returned, raised, self_approval, resolution_expired,
  storage, approved, denied, expired, is_pending, is_expired, Scope, is_once, session_key,
  requester_key_of, contains, add, remove, append, put, commit, requests_of,
}

-- `.sort((a, b) => b.createdAt - a.createdAt)`, one step and whole
unfoldable pub place : ApprovalRequest → List ApprovalRequest → List ApprovalRequest
place r [] = r ∷ []
place r (s ∷ rest) =
    let later = place r rest in if leb s.created_at r.created_at then r ∷ s ∷ rest else s ∷ later

unfoldable pub newest_first : List ApprovalRequest → List ApprovalRequest
unfolding place
newest_first [] = []
newest_first (r ∷ rest) = place r (newest_first rest)

unfoldable pub expire_if_needed :
    (ApprovalRequest → Bool)
    → ℕ
    → ℕ
    → ApprovalRequest
    → ApprovalEngine
    → Outcome ApprovalRequest × ApprovalEngine
unfolding commit
expire_if_needed disk seen now req e =
    let late = record req { state = expired; resolved_at = some now } in
    if not (is_pending req.state) || ltb seen req.expires_at
    then (returned req, e)
    else commit disk req late late e

abbrev pub keys_of : ApprovalEngine → List String
keys_of e = map (λ b. b.0) e.requests

module _ (disk : ApprovalRequest → Bool) (seen now : ℕ) where
  -- `approve` from the state's tests on, after `expireIfNeeded`
  unfoldable pub approve_request :
      Scope
      → String
      → Outcome ApprovalRequest
      → ApprovalEngine
      → Outcome (Option ApprovalRequest) × ApprovalEngine
  unfolding session_key contains add remove append put
  approve_request scope approver (raised x) e = (raised x, e)
  approve_request scope approver (returned req) e =
      let req' = record req {
        state = approved;
        approver_id = some approver;
        resolved_at = some now;
        scope = scope;
      } in
      let key = session_key req.tool (requester_key_of req) in
      let was_allowed = contains key e.session_allowed in
      let allowed = if is_once scope then e.session_allowed else add key e.session_allowed in
      let changed = record (put req' e) { session_allowed = allowed } in
      let restored = record (put req changed) {
        session_allowed = if was_allowed then allowed else remove key allowed;
      } in
      if is_expired req.state
      then (raised resolution_expired, e)
      else if not (is_pending req.state)
      then (returned (some req), e)
      else if req.requester_id == approver
      then (raised self_approval, e)
      else elim (append disk req' changed) [
        | none ↦ (raised storage, restored)
        | some e' ↦ (returned (some req'), e')
      ]

  unfoldable pub approve :
      String → Scope → String → ApprovalEngine → Outcome (Option ApprovalRequest) × ApprovalEngine
  unfolding expire_if_needed approve_request
  approve id scope approver e = elim (lookup id e.requests) [
    | none ↦ (returned none, e)
    | some req ↦
        let (found, e') = expire_if_needed disk seen now req e in
        approve_request scope approver found e'
  ]

  unfoldable pub deny_request :
      String
      → Outcome ApprovalRequest
      → ApprovalEngine
      → Outcome (Option ApprovalRequest) × ApprovalEngine
  unfolding commit
  deny_request approver (raised x) e = (raised x, e)
  deny_request approver (returned req) e =
      let req' = record req {
        state = denied;
        approver_id = some approver;
        resolved_at = some now;
      } in
      if is_expired req.state
      then (raised resolution_expired, e)
      else if not (is_pending req.state)
      then (returned (some req), e)
      else commit disk req req' (some req') e

  unfoldable pub deny :
      String → String → ApprovalEngine → Outcome (Option ApprovalRequest) × ApprovalEngine
  unfolding expire_if_needed deny_request
  deny id approver e = elim (lookup id e.requests) [
    | none ↦ (returned none, e)
    | some req ↦
        let (found, e') = expire_if_needed disk seen now req e in deny_request approver found e'
  ]

  abbrev pub found_request :
      Outcome ApprovalRequest × ApprovalEngine → Outcome (Option ApprovalRequest) × ApprovalEngine
  found_request (returned req, e) = (returned (some req), e)
  found_request (raised x, e) = (raised x, e)

  unfoldable pub get : String → ApprovalEngine → Outcome (Option ApprovalRequest) × ApprovalEngine
  unfolding expire_if_needed
  get id e = elim (lookup id e.requests) [
    | none ↦ (returned none, e)
    | some req ↦ found_request (expire_if_needed disk seen now req e)
  ]

  abbrev pub then_go_on :
      Outcome ApprovalRequest × ApprovalEngine
      → (ApprovalEngine → Outcome (Unit {0}) × ApprovalEngine)
      → Outcome (Unit {0}) × ApprovalEngine
  then_go_on (returned req, e) rest = rest e
  then_go_on (raised x, e) rest = (raised x, e)

  -- The loop of `expirePending` over the keys of the map: an exception ends it.
  unfoldable pub expire_all : List String → ApprovalEngine → Outcome (Unit {0}) × ApprovalEngine
  unfolding expire_if_needed
  expire_all [] e = (returned tt, e)
  expire_all (id ∷ ids) e = elim (lookup id e.requests) [
    | none ↦ expire_all ids e
    | some req ↦ then_go_on (expire_if_needed disk seen now req e) (expire_all ids)
  ]

  abbrev pub listed :
      (ApprovalEngine → List ApprovalRequest)
      → Outcome (Unit {0}) × ApprovalEngine
      → Outcome (List ApprovalRequest) × ApprovalEngine
  listed rows (returned _, e) = (returned (rows e), e)
  listed rows (raised x, e) = (raised x, e)

  -- `pending()`
  unfoldable pub pending_requests : ApprovalEngine → Outcome (List ApprovalRequest) × ApprovalEngine
  unfolding expire_all
  pending_requests e =
      listed (λ e'. filter (λ r. is_pending r.state) (requests_of e')) (expire_all (keys_of e) e)

  -- `all()`
  unfoldable pub all_requests : ApprovalEngine → Outcome (List ApprovalRequest) × ApprovalEngine
  unfolding expire_all newest_first
  all_requests e = listed (λ e'. newest_first (requests_of e')) (expire_all (keys_of e) e)

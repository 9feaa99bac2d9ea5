-- ===== src/Policy/Approvals/Spending/Writes.antt =====
-- What each operation writes into the map of requests.
use folder_forge.Base.{
  ℕ, String, ◌≡◌, refl, ◌⊎◌, inl, inr, not, Option-cases, Bool, true, some, List, [], ◌∷◌, arith,
  string_eq, lookup, insert, filter, ltb, ◌||◌, Bool-cases,
}
use folder_forge.Base.Keys.{insert-restore}
use folder_forge.Policy.Approvals.Spending.{IsKeyed, found_own, picked_found}
use folder_forge.Json.{Value, Platform}
use folder_forge.Core.{ToolPrincipal, RiskLevel}
use folder_forge.Policy.Approvals.{
  ApprovalRequest, ApprovalEngine, Outcome, returned, raised, Scope, expired, denied, is_pending,
  requests_of, consume_once, is_spendable, earliest, create, new_request,
}
use folder_forge.Policy.Approvals.Grants.{approved_as}
use folder_forge.Policy.Approvals.Evidence.{fingerprint}
use folder_forge.Policy.Approvals.Binding.{approval_binding, binding_key}
use folder_forge.Policy.Approvals.Resolve.{
  expire_if_needed, approve_request, approve, deny_request, deny, get, found_request, then_go_on,
  listed, expire_all, keys_of, pending_requests, all_requests,
}
use folder_forge.Policy.Approvals.Spending.Restored.{
  Requests, Writes, unchanged, wrote, Unspendable, commit_cases, one_write, both, Writes-IsKeyed,
  IsFound, commit-IsFound,
}

module _ (disk : ApprovalRequest → Bool) (seen now : ℕ) where
  pub expire_cases :
      (req : ApprovalRequest) (e : ApprovalEngine)
      → lookup req.id e.requests ≡ some req
      → ((expire_if_needed disk seen now req e).1.requests ≡ e.requests)
        ⊎ ((expire_if_needed disk seen now req e).1.requests
            ≡ insert req.id (record req { state = expired; resolved_at = some now }) e.requests)
  unfolding expire_if_needed
  expire_cases req e found =
      elim (Bool-cases (not (is_pending req.state) || ltb seen req.expires_at)) [
        | inl stays ↦ inl (rw (stays, expire_if_needed) refl)
        | inr late ↦
            rw (late, expire_if_needed)
              (commit_cases disk req (record req { state = expired; resolved_at = some now })
                (record req { state = expired; resolved_at = some now }) e found refl)
      ]

  pub expire-IsFound :
      (req : ApprovalRequest) (e : ApprovalEngine)
      → lookup req.id e.requests ≡ some req
      → IsFound (expire_if_needed disk seen now req e).0 (expire_if_needed disk seen now req e).1
  unfolding expire_if_needed
  expire-IsFound req e found =
      elim (Bool-cases (not (is_pending req.state) || ltb seen req.expires_at)) [
        | inl stays ↦ rw (stays, expire_if_needed) found
        | inr late ↦
            rw (late, expire_if_needed)
              (commit-IsFound disk req (record req { state = expired; resolved_at = some now }) e)
      ]

  pub expire-Writes :
      (req : ApprovalRequest) (e : ApprovalEngine)
      → lookup req.id e.requests ≡ some req
      → Writes Unspendable e.requests (expire_if_needed disk seen now req e).1.requests
  expire-Writes req e found =
      one_write (record req { state = expired; resolved_at = some now }) _ _ refl
        (expire_cases req e found)

  deny_cases :
      (req : ApprovalRequest) (approver : String) (e : ApprovalEngine)
      → lookup req.id e.requests ≡ some req
      → ((deny_request disk seen now approver (returned req) e).1.requests ≡ e.requests)
        ⊎ ((deny_request disk seen now approver (returned req) e).1.requests
            ≡ insert req.id
                (record req { state = denied; approver_id = some approver; resolved_at = some now })
                e.requests)
  unfolding deny_request
  deny_cases req approver e found = ground (
    arith,
    commit_cases disk req
        (record req { state = denied; approver_id = some approver; resolved_at = some now })
        (some (record req { state = denied; approver_id = some approver; resolved_at = some now }))
        e found refl,
  )

  deny_after :
      (approver : String) (m : Requests) (o : Outcome ApprovalRequest) (e : ApprovalEngine)
      → IsFound o e
      → Writes Unspendable m e.requests
      → Writes Unspendable m (deny_request disk seen now approver o e).1.requests
  deny_after approver m (raised x) e found w = unfold deny_request in w
  deny_after approver m (returned req) e found w = both w (
      one_write (record req { state = denied; approver_id = some approver; resolved_at = some now })
        _ _ refl (deny_cases req approver e found))

  pub deny-Writes :
      (id approver : String) (e : ApprovalEngine)
      → IsKeyed e
      → Writes Unspendable e.requests (deny disk seen now id approver e).1.requests
  unfolding deny
  deny-Writes id approver e v = elim (Option-cases (lookup id e.requests)) [
    | inl missing ↦ rw (missing, deny) unchanged
    | inr (req, found) ↦
        rw (found, deny)
          (let own = found_own id req e v found in
            deny_after approver e.requests (expire_if_needed disk seen now req e).0 _
              (expire-IsFound req e own) (expire-Writes req e own))
  ]

  found_request-engine :
      (o : Outcome ApprovalRequest) (e : ApprovalEngine)
      → (found_request disk seen now (o, e)).1 ≡ e
  found_request-engine (returned r) e = refl
  found_request-engine (raised x) e = refl

  pub get-Writes :
      (id : String) (e : ApprovalEngine)
      → IsKeyed e
      → Writes Unspendable e.requests (get disk seen now id e).1.requests
  unfolding get
  get-Writes id e v = elim (Option-cases (lookup id e.requests)) [
    | inl missing ↦ rw (missing, get) unchanged
    | inr (req, found) ↦
        rw (found, get)
          (rw
            (found_request-engine (expire_if_needed disk seen now req e).0
              (expire_if_needed disk seen now req e).1)
            (expire-Writes req e (found_own id req e v found)))
  ]

  go_on-Writes :
      (m : Requests) (o : Outcome ApprovalRequest) (e : ApprovalEngine)
      (rest : ApprovalEngine → Outcome (Unit {0}) × ApprovalEngine)
      → Writes Unspendable m e.requests
      → Writes Unspendable e.requests (rest e).1.requests
      → Writes Unspendable m (then_go_on disk seen now (o, e) rest).1.requests
  go_on-Writes m (returned r) e rest w v = both w v
  go_on-Writes m (raised x) e rest w v = w

  pub expire_all-Writes :
      (ids : List String) (e : ApprovalEngine)
      → IsKeyed e
      → Writes Unspendable e.requests (expire_all disk seen now ids e).1.requests
  unfolding expire_all
  expire_all-Writes [] e v = unchanged
  expire_all-Writes (id ∷ ids) e v = elim (Option-cases (lookup id e.requests)) [
    | inl missing ↦ rw (missing, expire_all) (expire_all-Writes ids e v)
    | inr (req, found) ↦
        let w = expire-Writes req e (found_own id req e v found) in
        let after = (expire_if_needed disk seen now req e).1 in
        rw (found, expire_all)
          (go_on-Writes e.requests (expire_if_needed disk seen now req e).0 _
            (expire_all disk seen now ids) w
            (expire_all-Writes ids after (Writes-IsKeyed e after w v)))
  ]

  listed-engine :
      (rows : ApprovalEngine → List ApprovalRequest) (o : Outcome (Unit {0})) (e : ApprovalEngine)
      → (listed disk seen now rows (o, e)).1 ≡ e
  listed-engine rows (returned u) e = refl
  listed-engine rows (raised x) e = refl

  pub pending-Writes :
      (e : ApprovalEngine)
      → IsKeyed e
      → Writes Unspendable e.requests (pending_requests disk seen now e).1.requests
  unfolding pending_requests
  pending-Writes e v =
      rw
        (listed-engine _ (expire_all disk seen now (keys_of e) e).0
          (expire_all disk seen now (keys_of e) e).1)
        (expire_all-Writes (keys_of e) e v)

  pub all-Writes :
      (e : ApprovalEngine)
      → IsKeyed e
      → Writes Unspendable e.requests (all_requests disk seen now e).1.requests
  unfolding all_requests
  all-Writes e v =
      rw
        (listed-engine _ (expire_all disk seen now (keys_of e) e).0
          (expire_all disk seen now (keys_of e) e).1)
        (expire_all-Writes (keys_of e) e v)

  pub approve_cases :
      (scope : Scope) (approver : String) (req : ApprovalRequest) (e : ApprovalEngine)
      → lookup req.id e.requests ≡ some req
      → ((approve_request disk seen now scope approver (returned req) e).1.requests ≡ e.requests)
        ⊎ ((approve_request disk seen now scope approver (returned req) e).1.requests
            ≡ insert req.id (approved_as scope approver now req) e.requests)
          × ((approve_request disk seen now scope approver (returned req) e).0
              ≡ returned (some (approved_as scope approver now req)))
          × (is_pending req.state ≡ true)
  unfolding approve_request
  approve_cases scope approver req e found =
      ground
        (arith, insert-restore req.id req (approved_as scope approver now req) e.requests found)

  approve_after :
      (scope : Scope) (approver : String) (m : Requests) (o : Outcome ApprovalRequest)
      (e : ApprovalEngine)
      → IsFound o e
      → Writes (λ _. Unit) m e.requests
      → Writes (λ _. Unit) m (approve_request disk seen now scope approver o e).1.requests
  approve_after scope approver m (raised x) e found w = unfold approve_request in w
  approve_after scope approver m (returned r) e found w =
      elim (approve_cases scope approver r e found) [
        | inl same ↦ rw same w
        | inr (new, result, waiting) ↦ rw new (wrote (approved_as scope approver now r) tt w)
      ]

  pub approve-Writes :
      (id : String) (scope : Scope) (approver : String) (e : ApprovalEngine)
      → IsKeyed e
      → Writes (λ _. Unit) e.requests (approve disk seen now id scope approver e).1.requests
  unfolding approve
  approve-Writes id scope approver e v = elim (Option-cases (lookup id e.requests)) [
    | inl missing ↦ rw (missing, approve) unchanged
    | inr (req, found) ↦
        rw (found, approve)
          (let own = found_own id req e v found in
            approve_after scope approver e.requests (expire_if_needed disk seen now req e).0 _
              (expire-IsFound req e own)
              (one_write (record req { state = expired; resolved_at = some now }) _ _ tt
                (expire_cases req e own)))
  ]

  module _ (p : Platform) where
    create_cases :
        (sanitize_args : Value → Value) (id tool : String) (args : Value) (risk : RiskLevel)
        (reason : String) (who : ToolPrincipal) (e : ApprovalEngine)
        → ((create p sanitize_args disk id now tool args risk reason who e).1.requests ≡ e.requests)
          ⊎ ((create p sanitize_args disk id now tool args risk reason who e).1.requests
              ≡ insert id
                  (new_request p sanitize_args id now tool args risk reason who e)
                  e.requests)
    unfolding create new_request
    create_cases sanitize_args id tool args risk reason who e = ground arith

    pub create-Writes :
        (sanitize_args : Value → Value) (id tool : String) (args : Value) (risk : RiskLevel)
        (reason : String) (who : ToolPrincipal) (e : ApprovalEngine)
        → Writes Unspendable e.requests
            (create p sanitize_args disk id now tool args risk reason who e).1.requests
    unfolding create
    create-Writes sanitize_args id tool args risk reason who e =
        one_write (new_request p sanitize_args id now tool args risk reason who e) _ _ refl
          (create_cases sanitize_args id tool args risk reason who e)

    pub consume-Writes :
        (tool : String) (args : Value) (who : ToolPrincipal) (e : ApprovalEngine)
        → IsKeyed e
        → Writes Unspendable e.requests (consume_once p disk now tool args who e).1.requests
    unfolding consume_once
    consume-Writes tool args who e v =
        elim (Option-cases (
          earliest (
            filter (is_spendable p (binding_key p (approval_binding who)) tool (fingerprint p args))
              (requests_of e)))) [
                | inl nothing ↦ rw (nothing, consume_once) unchanged
                | inr (m, found) ↦
                    rw (found, consume_once)
                      (one_write (record m { consumed_at = some now }) _ _ (ground arith)
                        (commit_cases disk m (record m { consumed_at = some now }) true e
                          (picked_found _ e m v found) refl))
              ]

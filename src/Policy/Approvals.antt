-- ===== src/Policy/Approvals.antt =====
-- src/policy/approvals.ts: the approval queue. The clock, the random id and whether the store takes
-- a write are arguments of the operations. `approve`, `deny` and an expiry read the clock twice: `seen`
-- is compared with the expiry, `now` is written down; a list takes one such pair for all requests.
-- `create` and `consumeOnce` read it once. `sanitizeArgs` is the constructor's option of that name. The
-- `Map` of requests holds objects that the operations change in place: here the changed request is
-- put under its id, and put back as it was where the source's `catch` restores it.
pub mod Evidence
pub mod Binding
pub mod Resolve
pub mod Errors
pub mod Spending
pub mod Grants
use folder_forge.Base.{
  ℕ, ◌+◌, String, Bool, true, false, not, ◌&&◌, ◌||◌, Option, none, some, List, [], ◌∷◌, ◌++◌, map,
  ltb, leb, if◌then◌else◌, ◌==◌, string_eq, get_or, is_some, any, filter, lookup, insert,
}
use folder_forge.Core.{RiskLevel, ToolPrincipal}
use folder_forge.Json.{Value, Platform, ◌⧺◌}
use Evidence.{bounded_evidence, fingerprint}
use Binding.{ApprovalBinding, approval_binding, binding_key}

pub data ApprovalState : Type 0 where
  pending approved denied expired : ApprovalState

pub data Scope : Type 0 where
  once session : Scope

pub data ApprovalError : Type 0 where
  -- `ApprovalResolutionError` with its two codes, and what the store throws
  self_approval resolution_expired storage : ApprovalError

pub record ApprovalRequest : Type 0 where
  pub id : String
  pub tool : String
  pub args : Value
  pub args_fingerprint : Option String
  pub risk : RiskLevel
  pub reason : String
  pub state : ApprovalState
  pub requester_id : String
  pub binding : Option ApprovalBinding
  pub requester_key : Option String
  pub approver_id : Option String
  pub created_at : ℕ
  pub expires_at : ℕ
  pub resolved_at : Option ℕ
  pub consumed_at : Option ℕ
  pub scope : Scope

-- `store` is the log of snapshots, if there is a store.
pub record ApprovalEngine : Type 0 where
  pub requests : List (String × ApprovalRequest)
  pub session_allowed : List String
  pub store : Option (List ApprovalRequest)
  pub approval_ttl_ms : ℕ

pub data Outcome {ℓ} (A : Type ℓ) : Type ℓ where
  returned : A → Outcome A
  raised : ApprovalError → Outcome A

abbrev pub is_pending : ApprovalState → Bool
is_pending pending = true
is_pending _ = false

abbrev pub is_approved : ApprovalState → Bool
is_approved approved = true
is_approved _ = false

abbrev pub is_expired : ApprovalState → Bool
is_expired expired = true
is_expired _ = false

abbrev pub is_once : Scope → Bool
is_once once = true
is_once session = false

unfoldable pub session_key : String → String → String
session_key tool requester_key = requester_key ⧺ "\0" ⧺ tool

abbrev pub requester_key_of : ApprovalRequest → String
requester_key_of req = get_or req.requester_key req.requester_id

-- `Set.has` and `Set.add`
unfoldable pub contains : String → List String → Bool
contains k keys = any (λ j. j == k) keys

unfoldable pub add : String → List String → List String
unfolding contains
add k keys = if contains k keys then keys else keys ++ k ∷ []

-- `disk` says of each snapshot whether the store takes it; `none` is an exception.
unfoldable pub append :
    (ApprovalRequest → Bool) → ApprovalRequest → ApprovalEngine → Option ApprovalEngine
append disk req e = elim e.store [
  | none ↦ some e
  | some log ↦ if disk req then some (record e { store = some (log ++ req ∷ []) }) else none
]

unfoldable pub put : ApprovalRequest → ApprovalEngine → ApprovalEngine
put req e = record e { requests = insert req.id req e.requests }

-- `Set.delete`
unfoldable pub remove : String → List String → List String
remove k keys = filter (λ j. not (j == k)) keys

-- Change a request, persist it, and where that throws restore the request as it was, and throw.
unfoldable pub commit {ℓ} :
    {A : Type ℓ}
    → (ApprovalRequest → Bool)
    → (old new : ApprovalRequest) → A
    → ApprovalEngine
    → Outcome A × ApprovalEngine
unfolding append put
commit disk old new result e =
    let changed = put new e in
    elim (append disk new changed) [
      | none ↦ (raised storage, put old changed)
      | some e' ↦ (returned result, e')
    ]

module _ (p : Platform) (sanitize_args : Value → Value) where
  unfoldable pub new_request :
      String
      → ℕ
      → String
      → Value
      → RiskLevel
      → String
      → ToolPrincipal
      → ApprovalEngine
      → ApprovalRequest
  unfolding bounded_evidence fingerprint approval_binding binding_key
  new_request id now tool args risk reason requester e = record {
    id = id;
    tool = tool;
    args = sanitize_args (bounded_evidence p args);
    args_fingerprint = some (fingerprint p args);
    risk = risk;
    reason = reason;
    state = pending;
    requester_id = (approval_binding requester).principal_id;
    binding = some (approval_binding requester);
    requester_key = some (binding_key p (approval_binding requester));
    approver_id = none;
    created_at = now;
    expires_at = now + e.approval_ttl_ms;
    resolved_at = none;
    consumed_at = none;
    scope = once;
  }

  unfoldable pub create :
      (ApprovalRequest → Bool)
      → String
      → ℕ
      → String
      → Value
      → RiskLevel
      → String
      → ToolPrincipal
      → ApprovalEngine
      → Outcome ApprovalRequest × ApprovalEngine
  unfolding new_request append put
  create disk id now tool args risk reason requester e =
      let req = new_request id now tool args risk reason requester e in
      elim (append disk req e) [ none ↦ (raised storage, e) | some e' ↦ (returned req, put req e') ]

module _ (p : Platform) where
  unfoldable pub is_session_allowed : String → ToolPrincipal → ApprovalEngine → Bool
  unfolding contains session_key
  is_session_allowed tool requester e =
      contains (session_key tool (binding_key p (approval_binding requester))) e.session_allowed

  -- The test of `consumeOnce` on one request.
  unfoldable pub is_spendable : String → String → String → ApprovalRequest → Bool
  is_spendable key tool print req =
      requester_key_of req == key
      && req.tool == tool
      && is_approved req.state
      && is_once req.scope
      && not (is_some req.consumed_at)
      && get_or req.args_fingerprint (fingerprint p req.args) == print

-- `.sort((a, b) => a.createdAt - b.createdAt)[0]`
unfoldable pub earliest : List ApprovalRequest → Option ApprovalRequest
earliest [] = none
earliest (r ∷ rs) = elim (earliest rs) [
  | none ↦ some r
  | some m ↦ if leb r.created_at m.created_at then some r else some m
]

abbrev pub requests_of : ApprovalEngine → List ApprovalRequest
requests_of e = map (λ b. b.1) e.requests

module _ (p : Platform) (disk : ApprovalRequest → Bool) (now : ℕ) where
  unfoldable pub consume_once :
      String → Value → ToolPrincipal → ApprovalEngine → Outcome Bool × ApprovalEngine
  unfolding commit
  consume_once tool args requester e =
      let key = binding_key p (approval_binding requester) in
      elim (earliest (filter (is_spendable p key tool (fingerprint p args)) (requests_of e))) [
        | none ↦ (returned false, e)
        | some m ↦ commit disk m (record m { consumed_at = some now }) true e
      ]

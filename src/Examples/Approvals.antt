-- ===== src/Examples/Approvals.antt =====
-- Runs of the approval queue of src/policy/approvals.ts.
use folder_forge.Base.{
  ◌+◌, ◌≤◌, ◌<◌, ◌≡◌, ◌≢◌, refl, Bool, true, false, Option, none, some, List, [], ◌∷◌, arith,
  lookup, insert, string_eq, if◌then◌else◌,
}
use folder_forge.Core.{high}
use folder_forge.Json.{str, Platform, ◌⧺◌}
use folder_forge.Policy.Approvals.{
  ApprovalRequest, ApprovalEngine, raised, pending, approved, expired, once, resolution_expired,
  session_key, requester_key_of, add, is_once,
}
use folder_forge.Policy.Approvals.Binding.{approval_binding, binding_key}
use folder_forge.Policy.Approvals.Resolve.{approve}
use folder_forge.Policy.Approvals.Errors.{approve_expired}
use folder_forge.Policy.Approvals.Grants.{approved_as, approve_grants}
use folder_forge.Policy.Approvals.Spending.{IsKeyed}
use folder_forge.Policy.Approvals.Spending.History.{
  Timed, creates, approves, consumes, run, left, total_spent, total_granted, total_spent-le-granted,
}
use folder_forge.Examples.Patterns.{ann}

abbrev pub platform : Platform
platform = record {
  quote = λ s. "\"" ⧺ s ⧺ "\"";
  locale_le = λ a b. true;
  sha256 = λ s. "#" ⧺ s;
  slice = λ n s. s;
  decimal = λ n. "0";
}

abbrev pub takes_all : ApprovalRequest → Bool
takes_all req = true

abbrev takes_none : ApprovalRequest → Bool
takes_none req = false

abbrev pub waiting : ApprovalRequest
waiting = record {
  id = "r1";
  tool = "deploy";
  args = str "app";
  args_fingerprint = none;
  risk = high;
  reason = "deploy (HIGH) requires approval.";
  state = pending;
  requester_id = "ann";
  binding = none;
  requester_key = none;
  approver_id = none;
  created_at = 0;
  expires_at = 1000;
  resolved_at = none;
  consumed_at = none;
  scope = once;
}

abbrev pub queue_of : ApprovalRequest → Option (List ApprovalRequest) → ApprovalEngine
queue_of req store = record {
  requests = ("r1", req) ∷ [];
  session_allowed = [];
  store = store;
  approval_ttl_ms = 1000;
}

abbrev pub empty_queue : ApprovalEngine
empty_queue = record {
  requests = [];
  session_allowed = [];
  store = some [];
  approval_ttl_ms = 1000;
}

-- A request that its requester may spend.
abbrev pub usable : ApprovalRequest
usable = record waiting {
  state = approved;
  requester_key = some (binding_key platform (approval_binding ann));
}

abbrev calls : List Timed
calls =
    record {
      seen = 0;
      now = 0;
      disk = takes_all;
      call = creates "r1" "deploy" (str "app") high "why" ann;
    }
    ∷ record { seen = 0; now = 10; disk = takes_all; call = approves "r1" once "bob" }
    ∷ record { seen = 0; now = 20; disk = takes_all; call = consumes "deploy" (str "app") ann }
    ∷ record { seen = 0; now = 30; disk = takes_all; call = consumes "deploy" (str "app") ann }
    ∷ []

empty_queue-IsKeyed : IsKeyed empty_queue
empty_queue-IsKeyed = record { own = tt; distinct = tt }

total_spent-le-granted_example :
    total_spent platform (λ v. v) "deploy" (str "app") ann empty_queue calls
      + left platform "deploy" (str "app") ann (run platform (λ v. v) empty_queue calls)
    ≤ left platform "deploy" (str "app") ann empty_queue
      + total_granted platform (λ v. v) "deploy" (str "app") ann empty_queue calls
total_spent-le-granted_example =
    total_spent-le-granted platform (λ v. v) "deploy" (str "app") ann empty_queue calls
      empty_queue-IsKeyed

approve_expired_example :
    ((approve takes_all 2000 2001 "r1" once "ann" (queue_of waiting none)).0
      ≡ raised resolution_expired)
    × (lookup "r1" (approve takes_all 2000 2001 "r1" once "ann" (queue_of waiting none)).1.requests
        ≡ some (record waiting { state = expired; resolved_at = some 2001 }))
    × ((approve takes_all 2000 2001 "r1" once "ann" (queue_of waiting none)).1.session_allowed ≡ [])
unfolding lookup
approve_expired_example =
    approve_expired takes_all 2000 2001 "r1" "ann" once (queue_of waiting none) waiting refl refl
      refl (omega arith) refl

approve_grants_example :
    (9 < 1000)
    × (waiting.requester_id ≢ "bob")
    × (approved_as once "bob" 10 waiting ≡ approved_as once "bob" 10 waiting)
    × (lookup "r1" (queue_of (approved_as once "bob" 10 waiting) none).requests
        ≡ some (approved_as once "bob" 10 waiting))
    × ((queue_of (approved_as once "bob" 10 waiting) none).session_allowed ≡ (
        if is_once once
        then (queue_of waiting none).session_allowed
        else add
            (session_key "deploy" (requester_key_of waiting))
            (queue_of waiting none).session_allowed))
unfolding approve lookup insert
approve_grants_example =
    approve_grants takes_all 9 10 "r1" "bob" once (queue_of waiting none)
      (queue_of (approved_as once "bob" 10 waiting) none) waiting
      (approved_as once "bob" 10 waiting) refl refl refl refl

-- ===== src/Policy/Approvals/Spending/History.antt =====
-- Histories of the queue's operations. Each operation brings its own clock reading, its random id
-- where it draws one, and whether the store takes each write; an exception reaches the caller only.
use folder_forge.Base.{
  ℕ, suc, ◌+◌, ◌≤◌, String, ◌≡◌, refl, Bool-cases, Option-cases, inl, inr, Option-cases, Bool, true,
  false, ◌&&◌, Option, none, some, List, [], ◌∷◌, map, arith, if◌then◌else◌, ◌==◌, string_eq,
  eq_iff, lookup, count,
}
use folder_forge.Base.Keys.{count-insert-le}
use folder_forge.Json.{Value, Platform}
use folder_forge.Core.{ToolPrincipal, RiskLevel}
use folder_forge.Policy.Approvals.{
  ApprovalRequest, ApprovalEngine, Outcome, returned, raised, Scope, is_pending, requests_of,
  consume_once, is_spendable, create,
}
use folder_forge.Policy.Approvals.Grants.{approved_as}
use folder_forge.Policy.Approvals.Evidence.{fingerprint}
use folder_forge.Policy.Approvals.Binding.{approval_binding, binding_key}
use folder_forge.Policy.Approvals.Resolve.{
  expire_if_needed, approve_request, approve, deny, get, pending_requests, all_requests,
}
use folder_forge.Policy.Approvals.Spending.Restored.{
  Writes, Writes-IsKeyed, IsFound, unchanged, wrote, Unspendable,
}
use folder_forge.Policy.Approvals.Spending.Writes.{
  expire-IsFound, expire-Writes, approve_cases, consume-Writes, approve-Writes, create-Writes,
  deny-Writes, get-Writes, pending-Writes, all-Writes,
}
use folder_forge.Policy.Approvals.Spending.{IsKeyed, found_own, spendable, consume_once_spends}

pub data Call : Type 0 where
  creates :
      (id tool : String) (args : Value) (risk : RiskLevel) (reason : String) (who : ToolPrincipal)
      → Call
  approves : (id : String) (scope : Scope) (approver : String) → Call
  denies : (id approver : String) → Call
  consumes : (tool : String) (args : Value) (who : ToolPrincipal) → Call
  gets : (id : String) → Call
  lists_pending lists_all : Call

pub record Timed : Type 0 where
  pub seen : ℕ
  pub now : ℕ
  pub disk : ApprovalRequest → Bool
  pub call : Call

module _ (p : Platform) (sanitize_args : Value → Value) where
  unfoldable pub after : ApprovalEngine → ℕ → ℕ → (ApprovalRequest → Bool) → Call → ApprovalEngine
  after e seen now disk (creates id tool args risk reason who) =
      (create p sanitize_args disk id now tool args risk reason who e).1
  after e seen now disk (approves id scope approver) = (approve disk seen now id scope approver e).1
  after e seen now disk (denies id approver) = (deny disk seen now id approver e).1
  after e seen now disk (consumes tool args who) = (consume_once p disk now tool args who e).1
  after e seen now disk (gets id) = (get disk seen now id e).1
  after e seen now disk lists_pending = (pending_requests disk seen now e).1
  after e seen now disk lists_all = (all_requests disk seen now e).1

module _ (p : Platform) (sanitize_args : Value → Value) where
  unfoldable pub run : ApprovalEngine → List Timed → ApprovalEngine
  unfolding after
  run e [] = e
  run e (c ∷ cs) = run (after p sanitize_args e c.seen c.now c.disk c.call) cs

abbrev returns_true : Outcome Bool → Bool
returns_true (returned b) = b
returns_true (raised x) = false

returns_true_lem :
    (o : Outcome Bool) (e : ApprovalEngine)
    → returns_true o ≡ true
    → ◌≡◌ {A = Outcome Bool × ApprovalEngine} (o, e) (returned true, e)
returns_true_lem (returned true) e h = refl
returns_true_lem (returned false) e h = cc
returns_true_lem (raised x) e h = cc

and_four :
    (a b c d : Bool) → (a && b && c && d) ≡ true → (a ≡ true) × (b ≡ true) × (c ≡ true) × (d ≡ true)
and_four a b c d h = ground arith

abbrev is_pending_at : Option ApprovalRequest → Bool
is_pending_at none = false
is_pending_at (some req) = is_pending req.state

abbrev returns_with : (ApprovalRequest → Bool) → Outcome (Option ApprovalRequest) → Bool
returns_with q (returned (some r)) = q r
returns_with q (returned none) = false
returns_with q (raised x) = false

module _ (p : Platform) (tool : String) (args : Value) (who : ToolPrincipal) where
  abbrev key_of : String
  key_of = binding_key p (approval_binding who)

  abbrev wanted : ApprovalRequest → Bool
  wanted = is_spendable p key_of tool (fingerprint p args)

  abbrev pub left : ApprovalEngine → ℕ
  left e = spendable p key_of tool (fingerprint p args) e

  -- 1 if the call turns a pending request into one that the requester can spend
  unfoldable pub granted : ApprovalEngine → Timed → ℕ
  granted e c = elim c.call [
    | approves id scope approver ↦
        if is_pending_at (lookup id e.requests)
          && returns_with wanted (approve c.disk c.seen c.now id scope approver e).0
        then 1
        else 0
    | _ ↦ 0
  ]

  -- 1 if the call is a `consumeOnce` of the same requester, tool and arguments that returns true
  unfoldable pub spent : ApprovalEngine → Timed → ℕ
  spent e c = elim c.call [
    | consumes tool' args' who' ↦
        if binding_key p (approval_binding who') == key_of
          && tool' == tool
          && fingerprint p args' == fingerprint p args
          && returns_true (consume_once p c.disk c.now tool' args' who' e).0
        then 1
        else 0
    | _ ↦ 0
  ]

  same_wanted :
      (key tool' print : String) (rs : List ApprovalRequest)
      → key ≡ key_of
      → tool' ≡ tool
      → print ≡ fingerprint p args
      → count (is_spendable p key tool' print) rs ≡ count wanted rs
  same_wanted key tool' print rs e f g = cc

  not_wanted : (r : ApprovalRequest) → Unspendable r → wanted r ≡ false
  unfolding is_spendable
  not_wanted r h = ground arith

  Writes-left :
      {m n : List (String × ApprovalRequest)}
      → Writes Unspendable m n
      → count wanted (map (λ b. b.1) n) ≤ count wanted (map (λ b. b.1) m)
  Writes-left unchanged = omega arith
  Writes-left (wrote {n} r h w) =
      ground (arith, count-insert-le wanted r.id r n, Writes-left w, not_wanted r h)

  module _ (disk : ApprovalRequest → Bool) (seen now : ℕ) where
    -- an approval, counted from the request that `expireIfNeeded` returned
    approve_request-left :
        (scope : Scope) (approver : String) (o : Outcome ApprovalRequest) (e : ApprovalEngine)
        → IsFound o e
        → left (approve_request disk seen now scope approver o e).1
          ≤ left e
            + (if returns_with wanted (approve_request disk seen now scope approver o e).0
                then 1
                else 0)
    approve_request-left scope approver (raised x) e found = unfold approve_request in omega arith
    approve_request-left scope approver (returned r) e found =
        elim (approve_cases disk seen now scope approver r e found) [
          | inl same ↦ rw same (omega arith)
          | inr (new, result, waiting) ↦
              rw (new, result)
                (count-insert-le wanted r.id (approved_as scope approver now r) e.requests)
        ]

    resolved_unchanged :
        (req : ApprovalRequest) (scope : Scope) (approver : String) (e : ApprovalEngine)
        → is_pending req.state ≡ false
        → (approve_request disk seen now scope approver
            (expire_if_needed disk seen now req e).0
            (expire_if_needed disk seen now req e).1).1.requests
          ≡ e.requests
    unfolding expire_if_needed approve_request
    resolved_unchanged req scope approver e h = ground arith

    still_pending :
        (req : ApprovalRequest) (scope : Scope) (approver : String) (e : ApprovalEngine)
        → lookup req.id e.requests ≡ some req
        → left
            (approve_request disk seen now scope approver
              (expire_if_needed disk seen now req e).0
              (expire_if_needed disk seen now req e).1).1
          ≤ left e
            + (if is_pending req.state
                  && returns_with wanted
                      (approve_request disk seen now scope approver
                        (expire_if_needed disk seen now req e).0
                        (expire_if_needed disk seen now req e).1).0
                then 1
                else 0)
    still_pending req scope approver e found = elim (Bool-cases (is_pending req.state)) [
      | inl waiting ↦ rw waiting (
          omega (
            arith,
            approve_request-left scope approver (expire_if_needed disk seen now req e).0
                (expire_if_needed disk seen now req e).1 (expire-IsFound disk seen now req e found),
            Writes-left (expire-Writes disk seen now req e found),
          ))
      | inr resolved ↦ rw (resolved, resolved_unchanged req scope approver e resolved) (omega arith)
    ]

    approve-left :
        (id approver : String) (scope : Scope) (e : ApprovalEngine)
        → IsKeyed e
        → left (approve disk seen now id scope approver e).1
          ≤ left e
            + (if is_pending_at (lookup id e.requests)
                  && returns_with wanted (approve disk seen now id scope approver e).0
                then 1
                else 0)
    unfolding approve
    approve-left id approver scope e v = elim (Option-cases (lookup id e.requests)) [
      | inl missing ↦ rw (missing, approve) (omega arith)
      | inr (req, found) ↦
          rw (found, approve) (still_pending req scope approver e (found_own id req e v found))
    ]

    consume-left :
        (tool' : String) (args' : Value) (who' : ToolPrincipal) (e : ApprovalEngine)
        → IsKeyed e
        → (if binding_key p (approval_binding who') == key_of
                && tool' == tool
                && fingerprint p args' == fingerprint p args
                && returns_true (consume_once p disk now tool' args' who' e).0
              then 1
              else 0)
            + left (consume_once p disk now tool' args' who' e).1
          ≤ left e
    consume-left tool' args' who' e v =
        let key = binding_key p (approval_binding who') in
        let result = consume_once p disk now tool' args' who' e in
        let fewer = Writes-left (consume-Writes disk seen now p tool' args' who' e v) in
        elim (Bool-cases (
          key == key_of
          && tool' == tool
          && fingerprint p args' == fingerprint p args
          && returns_true result.0)) [
            | inl hit ↦
                let (same_key, same_tool, same_print, done) = and_four _ _ _ _ hit in
                let spends : suc (
                      count (is_spendable p key tool' (fingerprint p args')) (requests_of result.1))
                    ≡ count (is_spendable p key tool' (fingerprint p args')) (requests_of e) =
                  consume_once_spends p disk now tool' args' who' e result.1 v
                    (returns_true_lem result.0 result.1 done) in
                rw hit (
                  omega (
                    arith,
                    same_wanted _ _ _ (requests_of result.1) ((eq_iff key key_of).0 same_key)
                        ((eq_iff tool' tool).0 same_tool)
                        ((eq_iff (fingerprint p args') (fingerprint p args)).0 same_print),
                    same_wanted _ _ _ (requests_of e) ((eq_iff key key_of).0 same_key)
                        ((eq_iff tool' tool).0 same_tool)
                        ((eq_iff (fingerprint p args') (fingerprint p args)).0 same_print),
                    spends,
                  ))
            | inr missed ↦ rw missed (omega (arith, fewer))
          ]

module _ (p : Platform) (sanitize_args : Value → Value) where
  after-IsKeyed :
      (e : ApprovalEngine) (seen now : ℕ) (disk : ApprovalRequest → Bool) (c : Call)
      → IsKeyed e
      → IsKeyed (after p sanitize_args e seen now disk c)
  unfolding after
  after-IsKeyed e seen now disk (creates id tool args risk reason who) v =
      Writes-IsKeyed e _
        (create-Writes disk seen now p sanitize_args id tool args risk reason who e) v
  after-IsKeyed e seen now disk (approves id scope approver) v =
      Writes-IsKeyed e _ (approve-Writes disk seen now id scope approver e v) v
  after-IsKeyed e seen now disk (denies id approver) v =
      Writes-IsKeyed e _ (deny-Writes disk seen now id approver e v) v
  after-IsKeyed e seen now disk (consumes tool args who) v =
      Writes-IsKeyed e _ (consume-Writes disk seen now p tool args who e v) v
  after-IsKeyed e seen now disk (gets id) v = Writes-IsKeyed e _ (get-Writes disk seen now id e v) v
  after-IsKeyed e seen now disk lists_pending v =
      Writes-IsKeyed e _ (pending-Writes disk seen now e v) v
  after-IsKeyed e seen now disk lists_all v = Writes-IsKeyed e _ (all-Writes disk seen now e v) v

  module _ (tool : String) (args : Value) (who : ToolPrincipal) where
    unfoldable pub total_granted : ApprovalEngine → List Timed → ℕ
    unfolding granted after
    total_granted e [] = 0
    total_granted e (c ∷ cs) =
        granted p tool args who e c
        + total_granted (after p sanitize_args e c.seen c.now c.disk c.call) cs

    unfoldable pub total_spent : ApprovalEngine → List Timed → ℕ
    unfolding spent after
    total_spent e [] = 0
    total_spent e (c ∷ cs) =
        spent p tool args who e c
        + total_spent (after p sanitize_args e c.seen c.now c.disk c.call) cs

    step-left :
        (e : ApprovalEngine) (seen now : ℕ) (disk : ApprovalRequest → Bool) (call : Call)
        → IsKeyed e
        → spent p tool args who e (record { seen = seen; now = now; disk = disk; call = call })
            + left p tool args who (after p sanitize_args e seen now disk call)
          ≤ left p tool args who e
            + granted p tool args who e
                (record { seen = seen; now = now; disk = disk; call = call })
    unfolding spent granted after
    step-left e seen now disk (creates id t a risk reason w) v = omega (
      arith,
      Writes-left p tool args who
          (create-Writes disk seen now p sanitize_args id t a risk reason w e),
    )
    step-left e seen now disk (approves id scope approver) v =
        omega (arith, approve-left p tool args who disk seen now id approver scope e v)
    step-left e seen now disk (denies id approver) v =
        omega (arith, Writes-left p tool args who (deny-Writes disk seen now id approver e v))
    step-left e seen now disk (consumes t a w) v =
        omega (arith, consume-left p tool args who disk seen now t a w e v)
    step-left e seen now disk (gets id) v =
        omega (arith, Writes-left p tool args who (get-Writes disk seen now id e v))
    step-left e seen now disk lists_pending v =
        omega (arith, Writes-left p tool args who (pending-Writes disk seen now e v))
    step-left e seen now disk lists_all v =
        omega (arith, Writes-left p tool args who (all-Writes disk seen now e v))

-- Over any history from a queue whose requests stand under distinct ids, their own: the calls of
-- `consumeOnce` that return true for a requester, a tool and arguments, and the approvals that are
-- left for them at the end, are together at most as many as there were at the start and as were
-- granted on the way, one for each `approve` that resolved a pending request in their favour.
pub total_spent-le-granted :
    (p : Platform) (sanitize_args : Value → Value) (tool : String) (args : Value)
    (who : ToolPrincipal) (e : ApprovalEngine) (cs : List Timed)
    → IsKeyed e
    → total_spent p sanitize_args tool args who e cs
        + left p tool args who (run p sanitize_args e cs)
      ≤ left p tool args who e + total_granted p sanitize_args tool args who e cs
unfolding total_spent total_granted run
total_spent-le-granted p sanitize_args tool args who e [] v = omega arith
total_spent-le-granted p sanitize_args tool args who e (c ∷ cs) v = omega (
  arith,
  step-left p sanitize_args tool args who e c.seen c.now c.disk c.call v,
  total_spent-le-granted p sanitize_args tool args who
      (after p sanitize_args e c.seen c.now c.disk c.call) cs
      (after-IsKeyed p sanitize_args e c.seen c.now c.disk c.call v),
)

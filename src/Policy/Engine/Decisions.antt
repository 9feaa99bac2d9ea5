-- ===== src/Policy/Engine/Decisions.antt =====
-- What `evaluate` of src/policy/policy-engine.ts grants, and what `explain` foretells of it.
use folder_forge.Base.{
  ℕ, String, ◌≡◌, ◌≢◌, refl, ◌⊎◌, inl, inr, Bool, true, false, Option, none, some, List, ap, ◌∙◌,
  if◌then◌else◌, utf16, arith, Bool-cases,
}
use folder_forge.Core.{
  RiskLevel, critical, PolicyMode, readonly, danger, ToolPrincipal, mode_beq, mode_beq_iff,
}
use folder_forge.Json.{Value, Platform}
use folder_forge.Policy.Approvals.{
  ApprovalEngine, ApprovalRequest, returned, consume_once, is_session_allowed,
}
use folder_forge.Policy.AsCode
use folder_forge.Policy.AsCode.{PolicyRuleMatch, is_deny}
use folder_forge.Policy.CommandPolicy.{Text, CommandHost}
use folder_forge.Policy.Engine.{
  PolicyEngine, Decision, allow, deny, approval, Ruling, decided, pattern_error, command_deny,
  mode_deny, context_of, denial, needs_approval, approval_reason, to_approval, gate, after_rules,
  evaluate, unless_denied, with_rule,
}
use folder_forge.Policy.Engine.Explain.{
  allowed, denied, gated, Explanation, explain_rules, explain, unless_hard, with_found, explained,
  gate_reason,
}

module _ (p : Platform) (sanitize_args : Value → Value) (disk : ApprovalRequest → Bool)
    (id : String) (now : ℕ) (h : CommandHost) (tool : String) (risk : RiskLevel) (mutates : Bool)
    (args : Value) (principal : ToolPrincipal) where
  unfoldable pub run : Bool → PolicyEngine → Ruling Decision × PolicyEngine
  run = evaluate p sanitize_args disk id now h tool risk mutates args principal

  unfoldable pub is_gated : Ruling Decision → Bool
  is_gated (decided (approval r i reason)) = true
  is_gated _ = false

  mode_passes :
      (bypass : Bool) (mode : PolicyMode)
      → mode_deny risk mutates bypass mode ≡ none
      → mode ≢ danger
      → (risk ≢ critical) × ((mode ≢ readonly) ⊎ ((mutates ≡ false) ⊎ (bypass ≡ true)))
  unfolding mode_deny
  mode_passes bypass mode passed outside = ground arith

  Allowed : Ruling Decision × PolicyEngine → Type 0
  Allowed r = (x : RiskLevel) × (r.0 ≡ decided (allow x))

  passes-unless_denied :
      (e : PolicyEngine) (reason : Option Text) (r : Ruling Decision × PolicyEngine)
      → Allowed (unless_denied risk e reason r)
      → (reason ≡ none) × Allowed r
  unfolding Allowed
  passes-unless_denied e none r ok = (refl, ok)
  passes-unless_denied e (some reason) r (x, ok) = absurd (ground arith)

  passes-with_rule :
      (e : PolicyEngine) (found : Option (Option PolicyRuleMatch))
      (k : Option PolicyRuleMatch → Ruling Decision × PolicyEngine)
      → Allowed (with_rule e found k)
      → (rule : Option PolicyRuleMatch) × ((found ≡ some rule) × Allowed (k rule))
  unfolding Allowed
  passes-with_rule e none k (x, ok) = absurd (ground arith)
  passes-with_rule e (some rule) k ok = (rule, (refl, ok))

  -- Why an action that needs an approval runs.
  unfoldable pub Approved : PolicyEngine → Type 0
  Approved e =
      (is_session_allowed p tool principal e.approvals ≡ true)
      ⊎ ((consume_once p disk now tool args principal e.approvals).0 ≡ returned true)

  passes-gate :
      (reason : String) (e : PolicyEngine)
      → Allowed (gate p sanitize_args disk id now tool risk args reason principal e)
      → Approved e
  unfolding gate to_approval Allowed Approved
  passes-gate reason e (x, ok) = ground arith

  passes-choice :
      (d n : Bool) (g r s : Ruling Decision × PolicyEngine)
      → Allowed (if d then r else if n then g else s)
      → (d ≡ true) ⊎ ((n ≡ false) ⊎ Allowed g)
  passes-choice true n g r s ok = inl refl
  passes-choice false false g r s ok = inr (inl refl)
  passes-choice false true g r s ok = inr (inr ok)

  passes-after_rules :
      (rule : Option PolicyRuleMatch) (e : PolicyEngine)
      → Allowed (after_rules p sanitize_args disk id now tool risk args principal rule e)
      → e.mode ≢ danger
      → (denial rule ≡ none) × ((needs_approval tool risk rule e ≡ false) ⊎ Approved e)
  unfolding after_rules
  passes-after_rules rule e ok outside =
      let (no_denial, rest) = passes-unless_denied e (denial rule) _ ok in
      (
        no_denial,
        elim (passes-choice (mode_beq e.mode danger) (needs_approval tool risk rule e) _ _ _ rest) [
          | inl b ↦ absurd (outside ((mode_beq_iff e.mode danger).0 b))
          | inr (inl b) ↦ inl b
          | inr (inr b) ↦ inr (passes-gate (approval_reason tool risk rule) e b)
        ],
      )

  -- Outside danger mode, a call that `evaluate` allows is not of critical risk; the mode is not
  -- readonly, or the call does not mutate, or readonly is bypassed; no pattern of the policy files
  -- throws and no deny rule decides; and either no approval is needed, or the tool is allowed for the
  -- requester's session, or `consumeOnce` returns true for the call.
  pub allow_grounds :
      (bypass : Bool) (e : PolicyEngine) (x : RiskLevel)
      → (run bypass e).0 ≡ decided (allow x)
      → e.mode ≢ danger
      → (risk ≢ critical)
        × ((e.mode ≢ readonly) ⊎ ((mutates ≡ false) ⊎ (bypass ≡ true)))
        × (rule : Option PolicyRuleMatch) × ((AsCode.evaluate e.rules
                (context_of tool risk mutates principal e)
              ≡ some rule)
            × ((denial rule ≡ none) × ((needs_approval tool risk rule e ≡ false) ⊎ Approved e)))
  unfolding run evaluate Allowed
  allow_grounds bypass e x ok outside =
      let (no_block, rest) = passes-unless_denied e (command_deny h tool args e) _ (x, ok) in
      let (no_mode, more) = passes-unless_denied e (mode_deny risk mutates bypass e.mode) _ rest in
      let (rule, found_last) = passes-with_rule e _ _ more in
      let (found, last) = found_last in
      let (not_critical, not_readonly) = mode_passes bypass e.mode no_mode outside in
      (not_critical, not_readonly, rule, (found, passes-after_rules rule e last outside))

  -- Two runs that end with the same decision, the first with nothing changed and no approval.
  Ungated : PolicyEngine → (r s : Ruling Decision × PolicyEngine) → Type 0
  Ungated e r s = (r.1 ≡ e) × ((is_gated r.0 ≡ false) × (s.0 ≡ r.0))

  Ungated-unless_denied :
      (e f : PolicyEngine) (reason : Option Text) (r s : Ruling Decision × PolicyEngine)
      → Ungated e r s
      → Ungated e (unless_denied risk e reason r) (unless_denied risk f reason s)
  unfolding Ungated is_gated
  Ungated-unless_denied e f none r s same = same
  Ungated-unless_denied e f (some reason) r s same = (refl, (refl, refl))

  Ungated-with_rule :
      (e f : PolicyEngine) (found : Option (Option PolicyRuleMatch))
      (k l : Option PolicyRuleMatch → Ruling Decision × PolicyEngine)
      → ((rule : Option PolicyRuleMatch) → Ungated e (k rule) (l rule))
      → Ungated e (with_rule e found k) (with_rule f found l)
  unfolding Ungated is_gated
  Ungated-with_rule e f none k l same = (refl, (refl, refl))
  Ungated-with_rule e f (some rule) k l same = same rule

  Ungated-choice :
      (e f : PolicyEngine) (d : Bool) (r s : Ruling Decision × PolicyEngine)
      → d ≡ true
      → Ungated e
          (if d then (decided (allow risk), e) else r)
          (if d then (decided (allow risk), f) else s)
  unfolding Ungated is_gated
  Ungated-choice e f true r s b = (refl, (refl, refl))
  Ungated-choice e f false r s b = absurd (ground arith)

  -- In danger mode `evaluate` changes nothing, asks for no approval, and decides the same whatever the
  -- approval queue holds.
  pub danger_ungated :
      (bypass : Bool) (e : PolicyEngine) (a : ApprovalEngine)
      → e.mode ≡ danger
      → ((run bypass e).1 ≡ e)
        × ((is_gated (run bypass e).0 ≡ false)
            × ((run bypass (record e { approvals = a })).0 ≡ (run bypass e).0))
  unfolding run evaluate Ungated is_gated command_deny after_rules
  danger_ungated bypass e a in_danger =
      let f : PolicyEngine = record e { approvals = a } in
      Ungated-unless_denied e f (command_deny h tool args e) _ _ (
        Ungated-unless_denied e f (mode_deny risk mutates bypass e.mode) _ _ (
          Ungated-with_rule e f (AsCode.evaluate e.rules (context_of tool risk mutates principal e))
            _ _
            (λ rule. Ungated-unless_denied e f (denial rule) _ _ (
              Ungated-choice e f (mode_beq e.mode danger) _ _
                ((mode_beq_iff e.mode danger).1 in_danger)))))

  -- What an explanation says of the run: its decision, or that the approval queue decides.
  unfoldable pub Foretold :
      PolicyEngine → Option Explanation → Ruling Decision × PolicyEngine → Type 0
  Foretold e none r = r ≡ (pattern_error, e)
  Foretold e (some x) r = elim x.decision [
    | denied ↦ r ≡ (decided (deny risk x.reason), e)
    | allowed ↦ r ≡ (decided (allow risk), e)
    | gated ↦
        (reason : String) × ((utf16 reason ≡ x.reason)
          × (r ≡ gate p sanitize_args disk id now tool risk args reason principal e))
  ]

  Foretold-unless_hard :
      (e : PolicyEngine) (reason : Option Text) (factors : Text → List String)
      (x : Option Explanation) (r : Ruling Decision × PolicyEngine)
      → Foretold e x r
      → Foretold e
          (unless_hard reason (λ t. some (explained denied t (factors t) risk mutates e)) x)
          (unless_denied risk e reason r)
  unfolding Foretold
  Foretold-unless_hard e none factors x r same = same
  Foretold-unless_hard e (some t) factors x r same = refl

  Foretold-with_found :
      (e : PolicyEngine) (found : Option (Option PolicyRuleMatch))
      (x : Option PolicyRuleMatch → Explanation)
      (r : Option PolicyRuleMatch → Ruling Decision × PolicyEngine)
      → ((rule : Option PolicyRuleMatch) → Foretold e (some (x rule)) (r rule))
      → Foretold e (with_found found x) (with_rule e found r)
  unfolding Foretold
  Foretold-with_found e none x r same = refl
  Foretold-with_found e (some rule) x r same = same rule

  Foretold-denial :
      (e : PolicyEngine) (reason : Option Text) (factors : List String) (x : Explanation)
      (r : Ruling Decision × PolicyEngine)
      → Foretold e (some x) r
      → Foretold e
          (some (unless_hard reason (λ t. explained denied t factors risk mutates e) x))
          (unless_denied risk e reason r)
  unfolding Foretold
  Foretold-denial e none factors x r same = same
  Foretold-denial e (some t) factors x r same = refl

  Foretold-choice :
      (e : PolicyEngine) (d n s : Bool) (t u v : Text) (f f' f'' : List String) (x : Explanation)
      (g : Ruling Decision × PolicyEngine)
      → (s ≡ true → g ≡ (decided (allow risk), e))
      → (n ≡ true → Foretold e (some x) g)
      → Foretold e
          (some (
            if d
            then explained allowed t f risk mutates e
            else if n
            then if s then explained allowed u f' risk mutates e else x
            else explained allowed v f'' risk mutates e))
          (if d then (decided (allow risk), e) else if n then g else (decided (allow risk), e))
  unfolding Foretold
  Foretold-choice e true n s t u v f f' f'' x g on off = refl
  Foretold-choice e false false s t u v f f' f'' x g on off = refl
  Foretold-choice e false true true t u v f f' f'' x g on off = on refl
  Foretold-choice e false true false t u v f f' f'' x g on off = off refl

  same_reason :
      (rule : Option PolicyRuleMatch) (e : PolicyEngine)
      → needs_approval tool risk rule e ≡ true
      → utf16 (approval_reason tool risk rule) ≡ gate_reason tool risk rule e
  unfolding needs_approval
  same_reason none e needs = ground arith
  same_reason (some m) e needs = ground arith

  gate_session :
      (reason : String) (e : PolicyEngine)
      → is_session_allowed p tool principal e.approvals ≡ true
      → gate p sanitize_args disk id now tool risk args reason principal e
        ≡ (decided (allow risk), e)
  unfolding gate
  gate_session reason e on = rw (on, gate)

  Foretold-after_rules :
      (rule : Option PolicyRuleMatch) (e : PolicyEngine)
      → Foretold e
          (some (explain_rules p tool risk mutates principal rule e))
          (after_rules p sanitize_args disk id now tool risk args principal rule e)
  unfolding explain_rules after_rules Foretold
  Foretold-after_rules rule e = Foretold-denial e (denial rule) _ _ _ (
      Foretold-choice e (mode_beq e.mode danger) (needs_approval tool risk rule e)
        (is_session_allowed p tool principal e.approvals) _ _ _ _ _ _ _ _
        (gate_session (approval_reason tool risk rule) e)
        (λ needs. (approval_reason tool risk rule, (same_reason rule e needs, refl))))

  -- What `explain` foretells of `evaluate` without the bypass of readonly: an exception of a pattern
  -- is the same exception; a denial or an allowance is the same decision, for a denial with the same
  -- reason, and changes nothing; and an `approval` means that the approval queue decides, with the
  -- reason that the explanation gives.
  pub explain-evaluate :
      (e : PolicyEngine) → Foretold e (explain p h tool risk mutates args principal e) (run false e)
  unfolding run evaluate explain
  explain-evaluate e = Foretold-unless_hard e (command_deny h tool args e) _ _ _ (
      Foretold-unless_hard e (mode_deny risk mutates false e.mode) _ _ _ (
        Foretold-with_found e (AsCode.evaluate e.rules (context_of tool risk mutates principal e)) _
          _ (λ rule. Foretold-after_rules rule e)))

  gated_run :
      (e : PolicyEngine) (x : Explanation) (r : Ruling Decision × PolicyEngine)
      → x.decision ≡ gated
      → Foretold e (some x) r
      → (reason : String) × (r ≡ gate p sanitize_args disk id now tool risk args reason principal e)
  unfolding Foretold
  gated_run e x r is_gate told = ground arith

  gate_spends :
      (reason : String) (e : PolicyEngine)
      → Approved e
      → (gate p sanitize_args disk id now tool risk args reason principal e).0
        ≡ decided (allow risk)
  unfolding gate Approved
  gate_spends reason e (inl on) = rw (on, gate)
  gate_spends reason e (inr spent) =
      elim (Bool-cases (is_session_allowed p tool principal e.approvals)) [
        | inl on ↦ rw (on, gate)
        | inr off ↦ rw (off, spent, gate)
      ]

  -- Where `explain` says that a call needs an approval and `consumeOnce` would return true for it,
  -- `evaluate` allows the call.
  pub gated-allowed :
      (e : PolicyEngine) (x : Explanation)
      → explain p h tool risk mutates args principal e ≡ some x
      → x.decision ≡ gated
      → (consume_once p disk now tool args principal e.approvals).0 ≡ returned true
      → (run false e).0 ≡ decided (allow risk)
  unfolding Approved
  gated-allowed e x explains is_gate spent =
      let (reason, same) =
        gated_run e x (run false e) is_gate (rw explains at (explain-evaluate e)) in
      ap (λ r. r.0) same ∙ gate_spends reason e (inr spent)

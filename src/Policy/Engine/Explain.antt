-- ===== src/Policy/Engine/Explain.antt =====
-- `explain` of src/policy/policy-engine.ts: the dry run of `evaluate`, which the agent asks before a
-- call.
use folder_forge.Base.{
  String, Bool, true, false, not, ◌&&◌, ◌||◌, Option, none, some, List, [], ◌∷◌, ◌++◌, leb,
  if◌then◌else◌, utf16,
}
use folder_forge.Core.{
  RiskLevel, high, PolicyMode, danger, ToolPrincipal, risk_order, critical, risk_beq, mode_beq,
}
use folder_forge.Json.{Value, Platform, ◌⧺◌}
use folder_forge.Policy.Approvals.{contains, is_session_allowed}
use folder_forge.Policy.AsCode
use folder_forge.Policy.AsCode.{PolicyRuleMatch, is_deny}
use folder_forge.Policy.CommandPolicy.{Text, CommandHost, starts_with}
use folder_forge.Policy.Engine.{
  PolicyEngine, risk_name, mode_name, command_deny, mode_deny, context_of, asks, denial,
  needs_approval,
}

pub data Kind : Type 0 where
  allowed denied gated : Kind

pub record Explanation : Type 0 where
  pub decision : Kind
  pub risk : RiskLevel
  pub reason : Text
  pub mode : PolicyMode
  pub mutates : Bool
  pub factors : List String

abbrev pub deny_factors : Text → List String
deny_factors reason =
    if starts_with (utf16 "Danger command execution requires") reason
    then "danger command execution requires an enforced container sandbox" ∷ []
    else "command matches a hard destructive-command deny" ∷ []

abbrev pub mode_factors : RiskLevel → PolicyMode → List String
mode_factors risk mode =
    if risk_beq risk critical && not (mode_beq mode danger)
    then "risk is CRITICAL" ∷ ("mode is " ⧺ mode_name mode) ∷ []
    else "mode is readonly and the tool mutates state" ∷ []

abbrev pub rule_factors : Option PolicyRuleMatch → List String
rule_factors none = []
rule_factors (some m) =
    ("matched policy rule " ⧺ m.rule_id)
    ∷ ("policy effect is " ⧺ (if is_deny m.effect then "deny" else "approval"))
    ∷ []

abbrev when : Bool → String → List String
when true factor = factor ∷ []
when false factor = []

abbrev is_high : RiskLevel → Bool
is_high risk = leb (risk_order high) (risk_order risk)

abbrev on_list : String → PolicyEngine → Bool
on_list tool e = contains tool e.require_approval

-- `reason` before the session is looked at
abbrev pub gate_reason : String → RiskLevel → Option PolicyRuleMatch → PolicyEngine → Text
gate_reason tool risk rule e =
    let plain =
      if on_list tool e || is_high risk
      then utf16 (tool ⧺ " (" ⧺ risk_name risk ⧺ ") requires approval.")
      else utf16 (tool ⧺ " (" ⧺ risk_name risk ⧺ ") is allowed.") in
    elim rule [ none ↦ plain | some m ↦ if is_deny m.effect then plain else utf16 m.reason ]

abbrev pub explained : Kind → Text → List String → RiskLevel → Bool → PolicyEngine → Explanation
explained kind reason factors risk mutates e = record {
  decision = kind;
  risk = risk;
  reason = reason;
  mode = e.mode;
  mutates = mutates;
  factors = factors;
}

-- An early return, where there is a reason for it.
abbrev pub unless_hard {ℓ} : {A : Type ℓ} → Option Text → (Text → A) → A → A
unless_hard (some reason) result rest = result reason
unless_hard none result rest = rest

abbrev pub with_found :
    Option (Option PolicyRuleMatch) → (Option PolicyRuleMatch → Explanation) → Option Explanation
with_found none rest = none
with_found (some rule) rest = some (rest rule)

module _ (p : Platform) where
  abbrev risk_factors : String → RiskLevel → PolicyEngine → List String
  risk_factors tool risk e =
      when (on_list tool e) "tool is in requireApproval list"
      ++ when (is_high risk) ("risk is " ⧺ risk_name risk ⧺ " (>= HIGH)")

  -- The part of `explain` after the policy files.
  unfoldable pub explain_rules :
      String
      → RiskLevel
      → Bool
      → ToolPrincipal
      → Option PolicyRuleMatch
      → PolicyEngine
      → Explanation
  unfolding needs_approval
  explain_rules tool risk mutates principal rule e =
      let result : Kind → Text → List String → Explanation = λ kind reason factors.
        explained kind reason (rule_factors rule ++ factors) risk mutates e in
      unless_hard (denial rule) (λ reason. result denied reason [])
        (if mode_beq e.mode danger
          then result allowed
              (utf16
                (tool ⧺ " (" ⧺ risk_name risk ⧺ ") is allowed in danger mode without approval."))
              (risk_factors tool risk e
                ++ when (asks rule) "policy-as-code approval is bypassed in danger mode"
                ++ "danger mode bypasses all approval requirements" ∷ [])
          else let factors =
              risk_factors tool risk e
              ++ when (not (on_list tool e || is_high risk))
                  ("risk is " ⧺ risk_name risk ⧺ " and allowed in " ⧺ mode_name e.mode ⧺ " mode") in
            if needs_approval tool risk rule e
            then if is_session_allowed p tool principal e.approvals
              then result allowed (utf16 (tool ⧺ " is allowed for this principal session."))
                  (factors ++ "a principal-bound session approval is already active" ∷ [])
              else result gated (gate_reason tool risk rule e) factors
            else result allowed (gate_reason tool risk rule e) factors)

  -- `none` is the exception of a pattern of the policy files.
  unfoldable pub explain :
      CommandHost
      → String
      → RiskLevel
      → Bool
      → Value
      → ToolPrincipal
      → PolicyEngine
      → Option Explanation
  unfolding explain_rules command_deny mode_deny
  explain h tool risk mutates args principal e =
      unless_hard (command_deny h tool args e)
        (λ reason. some (explained denied reason (deny_factors reason) risk mutates e))
        (unless_hard (mode_deny risk mutates false e.mode)
          (λ reason. some (explained denied reason (mode_factors risk e.mode) risk mutates e))
          (with_found (AsCode.evaluate e.rules (context_of tool risk mutates principal e))
            (λ rule. explain_rules tool risk mutates principal rule e)))

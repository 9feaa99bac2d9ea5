-- ===== src/Policy/Engine.antt =====
-- src/policy/policy-engine.ts: one decision from the command policy, the risk, the mode, the policy
-- files and the approval queue. `principal` is the requester after `normalizePrincipal`.
pub mod Explain
pub mod Decisions
use folder_forge.Base.{
  ℕ, String, Bool, true, false, not, ◌&&◌, ◌||◌, Option, none, some, List, [], ◌∷◌, ◌++◌, leb,
  if◌then◌else◌, ◌==◌, string_eq, utf16,
}
use folder_forge.Core.{
  RiskLevel, low, medium, high, critical, PolicyMode, readonly, safe, dev, danger, ToolPrincipal,
  risk_order, risk_beq, mode_beq,
}
use folder_forge.Json.{Value, str, obj, Fields, no_fields, field, Platform, ◌⧺◌}
use folder_forge.Policy.Approvals.{
  ApprovalEngine, ApprovalError, ApprovalRequest, Outcome, returned, raised, contains, create,
  consume_once, is_session_allowed,
}
use folder_forge.Policy.AsCode.{LoadedRule, PolicyRuleContext, PolicyRuleMatch, is_deny}
use folder_forge.Policy.AsCode
use folder_forge.Policy.CommandPolicy.{Text, CommandHost, classify, starts_with}

pub data SandboxMode : Type 0 where
  process docker podman : SandboxMode

-- `config.terminal.sandbox`
pub record Sandbox : Type 0 where
  pub mode : SandboxMode
  pub require_in_danger : Option Bool

pub record PolicyEngine : Type 0 where
  pub mode : PolicyMode
  pub require_approval : List String
  pub rules : List LoadedRule
  pub approvals : ApprovalEngine
  pub sandbox : Option Sandbox
  pub blocked_commands : List String

pub data Decision : Type 0 where
  allow : RiskLevel → Decision
  deny : RiskLevel → Text → Decision
  approval : (risk : RiskLevel) (approval_id reason : String) → Decision

-- What a call of `evaluate` ends with: a decision, the exception of a pattern of the policy files,
-- or an exception of the approval queue.
pub data Ruling {ℓ} (A : Type ℓ) : Type ℓ where
  decided : A → Ruling A
  pattern_error : Ruling A
  approval_error : ApprovalError → Ruling A

abbrev pub risk_name : RiskLevel → String
risk_name low = "LOW"
risk_name medium = "MEDIUM"
risk_name high = "HIGH"
risk_name critical = "CRITICAL"

abbrev pub mode_name : PolicyMode → String
mode_name readonly = "readonly"
mode_name safe = "safe"
mode_name dev = "dev"
mode_name danger = "danger"

unfoldable pub set_mode : PolicyMode → PolicyEngine → PolicyEngine
set_mode mode e = record e { mode = mode }

-- `args.command`, where it is a string
unfoldable pub command_field : Fields → Option String
command_field no_fields = none
command_field (field k (str s) rest) =
    let later = command_field rest in if k == "command" then some s else later
command_field (field k v rest) =
    let later = command_field rest in if k == "command" then none else later

unfoldable pub command_of : Value → Option String
unfolding command_field
command_of (obj fields) = command_field fields
command_of v = none

-- Whether danger mode lacks the container that it needs.
unfoldable pub lacks_container : Option Sandbox → Bool
lacks_container none = true
lacks_container (some s) = elim s.require_in_danger [
  | some false ↦ false
  | _ ↦ elim s.mode [ process ↦ true | _ ↦ false ]
]

module _ (h : CommandHost) where
  unfoldable pub command_block : List String → Option String → Option Text
  unfolding classify
  command_block blocked none = none
  command_block blocked (some command) = elim (classify h blocked (utf16 command)).blocked_reason [
    | none ↦ none
    | some (prefix, detail) ↦ some (utf16 ("Blocked destructive command: " ⧺ prefix) ++ detail)
  ]

  unfoldable pub command_deny : String → Value → PolicyEngine → Option Text
  unfolding lacks_container command_of command_block
  command_deny tool args e =
      if tool == "shell_exec" || tool == "process_start"
      then if mode_beq e.mode danger && lacks_container e.sandbox
        then some
            (utf16 "Danger command execution requires terminal.sandbox.mode docker or podman.")
        else command_block e.blocked_commands (command_of args)
      else none

-- The tests on risk and mode that come before the policy files.
unfoldable pub mode_deny : RiskLevel → Bool → Bool → PolicyMode → Option Text
mode_deny risk mutates bypass_readonly mode =
    if risk_beq risk critical && not (mode_beq mode danger)
    then some (utf16 ("CRITICAL action blocked in " ⧺ mode_name mode ⧺ " mode."))
    else if mode_beq mode readonly && mutates && not bypass_readonly
    then some (utf16 "Workspace is in readonly mode; mutations are blocked.")
    else none

abbrev pub context_of : String → RiskLevel → Bool → ToolPrincipal → PolicyEngine → PolicyRuleContext
context_of tool risk mutates principal e = record {
  tool = tool;
  risk = risk;
  mutates = mutates;
  mode = e.mode;
  principal = principal;
}

-- `policyRule?.effect === 'approval'`
abbrev pub asks : Option PolicyRuleMatch → Bool
asks none = false
asks (some m) = not (is_deny m.effect)

unfoldable pub needs_approval : String → RiskLevel → Option PolicyRuleMatch → PolicyEngine → Bool
unfolding contains
needs_approval tool risk rule e =
    contains tool e.require_approval || leb (risk_order high) (risk_order risk) || asks rule

abbrev pub approval_reason : String → RiskLevel → Option PolicyRuleMatch → String
approval_reason tool risk none = tool ⧺ " (" ⧺ risk_name risk ⧺ ") requires approval."
approval_reason tool risk (some m) =
    if is_deny m.effect then tool ⧺ " (" ⧺ risk_name risk ⧺ ") requires approval." else m.reason

-- The reason of a deny rule.
abbrev pub denial : Option PolicyRuleMatch → Option Text
denial none = none
denial (some m) = if is_deny m.effect then some (utf16 m.reason) else none

-- `if (reason) return { kind: 'deny', risk, reason };`
abbrev pub unless_denied :
    RiskLevel
    → PolicyEngine
    → Option Text
    → Ruling Decision × PolicyEngine
    → Ruling Decision × PolicyEngine
unless_denied risk e (some reason) rest = (decided (deny risk reason), e)
unless_denied risk e none rest = rest

-- The exception of a pattern, or what follows the search of a rule.
abbrev pub with_rule :
    PolicyEngine
    → Option (Option PolicyRuleMatch)
    → (Option PolicyRuleMatch → Ruling Decision × PolicyEngine)
    → Ruling Decision × PolicyEngine
with_rule e none rest = (pattern_error, e)
with_rule e (some rule) rest = rest rule

module _ (p : Platform) (sanitize_args : Value → Value) (disk : ApprovalRequest → Bool)
    (id : String) (now : ℕ) where
  -- `toApproval`
  unfoldable pub to_approval :
      String
      → RiskLevel
      → Value
      → String
      → ToolPrincipal
      → PolicyEngine
      → Ruling Decision × PolicyEngine
  to_approval tool risk args reason principal e =
      let (outcome, a) =
        create p sanitize_args disk id now tool args risk reason principal e.approvals in
      elim outcome [
        | raised error ↦ (approval_error error, record e { approvals = a })
        | returned req ↦ (decided (approval risk req.id reason), record e { approvals = a })
      ]

  -- The part of `evaluate` that uses the approval queue.
  unfoldable pub gate :
      String
      → RiskLevel
      → Value
      → String
      → ToolPrincipal
      → PolicyEngine
      → Ruling Decision × PolicyEngine
  unfolding to_approval
  gate tool risk args reason principal e =
      if is_session_allowed p tool principal e.approvals
      then (decided (allow risk), e)
      else let (outcome, a) = consume_once p disk now tool args principal e.approvals in
        elim outcome [
          | raised error ↦ (approval_error error, record e { approvals = a })
          | returned true ↦ (decided (allow risk), record e { approvals = a })
          | returned false ↦
              to_approval tool risk args reason principal (record e { approvals = a })
        ]

  -- The part of `evaluate` after the policy files.
  unfoldable pub after_rules :
      String
      → RiskLevel
      → Value
      → ToolPrincipal
      → Option PolicyRuleMatch
      → PolicyEngine
      → Ruling Decision × PolicyEngine
  unfolding gate needs_approval
  after_rules tool risk args principal rule e = unless_denied risk e (denial rule) (
      if mode_beq e.mode danger
      then (decided (allow risk), e)
      else if needs_approval tool risk rule e
      then gate tool risk args (approval_reason tool risk rule) principal e
      else (decided (allow risk), e))

  unfoldable pub evaluate :
      CommandHost
      → String
      → RiskLevel
      → Bool
      → Value
      → ToolPrincipal
      → Bool
      → PolicyEngine
      → Ruling Decision × PolicyEngine
  unfolding after_rules command_deny mode_deny
  evaluate h tool risk mutates args principal bypass_readonly e =
      unless_denied risk e (command_deny h tool args e) (
        unless_denied risk e (mode_deny risk mutates bypass_readonly e.mode) (
          with_rule e (AsCode.evaluate e.rules (context_of tool risk mutates principal e))
            (λ rule. after_rules tool risk args principal rule e)))

-- `enforce`: the call goes on exactly with an `allow`.
pub data Enforced : Type 0 where
  goes_on : Enforced
  policy_denied : Text → Enforced
  approval_required : (reason approval_id : String) → Enforced

unfoldable pub enforce : Decision → Enforced
enforce (allow risk) = goes_on
enforce (deny risk reason) = policy_denied reason
enforce (approval risk approval_id reason) = approval_required reason approval_id

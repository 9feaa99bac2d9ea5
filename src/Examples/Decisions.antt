-- ===== src/Examples/Decisions.antt =====
-- Runs of the policy engine of src/policy/policy-engine.ts.
use folder_forge.Base.{
  ◌≡◌, ◌≢◌, refl, ◌⊎◌, Bool, true, false, Option, none, some, [], ◌∷◌, string_eq, utf16,
}
use folder_forge.Core.{medium, critical, PolicyMode, dev, danger, readonly}
use folder_forge.Json.{Value, str, canonical}
use folder_forge.Policy.Approvals.{
  contains, consume_once, earliest, is_spendable, is_session_allowed,
}
use folder_forge.Policy.Approvals.Evidence.{fingerprint}
use folder_forge.Policy.Approvals.Binding.{approval_binding, binding_key}
use folder_forge.Policy.AsCode
use folder_forge.Policy.AsCode.{PolicyRuleMatch}
use folder_forge.Policy.Engine.{
  PolicyEngine, Decision, allow, decided, Ruling, denial, needs_approval, context_of, evaluate,
  command_deny, mode_deny, gate,
}
use folder_forge.Policy.Engine.Explain.{Explanation, gated, explain}
use folder_forge.Policy.Engine.Decisions.{
  run, is_gated, Approved, Foretold, allow_grounds, danger_ungated, explain-evaluate, gated-allowed,
}
use folder_forge.Examples.Patterns.{ann, plain_host}
use folder_forge.Examples.Approvals.{platform, takes_all, usable, queue_of, empty_queue}

abbrev engine : PolicyMode → PolicyEngine
engine mode = record {
  mode = mode;
  require_approval = "deploy" ∷ [];
  rules = [];
  approvals = queue_of usable none;
  sandbox = none;
  blocked_commands = [];
}

abbrev keep : Value → Value
keep v = v

abbrev deploys : Bool → PolicyEngine → Ruling Decision × PolicyEngine
deploys = run platform keep takes_all "r2" 20 plain_host "deploy" medium true (str "app") ann

allow_grounds_example :
    (medium ≢ critical)
    × ((dev ≢ readonly) ⊎ ((true ≡ false) ⊎ (false ≡ true)))
    × (rule : Option PolicyRuleMatch) × ((AsCode.evaluate []
            (context_of "deploy" medium true ann (engine dev))
          ≡ some rule)
        × ((denial rule ≡ none)
            × ((needs_approval "deploy" medium rule (engine dev) ≡ false)
                ⊎ Approved platform keep takes_all "r2" 20 plain_host "deploy" medium true
                    (str "app")
                    ann
                    (engine dev))))
unfolding run evaluate command_deny mode_deny AsCode.evaluate gate consume_once earliest
    is_spendable binding_key approval_binding fingerprint canonical contains is_session_allowed
allow_grounds_example =
    allow_grounds platform keep takes_all "r2" 20 plain_host "deploy" medium true (str "app") ann
      false (engine dev) medium refl (λ h. cc)

danger_ungated_example :
    ((deploys false (engine danger)).1 ≡ engine danger)
    × ((is_gated platform keep takes_all "r2" 20 plain_host "deploy" medium true
            (str "app")
            ann
            (deploys false (engine danger)).0
          ≡ false)
        × ((deploys false (record (engine danger) { approvals = empty_queue })).0
            ≡ (deploys false (engine danger)).0))
danger_ungated_example =
    danger_ungated platform keep takes_all "r2" 20 plain_host "deploy" medium true (str "app") ann
      false (engine danger) empty_queue refl

explain-evaluate_example :
    Foretold platform keep takes_all "r2" 20 plain_host "deploy" medium true
      (str "app")
      ann
      (engine dev)
      (explain platform plain_host "deploy" medium true (str "app") ann (engine dev))
      (deploys false (engine dev))
explain-evaluate_example =
    explain-evaluate platform keep takes_all "r2" 20 plain_host "deploy" medium true (str "app") ann
      (engine dev)

abbrev asks_first : Explanation
asks_first = record {
  decision = gated;
  risk = medium;
  reason = utf16 "deploy (MEDIUM) requires approval.";
  mode = dev;
  mutates = true;
  factors = "tool is in requireApproval list" ∷ [];
}

-- The explanation asks for an approval, and the call is allowed by one that is at hand.
gated-allowed_example : (deploys false (engine dev)).0 ≡ decided (allow medium)
unfolding explain command_deny mode_deny AsCode.evaluate consume_once earliest is_spendable
    binding_key approval_binding fingerprint canonical contains is_session_allowed
gated-allowed_example =
    gated-allowed platform keep takes_all "r2" 20 plain_host "deploy" medium true (str "app") ann
      (engine dev) asks_first refl refl refl

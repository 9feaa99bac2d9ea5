-- ===== src/Examples/Patterns.antt =====
-- Runs of src/policy/glob-match.ts, policy-as-code.ts and command-policy.ts.
use folder_forge.Base.{◌↔◌, ◌≡◌, refl, true, false, ◌&&◌, none, some, [], ◌∷◌, any, is_some, utf16}
use folder_forge.Core.{high, dev, agent, ToolPrincipal}
use folder_forge.Policy.GlobMatch.{glob_test, picomatch_lite}
use folder_forge.Policy.GlobMatch.Covers.{Covers}
use folder_forge.Policy.GlobMatch.Accepted.{glob_test_iff}
use folder_forge.Policy.GlobMatch.Denied.{glob_test-any_dir}
use folder_forge.Policy.AsCode.{
  LoadedRule, deny, approval, PolicyRuleContext, is_deny, rule_match, matches, evaluate,
}
use folder_forge.Policy.AsCode.Precedence.{is_hit, is_denial, deny_first}
use folder_forge.Policy.CommandPolicy.{CommandHost, classify, trim}
use folder_forge.Policy.CommandPolicy.Classes.{IsBlocked, destructive, classify-IsBlocked}

glob_test_iff_example :
    (glob_test (b'*' ∷ b'*' ∷ b'/' ∷ b'a' ∷ b'*' ∷ []) (b'x' ∷ b'/' ∷ b'a' ∷ b'b' ∷ []) ≡ some true)
    ↔ Covers (b'*' ∷ b'*' ∷ b'/' ∷ b'a' ∷ b'*' ∷ []) (b'x' ∷ b'/' ∷ b'a' ∷ b'b' ∷ [])
glob_test_iff_example =
    glob_test_iff (b'*' ∷ b'*' ∷ b'/' ∷ b'a' ∷ b'*' ∷ []) (b'x' ∷ b'/' ∷ b'a' ∷ b'b' ∷ []) refl

-- A directory with a newline in its name hides the file from the pattern.
glob_test-any_dir_example :
    glob_test (b'*' ∷ b'*' ∷ b'/' ∷ b'.' ∷ b'e' ∷ []) (b'a' ∷ 10 ∷ b'b' ∷ b'/' ∷ b'.' ∷ b'e' ∷ [])
    ≡ some false
glob_test-any_dir_example = glob_test-any_dir (b'a' ∷ 10 ∷ b'b' ∷ []) (b'.' ∷ b'e' ∷ []) refl

abbrev pub ann : ToolPrincipal
ann = record {
  id = "ann";
  role = agent;
  roles = none;
  organization_id = none;
  team_ids = none;
  project_id = none;
  session_id = none;
  oauth_client_id = none;
  capsule_id = none;
  task_id = none;
}

abbrev ask_deploy : LoadedRule
ask_deploy = record {
  id = "ask";
  effect = approval;
  tools = "deploy" ∷ [];
  risks = none;
  mutates = none;
  modes = none;
  principals = none;
  reason = "ask first";
  source = "a.yaml";
}

abbrev no_deploy : LoadedRule
no_deploy = record {
  id = "no";
  effect = deny;
  tools = "dep*" ∷ [];
  risks = some (high ∷ []);
  mutates = none;
  modes = none;
  principals = none;
  reason = "frozen";
  source = "b.yaml";
}

abbrev deployment : PolicyRuleContext
deployment = record { tool = "deploy"; risk = high; mutates = true; mode = dev; principal = ann }

deny_first_example :
    (is_some (some (rule_match no_deploy))
      ≡ any (λ r. is_hit (matches r deployment)) (ask_deploy ∷ no_deploy ∷ []))
    × (is_denial (some (rule_match no_deploy))
        ≡ any
            (λ r. is_deny r.effect && is_hit (matches r deployment))
            (ask_deploy ∷ no_deploy ∷ []))
unfolding evaluate matches picomatch_lite
deny_first_example =
    deny_first (ask_deploy ∷ no_deploy ∷ []) deployment (some (rule_match no_deploy)) refl

-- A host whose expressions match nothing.
abbrev pub plain_host : CommandHost
plain_host = record {
  exec = λ source flags s. none;
  to_lower_case = λ s. s;
  is_absolute = λ s. true;
  resolve = λ s. s;
  relative = λ a b. b;
  tmpdir = b'/' ∷ b't' ∷ [];
}

classify-IsBlocked_example :
    IsBlocked plain_host
      (classify plain_host ("mkfs*now" ∷ []) (utf16 "mkfs it now"))
      (destructive plain_host ("mkfs*now" ∷ []) (trim (utf16 "mkfs it now")))
classify-IsBlocked_example =
    classify-IsBlocked plain_host ("mkfs*now" ∷ []) (utf16 "mkfs it now") refl

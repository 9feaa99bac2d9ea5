-- ===== src/Policy/AsCode.antt =====
-- src/policy/policy-as-code.ts: which rule of the policy files decides a call. The rules are those
-- that the constructor loaded. `none` is the exception of a pattern that is no regular expression.
pub mod Precedence
use folder_forge.Base.Options.{◌>>=◌}
use folder_forge.Base.{
  String, Bool, true, false, Option, none, some, List, [], ◌∷◌, if◌then◌else◌, ◌==◌, string_eq, any,
  find, get_or, head?, is_some,
}
use folder_forge.Core.{RiskLevel, PolicyMode, ToolPrincipal, risk_beq, mode_beq, role_name}
use folder_forge.Json.{◌⧺◌}
use folder_forge.Policy.GlobMatch.{picomatch_lite}

pub data PolicyRuleEffect : Type 0 where
  deny approval : PolicyRuleEffect

pub record PolicyRulePrincipalSelector : Type 0 where
  pub ids : Option (List String)
  pub roles : Option (List String)
  pub organization_ids : Option (List String)
  pub team_ids : Option (List String)
  pub project_ids : Option (List String)
  pub session_ids : Option (List String)

pub record LoadedRule : Type 0 where
  pub id : String
  pub effect : PolicyRuleEffect
  pub tools : List String
  pub risks : Option (List RiskLevel)
  pub mutates : Option Bool
  pub modes : Option (List PolicyMode)
  pub principals : Option PolicyRulePrincipalSelector
  pub reason : String
  pub source : String

pub record PolicyRuleContext : Type 0 where
  pub tool : String
  pub risk : RiskLevel
  pub mutates : Bool
  pub mode : PolicyMode
  pub principal : ToolPrincipal

pub record PolicyRuleMatch : Type 0 where
  pub effect : PolicyRuleEffect
  pub rule_id : String
  pub reason : String
  pub source : String

abbrev pub is_deny : PolicyRuleEffect → Bool
is_deny deny = true
is_deny approval = false

-- `xs.some(p)` where `p` may throw
unfoldable pub any_or_throw {ℓ} : {A : Type ℓ} → (A → Option Bool) → List A → Option Bool
any_or_throw p [] = some false
any_or_throw p (x ∷ xs) =
    let rest = any_or_throw p xs in do hit ← p x; if hit then some true else rest

unfoldable pub any_pattern : Option (List String) → List String → Option Bool
unfolding any_or_throw
any_pattern none values = some true
any_pattern (some patterns) values =
    any_or_throw (λ pattern. any_or_throw (picomatch_lite pattern) values) patterns

-- `if (!a) return false;` and the rest
infixr 35 ◌and_then◌
abbrev pub ◌and_then◌ : Option Bool → Option Bool → Option Bool
a and_then b = do passed ← a; if passed then b else some false

-- A selector that needs the principal to have a value: an empty text or list counts as none.
unfoldable pub needs : Option (List String) → Option String → Option Bool
unfolding any_pattern
needs none value = some true
needs (some patterns) none = some false
needs (some patterns) (some value) =
    if value == "" then some false else any_pattern (some patterns) (value ∷ [])

unfoldable pub needs_any : Option (List String) → Option (List String) → Option Bool
unfolding any_pattern
needs_any none values = some true
needs_any (some patterns) none = some false
needs_any (some patterns) (some []) = some false
needs_any (some patterns) (some (v ∷ values)) = any_pattern (some patterns) (v ∷ values)

unfoldable pub matches_principal : PolicyRulePrincipalSelector → ToolPrincipal → Option Bool
unfolding any_pattern needs needs_any
matches_principal s who =
    any_pattern s.ids (who.id ∷ [])
    and_then any_pattern s.roles (role_name who.role ∷ get_or who.roles [])
    and_then needs s.organization_ids who.organization_id
    and_then needs_any s.team_ids who.team_ids
    and_then needs s.project_ids who.project_id
    and_then needs s.session_ids who.session_id

abbrev includes_risk : Option (List RiskLevel) → RiskLevel → Bool
includes_risk none risk = true
includes_risk (some risks) risk = any (risk_beq risk) risks

abbrev includes_mode : Option (List PolicyMode) → PolicyMode → Bool
includes_mode none mode = true
includes_mode (some modes) mode = any (mode_beq mode) modes

abbrev agrees : Option Bool → Bool → Bool
agrees none b = true
agrees (some true) b = b
agrees (some false) b = if b then false else true

unfoldable pub matches : LoadedRule → PolicyRuleContext → Option Bool
unfolding any_pattern matches_principal
matches rule context =
    any_pattern (some rule.tools) (context.tool ∷ [])
    and_then some (includes_risk rule.risks context.risk)
    and_then some (agrees rule.mutates context.mutates)
    and_then some (includes_mode rule.modes context.mode)
    and_then elim rule.principals [
      | none ↦ some true
      | some selectors ↦ matches_principal selectors context.principal
    ]

-- `this.rules.filter((rule) => matches(rule, context))`
unfoldable pub matched : PolicyRuleContext → List LoadedRule → Option (List LoadedRule)
matched context [] = some []
matched context (rule ∷ rules) =
    let rest = matched context rules in
    do hit ← matches rule context; more ← rest; some (if hit then rule ∷ more else more)

-- `matched.find((candidate) => candidate.effect === 'deny') ?? matched[0]`
unfoldable pub select : List LoadedRule → Option LoadedRule
select rules = elim (find (λ r. is_deny r.effect) rules) [ none ↦ head? rules | some r ↦ some r ]

abbrev pub rule_match : LoadedRule → PolicyRuleMatch
rule_match rule = record {
  effect = rule.effect;
  rule_id = rule.id;
  reason = rule.reason ⧺ " (policy rule " ⧺ rule.id ⧺ ")";
  source = rule.source;
}

abbrev pub result_of : Option LoadedRule → Option PolicyRuleMatch
result_of none = none
result_of (some rule) = some (rule_match rule)

-- The outer `none` is an exception, the inner one is `undefined`.
unfoldable pub evaluate : List LoadedRule → PolicyRuleContext → Option (Option PolicyRuleMatch)
unfolding matched select
evaluate rules context = do candidates ← matched context rules; some (result_of (select candidates))

-- ===== src/Core.antt =====
-- src/core/types.ts: the types that the components share, and the order of risks of
-- src/policy/risk.ts.
use folder_forge.Base.{
  ℕ, String, ◌≡◌, ◌↔◌, Bool, true, false, Option, List, Equality, nat_eq, leb, if◌then◌else◌, arith,
}

pub data RiskLevel : Type 0 where
  low medium high critical : RiskLevel

pub data PolicyMode : Type 0 where
  readonly safe dev danger : PolicyMode

pub data Role : Type 0 where
  agent admin system : Role

-- The fields that the modelled components read.
pub record ToolPrincipal : Type 0 where
  pub id : String
  pub role : Role
  pub roles : Option (List String)
  pub organization_id : Option String
  pub team_ids : Option (List String)
  pub project_id : Option String
  pub session_id : Option String
  pub oauth_client_id : Option String
  pub capsule_id : Option String
  pub task_id : Option String

-- `RISK_ORDER`
abbrev pub risk_order : RiskLevel → ℕ
risk_order low = 0
risk_order medium = 1
risk_order high = 2
risk_order critical = 3

unfoldable pub max_risk : RiskLevel → RiskLevel → RiskLevel
max_risk a b = if leb (risk_order b) (risk_order a) then a else b

abbrev mode_order : PolicyMode → ℕ
mode_order readonly = 0
mode_order safe = 1
mode_order dev = 2
mode_order danger = 3

abbrev pub risk_beq : RiskLevel → RiskLevel → Bool
risk_beq a b = nat_eq.equals (risk_order a) (risk_order b)

pub risk_beq_iff : (a b : RiskLevel) → (risk_beq a b ≡ true) ↔ (a ≡ b)
risk_beq_iff a b = ground arith

abbrev pub mode_beq : PolicyMode → PolicyMode → Bool
mode_beq a b = nat_eq.equals (mode_order a) (mode_order b)

pub mode_beq_iff : (a b : PolicyMode) → (mode_beq a b ≡ true) ↔ (a ≡ b)
mode_beq_iff a b = ground arith

instance abbrev pub risk_eq : Equality RiskLevel
risk_eq = record { equals = risk_beq; equals_iff = risk_beq_iff }

instance abbrev pub mode_eq : Equality PolicyMode
mode_eq = record { equals = mode_beq; equals_iff = mode_beq_iff }

-- The role's text, where a pattern is matched against it.
abbrev pub role_name : Role → String
role_name agent = "agent"
role_name admin = "admin"
role_name system = "system"

abbrev pub is_admin : Role → Bool
is_admin admin = true
is_admin _ = false

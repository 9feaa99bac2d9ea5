-- ===== src/AgentLoops.antt =====
-- src/agent-loops/agent-loop-manager.ts: what a loop's file holds, and what the code takes of the
-- host. A `number` that is a score, a weight or a threshold is of the type `T` of doubles.
pub mod Files
pub mod EventOrder
pub mod Invariant
pub mod Ballots
pub mod Keeps
pub mod Delivers
pub mod Creation
pub mod Lifecycle
pub mod Council
pub mod Delivery
pub mod Calls
pub mod Reports
pub mod Runner
pub mod History
pub mod Ends
pub mod Filed
pub mod Rounds
pub mod Termination
use folder_forge.Base.{ℕ, String, Bool, true, false, Option, List}
use folder_forge.Json.{Value}

pub data AgentLoopPhase : Type 0 where
  discovery council implementation verification completed paused failed cancelled : AgentLoopPhase

pub data AgentLoopState : Type 0 where
  created running paused completed failed cancelled : AgentLoopState

pub record AgentLoopExpert (T : Type 0) : Type 0 where
  pub id : String
  pub role : String
  pub weight : T
  pub model : Option String

pub record AgentLoopProposal : Type 0 where
  pub id : String
  pub iteration : ℕ
  pub expert_id : String
  pub phase : AgentLoopPhase
  pub summary : String
  pub plan : List String
  pub risks : List String
  pub evidence : List String
  pub created_at : ℕ

pub record AgentLoopVote (T : Type 0) : Type 0 where
  pub id : String
  pub iteration : ℕ
  pub expert_id : String
  pub proposal_id : String
  pub score : T
  pub approve : Bool
  pub rationale : String
  pub created_at : ℕ

pub record Ranking (T : Type 0) : Type 0 where
  pub proposal_id : String
  pub consensus : T
  pub approval_rate : T
  pub vote_count : ℕ

pub record AgentLoopDecision (T : Type 0) : Type 0 where
  pub winner : Ranking T
  pub decided_at : ℕ
  pub ranked : List (Ranking T)

pub record Criterion : Type 0 where
  pub name : String
  pub passed : Bool
  pub evidence : Option String

pub record ProofPack : Type 0 where
  pub id : String
  pub manifest_sha256 : String
  pub verified : Bool

pub record AgentLoopVerification : Type 0 where
  pub passed : Bool
  pub criteria : List Criterion
  pub checks : List String
  pub notes : Option String
  pub recorded_at : ℕ
  pub proof_pack : Option ProofPack

pub data ImplementationStatus : Type 0 where
  underway done blocked : ImplementationStatus

pub record Implementation : Type 0 where
  pub status : ImplementationStatus
  pub summary : String
  pub changed_paths : List String
  pub recorded_at : ℕ

pub record AgentLoopEvent : Type 0 where
  pub seq : ℕ
  pub kind : String
  pub phase : AgentLoopPhase
  pub iteration : ℕ
  pub message : String
  pub details : Option Value
  pub recorded_at : ℕ

pub record AgentLoopRun (T : Type 0) : Type 0 where
  pub schema_version : ℕ
  pub id : String
  pub revision : ℕ
  pub integrity_sha256 : String
  pub title : String
  pub goal : String
  pub acceptance_criteria : List String
  pub project_root : String
  pub owner_id : String
  pub client_id : Option String
  pub session_id : Option String
  pub task_id : Option String
  pub run_invocation_key_hash : Option String
  pub experts : List (AgentLoopExpert T)
  pub council_min_votes : ℕ
  pub council_threshold : T
  pub max_iterations : ℕ
  pub iteration : ℕ
  pub phase : AgentLoopPhase
  pub state : AgentLoopState
  pub created_at : ℕ
  pub updated_at : ℕ
  pub started_at : Option ℕ
  pub completed_at : Option ℕ
  pub pause_reason : Option String
  pub failure : Option String
  pub proposals : List AgentLoopProposal
  pub votes : List (AgentLoopVote T)
  pub events : List AgentLoopEvent
  pub decision : Option (AgentLoopDecision T)
  pub implementation_report : Option Implementation
  pub verification_report : Option AgentLoopVerification

-- The arithmetic of doubles.
pub record Doubles (T : Type 0) : Type 0 where
  pub of_nat : ℕ → T
  pub half : T
  pub add : T → T → T
  pub mul : T → T → T
  pub div : T → T → T
  pub lt : T → T → Bool
  pub is_finite : T → Bool
  pub is_nan : T → Bool
  -- JavaScript's truth: neither 0 nor NaN
  pub truthy : T → Bool
  -- the value in a JSON text
  pub json : T → Value

-- The text operations of the language, `hash` of the JSON text of a run without its
-- `integritySha256`, and the pattern of ids.
pub record LoopHost (T : Type 0) : Type 0 where
  pub doubles : Doubles T
  pub trim : String → String
  pub slice : ℕ → String → String
  pub text_length : String → ℕ
  pub stringify : Value → String
  pub decimal : ℕ → String
  pub digest : AgentLoopRun T → String
  pub key_hash : String → String
  pub is_loop_id : String → Bool

pub data LoopError : Type 0 where
  invalid_id loop_not_found integrity_failed access_denied client_mismatch session_mismatch :
      LoopError
  task_mismatch is_terminal_error invalid_key other_key not_proposing unknown_expert : LoopError
  summary_required not_voting unknown_proposal bad_score no_proposals no_quorum : LoopError
  no_consensus not_implementing not_verifying title_required criteria_required : LoopError
  too_few_experts duplicate_expert : LoopError

abbrev pub is_council : AgentLoopPhase → Bool
is_council council = true
is_council _ = false

abbrev pub is_discovery : AgentLoopPhase → Bool
is_discovery discovery = true
is_discovery _ = false

abbrev pub is_implementing : AgentLoopPhase → Bool
is_implementing implementation = true
is_implementing _ = false

abbrev pub is_verifying : AgentLoopPhase → Bool
is_verifying verification = true
is_verifying _ = false

abbrev pub is_running : AgentLoopState → Bool
is_running running = true
is_running _ = false

abbrev pub is_terminal : AgentLoopState → Bool
is_terminal completed = true
is_terminal failed = true
is_terminal cancelled = true
is_terminal _ = false

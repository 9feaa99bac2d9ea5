-- ===== src/AgentLoops/Creation.antt =====
-- src/agent-loops/agent-loop-manager.ts: `create`. The numbers of votes and of iterations that a
-- caller gives are natural numbers.
use folder_forge.Base.{
  ℕ, String, Bool, false, not, ◌&&◌, ◌||◌, Option, none, some, List, [], ◌∷◌, filter, any, length,
  if◌then◌else◌, ltb, leb, ◌==◌, string_eq, nat_eq, get_or, map, max, min,
}
use folder_forge.Base.Results.{Result, ok, ◌>>=◌, require}
use folder_forge.Json.{no_fields}
use folder_forge.Core.{ToolPrincipal}
use folder_forge.AgentLoops.{
  discovery, created, AgentLoopExpert, AgentLoopRun, LoopHost, LoopError, title_required,
  criteria_required, too_few_experts, duplicate_expert,
}
use folder_forge.AgentLoops.Files.{
  LoopClock, Runs, append_event, clean_items, owner_id, max_text, max_items, save,
}

-- An expert of the input, with no weight or no model where the caller gave none.
pub record ExpertInput (T : Type 0) : Type 0 where
  pub id : String
  pub role : String
  pub weight : Option T
  pub model : Option String

-- `Math.floor(Number(x))`. A negative number stands as 0 and an infinite one as any above the clamps.
pub data Floored : Type 0 where
  not_a_number : Floored
  whole : ℕ → Floored

pub record LoopInput (T : Type 0) : Type 0 where
  pub title : String
  pub goal : String
  pub acceptance_criteria : List String
  pub experts : List (ExpertInput T)
  pub council_min_votes : Option Floored
  pub council_threshold : Option T
  pub max_iterations : Option Floored
  pub project_root : Option String

-- `Math.max(low, Math.min(high, n))`. NaN passes the clamps and is `null` in the file, which counts as 0
-- in each comparison: it stands as 0, which no number clamps to.
unfoldable pub clamp_whole : (low high : ℕ) → Floored → ℕ
clamp_whole low high not_a_number = 0
clamp_whole low high (whole n) = max low (min high n)

unfoldable pub given : Option String → Option String
given none = none
given (some s) = if s == "" then none else some s

module _ {T : Type 0} (h : LoopHost T) where
  abbrev default_expert : String → String → T → ExpertInput T
  default_expert id role weight = record {
    id = id;
    role = role;
    weight = some weight;
    model = none;
  }

  -- `DEFAULT_EXPERTS`; `six_fifths` is 1.2.
  unfoldable pub default_experts : T → List (ExpertInput T)
  default_experts six_fifths =
      default_expert "architect" "architecture and systems design" six_fifths
      ∷ default_expert "security" "security and threat modeling" six_fifths
      ∷ default_expert "implementer" "implementation and maintainability" (h.doubles.of_nat 1)
      ∷ default_expert "qa" "testing and verification" (h.doubles.of_nat 1)
      ∷ []

  unfoldable pub clean_expert : ExpertInput T → AgentLoopExpert T
  unfolding given
  clean_expert e = record {
    id = h.trim e.id;
    role = h.slice 500 (h.trim e.role);
    weight = get_or e.weight (h.doubles.of_nat 1);
    model = elim (given e.model) [ none ↦ none | some m ↦ some (h.slice 256 m) ];
  }

  unfoldable pub is_usable : AgentLoopExpert T → Bool
  is_usable e =
      not (e.id == "")
      && not (e.role == "")
      && h.doubles.is_finite e.weight
      && h.doubles.lt (h.doubles.of_nat 0) e.weight

  unfoldable pub has_duplicate : List (AgentLoopExpert T) → Bool
  has_duplicate [] = false
  has_duplicate (e ∷ rest) = any (λ f. f.id == e.id) rest || has_duplicate rest

  unfoldable pub clean_experts : T → List (ExpertInput T) → List (AgentLoopExpert T)
  unfolding default_experts clean_expert is_usable
  clean_experts six_fifths experts =
      filter is_usable
        (map clean_expert (if ltb 0 (length experts) then experts else default_experts six_fifths))

  -- `Math.max(0.5, Math.min(1, threshold))`, with 0 for NaN, as in `clamp_whole`
  unfoldable pub clamp_threshold : T → T
  clamp_threshold t =
      let capped = if h.doubles.lt t (h.doubles.of_nat 1) then t else h.doubles.of_nat 1 in
      if h.doubles.is_nan t
      then h.doubles.of_nat 0
      else if h.doubles.lt capped h.doubles.half
      then h.doubles.half
      else capped

  unfoldable pub new_run :
      LoopClock
      → String
      → (root : String) → (seven_tenths : T) → LoopInput T
      → List (AgentLoopExpert T)
      → ToolPrincipal
      → AgentLoopRun T
  unfolding clean_items clamp_threshold clamp_whole given owner_id
  new_run c id root seven_tenths input experts principal = record {
    schema_version = 1;
    id = id;
    revision = 0;
    integrity_sha256 = "";
    title = h.slice 500 (h.trim input.title);
    goal = h.slice max_text (h.trim input.goal);
    acceptance_criteria = clean_items h input.acceptance_criteria max_items;
    project_root = get_or (given input.project_root) root;
    owner_id = owner_id principal;
    client_id = given principal.oauth_client_id;
    session_id = given principal.session_id;
    task_id = given principal.task_id;
    run_invocation_key_hash = none;
    experts = experts;
    council_min_votes =
        clamp_whole 2 (length experts)
          (get_or input.council_min_votes (whole (min 3 (length experts))));
    council_threshold = clamp_threshold (get_or input.council_threshold seven_tenths);
    max_iterations = clamp_whole 1 100 (get_or input.max_iterations (whole 20));
    iteration = 1;
    phase = discovery;
    state = created;
    created_at = c.operation;
    updated_at = c.operation;
    started_at = none;
    completed_at = none;
    pause_reason = none;
    failure = none;
    proposals = [];
    votes = [];
    events = [];
    decision = none;
    implementation_report = none;
    verification_report = none;
  }

  -- `tenths` are the doubles 1.2 and 0.7.
  unfoldable pub create :
      LoopClock
      → String
      → String
      → (tenths : T × T) → LoopInput T
      → ToolPrincipal
      → Runs h
      → Result LoopError (AgentLoopRun T × Runs h)
  unfolding clean_experts has_duplicate new_run append_event save
  create c id root tenths input principal runs =
      let experts = clean_experts tenths.0 input.experts in
      let run = new_run c id root tenths.1 input experts principal in
      do
        titled ←
            require (not (h.trim input.title == "") && not (h.trim input.goal == "")) title_required
        measured ←
            require (ltb 0 (length (clean_items h input.acceptance_criteria max_items)))
              criteria_required
        enough ← require (leb 2 (length experts)) too_few_experts
        distinct ← require (not (has_duplicate experts)) duplicate_expert
        ok (
            save h c.save (append_event h c.event "created" "Agent loop created." no_fields run)
              runs)

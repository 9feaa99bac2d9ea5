-- ===== src/AgentLoops/Delivery.antt =====
-- src/agent-loops/agent-loop-manager.ts: `recordImplementation`, `recordVerification` and the
-- `goalGate` of a view.
use folder_forge.Base.{
  ℕ, ◌+◌, String, Bool, true, false, not, ◌&&◌, Option, none, some, List, [], ◌∷◌, filter, all,
  length, if◌then◌else◌, ltb, leb, ◌==◌, string_eq, nat_eq, map, count,
}
use folder_forge.Base.Results.{Result, ok, ◌>>=◌, require}
use folder_forge.Json.{num, bool, str, arr, Items, item, no_items, field, no_fields, ◌⧺◌}
use folder_forge.Core.{ToolPrincipal}
use folder_forge.AgentLoops.{
  AgentLoopPhase, AgentLoopState, verification, discovery, AgentLoopRun, Criterion, ProofPack,
  ImplementationStatus, underway, done, blocked, LoopHost, LoopError, not_implementing,
  not_verifying, is_running, is_implementing, is_verifying,
}
use folder_forge.AgentLoops.Files.{
  LoopClock, Runs, Change, changed, append_event, operate, clean_items, max_text,
}

pub record ImplementationInput : Type 0 where
  pub status : ImplementationStatus
  pub summary : String
  pub changed_paths : List String

pub record VerificationInput : Type 0 where
  pub passed : Bool
  pub criteria : List Criterion
  pub checks : List String
  pub notes : Option String
  pub proof_pack : Option ProofPack

abbrev status_text : ImplementationStatus → String
status_text underway = "running"
status_text done = "completed"
status_text blocked = "blocked"

unfoldable pub text_values : List String → Items
text_values [] = no_items
text_values (t ∷ rest) = item (str t) (text_values rest)

-- `text ? text.slice(0, n) : absent`
abbrev short : (String → String) → Option String → Option String
short cut none = none
short cut (some s) = if s == "" then none else some (cut s)

module _ {T : Type 0} where
  -- What a report makes of the state and the phase.
  abbrev pub reported : ImplementationStatus → AgentLoopRun T → AgentLoopRun T
  reported underway run = run
  reported done run = record run { phase = verification }
  reported blocked run = record run {
    state = AgentLoopState.paused;
    phase = AgentLoopPhase.paused;
    pause_reason = some "Implementation reported a blocker.";
  }

  -- The three outcomes of a verification.
  unfoldable pub completed_run : ℕ → AgentLoopRun T → AgentLoopRun T
  completed_run now run = record run {
    state = AgentLoopState.completed;
    phase = AgentLoopPhase.completed;
    completed_at = some now;
    failure = none;
  }

  unfoldable pub failed_run : ℕ → AgentLoopRun T → AgentLoopRun T
  failed_run now run = record run {
    state = AgentLoopState.failed;
    phase = AgentLoopPhase.failed;
    failure = some "Goal gate failed after maxIterations.";
    completed_at = some now;
  }

  unfoldable pub next_iteration : AgentLoopRun T → AgentLoopRun T
  next_iteration run = record run {
    iteration = run.iteration + 1;
    phase = discovery;
    decision = none;
    implementation_report = none;
    pause_reason = some "Verification failed; loop returned to discovery.";
  }

-- `goalGate` of `view`
pub record GoalGate : Type 0 where
  pub satisfied : Bool
  pub passed_criteria : ℕ
  pub total_criteria : ℕ

unfoldable pub goal_gate : {T : Type 0} → AgentLoopRun T → GoalGate
goal_gate run = elim run.verification_report [
  | none ↦ record {
    satisfied = false;
    passed_criteria = 0;
    total_criteria = length run.acceptance_criteria;
  }
  | some v ↦ record {
    satisfied = v.passed && ltb 0 (length v.criteria) && all (λ c. c.passed) v.criteria;
    passed_criteria = count (λ c. c.passed) v.criteria;
    total_criteria =
        if length v.criteria == 0 then length run.acceptance_criteria else length v.criteria;
  }
]

module _ {T : Type 0} (h : LoopHost T) where
  unfoldable pub clean_criteria : List Criterion → List Criterion
  clean_criteria criteria =
      filter (λ (i : Criterion). not (i.name == ""))
        (map
          (λ (i : Criterion). record {
            name = h.slice 500 (h.trim i.name);
            passed = i.passed;
            evidence = short (h.slice 2000) i.evidence;
          })
          criteria)

  unfoldable pub goal_passed : Bool → List Criterion → AgentLoopRun T → Bool
  goal_passed passed criteria run =
      passed
      && leb (length run.acceptance_criteria) (length criteria)
      && all (λ i. i.passed) criteria

  module _ (c : LoopClock) where
    unfoldable pub report_run : ImplementationInput → AgentLoopRun T → Result LoopError (Change h)
    unfolding append_event clean_items
    report_run input run =
        let paths = clean_items h input.changed_paths 200 in
        let noted = record run {
          implementation_report = some (record {
            status = input.status;
            summary = h.slice max_text (h.trim input.summary);
            changed_paths = paths;
            recorded_at = c.operation;
          });
        } in
        do
          open_phase ← require (is_running run.state && is_implementing run.phase) not_implementing
          ok (
              changed (
                append_event h c.event "implementation.updated"
                  ("Implementation status: " ⧺ status_text input.status ⧺ ".")
                  (field "status" (str (status_text input.status))
                    (field "changedPaths" (arr (text_values paths)) no_fields))
                  (reported input.status noted)))

    unfoldable pub record_implementation :
        String
        → ImplementationInput
        → ToolPrincipal
        → Runs h
        → Result LoopError (AgentLoopRun T × Runs h)
    unfolding operate report_run
    record_implementation id input principal = operate h c id principal (report_run input)

    unfoldable pub gate_outcome : Bool → AgentLoopRun T → AgentLoopRun T
    unfolding completed_run failed_run next_iteration
    gate_outcome passed run =
        if passed
        then completed_run c.operation run
        else if leb run.max_iterations run.iteration
        then failed_run c.operation run
        else next_iteration run

    abbrev verdict_kind : Bool → AgentLoopState → String
    verdict_kind true state = "verification.passed"
    verdict_kind false AgentLoopState.failed = "verification.failed"
    verdict_kind false state = "verification.retry"

    abbrev verdict_text : Bool → AgentLoopState → String
    verdict_text true state = "Verification passed the goal gate."
    verdict_text false AgentLoopState.failed = "Verification failed after the iteration limit."
    verdict_text false state = "Verification failed; retrying the loop."

    unfoldable pub verify_run : VerificationInput → AgentLoopRun T → Result LoopError (Change h)
    unfolding append_event clean_items clean_criteria goal_passed gate_outcome
    verify_run input run =
        let criteria = clean_criteria input.criteria in
        let passed = goal_passed input.passed criteria run in
        let noted = record run {
          verification_report = some (record {
            passed = passed;
            criteria = criteria;
            checks = clean_items h input.checks 100;
            notes = short (h.slice max_text) input.notes;
            recorded_at = c.operation;
            proof_pack = input.proof_pack;
          });
        } in
        let after = gate_outcome passed noted in
        do
          open_phase ← require (is_running run.state && is_verifying run.phase) not_verifying
          ok (
              changed (
                append_event h c.event (verdict_kind passed after.state)
                  (verdict_text passed after.state)
                  (field "passed" (bool passed) (
                    field "criteriaPassed" (num (h.decimal (count (λ i. i.passed) criteria))) (
                      field "criteriaTotal" (num (h.decimal (length criteria)))
                        (field "iteration" (num (h.decimal after.iteration)) no_fields))))
                  after))

    unfoldable pub record_verification :
        String
        → VerificationInput
        → ToolPrincipal
        → Runs h
        → Result LoopError (AgentLoopRun T × Runs h)
    unfolding operate verify_run
    record_verification id input principal = operate h c id principal (verify_run input)

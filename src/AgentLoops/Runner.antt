-- ===== src/AgentLoops/Runner.antt =====
-- src/agent-loops/agent-loop-runner.ts: the loop that drives a run. What the tools answer in each
-- round is an argument; no other call writes the run's file while the runner works on it.
use folder_forge.Base.{
  ℕ, zero, suc, ◌+◌, ◌*◌, String, Bool, true, false, not, ◌&&◌, Option, none, some, List, [], ◌∷◌,
  map, length, if◌then◌else◌, ◌==◌, string_eq, nat_eq, get_or, ltb,
}
use folder_forge.Base.Results.{Result, ok, fail, ◌>>=◌}
use folder_forge.Json.{Value, ◌⧺◌}
use folder_forge.Core.{ToolPrincipal}
use folder_forge.AgentLoops.{
  AgentLoopPhase, AgentLoopExpert, AgentLoopProposal, AgentLoopRun, ProofPack, done, blocked,
  LoopHost, LoopError, no_proposals, is_running,
}
use folder_forge.AgentLoops.Files.{LoopClock, Runs}
use folder_forge.AgentLoops.Lifecycle.{pause}
use folder_forge.AgentLoops.Council.{
  ProposalInput, submit_proposal, submit_vote, decide, proposals_of, weight_of,
}
use folder_forge.AgentLoops.Delivery.{
  ImplementationInput, VerificationInput, record_implementation, record_verification,
}
use folder_forge.AgentLoops.Reports.{
  ToolAnswer, is_workflow_paused, is_workflow_incomplete, extract_changed_paths,
  verification_passed, criterion_passed, verification_checks,
}

-- What the runner takes of the language, and the two scores of its votes.
pub record RunnerHost (T : Type 0) : Type 0 where
  pub lower : String → String
  pub includes : String → String → Bool
  pub sub : T → T → T
  pub high_score : T
  pub low_score : T
  -- `boundedEvidence`
  pub bounded_evidence : Option Value → String

-- What the tools answer in one round of the loop. `report` is what the polling of `project_verify`
-- ends with.
pub record Answers : Type 0 where
  pub clock : LoopClock
  pub aborted : Bool
  pub evidence : List String
  pub new_ids : List String
  pub workflow : ToolAnswer
  pub resumed : ToolAnswer
  pub verification : ToolAnswer
  pub report : Option Value
  pub proof_pack : Option ProofPack

pub record RunnerOptions : Type 0 where
  pub workflow_id : Option String

module _ {T : Type 0} (h : LoopHost T) (r : RunnerHost T) where
  unfoldable pub proposal_for_expert :
      AgentLoopExpert T → AgentLoopRun T → List String → ProposalInput
  proposal_for_expert expert run evidence = record {
    expert_id = expert.id;
    phase = some AgentLoopPhase.discovery;
    summary = expert.role ⧺ " proposal for: " ⧺ run.goal;
    plan =
        ("Inspect the repository and relevant tests for " ⧺ run.goal ⧺ ".")
        ∷ "Implement through a bounded workflow in the managed workspace."
        ∷ "Run the configured goal-gate checks and preserve proof evidence."
        ∷ [];
    risks =
        (if r.includes (r.lower expert.id) "security"
          then "Keep all writes behind policy, approval, capsule and audit boundaries."
          else "Prefer small, reversible changes with explicit verification evidence.")
        ∷ [];
    evidence = evidence;
  }

  unfoldable pub proposal_affinity : AgentLoopProposal → AgentLoopRun T → T
  unfolding weight_of
  proposal_affinity proposal run =
      h.doubles.add
        (r.sub (h.doubles.of_nat (length proposal.evidence * 2 + length proposal.plan))
          (h.doubles.of_nat (length proposal.risks)))
        (weight_of h run.experts proposal.expert_id)

  -- The first proposal of the stable sort by falling affinity.
  unfoldable pub best :
      AgentLoopRun T → AgentLoopProposal → List AgentLoopProposal → AgentLoopProposal
  unfolding proposal_affinity
  best run winner [] = winner
  best run winner (p ∷ rest) =
      best run
        (if h.doubles.lt (proposal_affinity winner run) (proposal_affinity p run)
          then p
          else winner)
        rest

  unfoldable pub pick_winner :
      AgentLoopRun T → List AgentLoopProposal → Result LoopError AgentLoopProposal
  unfolding best
  pick_winner run [] = fail no_proposals
  pick_winner run (p ∷ rest) = ok (best run p rest)

  abbrev next_id : List String → String
  next_id [] = ""
  next_id (id ∷ ids) = id

  abbrev later_ids : List String → List String
  later_ids [] = []
  later_ids (id ∷ ids) = ids

  module _ (principal : ToolPrincipal) (options : RunnerOptions) (a : Answers) where
    -- One proposal of each expert.
    unfoldable pub propose_each :
        List (AgentLoopExpert T)
        → List String
        → AgentLoopRun T × Runs h
        → Result LoopError (AgentLoopRun T × Runs h)
    unfolding proposal_for_expert
    propose_each [] ids (run, runs) = ok (run, runs)
    propose_each (expert ∷ rest) ids (run, runs) = do
      x ←
          submit_proposal h a.clock (next_id ids) run.id (proposal_for_expert expert run a.evidence)
            principal runs
      propose_each rest (later_ids ids) x

    unfoldable pub vote_each :
        AgentLoopProposal
        → List (AgentLoopExpert T)
        → List String
        → AgentLoopRun T × Runs h
        → Result LoopError (AgentLoopRun T × Runs h)
    vote_each winner [] ids (run, runs) = ok (run, runs)
    vote_each winner (expert ∷ rest) ids (run, runs) = do
      x ←
          submit_vote h a.clock (next_id ids) run.id
            (record {
              expert_id = expert.id;
              proposal_id = winner.id;
              score = if expert.id == winner.expert_id then r.high_score else r.low_score;
              approve = true;
              rationale =
                  "Independent " ⧺ expert.role
                  ⧺ " review selected the proposal with the strongest evidence and lowest unresolved risk.";
            })
            principal runs
      vote_each winner rest (later_ids ids) x

    unfoldable pub council : AgentLoopRun T × Runs h → Result LoopError (AgentLoopRun T × Runs h)
    unfolding vote_each pick_winner
    council (run, runs) = do
      winner ← pick_winner run (proposals_of run)
      x ← vote_each winner run.experts a.new_ids (run, runs)
      decide h a.clock x.0.id principal x.1

    abbrev blocked_by : String → ImplementationInput
    blocked_by summary = record { status = blocked; summary = summary; changed_paths = [] }

    -- The report on the last answer of the workflow.
    unfoldable pub on_paths : Option Value → ImplementationInput
    unfolding extract_changed_paths
    on_paths contents =
        let paths = extract_changed_paths contents in
        if ltb 0 (length paths)
        then record {
          status = done;
          summary =
              "Selected council proposal was executed through the governed workflow pipeline.";
          changed_paths = paths;
        }
        else blocked_by
            "Implementation workflow completed without reporting changed paths; the loop will not claim implementation success."

    unfoldable pub implementation_input : ImplementationInput
    unfolding is_workflow_paused is_workflow_incomplete on_paths
    implementation_input =
        if get_or options.workflow_id "" == ""
        then blocked_by
            "No implementationWorkflowId was supplied. The loop will not mutate the repository implicitly; attach a validated workflow or let a Codex worker submit implementation evidence."
        else if a.workflow.ok && is_workflow_paused a.workflow.contents
        then blocked_by "Implementation workflow is awaiting approval or operator input."
        else if not a.workflow.ok
        then blocked_by
            ("Implementation workflow failed: " ⧺ get_or a.workflow.error "unknown error")
        else if not (is_workflow_incomplete a.workflow.contents)
        then on_paths a.workflow.contents
        else if not a.resumed.ok
        then blocked_by
            ("Implementation workflow could not resume: " ⧺ get_or a.resumed.error "unknown error")
        else on_paths a.resumed.contents

    unfoldable pub verification_input : AgentLoopRun T → VerificationInput
    unfolding verification_passed criterion_passed verification_checks
    verification_input run =
        let passed = verification_passed a.report in
        if not a.verification.ok
        then record {
          passed = false;
          criteria =
              map
                (λ name. record {
                  name = name;
                  passed = false;
                  evidence = some (get_or a.verification.error "Verification could not start.");
                })
                run.acceptance_criteria;
          checks = "project_verify" ∷ [];
          notes = a.verification.error;
          proof_pack = none;
        }
        else record {
          passed = passed;
          criteria =
              map
                (λ name. record {
                  name = name;
                  passed = criterion_passed r.lower r.includes name a.report passed;
                  evidence = some (r.bounded_evidence a.report);
                })
                run.acceptance_criteria;
          checks = verification_checks a.report;
          notes = some (
              if passed
              then "All configured verification checks passed."
              else "Goal gate remains open; discovery will start another iteration when permitted.");
          proof_pack = a.proof_pack;
        }

    -- The body of the `while` loop by the phase of the run; `none` is its `break`.
    unfoldable pub round :
        AgentLoopPhase
        → AgentLoopRun T × Runs h
        → Option (Result LoopError (AgentLoopRun T × Runs h))
    unfolding propose_each council implementation_input verification_input
    round AgentLoopPhase.discovery x = some (propose_each x.0.experts a.new_ids x)
    round AgentLoopPhase.council x = some (council x)
    round AgentLoopPhase.implementation x =
        some (record_implementation h a.clock x.0.id implementation_input principal x.1)
    round AgentLoopPhase.verification x =
        some (record_verification h a.clock x.0.id (verification_input x.0) principal x.1)
    round _ x = none

  -- How `execute` comes to an end, with the files that it leaves unless a round throws midway.
  pub data Finish : Type 0 where
    finished : AgentLoopRun T → Runs h → Finish
    stopped : Result LoopError (AgentLoopRun T × Runs h) → Finish
    threw : LoopError → Finish
    out_of_fuel : Finish

  -- What follows a round: the loop breaks, the exception leaves it, or it goes on.
  unfoldable pub next_round :
      (AgentLoopRun T × Runs h → Finish)
      → AgentLoopRun T × Runs h
      → Option (Result LoopError (AgentLoopRun T × Runs h))
      → Finish
  next_round rest (run, runs) none = finished run runs
  next_round rest x (some (fail error)) = threw error
  next_round rest x (some (ok y)) = rest y

  -- The `while` loop; round `n` gets the answers `tools n`, and `fuel` rounds are made at most.
  unfoldable pub drive :
      ToolPrincipal
      → RunnerOptions
      → (ℕ → Answers)
      → (fuel n : ℕ) → AgentLoopRun T × Runs h
      → Finish
  unfolding round next_round
  drive principal options tools zero n (run, runs) = out_of_fuel
  drive principal options tools (suc fuel) n (run, runs) = elim (is_running run.state) [
    | false ↦ finished run runs
    | true ↦ elim (tools n).aborted [
      | true ↦ stopped (pause h (tools n).clock run.id principal "Runner cancelled by client." runs)
      | false ↦
          let rest = drive principal options tools fuel (suc n) in
          next_round rest (run, runs) (round principal options (tools n) run.phase (run, runs))
    ]
  ]

-- ===== src/AgentLoops/Rounds.antt =====
-- Where one round of the loop of src/agent-loops/agent-loop-runner.ts leads.
use folder_forge.Base.{
  ℕ, ◌+◌, ◌*◌, ◌-◌, ◌≤◌, ◌<◌, ◌≡◌, ◌≢◌, refl, ◌∙◌, subst, String, false, ◌&&◌, Option, none, some,
  List, [], ◌∷◌, length, arith, ◌==◌, string_eq, Bool-cases, inl, inr, ◌⊎◌, get_or,
}
use folder_forge.Base.Results.{Result, ok, fail, Post, fails, gives, bind-Post, bind_known}
use folder_forge.Json.{Value}
use folder_forge.Core.{ToolPrincipal}
use folder_forge.AgentLoops.{
  AgentLoopPhase, AgentLoopState, AgentLoopExpert, AgentLoopProposal, AgentLoopRun, LoopHost,
  LoopError, underway, blocked, is_running,
}
use folder_forge.AgentLoops.Files.{Runs}
use folder_forge.AgentLoops.Council.{submit_proposal, submit_vote, decide}
use folder_forge.AgentLoops.Delivery.{record_implementation, record_verification}
use folder_forge.AgentLoops.Calls.{propose, vote, decide as decide_call, implement, verify, body}
use folder_forge.AgentLoops.Reports.{is_workflow_paused, is_workflow_incomplete}
use folder_forge.AgentLoops.Runner.{
  RunnerHost, RunnerOptions, Answers, propose_each, vote_each, council, round, on_paths,
  implementation_input, verification_input, proposal_for_expert,
}
use folder_forge.AgentLoops.Filed.{
  Filed, At, call-Filed, Running, Reported, Verified, add_proposal-Moved, cast_vote-Moved,
  decide_run-Moved, report_run-Moved, verify_run-Moved,
}

-- How many rounds an iteration may still take.
pub weight : AgentLoopPhase → ℕ
weight AgentLoopPhase.discovery = 4
weight AgentLoopPhase.council = 3
weight AgentLoopPhase.implementation = 2
weight AgentLoopPhase.verification = 1
weight _ = 0

pub weight-le : (phase : AgentLoopPhase) → weight phase ≤ 4
unfolding weight
weight-le phase = ground arith

module _ {T : Type 0} (h : LoopHost T) where
  module _ (r : RunnerHost T) (principal : ToolPrincipal) (options : RunnerOptions) (a : Answers)
      (limit : ℕ) (experts : List (AgentLoopExpert T)) where
    abbrev pub Stands :
        (AgentLoopState → AgentLoopPhase → ℕ → Type 0) → AgentLoopRun T × Runs h → Type 0
    Stands Q x = Filed h limit experts x × At h Q x.0

    propose_on :
        (list : List (AgentLoopExpert T)) (ids : List String) (iteration : ℕ)
        (x : AgentLoopRun T × Runs h)
        → Stands (Running AgentLoopPhase.council iteration) x
        → Post
            (Stands (Running AgentLoopPhase.council iteration))
            (propose_each h r principal options a list ids x)
    unfolding propose_each submit_proposal body
    propose_on [] ids iteration (run, runs) v = gives v
    propose_on (e ∷ list) ids iteration (run, runs) (filed, place) =
        bind_known _ _
          (call-Filed h (Running AgentLoopPhase.council run.iteration) limit experts a.clock
            principal (propose _ (proposal_for_expert h r e run a.evidence)) (run, runs) filed
            (add_proposal-Moved h a.clock run _ (proposal_for_expert h r e run a.evidence)))
          (λ y w. propose_on list _ iteration y (w.0, (w.1.0, w.1.1, w.1.2 ∙ place.2)))

    vote_on :
        (winner : AgentLoopProposal) (list : List (AgentLoopExpert T)) (ids : List String)
        (iteration : ℕ) (x : AgentLoopRun T × Runs h)
        → Stands (Running AgentLoopPhase.council iteration) x
        → Post
            (Stands (Running AgentLoopPhase.council iteration))
            (vote_each h r principal options a winner list ids x)
    unfolding vote_each submit_vote body
    vote_on winner [] ids iteration (run, runs) v = gives v
    vote_on winner (e ∷ list) ids iteration (run, runs) (filed, place) =
        bind_known _ _
          (call-Filed h (Running AgentLoopPhase.council run.iteration) limit experts a.clock
            principal (vote _ _) (run, runs) filed (cast_vote-Moved h a.clock run _ _))
          (λ y w. vote_on winner list _ iteration y (w.0, (w.1.0, w.1.1, w.1.2 ∙ place.2)))

    decide_on :
        (iteration : ℕ) (x : AgentLoopRun T × Runs h)
        → Stands (Running AgentLoopPhase.council iteration) x
        → Post
            (Stands (Running AgentLoopPhase.implementation iteration))
            (decide h a.clock x.0.id principal x.1)
    unfolding decide body
    decide_on iteration x (filed, place) =
        subst
          (λ i.
            Post (Stands (Running AgentLoopPhase.implementation i))
              (decide h a.clock x.0.id principal x.1))
          place.2
          (call-Filed h (Running AgentLoopPhase.implementation x.0.iteration) limit experts a.clock
            principal decide_call x filed (decide_run-Moved h a.clock x.0))

    council_on :
        (iteration : ℕ) (x : AgentLoopRun T × Runs h)
        → Stands (Running AgentLoopPhase.council iteration) x
        → Post
            (Stands (Running AgentLoopPhase.implementation iteration))
            (council h r principal options a x)
    unfolding council
    council_on iteration (run, runs) v = bind-Post _ _ (λ winner _.
        bind_known _ _ (vote_on winner run.experts a.new_ids iteration (run, runs) v)
          (λ y w. decide_on iteration y w))

    propose_first :
        (list : List (AgentLoopExpert T)) (ids : List String) (x : AgentLoopRun T × Runs h)
        → 0 < length list
        → Filed h limit experts x
        → Post
            (Stands (Running AgentLoopPhase.council x.0.iteration))
            (propose_each h r principal options a list ids x)
    unfolding propose_each submit_proposal body
    propose_first [] ids x some_expert v = absurd (omega arith)
    propose_first (e ∷ list) ids (run, runs) some_expert filed =
        bind_known _ _
          (call-Filed h (Running AgentLoopPhase.council run.iteration) limit experts a.clock
            principal (propose _ (proposal_for_expert h r e run a.evidence)) (run, runs) filed
            (add_proposal-Moved h a.clock run _ (proposal_for_expert h r e run a.evidence)))
          (λ y w. propose_on list _ run.iteration y w)

    on_paths_settled :
        (contents : Option Value) → (on_paths h r principal options a contents).status ≢ underway
    unfolding on_paths
    on_paths_settled contents = λ e. absurd (ground arith)

    blocked_settled : blocked ≢ underway
    blocked_settled e = absurd (ground arith)

    implementation_settled : (implementation_input h r principal options a).status ≢ underway
    unfolding implementation_input
    implementation_settled = elim (Bool-cases (get_or options.workflow_id "" == "")) [
      | inl b ↦ rw (b, implementation_input) blocked_settled
      | inr b ↦
          rw (b, implementation_input)
            (elim (Bool-cases (a.workflow.ok && is_workflow_paused a.workflow.contents)) [
              | inl e ↦ rw e blocked_settled
              | inr e ↦ rw e (elim (Bool-cases a.workflow.ok) [
                | inr no_answer ↦ rw no_answer blocked_settled
                | inl answered ↦
                    rw answered (elim (Bool-cases (is_workflow_incomplete a.workflow.contents)) [
                      | inr whole ↦ rw whole (on_paths_settled a.workflow.contents)
                      | inl part ↦ rw part (elim (Bool-cases a.resumed.ok) [
                        | inr no_answer ↦ rw no_answer blocked_settled
                        | inl resumed ↦ rw resumed (on_paths_settled a.resumed.contents)
                      ])
                    ])
              ])
            ])
    ]

    -- What a round leads to: the run is no longer running, or it is closer to the end.
    abbrev pub Closer : ℕ → AgentLoopPhase → AgentLoopState → AgentLoopPhase → ℕ → Type 0
    Closer iteration phase s p i =
        (is_running s ≡ false)
        ⊎ (4 * (limit - i) + weight p < 4 * (limit - iteration) + weight phase)

    abbrev pub Ends :
        ℕ → AgentLoopPhase → Option (Result LoopError (AgentLoopRun T × Runs h)) → Type 0
    Ends iteration phase none = Unit
    Ends iteration phase (some result) = Post (Stands (Closer iteration phase)) result

    close :
        (Q : AgentLoopState → AgentLoopPhase → ℕ → Type 0) (iteration : ℕ) (phase : AgentLoopPhase)
        (result : Result LoopError (AgentLoopRun T × Runs h))
        → ((s : AgentLoopState) (p : AgentLoopPhase) (i : ℕ)
            → Q s p i
            → Closer iteration phase s p i)
        → Post (Stands Q) result
        → Post (Stands (Closer iteration phase)) result
    close Q iteration phase (fail error) less p = fails
    close Q iteration phase (ok x) less (gives v) = gives (v.0, less _ _ _ v.1)

    pub round_on :
        (phase : AgentLoopPhase) (x : AgentLoopRun T × Runs h)
        → 0 < length experts
        → x.0.state ≡ AgentLoopState.running
        → x.0.phase ≡ phase
        → Filed h limit experts x
        → Ends x.0.iteration phase (round h r principal options a phase x)
    unfolding round weight record_implementation record_verification body
    round_on AgentLoopPhase.discovery x crewed live here filed =
        close (Running AgentLoopPhase.council x.0.iteration) _ AgentLoopPhase.discovery _
          (λ s p i q. inr (ground arith))
          (propose_first x.0.experts a.new_ids x (rw filed.crew crewed) filed)
    round_on AgentLoopPhase.council x crewed live here filed =
        close (Running AgentLoopPhase.implementation x.0.iteration) _ AgentLoopPhase.council _
          (λ s p i q. inr (ground arith)) (council_on x.0.iteration x (filed, (live, here, refl)))
    round_on AgentLoopPhase.implementation x crewed live here filed =
        close (Reported x.0.iteration) _ AgentLoopPhase.implementation _ reported_closer (
          call-Filed h (Reported x.0.iteration) limit experts a.clock principal (implement _) x
            filed (report_run-Moved h a.clock x.0 _ implementation_settled))
      where
        reported_closer :
            (s : AgentLoopState) (p : AgentLoopPhase) (i : ℕ)
            → Reported x.0.iteration s p i
            → Closer x.0.iteration AgentLoopPhase.implementation s p i
        reported_closer s p i (inl over) = inl over
        reported_closer s p i (inr q) = inr (ground arith)
    round_on AgentLoopPhase.verification x crewed live here filed =
        close (Verified x.0.max_iterations x.0.iteration) _ AgentLoopPhase.verification _
          verified_closer
          (call-Filed h (Verified x.0.max_iterations x.0.iteration) limit experts a.clock principal
            (verify (verification_input h r principal options a x.0)) x filed
            (verify_run-Moved h a.clock x.0 (verification_input h r principal options a x.0)))
      where
        verified_closer :
            (s : AgentLoopState) (p : AgentLoopPhase) (i : ℕ)
            → Verified x.0.max_iterations x.0.iteration s p i
            → Closer x.0.iteration AgentLoopPhase.verification s p i
        verified_closer s p i (inl over) = inl over
        verified_closer s p i (inr q) = let capped = filed.capped in inr (ground arith)
    round_on AgentLoopPhase.completed x crewed live here filed = tt
    round_on AgentLoopPhase.paused x crewed live here filed = tt
    round_on AgentLoopPhase.failed x crewed live here filed = tt
    round_on AgentLoopPhase.cancelled x crewed live here filed = tt

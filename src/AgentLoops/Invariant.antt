-- ===== src/AgentLoops/Invariant.antt =====
-- What holds of every run that src/agent-loops/agent-loop-manager.ts writes.
use folder_forge.Base.{
  ℕ, ◌≤◌, ◌≡◌, String, Bool, true, false, not, ◌&&◌, ◌||◌, Option, none, some, List, [], ◌∷◌,
  length, All, all, leb, is_some, ◌==◌, string_eq, nat_eq, count,
}
use folder_forge.Json.{Fields}
use folder_forge.AgentLoops.{
  AgentLoopPhase, AgentLoopState, AgentLoopVote, AgentLoopRun, LoopHost, Implementation, done,
}
use folder_forge.AgentLoops.Files.{max_events, append_event}
use folder_forge.AgentLoops.EventOrder.{Increasing, append_event-Increasing, append_event-bounded}

abbrev pub agrees : AgentLoopState → AgentLoopPhase → Bool
agrees AgentLoopState.created AgentLoopPhase.discovery = true
agrees AgentLoopState.running AgentLoopPhase.discovery = true
agrees AgentLoopState.running AgentLoopPhase.council = true
agrees AgentLoopState.running AgentLoopPhase.implementation = true
agrees AgentLoopState.running AgentLoopPhase.verification = true
agrees AgentLoopState.paused AgentLoopPhase.paused = true
agrees AgentLoopState.completed AgentLoopPhase.completed = true
agrees AgentLoopState.failed AgentLoopPhase.failed = true
agrees AgentLoopState.cancelled AgentLoopPhase.cancelled = true
agrees _ _ = false

-- A decision of the council is behind these phases, and a finished implementation behind the last two.
abbrev pub is_decided : AgentLoopPhase → Bool
is_decided AgentLoopPhase.implementation = true
is_decided AgentLoopPhase.verification = true
is_decided AgentLoopPhase.completed = true
is_decided _ = false

abbrev pub is_built : AgentLoopPhase → Bool
is_built AgentLoopPhase.verification = true
is_built AgentLoopPhase.completed = true
is_built _ = false

abbrev pub is_complete : AgentLoopState → Bool
is_complete AgentLoopState.completed = true
is_complete _ = false

abbrev pub is_done : Option Implementation → Bool
is_done none = false
is_done (some i) = elim i.status [ done ↦ true | _ ↦ false ]

module _ {T : Type 0} where
  -- The last verification passed, with at least as many criteria as the run has, all of them passed.
  abbrev pub is_goal_met : AgentLoopRun T → Bool
  is_goal_met run = elim run.verification_report [
    | none ↦ false
    | some v ↦
        v.passed
        && leb (length run.acceptance_criteria) (length v.criteria)
        && all (λ i. i.passed) v.criteria
  ]

  abbrev pub same_ballot : ℕ → String → AgentLoopVote T → Bool
  same_ballot iteration expert v = v.iteration == iteration && v.expert_id == expert

  -- No expert has two votes in one iteration.
  abbrev pub OneVote : List (AgentLoopVote T) → Type 0
  OneVote [] = Unit
  OneVote (v ∷ votes) =
      All (λ w. same_ballot v.iteration v.expert_id w ≡ false) votes × OneVote votes

  abbrev pub votes_in : ℕ → List (AgentLoopVote T) → ℕ
  votes_in iteration votes = count (λ v. v.iteration == iteration) votes

  pub record IsSound (id : String) (run : AgentLoopRun T) : Type 0 where
    pub named : run.id ≡ id
    pub version : run.schema_version ≡ 1
    pub started : 1 ≤ run.iteration
    pub bounded : run.max_iterations == 0 || leb run.iteration run.max_iterations ≡ true
    pub measured : 1 ≤ length run.acceptance_criteria
    pub agreed : agrees run.state run.phase ≡ true
    pub decided : not (is_decided run.phase) || is_some run.decision ≡ true
    pub quorum :
        not (is_some run.decision) || leb run.council_min_votes (votes_in run.iteration run.votes)
        ≡ true
    pub built : not (is_built run.phase) || is_done run.implementation_report ≡ true
    pub goal : not (is_complete run.state) || is_goal_met run ≡ true
    pub ballots : OneVote run.votes
    pub numbered : Increasing run.events
    pub few_events : length run.events ≤ max_events

  pub append_event-IsSound :
      {id : String} (h : LoopHost T) (now : ℕ) (kind message : String) (details : Fields)
      (run : AgentLoopRun T)
      → IsSound id run
      → IsSound id (append_event h now kind message details run)
  unfolding append_event
  append_event-IsSound h now kind message details run v = record {
    named = v.named;
    version = v.version;
    started = v.started;
    bounded = v.bounded;
    measured = v.measured;
    agreed = v.agreed;
    decided = v.decided;
    quorum = v.quorum;
    built = v.built;
    goal = v.goal;
    ballots = v.ballots;
    numbered = append_event-Increasing h now kind message details run v.numbered;
    few_events = append_event-bounded h now kind message details run;
  }

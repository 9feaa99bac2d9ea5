-- ===== src/AgentLoops/Keeps.antt =====
-- The operations of src/agent-loops/agent-loop-manager.ts keep a run in order.
use folder_forge.Base.{
  ℕ, ◌≤◌, ◌≡◌, refl, String, true, false, not, ◌||◌, Option, List, arith, leb, is_some, get_or,
  ◌==◌, string_eq, nat_eq, Bool-cases, inl, inr, length-filter,
}
use folder_forge.Base.Results.{Result, Post, gives, require-Post, or_fail-Post, bind-Post}
use folder_forge.AgentLoops.{
  AgentLoopPhase, AgentLoopState, AgentLoopProposal, AgentLoopDecision, AgentLoopVerification,
  Implementation, AgentLoopRun, LoopHost, LoopError, is_terminal,
}
use folder_forge.AgentLoops.Files.{LoopClock, Change, unchanged, changed}
use folder_forge.AgentLoops.Lifecycle.{
  claim_run, start_run, pause_run, cancel_run, fail_runner, resumed_phase,
}
use folder_forge.AgentLoops.Council.{
  ProposalInput, VoteInput, add_proposal, new_vote, cast_vote, decide_run,
}
use folder_forge.AgentLoops.Invariant.{
  agrees, is_decided, is_complete, IsSound, append_event-IsSound,
}
use folder_forge.AgentLoops.Ballots.{vote-OneVote, votes_in-vote}

module _ {T : Type 0} (h : LoopHost T) where
  -- The run that an operation returns.
  abbrev pub outcome : Change h → AgentLoopRun T
  outcome (unchanged run) = run
  outcome (changed run) = run

  abbrev pub Keeps : (AgentLoopRun T → Result LoopError (Change h)) → Type 0
  Keeps body =
      (id : String) (run : AgentLoopRun T)
      → IsSound id run
      → Post (λ change. IsSound id (outcome change)) (body run)

  -- A run that comes to a phase that no decision is behind.
  pub IsSound-move :
      {id : String} (run : AgentLoopRun T) (state : AgentLoopState) (phase : AgentLoopPhase)
      (pause_reason failure : Option String) (started_at completed_at : Option ℕ)
      (proposals : List AgentLoopProposal) (report : Option Implementation)
      (verification_report : Option AgentLoopVerification)
      → agrees state phase ≡ true
      → is_decided phase ≡ false
      → is_complete state ≡ false
      → IsSound id run
      → IsSound id (record run {
        state = state;
        phase = phase;
        pause_reason = pause_reason;
        failure = failure;
        started_at = started_at;
        completed_at = completed_at;
        proposals = proposals;
        implementation_report = report;
        verification_report = verification_report;
      })
  IsSound-move run state phase pause_reason failure started_at completed_at proposals report
        verification_report agreed open_phase live v =
      record {
        named = v.named;
        version = v.version;
        started = v.started;
        bounded = v.bounded;
        measured = v.measured;
        agreed = agreed;
        decided = ground arith;
        quorum = v.quorum;
        built = ground arith;
        goal = ground arith;
        ballots = v.ballots;
        numbered = v.numbered;
        few_events = v.few_events;
      }

  quorum_again :
      (decision : Option (AgentLoopDecision T)) (least before now : ℕ)
      → before ≤ now
      → not (is_some decision) || leb least before ≡ true
      → not (is_some decision) || leb least now ≡ true
  quorum_again decision least before now more old = ground arith

  module _ (c : LoopClock) where
    pub claim_run-Keeps : (key : String) → Keeps (claim_run h c key)
    unfolding claim_run
    claim_run-Keeps key at run v = require-Post _ _ _ (λ _. require-Post _ _ _ (λ _.
        require-Post _ _ _ (λ _.
          gives (elim (Bool-cases (get_or run.run_invocation_key_hash "" == "")) [
            | inl b ↦ rw b (
                append_event-IsSound h c.event _ _ _ _ (record {
                  named = v.named;
                  version = v.version;
                  started = v.started;
                  bounded = v.bounded;
                  measured = v.measured;
                  agreed = v.agreed;
                  decided = v.decided;
                  quorum = v.quorum;
                  built = v.built;
                  goal = v.goal;
                  ballots = v.ballots;
                  numbered = v.numbered;
                  few_events = v.few_events;
                }))
            | inr b ↦ rw b v
          ]))))

    pub start_run-Keeps : Keeps (start_run h c)
    unfolding start_run resumed_phase
    start_run-Keeps at run v = require-Post _ _ _ (λ live. gives (
        append_event-IsSound h c.event _ _ _ _ (record {
          named = v.named;
          version = v.version;
          started = v.started;
          bounded = v.bounded;
          measured = v.measured;
          agreed = let old = v.agreed in ground arith;
          decided = let old = v.decided in ground arith;
          quorum = v.quorum;
          built = let old = v.built in ground arith;
          goal = refl;
          ballots = v.ballots;
          numbered = v.numbered;
          few_events = v.few_events;
        })))

    pub pause_run-Keeps : (reason : String) → Keeps (pause_run h c reason)
    unfolding pause_run
    pause_run-Keeps reason at run v = require-Post _ _ _ (λ live. gives (
        append_event-IsSound h c.event _ _ _ _ (
          IsSound-move run AgentLoopState.paused AgentLoopPhase.paused _ _ _ _ _ _ _ refl refl refl
            v)))

    pub cancel_run-Keeps : (reason : String) → Keeps (cancel_run h c reason)
    unfolding cancel_run
    cancel_run-Keeps reason at run v = elim (Bool-cases (is_terminal run.state)) [
      | inl b ↦ rw b (gives v)
      | inr b ↦ rw b (
          gives (
            append_event-IsSound h c.event _ _ _ _ (
              IsSound-move run AgentLoopState.cancelled AgentLoopPhase.cancelled _ _ _ _ _ _ _ refl
                refl refl v)))
    ]

    pub fail_runner-Keeps : (error : String) → Keeps (fail_runner h c error)
    unfolding fail_runner
    fail_runner-Keeps error at run v = elim (Bool-cases (is_terminal run.state)) [
      | inl b ↦ rw b (gives v)
      | inr b ↦ rw b (
          gives (
            append_event-IsSound h c.event _ _ _ _ (
              IsSound-move run AgentLoopState.paused AgentLoopPhase.paused _ _ _ _ _ _ _ refl refl
                refl v)))
    ]

    pub add_proposal-Keeps :
        (id : String) (input : ProposalInput) → Keeps (add_proposal h c id input)
    unfolding add_proposal
    add_proposal-Keeps id input at run v = require-Post _ _ _ (λ live.
        or_fail-Post _ _ _ (λ expert _. require-Post _ _ _ (λ _. gives (
          append_event-IsSound h c.event _ _ _ _ (
            IsSound-move run run.state AgentLoopPhase.council _ _ _ _ _ _ _
              (let old = v.agreed in ground arith) refl (ground arith) v)))))

    pub cast_vote-Keeps : (id : String) (input : VoteInput T) → Keeps (cast_vote h c id input)
    unfolding cast_vote new_vote
    cast_vote-Keeps id input at run v = require-Post _ _ _ (λ live. require-Post _ _ _ (λ _.
        require-Post _ _ _ (λ _. require-Post _ _ _ (λ _. gives (
          append_event-IsSound h c.event _ _ _ _ (record {
            named = v.named;
            version = v.version;
            started = v.started;
            bounded = v.bounded;
            measured = v.measured;
            agreed = v.agreed;
            decided = v.decided;
            quorum =
                quorum_again run.decision run.council_min_votes _ _
                  (votes_in-vote run.votes (new_vote h c id input run) v.ballots) v.quorum;
            built = v.built;
            goal = v.goal;
            ballots = vote-OneVote run.votes (new_vote h c id input run) v.ballots;
            numbered = v.numbered;
            few_events = v.few_events;
          }))))))

    pub decide_run-Keeps : Keeps (decide_run h c)
    unfolding decide_run
    decide_run-Keeps at run v = require-Post _ _ _ (λ live. require-Post _ _ _ (λ _.
        require-Post _ _ _ (λ enough. bind-Post _ _ (λ winner _. require-Post _ _ _ (λ _. gives (
          append_event-IsSound h c.event _ _ _ _ (record {
            named = v.named;
            version = v.version;
            started = v.started;
            bounded = v.bounded;
            measured = v.measured;
            agreed = let old = v.agreed in ground arith;
            decided = refl;
            quorum =
                let same = length-filter (λ w. w.iteration == run.iteration) run.votes in
                rw same at enough;
            built = refl;
            goal = let old = v.agreed in ground arith;
            ballots = v.ballots;
            numbered = v.numbered;
            few_events = v.few_events;
          })))))))

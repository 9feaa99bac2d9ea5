-- ===== src/AgentLoops/Delivers.antt =====
-- `recordImplementation` and `recordVerification` of src/agent-loops/agent-loop-manager.ts keep a run
-- in order.
use folder_forge.Base.{
  ◌≡◌, refl, String, Bool, true, false, ◌&&◌, some, arith, leb, string_eq, nat_eq, Bool-cases, inl,
  inr,
}
use folder_forge.Base.Results.{gives, require-Post}
use folder_forge.AgentLoops.{
  AgentLoopPhase, AgentLoopState, AgentLoopVerification, Implementation, AgentLoopRun, LoopHost,
  ImplementationStatus, underway, done, blocked, is_running, is_implementing, is_verifying,
}
use folder_forge.AgentLoops.Files.{LoopClock}
use folder_forge.AgentLoops.Delivery.{
  ImplementationInput, reported, VerificationInput, report_run, verify_run, gate_outcome,
  goal_passed, completed_run, failed_run, next_iteration,
}
use folder_forge.AgentLoops.Invariant.{is_goal_met, IsSound, append_event-IsSound}
use folder_forge.AgentLoops.Keeps.{Keeps, IsSound-move}

module _ {T : Type 0} (h : LoopHost T) where
  module _ (c : LoopClock) where
    reported-IsSound :
        {id : String} (status : ImplementationStatus) (run : AgentLoopRun T)
        (report : Implementation)
        → report.status ≡ status
        → is_running run.state && is_implementing run.phase ≡ true
        → IsSound id run
        → IsSound id (reported status (record run { implementation_report = some report }))
    reported-IsSound underway run report same live v = record {
      named = v.named;
      version = v.version;
      started = v.started;
      bounded = v.bounded;
      measured = v.measured;
      agreed = v.agreed;
      decided = v.decided;
      quorum = v.quorum;
      built = ground arith;
      goal = v.goal;
      ballots = v.ballots;
      numbered = v.numbered;
      few_events = v.few_events;
    }
    reported-IsSound done run report same live v = record {
      named = v.named;
      version = v.version;
      started = v.started;
      bounded = v.bounded;
      measured = v.measured;
      agreed = let old = v.agreed in ground arith;
      decided = let old = v.decided in ground arith;
      quorum = v.quorum;
      built = ground arith;
      goal = v.goal;
      ballots = v.ballots;
      numbered = v.numbered;
      few_events = v.few_events;
    }
    reported-IsSound blocked run report same live v =
        IsSound-move h run AgentLoopState.paused AgentLoopPhase.paused _ _ _ _ _ _ _ refl refl refl
          v

    pub report_run-Keeps : (input : ImplementationInput) → Keeps h (report_run h c input)
    unfolding report_run
    report_run-Keeps input at run v = require-Post _ _ _ (λ live.
        gives (
          append_event-IsSound h c.event _ _ _ _ (reported-IsSound input.status run _ refl live v)))

    gate_outcome-IsSound :
        {id : String} (run : AgentLoopRun T) (report : AgentLoopVerification) (passed : Bool)
        → (passed ≡ true → is_goal_met (record run { verification_report = some report }) ≡ true)
        → is_running run.state && is_verifying run.phase ≡ true
        → IsSound id run
        → IsSound id (gate_outcome h c passed (record run { verification_report = some report }))
    unfolding gate_outcome completed_run failed_run next_iteration
    gate_outcome-IsSound run report true met live v = record {
      named = v.named;
      version = v.version;
      started = v.started;
      bounded = v.bounded;
      measured = v.measured;
      agreed = refl;
      decided = let old = v.decided in ground arith;
      quorum = v.quorum;
      built = let old = v.built in ground arith;
      goal = met refl;
      ballots = v.ballots;
      numbered = v.numbered;
      few_events = v.few_events;
    }
    gate_outcome-IsSound run report false met live v =
        elim (Bool-cases (leb run.max_iterations run.iteration)) [
          | inl b ↦ rw b (
              IsSound-move h run AgentLoopState.failed AgentLoopPhase.failed _ _ _ _ _ _ _ refl refl
                refl v)
          | inr b ↦ rw b (record {
            named = v.named;
            version = v.version;
            started = omega arith;
            bounded = ground arith;
            measured = v.measured;
            agreed = ground arith;
            decided = refl;
            quorum = refl;
            built = refl;
            goal = ground arith;
            ballots = v.ballots;
            numbered = v.numbered;
            few_events = v.few_events;
          })
        ]

    pub verify_run-Keeps : (input : VerificationInput) → Keeps h (verify_run h c input)
    unfolding verify_run goal_passed
    verify_run-Keeps input at run v = require-Post _ _ _ (λ live. gives (
        append_event-IsSound h c.event _ _ _ _
          (gate_outcome-IsSound run _ _ (λ e. ground arith) live v)))

-- ===== src/AgentLoops/Termination.antt =====
-- The loop of src/agent-loops/agent-loop-runner.ts comes to an end.
use folder_forge.Base.{
  ℕ, zero, suc, ◌+◌, ◌*◌, ◌-◌, ◌<◌, ◌≡◌, ◌≢◌, refl, subst, true, false, Option, none, some, List,
  All, length, arith, string_eq, lookup, Bool-cases, inl, inr,
}
use folder_forge.Base.Results.{Result, ok, fail, gives}
use folder_forge.Core.{ToolPrincipal}
use folder_forge.AgentLoops.{
  AgentLoopPhase, AgentLoopState, AgentLoopExpert, AgentLoopRun, LoopHost, LoopError, is_running,
}
use folder_forge.AgentLoops.Files.{Runs}
use folder_forge.AgentLoops.History.{IsFile}
use folder_forge.AgentLoops.Runner.{
  RunnerHost, RunnerOptions, Answers, round, drive, next_round, Finish, out_of_fuel,
}
use folder_forge.AgentLoops.Filed.{Filed}
use folder_forge.AgentLoops.Rounds.{weight, weight-le, Closer, Ends, round_on}

module _ {T : Type 0} (h : LoopHost T) where
  running_of : (s : AgentLoopState) → is_running s ≡ true → s ≡ AgentLoopState.running
  running_of s live = ground arith

  module _ (r : RunnerHost T) (principal : ToolPrincipal) (options : RunnerOptions)
      (tools : ℕ → Answers) where
    over_ends :
        (fuel n : ℕ) (x : AgentLoopRun T × Runs h)
        → is_running x.0.state ≡ false
        → drive h r principal options tools (suc fuel) n x ≢ out_of_fuel
    unfolding drive
    over_ends fuel n x over = rw (over, drive) (λ e. absurd (ground arith))

    next :
        (limit : ℕ) (experts : List (AgentLoopExpert T)) (n iteration : ℕ) (phase : AgentLoopPhase)
        (rest : AgentLoopRun T × Runs h → Finish h r) (x : AgentLoopRun T × Runs h)
        (o : Option (Result LoopError (AgentLoopRun T × Runs h)))
        → Ends h r principal options (tools n) limit experts iteration phase o
        → ((y : AgentLoopRun T × Runs h)
            → Filed h limit experts y
              × Closer h r principal options
                  (tools n)
                  limit
                  experts
                  iteration
                  phase
                  y.0.state
                  y.0.phase
                  y.0.iteration
            → rest y ≢ out_of_fuel)
        → next_round h r rest x o ≢ out_of_fuel
    unfolding next_round
    next limit experts n iteration phase rest x none p again = λ e. absurd (ground arith)
    next limit experts n iteration phase rest x (some (fail error)) p again =
        λ e. absurd (ground arith)
    next limit experts n iteration phase rest x (some (ok y)) (gives v) again = again y v

    drive_within :
        (fuel n limit : ℕ) (experts : List (AgentLoopExpert T)) (x : AgentLoopRun T × Runs h)
        → 0 < length experts
        → Filed h limit experts x
        → 4 * (limit - x.0.iteration) + weight x.0.phase < fuel
        → drive h r principal options tools (suc fuel) n x ≢ out_of_fuel
    unfolding drive
    drive_within zero n limit experts x crewed filed enough = absurd (omega arith)
    drive_within (suc fuel) n limit experts x crewed filed enough =
        elim (Bool-cases (is_running x.0.state)) [
          | inr over ↦ over_ends (suc fuel) n x over
          | inl live ↦ elim (Bool-cases (tools n).aborted) [
            | inl stop ↦ rw (live, stop, drive) (λ e. absurd (ground arith))
            | inr on ↦
                rw (live, on, drive)
                  (next limit experts n x.0.iteration x.0.phase _ x
                    (round h r principal options (tools n) x.0.phase x)
                    (round_on h r principal options (tools n) limit experts x.0.phase x crewed
                      (running_of x.0.state live) refl filed)
                    (λ y
                        (stands : Filed h limit experts y
                          × Closer h r principal options (tools n) limit experts x.0.iteration
                              x.0.phase y.0.state y.0.phase y.0.iteration).
                      elim stands.1 [
                        | inl over ↦ over_ends fuel (suc n) y over
                        | inr less ↦
                            drive_within fuel (suc n) limit experts y crewed stands.0 (omega arith)
                      ]))
          ]
        ]

    -- The loop ends: in a directory in order, from a run that has an expert and is the one of its file,
    -- and whatever the tools answer, at most `4 * maxIterations + 5` rounds are made.
    pub drive_ends :
        (n : ℕ) (run : AgentLoopRun T) (runs : Runs h)
        → 0 < length run.experts
        → All (IsFile h) runs
        → lookup run.id runs ≡ some run
        → drive h r principal options tools (4 * run.max_iterations + 6) n (run, runs) ≢ out_of_fuel
    drive_ends n run runs crewed files there =
        subst (λ fuel. drive h r principal options tools fuel n (run, runs) ≢ out_of_fuel)
          (omega arith)
          (drive_within (4 * run.max_iterations + 5) n run.max_iterations run.experts (run, runs)
            crewed (record { capped = refl; crew = refl; there = there; files = files })
            (omega (arith, weight-le run.phase)))

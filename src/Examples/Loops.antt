-- ===== src/Examples/Loops.antt =====
-- Runs of the agent loops of src/agent-loops.
use folder_forge.Base.{
  ℕ, ◌+◌, ◌*◌, ◌/◌, ◌≡◌, ◌≢◌, ◌≤◌, refl, String, true, false, none, some, List, [], ◌∷◌, All, arith,
  ltb, string_eq, lookup, get_or, is_some,
}
use folder_forge.Base.Results.{◌>>=◌, require, or_fail}
use folder_forge.Json.{null}
use folder_forge.Core.{ToolPrincipal, agent}
use folder_forge.AgentLoops.{AgentLoopRun, AgentLoopState, LoopHost, Doubles, done, is_terminal}
use folder_forge.AgentLoops.Files.{LoopClock, Runs}
use folder_forge.AgentLoops.Creation.{whole, ExpertInput, LoopInput, create, new_run, clean_experts}
use folder_forge.AgentLoops.Calls.{
  LoopCall, start, cancel, propose, vote, decide, implement, verify, Request, create_loop, on_loop,
  history,
}
use folder_forge.AgentLoops.Delivery.{goal_gate, report_run, verify_run}
use folder_forge.AgentLoops.Invariant.{OneVote, votes_in, is_done}
use folder_forge.AgentLoops.History.{IsFile, history-IsFile}
use folder_forge.AgentLoops.Ends.{completed-goal_gate, history-over}
use folder_forge.AgentLoops.Lifecycle.{start_run}
use folder_forge.AgentLoops.Council.{add_proposal, cast_vote, decide_run}
use folder_forge.AgentLoops.Reports.{ToolAnswer}
use folder_forge.AgentLoops.Runner.{RunnerHost, Answers, drive, out_of_fuel}
use folder_forge.AgentLoops.Termination.{drive_ends}

-- Hundredths for doubles.
abbrev doubles : Doubles ℕ
doubles = record {
  of_nat = λ n. 100 * n;
  half = 50;
  add = λ a b. a + b;
  mul = λ a b. (a * b) / 100;
  div = λ a b. (100 * a) / b;
  lt = ltb;
  is_finite = λ a. true;
  is_nan = λ a. false;
  truthy = λ a. ltb 0 a;
  json = λ a. null;
}

abbrev host : LoopHost ℕ
host = record {
  doubles = doubles;
  trim = λ s. s;
  slice = λ n s. s;
  text_length = λ s. 1;
  stringify = λ v. "text";
  decimal = λ n. "n";
  digest = λ run. run.title;
  key_hash = λ s. s;
  is_loop_id = λ s. true;
}

abbrev user : ToolPrincipal
user = record {
  id = "u1";
  role = agent;
  roles = none;
  organization_id = none;
  team_ids = none;
  project_id = none;
  session_id = none;
  oauth_client_id = none;
  capsule_id = none;
  task_id = none;
}

abbrev clock : LoopClock
clock = record { operation = 1; event = 2; save = 3 }

abbrev expert : String → ExpertInput ℕ
expert id = record { id = id; role = "review"; weight = none; model = none }

abbrev input : LoopInput ℕ
input = record {
  title = "title";
  goal = "goal";
  acceptance_criteria = "tests pass" ∷ [];
  experts = expert "e1" ∷ expert "e2" ∷ [];
  council_min_votes = none;
  council_threshold = none;
  max_iterations = some (whole 3);
  project_root = none;
}

abbrev ballot : String → LoopCall ℕ
ballot who =
    vote who
      (record { expert_id = who; proposal_id = "p1"; score = 90; approve = true; rationale = "" })

abbrev calls : List (LoopClock × ToolPrincipal × Request ℕ)
calls =
    (clock, user, create_loop "loop_1" "/root" (120, 70) input)
    ∷ (clock, user, on_loop "loop_1" start)
    ∷ (
      clock,
      user,
      on_loop "loop_1" (
          propose "p1" (record {
            expert_id = "e1";
            phase = none;
            summary = "plan";
            plan = [];
            risks = [];
            evidence = [];
          })),
    )
    ∷ (clock, user, on_loop "loop_1" (ballot "e1"))
    ∷ (clock, user, on_loop "loop_1" (ballot "e2"))
    ∷ (clock, user, on_loop "loop_1" decide)
    ∷ (
      clock,
      user,
      on_loop "loop_1"
          (implement (record { status = done; summary = "made"; changed_paths = "a.ts" ∷ [] })),
    )
    ∷ (
      clock,
      user,
      on_loop "loop_1" (
          verify (record {
            passed = true;
            criteria = record { name = "tests pass"; passed = true; evidence = none } ∷ [];
            checks = [];
            notes = none;
            proof_pack = none;
          })),
    )
    ∷ []

history-IsFile_example : All (IsFile host) (history host calls [])
history-IsFile_example = history-IsFile host calls [] tt

abbrev blank : AgentLoopRun ℕ
blank = new_run host clock "loop_0" "/root" 70 input [] user

abbrev end : AgentLoopRun ℕ
end = get_or (lookup "loop_1" (history host calls [])) blank

ends_completed : end.state ≡ AgentLoopState.completed
unfolding history lookup ◌>>=◌ require or_fail create start_run add_proposal cast_vote decide_run
    report_run verify_run
ends_completed = refl

end_there : lookup "loop_1" (history host calls []) ≡ some end
unfolding history lookup ◌>>=◌ require or_fail create start_run add_proposal cast_vote decide_run
    report_run verify_run
end_there = refl

completed-goal_gate_example :
    ((goal_gate end).satisfied ≡ true)
    × (is_done end.implementation_report ≡ true)
    × (is_some end.decision ≡ true)
    × (end.council_min_votes ≤ votes_in end.iteration end.votes)
    × OneVote end.votes
completed-goal_gate_example = completed-goal_gate host calls "loop_1" end end_there ends_completed

end_over : is_terminal end.state ≡ true
end_over = rw ends_completed refl

history-over_example :
    lookup "loop_1" (
      history host
        ((clock, user, on_loop "loop_1" start)
          ∷ (clock, user, on_loop "loop_1" (cancel "late"))
          ∷ [])
        (history host calls []))
    ≡ some end
history-over_example =
    history-over host _ "loop_1" end (history host calls []) (history-IsFile host calls [] tt) tt
      end_there end_over

abbrev fresh : AgentLoopRun ℕ
fresh = new_run host clock "loop_2" "/root" 70 input (clean_experts host 120 input.experts) user

abbrev runner_host : RunnerHost ℕ
runner_host = record {
  lower = λ s. s;
  includes = λ s t. false;
  sub = λ a b. a;
  high_score = 92;
  low_score = 82;
  bounded_evidence = λ v. "evidence";
}

abbrev answer : ToolAnswer
answer = record { ok = true; contents = none; error = none }

abbrev answers : Answers
answers = record {
  clock = clock;
  aborted = false;
  evidence = "analysis" ∷ [];
  new_ids = "p1" ∷ "p2" ∷ [];
  workflow = answer;
  resumed = answer;
  verification = answer;
  report = none;
  proof_pack = none;
}

abbrev opening : List (LoopClock × ToolPrincipal × Request ℕ)
opening =
    (clock, user, create_loop "loop_1" "/root" (120, 70) input)
    ∷ (clock, user, on_loop "loop_1" start)
    ∷ []

abbrev begun : Runs host
begun = history host opening []

abbrev begun_run : AgentLoopRun ℕ
begun_run = get_or (lookup "loop_1" begun) blank

drive_ends_example :
    drive host runner_host user
      (record { workflow_id = some "w1" })
      (λ n. answers)
      (4 * begun_run.max_iterations + 6)
      0
      (begun_run, begun)
    ≢ out_of_fuel
unfolding history lookup ◌>>=◌ require or_fail create start_run add_proposal cast_vote decide_run
    report_run verify_run
drive_ends_example =
    drive_ends host runner_host user (record { workflow_id = some "w1" }) (λ n. answers) 0 begun_run
      begun (omega arith) (history-IsFile host opening [] tt) refl

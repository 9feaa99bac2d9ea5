-- ===== src/AgentLoops/Ends.antt =====
-- How a loop of src/agent-loops/agent-loop-manager.ts ends: what a completed run has behind it, and
-- that no call changes a run that is over.
use folder_forge.Base.{
  ℕ, ◌≤◌, ◌≡◌, refl, ◌∙◌, subst, String, Bool, true, false, ◌&&◌, some, List, [], ◌∷◌, All, arith,
  ◌==◌, string_eq, nat_eq, lookup, lookup-insert, get_or, is_some, Bool-cases, Option-cases, inl,
  inr,
}
use folder_forge.Base.Results.{Result, ok, fail, Post, gives, require-Post, bind_known}
use folder_forge.Core.{ToolPrincipal}
use folder_forge.AgentLoops.{
  AgentLoopState, AgentLoopRun, LoopHost, LoopError, is_terminal, is_running,
}
use folder_forge.AgentLoops.Files.{
  LoopClock, Runs, Change, unchanged, changed, operate, commit, save, seal,
}
use folder_forge.AgentLoops.Creation.{LoopInput, create, new_run}
use folder_forge.AgentLoops.Lifecycle.{claim_run, start_run, pause_run, cancel_run, fail_runner}
use folder_forge.AgentLoops.Council.{add_proposal, cast_vote, decide_run}
use folder_forge.AgentLoops.Delivery.{goal_gate, report_run, verify_run}
use folder_forge.AgentLoops.Calls.{
  LoopCall, claim, start, pause, cancel, runner_error, propose, vote, decide, implement, verify,
  Request, create_loop, on_loop, body, written, after, history,
}
use folder_forge.AgentLoops.Invariant.{IsSound, is_done, votes_in, OneVote}
use folder_forge.AgentLoops.Keeps.{outcome}
use folder_forge.AgentLoops.History.{
  IsFile, lookup_All, get_found, after-IsFile, history-IsFile, body-Keeps,
}

module _ {T : Type 0} (h : LoopHost T) where
  gate_met :
      (id : String) (run : AgentLoopRun T)
      → IsSound id run
      → run.state ≡ AgentLoopState.completed
      → (goal_gate run).satisfied ≡ true
  unfolding goal_gate
  gate_met id run v e =
      let met = v.goal in
      let some_criteria = v.measured in
      elim (Option-cases run.verification_report) [
        | inl b ↦ rw b (ground arith)
        | inr (report, b) ↦ rw b (ground arith)
      ]

  -- A loop that is `completed`, after any history of calls from an empty directory: its goal gate is
  -- satisfied, its last implementation report is of status completed, and a decision of the council
  -- stands, for which at least `councilMinVotes` votes of the iteration were cast, no two of one expert. The
  -- `councilMinVotes` of a loop that was created with NaN is `null` in the file and 0 here: the number
  -- of its votes is then not bounded.
  pub completed-goal_gate :
      (calls : List (LoopClock × ToolPrincipal × Request T)) (id : String) (run : AgentLoopRun T)
      → lookup id (history h calls []) ≡ some run
      → run.state ≡ AgentLoopState.completed
      → ((goal_gate run).satisfied ≡ true)
        × (is_done run.implementation_report ≡ true)
        × (is_some run.decision ≡ true)
        × (run.council_min_votes ≤ votes_in run.iteration run.votes)
        × OneVote run.votes
  completed-goal_gate calls id run found e =
      let v = (lookup_All h (IsFile h) id run _ (history-IsFile h calls [] tt) found).sound in
      let agreed = v.agreed in
      let decided = v.decided in
      let built = v.built in
      let quorum = v.quorum in
      (gate_met id run v e, ground arith, ground arith, ground arith, v.ballots)

  closed :
      (state : AgentLoopState) (b : Bool)
      → is_terminal state ≡ true
      → is_running state && b ≡ true
      → ⊥
  closed state b over live = ground arith

  -- An operation on a run that is over fails or leaves it alone.
  body-over :
      (c : LoopClock) (call : LoopCall T) (run : AgentLoopRun T)
      → is_terminal run.state ≡ true
      → Post (λ change. change ≡ unchanged run) (body h c call run)
  unfolding body claim_run start_run pause_run cancel_run fail_runner add_proposal cast_vote
      decide_run report_run verify_run
  body-over c (claim key) run over = require-Post _ _ _ (λ _. require-Post _ _ _ (λ _.
      require-Post _ _ _ (λ live.
        gives (elim (Bool-cases (get_or run.run_invocation_key_hash "" == "")) [
          | inl b ↦ absurd (ground arith)
          | inr b ↦ rw b refl
        ]))))
  body-over c start run over = require-Post _ _ _ (λ live. absurd (ground arith))
  body-over c (pause reason) run over = require-Post _ _ _ (λ live. absurd (ground arith))
  body-over c (cancel reason) run over = rw over (gives refl)
  body-over c (runner_error message) run over = rw over (gives refl)
  body-over c (propose id input) run over =
      require-Post _ _ _ (λ live. absurd (closed run.state _ over live))
  body-over c (vote id input) run over =
      require-Post _ _ _ (λ live. absurd (closed run.state _ over live))
  body-over c decide run over = require-Post _ _ _ (λ live. absurd (closed run.state _ over live))
  body-over c (implement input) run over =
      require-Post _ _ _ (λ live. absurd (closed run.state _ over live))
  body-over c (verify input) run over =
      require-Post _ _ _ (λ live. absurd (closed run.state _ over live))

  commit-other :
      (now : ℕ) (id other : String) (change : Change h) (runs : Runs h)
      → (other == id) ≡ false
      → IsSound other (outcome h change)
      → lookup id (commit h now change runs).1 ≡ lookup id runs
  unfolding commit save seal
  commit-other now id other (unchanged run) runs ne v = refl
  commit-other now id other (changed run) runs ne v =
      rw (lookup-insert run.id id _ runs, v.named, ne)

  operate-over :
      (c : LoopClock) (principal : ToolPrincipal) (id other : String) (call : LoopCall T)
      (run : AgentLoopRun T) (runs : Runs h)
      → All (IsFile h) runs
      → lookup id runs ≡ some run
      → is_terminal run.state ≡ true
      → Post (λ x. lookup id x.1 ≡ some run) (operate h c other principal (body h c call) runs)
  unfolding operate
  operate-over c principal id other call run runs files there over =
      bind_known _ _ (get_found h other principal runs) (λ found at_other.
        elim (Bool-cases (other == id)) [
          | inl b ↦
              let same : found ≡ run =
                let e = (string_eq.equals_iff other id).0 b in
                let both = subst (λ k. lookup k runs ≡ some found) e at_other in ground arith in
              bind_known _ _ (body-over c call found (rw same over))
                (λ change left. gives (rw (left, commit) there))
          | inr b ↦
              bind_known _ _
                (body-Keeps h c call other found
                  (lookup_All h (IsFile h) other found runs files at_other).sound)
                (λ change v. gives (commit-other c.save id other change runs b v ∙ there))
        ])

  create-other :
      (c : LoopClock) (principal : ToolPrincipal) (id other root : String) (tenths : T × T)
      (input : LoopInput T) (runs : Runs h)
      → (other == id) ≡ false
      → Post
          (λ x. lookup id x.1 ≡ lookup id runs)
          (create h c other root tenths input principal runs)
  unfolding create save seal new_run
  create-other c principal id other root tenths input runs ne = require-Post _ _ _ (λ _.
      require-Post _ _ _ (λ _.
        require-Post _ _ _
          (λ _. require-Post _ _ _ (λ _. gives (rw (lookup-insert other id _ runs, ne))))))

  -- No call makes a new loop under the id.
  abbrev pub NotMade : String → List (LoopClock × ToolPrincipal × Request T) → Type 0
  NotMade id [] = Unit
  NotMade id ((c, principal, create_loop other root tenths input) ∷ calls) =
      ((other == id) ≡ false) × NotMade id calls
  NotMade id ((c, principal, on_loop other call) ∷ calls) = NotMade id calls

  written-at :
      (id : String) (run : AgentLoopRun T) (runs : Runs h)
      (r : Result LoopError (AgentLoopRun T × Runs h))
      → Post (λ x. lookup id x.1 ≡ some run) r
      → lookup id runs ≡ some run
      → lookup id (written h runs r) ≡ some run
  unfolding written
  written-at id run runs (fail error) p there = there
  written-at id run runs (ok (returned, later)) (gives v) there = v

  -- In a directory whose files are in order, a loop that is completed, failed or cancelled is never
  -- changed again: after any history of calls that makes no new loop under its id, its file is the same.
  pub history-over :
      (calls : List (LoopClock × ToolPrincipal × Request T)) (id : String) (run : AgentLoopRun T)
      (runs : Runs h)
      → All (IsFile h) runs
      → NotMade id calls
      → lookup id runs ≡ some run
      → is_terminal run.state ≡ true
      → lookup id (history h calls runs) ≡ some run
  unfolding history after
  history-over [] id run runs files made there over = there
  history-over ((c, principal, create_loop other root tenths input) ∷ calls) id run runs files made
        there over =
      history-over calls id run _
        (after-IsFile h (c, principal, create_loop other root tenths input) runs files) made.1
        (written-at id run runs _
          (subst
            (λ o. Post (λ x. lookup id x.1 ≡ o) (create h c other root tenths input principal runs))
            there (create-other c principal id other root tenths input runs made.0))
          there)
        over
  history-over ((c, principal, on_loop other call) ∷ calls) id run runs files made there over =
      history-over calls id run _ (after-IsFile h (c, principal, on_loop other call) runs files)
        made
        (written-at id run runs _ (operate-over c principal id other call run runs files there over)
          there)
        over

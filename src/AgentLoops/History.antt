-- ===== src/AgentLoops/History.antt =====
-- Any history of the calls of src/agent-loops/agent-loop-manager.ts.
use folder_forge.Base.{
  ℕ, ◌≡◌, refl, sym, subst, String, true, some, List, [], ◌∷◌, All, length, arith, ◌==◌, string_eq,
  nat_eq, lookup, ltb, leb, ◌||◌, get_or, Bool-cases, inl, inr,
}
use folder_forge.Base.Keys.{All-insert}
use folder_forge.Base.Results.{
  Result, ok, fail, Post, gives, require-Post, or_fail-Post, bind-Post, bind_known,
}
use folder_forge.Core.{ToolPrincipal}
use folder_forge.AgentLoops.{AgentLoopRun, AgentLoopExpert, LoopHost, LoopError}
use folder_forge.AgentLoops.Files.{
  LoopClock, Runs, Change, unchanged, changed, operate, commit, check_file, get, save, seal,
  clean_items, max_items,
}
use folder_forge.AgentLoops.Creation.{
  Floored, not_a_number, whole, clamp_whole, LoopInput, create, new_run, clean_experts,
}
use folder_forge.AgentLoops.Calls.{
  LoopCall, claim, start, pause, cancel, runner_error, propose, vote, decide, implement, verify,
  Request, create_loop, on_loop, body, written, after, history,
}
use folder_forge.AgentLoops.Invariant.{IsSound, append_event-IsSound}
use folder_forge.AgentLoops.Delivers.{report_run-Keeps, verify_run-Keeps}
use folder_forge.AgentLoops.Keeps.{
  outcome, Keeps, claim_run-Keeps, start_run-Keeps, pause_run-Keeps, cancel_run-Keeps,
  fail_runner-Keeps, add_proposal-Keeps, cast_vote-Keeps, decide_run-Keeps,
}

module _ {T : Type 0} (h : LoopHost T) where
  -- A file is in order: its run is, under the id of its name, and `integritySha256` fits the rest.
  pub record IsFile (entry : String × AgentLoopRun T) : Type 0 where
    pub sound : IsSound entry.0 entry.1
    pub intact : h.digest (record entry.1 { integrity_sha256 = "" }) ≡ entry.1.integrity_sha256

  pub body-Keeps : (c : LoopClock) (call : LoopCall T) → Keeps h (body h c call)
  unfolding body
  body-Keeps c (claim key) = claim_run-Keeps h c key
  body-Keeps c start = start_run-Keeps h c
  body-Keeps c (pause reason) = pause_run-Keeps h c reason
  body-Keeps c (cancel reason) = cancel_run-Keeps h c reason
  body-Keeps c (runner_error message) = fail_runner-Keeps h c message
  body-Keeps c (propose id input) = add_proposal-Keeps h c id input
  body-Keeps c (vote id input) = cast_vote-Keeps h c id input
  body-Keeps c decide = decide_run-Keeps h c
  body-Keeps c (implement input) = report_run-Keeps h c input
  body-Keeps c (verify input) = verify_run-Keeps h c input

  save-IsFile :
      (now : ℕ) (id : String) (run : AgentLoopRun T) (runs : Runs h)
      → IsSound id run
      → All IsFile runs
      → All IsFile (save h now run runs).1
  unfolding save seal
  save-IsFile now id run runs v files =
      All-insert IsFile _ _ runs
        (λ j same. record {
          sound = record {
            named = sym ((string_eq.equals_iff j run.id).0 same);
            version = v.version;
            started = v.started;
            bounded = v.bounded;
            measured = v.measured;
            agreed = v.agreed;
            decided = v.decided;
            quorum = v.quorum;
            built = v.built;
            goal = v.goal;
            ballots = v.ballots;
            numbered = v.numbered;
            few_events = v.few_events;
          };
          intact = refl;
        })
        files

  pub lookup_All :
      (P : String × AgentLoopRun T → Type 0) (id : String) (run : AgentLoopRun T) (runs : Runs h)
      → All P runs
      → lookup id runs ≡ some run
      → P (id, run)
  unfolding lookup
  lookup_All P id run [] files e = cc
  lookup_All P id run ((key, found) ∷ runs) files e = elim (Bool-cases (key == id)) [
    | inl b ↦
        let same : found ≡ run = ground arith in
        subst (λ k. P (k, run)) ((string_eq.equals_iff key id).0 b)
          (subst (λ r. P (key, r)) same files.0)
    | inr b ↦ lookup_All P id run runs files.1 (rw b at e)
  ]

  -- What `get` returns is the file of that name.
  pub get_found :
      (id : String) (principal : ToolPrincipal) (runs : Runs h)
      → Post (λ run. lookup id runs ≡ some run) (get h id principal runs)
  unfolding get check_file
  get_found id principal runs = require-Post _ _ _ (λ valid.
      or_fail-Post _ _ _
        (λ run found. require-Post _ _ _ (λ intact. bind-Post _ _ (λ allowed _. gives found))))

  commit-IsFile :
      (now : ℕ) (id : String) (change : Change h) (runs : Runs h)
      → IsSound id (outcome h change)
      → All IsFile runs
      → All IsFile (commit h now change runs).1
  unfolding commit
  commit-IsFile now id (unchanged run) runs v files = files
  commit-IsFile now id (changed run) runs v files = save-IsFile now id run runs v files

  pub operate-IsFile :
      (c : LoopClock) (id : String) (principal : ToolPrincipal) (call : LoopCall T) (runs : Runs h)
      → All IsFile runs
      → Post (λ x. All IsFile x.1) (operate h c id principal (body h c call) runs)
  unfolding operate
  operate-IsFile c id principal call runs files =
      bind_known _ _ (get_found id principal runs) (λ run found.
        bind_known _ _ (body-Keeps c call id run (lookup_All IsFile id run runs files found).sound)
          (λ change v. gives (commit-IsFile c.save id change runs v files)))

  clamp_whole-start : (n : Floored) → clamp_whole 1 100 n == 0 || leb 1 (clamp_whole 1 100 n) ≡ true
  unfolding clamp_whole
  clamp_whole-start not_a_number = refl
  clamp_whole-start (whole n) = ground arith

  new_run-IsSound :
      (c : LoopClock) (id root : String) (seven_tenths : T) (input : LoopInput T)
      (experts : List (AgentLoopExpert T)) (principal : ToolPrincipal)
      → ltb 0 (length (clean_items h input.acceptance_criteria max_items)) ≡ true
      → IsSound id (new_run h c id root seven_tenths input experts principal)
  unfolding new_run
  new_run-IsSound c id root seven_tenths input experts principal measured = record {
    named = refl;
    version = refl;
    started = omega arith;
    bounded = clamp_whole-start (get_or input.max_iterations (whole 20));
    measured = ground arith;
    agreed = refl;
    decided = refl;
    quorum = refl;
    built = refl;
    goal = refl;
    ballots = tt;
    numbered = tt;
    few_events = omega arith;
  }

  create-IsFile :
      (c : LoopClock) (id root : String) (tenths : T × T) (input : LoopInput T)
      (principal : ToolPrincipal) (runs : Runs h)
      → All IsFile runs
      → Post (λ x. All IsFile x.1) (create h c id root tenths input principal runs)
  unfolding create
  create-IsFile c id root tenths input principal runs files = require-Post _ _ _ (λ titled.
      require-Post _ _ _ (λ measured. require-Post _ _ _ (λ enough. require-Post _ _ _ (λ distinct.
        gives (
          save-IsFile c.save id _ runs
            (append_event-IsSound h c.event _ _ _ _ (
              new_run-IsSound c id root tenths.1 input (clean_experts h tenths.0 input.experts)
                principal measured))
            files)))))

  written-IsFile :
      (runs : Runs h) (r : Result LoopError (AgentLoopRun T × Runs h))
      → Post (λ x. All IsFile x.1) r
      → All IsFile runs
      → All IsFile (written h runs r)
  unfolding written
  written-IsFile runs (fail error) p files = files
  written-IsFile runs (ok (run, later)) (gives v) files = v

  pub after-IsFile :
      (call : LoopClock × ToolPrincipal × Request T) (runs : Runs h)
      → All IsFile runs
      → All IsFile (after h call runs)
  unfolding after
  after-IsFile (c, principal, create_loop id root tenths input) runs files =
      written-IsFile runs _ (create-IsFile c id root tenths input principal runs files) files
  after-IsFile (c, principal, on_loop id call) runs files =
      written-IsFile runs _ (operate-IsFile c id principal call runs files) files

  -- Any history of calls, failed ones included, keeps a directory of loops in order. For each file: the
  -- run in it has the id of its name and `integritySha256` fits the rest; its iteration is at
  -- least 1, and at most `maxIterations` unless the latter is 0, as which the model has the `null` that
  -- is stored for NaN; its phase is one that its state allows; the phases implementation,
  -- verification and completed have a decision of the council, the last two a finished implementation
  -- report; a decision has at least `councilMinVotes` votes of the iteration (0 for a stored `null`); a completed run has a
  -- passed verification of at least as many criteria as it was given, all passed; no expert has two
  -- votes in one iteration; and the events are at most 500, with rising numbers.
  pub history-IsFile :
      (calls : List (LoopClock × ToolPrincipal × Request T)) (runs : Runs h)
      → All IsFile runs
      → All IsFile (history h calls runs)
  unfolding history
  history-IsFile [] runs files = files
  history-IsFile (call ∷ calls) runs files =
      history-IsFile calls (after h call runs) (after-IsFile call runs files)

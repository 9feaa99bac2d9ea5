-- ===== src/AgentLoops/Filed.antt =====
-- What one call of the manager by the runner of src/agent-loops/agent-loop-runner.ts leaves.
use folder_forge.Base.{
  ℕ, ◌+◌, ◌<◌, ◌≡◌, ◌≢◌, refl, sym, ◌∙◌, subst, String, Bool, true, false, ◌&&◌, some, List, All,
  arith, string_eq, lookup, lookup-insert, beq_refl, leb, Bool-cases, inl, inr, ◌⊎◌,
}
use folder_forge.Base.Results.{
  Result, ok, fail, Post, fails, gives, require-Post, or_fail-Post, bind-Post, bind_known,
}
use folder_forge.Core.{ToolPrincipal}
use folder_forge.AgentLoops.{
  AgentLoopPhase, AgentLoopState, AgentLoopExpert, AgentLoopRun, LoopHost, LoopError,
  ImplementationStatus, underway, done, blocked, is_running,
}
use folder_forge.AgentLoops.Files.{
  LoopClock, Runs, Change, unchanged, changed, operate, commit, save, seal,
}
use folder_forge.AgentLoops.Council.{ProposalInput, VoteInput, add_proposal, cast_vote, decide_run}
use folder_forge.AgentLoops.Delivery.{
  ImplementationInput, VerificationInput, reported, report_run, verify_run, gate_outcome,
  completed_run, failed_run, next_iteration, goal_passed, clean_criteria,
}
use folder_forge.AgentLoops.Calls.{LoopCall, body}
use folder_forge.AgentLoops.History.{IsFile, get_found, operate-IsFile}

Post-both :
    {E A : Type 0} {P Q : A → Type 0} (r : Result E A)
    → Post P r
    → Post Q r
    → Post (λ a. P a × Q a) r
Post-both (fail e) p q = fails
Post-both (ok a) (gives p) (gives q) = gives (p, q)

-- Where the calls of the runner lead.
abbrev pub Running : AgentLoopPhase → ℕ → AgentLoopState → AgentLoopPhase → ℕ → Type 0
Running phase iteration s p i = (s ≡ AgentLoopState.running) × (p ≡ phase) × (i ≡ iteration)

abbrev pub Reported : ℕ → AgentLoopState → AgentLoopPhase → ℕ → Type 0
Reported iteration s p i =
    (is_running s ≡ false) ⊎ Running AgentLoopPhase.verification iteration s p i

abbrev pub Verified : ℕ → ℕ → AgentLoopState → AgentLoopPhase → ℕ → Type 0
Verified limit iteration s p i =
    (is_running s ≡ false)
    ⊎ ((iteration < limit) × Running AgentLoopPhase.discovery (iteration + 1) s p i)

runs_so : (s : AgentLoopState) (b : Bool) → is_running s && b ≡ true → s ≡ AgentLoopState.running
runs_so s b e = ground arith

module _ {T : Type 0} (h : LoopHost T) where
  abbrev pub At : (AgentLoopState → AgentLoopPhase → ℕ → Type 0) → AgentLoopRun T → Type 0
  At Q run = Q run.state run.phase run.iteration

  -- The run at hand is the one of its file, in a directory in order, and has the limit and the experts
  -- that it was started with.
  pub record Filed (limit : ℕ) (experts : List (AgentLoopExpert T)) (x : AgentLoopRun T × Runs h)
      : Type 0 where
    pub capped : x.0.max_iterations ≡ limit
    pub crew : x.0.experts ≡ experts
    pub there : lookup x.0.id x.1 ≡ some x.0
    pub files : All (IsFile h) x.1

  -- What a change leaves of the run, and where it goes.
  abbrev pub Moved :
      (AgentLoopState → AgentLoopPhase → ℕ → Type 0) → AgentLoopRun T → Change h → Type 0
  Moved Q run (unchanged _) = ⊥
  Moved Q run (changed run') =
      (run'.id ≡ run.id)
      × (run'.max_iterations ≡ run.max_iterations)
      × (run'.experts ≡ run.experts)
      × At Q run'

  record Saved (limit : ℕ) (experts : List (AgentLoopExpert T))
      (Q : AgentLoopState → AgentLoopPhase → ℕ → Type 0) (x : AgentLoopRun T × Runs h)
      : Type 0 where
    capped : x.0.max_iterations ≡ limit
    crew : x.0.experts ≡ experts
    there : lookup x.0.id x.1 ≡ some x.0
    place : At Q x.0

  commit-Saved :
      (Q : AgentLoopState → AgentLoopPhase → ℕ → Type 0) (now : ℕ) (run : AgentLoopRun T)
      (change : Change h) (runs : Runs h)
      → Moved Q run change
      → Saved run.max_iterations run.experts Q (commit h now change runs)
  unfolding commit save seal
  commit-Saved Q now run (changed run') runs (named, capped, crew, place) = record {
    capped = capped;
    crew = crew;
    there =
        rw
          (
            lookup-insert run'.id run'.id
                (seal h (record run' { updated_at = now; revision = run'.revision + 1 })) runs,
            beq_refl run'.id,
          )
          refl;
    place = place;
  }
  commit-Saved Q now run (unchanged _) runs p = absurd p

  operate-Saved :
      (Q : AgentLoopState → AgentLoopPhase → ℕ → Type 0) (c : LoopClock) (principal : ToolPrincipal)
      (f : AgentLoopRun T → Result LoopError (Change h)) (run : AgentLoopRun T) (runs : Runs h)
      → lookup run.id runs ≡ some run
      → Post (Moved Q run) (f run)
      → Post (Saved run.max_iterations run.experts Q) (operate h c run.id principal f runs)
  unfolding operate
  operate-Saved Q c principal f run runs there p =
      bind_known _ _ (get_found h run.id principal runs) (λ found at.
        let same : found ≡ run = ground arith in
        bind_known _ _ (subst (λ x. Post (Moved Q run) (f x)) (sym same) p)
          (λ change moved. gives (commit-Saved Q c.save run change runs moved)))

  -- One call of the manager by the runner.
  pub call-Filed :
      (Q : AgentLoopState → AgentLoopPhase → ℕ → Type 0) (limit : ℕ)
      (experts : List (AgentLoopExpert T)) (c : LoopClock) (principal : ToolPrincipal)
      (call : LoopCall T) (x : AgentLoopRun T × Runs h)
      → Filed limit experts x
      → Post (Moved Q x.0) (body h c call x.0)
      → Post
          (λ y. Filed limit experts y × At Q y.0)
          (operate h c x.0.id principal (body h c call) x.1)
  call-Filed Q limit experts c principal call (run, runs) v p = join _ (
      Post-both _ (operate-Saved Q c principal (body h c call) run runs v.there p)
        (operate-IsFile h c run.id principal call runs v.files))
    where
      join :
          (r : Result LoopError (AgentLoopRun T × Runs h))
          → Post (λ y. Saved run.max_iterations run.experts Q y × All (IsFile h) y.1) r
          → Post (λ y. Filed limit experts y × At Q y.0) r
      join (fail e) p = fails
      join (ok y) (gives (s, files)) = gives (
        record {
          capped = s.capped ∙ v.capped;
          crew = s.crew ∙ v.crew;
          there = s.there;
          files = files;
        },
        s.place,
      )

  module _ (c : LoopClock) (run : AgentLoopRun T) where
    pub add_proposal-Moved :
        (id : String) (input : ProposalInput)
        → Post
            (Moved (Running AgentLoopPhase.council run.iteration) run)
            (add_proposal h c id input run)
    unfolding add_proposal
    add_proposal-Moved id input = require-Post _ _ _ (λ live. or_fail-Post _ _ _ (λ expert _.
        require-Post _ _ _ (λ _. gives (refl, refl, refl, (runs_so run.state _ live, refl, refl)))))

    pub cast_vote-Moved :
        (id : String) (input : VoteInput T)
        → Post
            (Moved (Running AgentLoopPhase.council run.iteration) run)
            (cast_vote h c id input run)
    unfolding cast_vote
    cast_vote-Moved id input = require-Post _ _ _ (λ live. require-Post _ _ _ (λ _.
        require-Post _ _ _ (λ _.
          require-Post _ _ _
            (λ _. gives (refl, refl, refl, (runs_so run.state _ live, ground arith, refl))))))

    pub decide_run-Moved :
        Post (Moved (Running AgentLoopPhase.implementation run.iteration) run) (decide_run h c run)
    unfolding decide_run
    decide_run-Moved = require-Post _ _ _ (λ live. require-Post _ _ _ (λ _. require-Post _ _ _ (λ _.
        bind-Post _ _ (λ winner _.
          require-Post _ _ _
            (λ _. gives (refl, refl, refl, (runs_so run.state _ live, refl, refl)))))))

    reported-Moved :
        (status : ImplementationStatus) (noted : AgentLoopRun T)
        → status ≢ underway
        → noted.id ≡ run.id
        → noted.max_iterations ≡ run.max_iterations
        → noted.experts ≡ run.experts
        → noted.state ≡ AgentLoopState.running
        → noted.iteration ≡ run.iteration
        → Moved (Reported run.iteration) run (changed (reported status noted))
    reported-Moved underway noted settled named capped crew live same = absurd (settled refl)
    reported-Moved done noted settled named capped crew live same =
        (named, capped, crew, inr (live, refl, same))
    reported-Moved blocked noted settled named capped crew live same =
        (named, capped, crew, inl refl)

    pub report_run-Moved :
        (input : ImplementationInput)
        → input.status ≢ underway
        → Post (Moved (Reported run.iteration) run) (report_run h c input run)
    unfolding report_run
    report_run-Moved input settled = require-Post _ _ _ (λ live.
        gives
          (reported-Moved input.status _ settled refl refl refl (runs_so run.state _ live) refl))

    pub verify_run-Moved :
        (input : VerificationInput)
        → Post (Moved (Verified run.max_iterations run.iteration) run) (verify_run h c input run)
    unfolding verify_run gate_outcome completed_run failed_run next_iteration
    verify_run-Moved input = require-Post _ _ _ (λ live.
        elim (Bool-cases (goal_passed h input.passed (clean_criteria h input.criteria) run)) [
          | inl b ↦ rw b (gives (refl, refl, refl, inl refl))
          | inr b ↦ rw b (elim (Bool-cases (leb run.max_iterations run.iteration)) [
            | inl e ↦ rw e (gives (refl, refl, refl, inl refl))
            | inr e ↦ rw e (
                gives
                  (refl, refl, refl, inr (ground arith, (runs_so run.state _ live, refl, refl))))
          ])
        ])

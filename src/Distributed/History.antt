-- ===== src/Distributed/History.antt =====
-- Any history of calls of the coordinator of src/distributed/coordinator.ts.
use folder_forge.Base.{
  ℕ, zero, suc, ◌≡◌, refl, sym, ◌∙◌, subst, Bool, true, ◌||◌, Option, none, some, List, [], ◌∷◌,
  arith,
}
use folder_forge.Distributed.Store.{
  ReplayPolicy, no_replay, JobState, JobRecord, CoordinatorStore, is_running, is_blocked, is_final,
}
use folder_forge.Distributed.Guards.{Clock}
use folder_forge.Distributed.Leases.{recover_expired_leases}
use folder_forge.Distributed.Machine.{
  Move, stay, grants, starts, expires, replays, blocks, retries, ends, Moves, done, then_move,
}
use folder_forge.Distributed.Progress.{
  Reached, Progress, WellFormed, Evolves, Evolves-refl, Evolves-trans, Evolves-WellFormed,
  recover_in_store-Evolves,
}
use folder_forge.Distributed.LeaseSteps.{
  acknowledge_job-Evolves, heartbeat-Evolves, fail_job-Evolves, retry_blocked-Evolves,
  cancel_job-Evolves,
}
use folder_forge.Distributed.StoreSteps.{
  lease_job-Evolves, register_worker-Evolves, rotate_worker_token-Evolves, revoke_worker-Evolves,
  submit_job-Evolves, complete_job-Evolves, record_output_artifact-Evolves,
}
use folder_forge.Distributed.Calls.{
  Call, register, rotate, revoke, submit, lease, acknowledge, beat, complete, upload,
  report_failure, cancel, retry, recover, Setting, after, run,
}

module _ (x : Setting) where
  after-Evolves :
      (call : Clock × Call) (s : CoordinatorStore) → WellFormed s → Evolves s (after x call s)
  unfolding after recover_expired_leases
  after-Evolves (c, register id token_id name capabilities pem ttl) s v =
      register_worker-Evolves x.platform x.host x.limits c x.key_details id token_id name
        capabilities pem ttl s v
  after-Evolves (c, rotate id token_id ttl) s v =
      rotate_worker_token-Evolves x.platform x.host x.limits c id token_id ttl s v
  after-Evolves (c, revoke id reason) s v =
      revoke_worker-Evolves x.platform x.host x.limits c id reason s v
  after-Evolves (c, submit id input) s v =
      submit_job-Evolves x.platform x.host x.limits c id input s v
  after-Evolves (c, lease lease_id token ttl) s v =
      lease_job-Evolves x.platform x.host x.limits c lease_id token ttl s v
  after-Evolves (c, acknowledge token ref) s v =
      acknowledge_job-Evolves x.platform x.host x.limits c token ref s v
  after-Evolves (c, beat token ref ttl) s v =
      heartbeat-Evolves x.platform x.host x.limits c token ref ttl s v
  after-Evolves (c, complete token evidence signature) s v =
      complete_job-Evolves x.platform x.host x.limits c x.signer token evidence signature s v
  after-Evolves (c, upload token ref artifact) s v =
      record_output_artifact-Evolves x.platform x.host x.limits c token ref artifact s v
  after-Evolves (c, report_failure token ref reason) s v =
      fail_job-Evolves x.platform x.host x.limits c token ref reason s v
  after-Evolves (c, cancel id reason) s v =
      cancel_job-Evolves x.platform x.host x.limits c id reason s v
  after-Evolves (c, retry id) s v = retry_blocked-Evolves x.platform x.host x.limits c id s v
  after-Evolves (c, recover) s v = recover_in_store-Evolves c.recovery s v

  -- From a store whose jobs are in order (a lease exactly while leased or running, acknowledged
  -- exactly while running, under a fencing token that was given out, and no blocked job that is
  -- idempotent), any history of calls, failed ones included, leads to a store whose jobs are in
  -- order, in which no job is lost or changes its place or its replay policy, each job's state is
  -- reached by moves of the state machine, and the last fencing token is at least as high.
  pub run-Evolves :
      (calls : List (Clock × Call)) (s : CoordinatorStore)
      → WellFormed s
      → Evolves s (run x calls s)
  unfolding run
  run-Evolves [] s v = Evolves-refl s v
  run-Evolves (call ∷ calls) s v =
      let w = after-Evolves call s v in
      Evolves-trans s (after x call s) (run x calls (after x call s)) w
        (run-Evolves calls (after x call s) (Evolves-WellFormed s (after x call s) w))

-- The job at a place of the array.
unfoldable pub job_at : List JobRecord → ℕ → Option JobRecord
job_at [] i = none
job_at (j ∷ js) zero = some j
job_at (j ∷ js) (suc i) = job_at js i

Reached-job_at :
    (last : ℕ) (js ks : List JobRecord) (i : ℕ) (j : JobRecord)
    → Progress last js ks
    → job_at js i ≡ some j
    → (k : JobRecord) × ((job_at ks i ≡ some k) × Reached last j k)
unfolding job_at
Reached-job_at last [] ks i j g e = absurd (ground arith)
Reached-job_at last (h ∷ js) [] i j g e = absurd (ground arith)
Reached-job_at last (h ∷ js) (k ∷ ks) zero j g e =
    let same : h ≡ j = ground arith in (k, (refl, subst (λ y. Reached last y k) same g.0))
Reached-job_at last (h ∷ js) (k ∷ ks) (suc i) j g e = Reached-job_at last js ks i j g.1 e

-- A worker may have begun to execute the job.
abbrev pub is_started : JobState → Bool
is_started a = is_running a || is_blocked a || is_final a

is_started-Move :
    (r : ReplayPolicy) (a b : JobState)
    → Move r a b
    → r ≡ no_replay
    → is_started a ≡ true
    → is_started b ≡ true
is_started-Move r a b stay once begun = begun
is_started-Move r a b grants once begun = absurd (ground arith)
is_started-Move r a b starts once begun = refl
is_started-Move r a b expires once begun = absurd (ground arith)
is_started-Move r a b (replays again) once begun = absurd (ground arith)
is_started-Move r a b (blocks again) once begun = refl
is_started-Move r a b (retries again) once begun = absurd (ground arith)
is_started-Move r a b (ends live final) once begun = ground arith

is_started-Moves :
    (r : ReplayPolicy) (a b : JobState)
    → Moves r a b
    → r ≡ no_replay
    → is_started a ≡ true
    → is_started b ≡ true
is_started-Moves r a b done once begun = begun
is_started-Moves r a b (then_move {b = m} before move) once begun =
    is_started-Move r m b move once (is_started-Moves r a m before once begun)

is_final-Move : (r : ReplayPolicy) (a b : JobState) → Move r a b → is_final a ≡ true → b ≡ a
is_final-Move r a b stay final = refl
is_final-Move r a b grants final = absurd (ground arith)
is_final-Move r a b starts final = absurd (ground arith)
is_final-Move r a b expires final = absurd (ground arith)
is_final-Move r a b (replays again) final = absurd (ground arith)
is_final-Move r a b (blocks again) final = absurd (ground arith)
is_final-Move r a b (retries again) final = absurd (ground arith)
is_final-Move r a b (ends live end) final = absurd (ground arith)

is_final-Moves : (r : ReplayPolicy) (a b : JobState) → Moves r a b → is_final a ≡ true → b ≡ a
is_final-Moves r a b done final = refl
is_final-Moves r a b (then_move {b = m} before move) final =
    let same = is_final-Moves r a m before final in
    is_final-Move r m b move (subst (λ y. is_final y ≡ true) (sym same) final) ∙ same

module _ (x : Setting) (calls : List (Clock × Call)) (s : CoordinatorStore) (i : ℕ)
    (j : JobRecord) where
  -- A job that must not be replayed, once it is running or past that, is after any history of calls
  -- still there and still running, blocked or final: it is never queued or leased again.
  pub run-no_replay :
      WellFormed s
      → job_at s.jobs i ≡ some j
      → j.replay_policy ≡ no_replay
      → is_started j.state ≡ true
      → (k : JobRecord) × ((job_at (run x calls s).jobs i ≡ some k) × (is_started k.state ≡ true))
  run-no_replay v e once begun =
      let g = (run-Evolves x calls s v).progress in
      let (k, there) =
        Reached-job_at (run x calls s).next_fencing_token s.jobs (run x calls s).jobs i j g e in
      let (at_i, r) = there in
      (k, (at_i, is_started-Moves j.replay_policy j.state k.state r.moves once begun))

  -- A completed, failed or cancelled job is after any history of calls still there in that state.
  pub run-final :
      WellFormed s
      → job_at s.jobs i ≡ some j
      → is_final j.state ≡ true
      → (k : JobRecord) × ((job_at (run x calls s).jobs i ≡ some k) × (k.state ≡ j.state))
  run-final v e final =
      let g = (run-Evolves x calls s v).progress in
      let (k, there) =
        Reached-job_at (run x calls s).next_fencing_token s.jobs (run x calls s).jobs i j g e in
      let (at_i, r) = there in
      (k, (at_i, is_final-Moves j.replay_policy j.state k.state r.moves final))

-- ===== src/Distributed/Views.antt =====
-- src/distributed/coordinator.ts: the operations that only read, and the copies of the records that
-- leave out the secret fields.
use folder_forge.Base.{
  ℕ, String, Bool, true, false, Option, none, some, List, [], ◌∷◌, leb, if◌then◌else◌, count,
  length, map, max, min, take, not, ◌&&◌,
}
use folder_forge.Distributed.Store.{
  ReplayPolicy, JobState, completed, failed, cancelled, WorkerState, Lease, CompletionRecord,
  JobRecord, WorkerRecord, CoordinatorStore, Result, ok, ◌>>=◌, require, invalid_argument,
  is_active, is_queued, is_leased, is_running, is_blocked,
}
use folder_forge.Distributed.Guards.{Host, find_job, find_worker}
use folder_forge.Distributed.Completion.{Signer}

-- `DistributedWorkerView`
pub record WorkerView : Type 0 where
  pub id : String
  pub name : String
  pub capabilities : List String
  pub public_key_fingerprint : String
  pub state : WorkerState
  pub created_at : ℕ
  pub updated_at : ℕ
  pub token_expires_at : Option ℕ
  pub last_seen_at : Option ℕ
  pub revoked_at : Option ℕ
  pub revoke_reason : Option String

pub record LeaseView : Type 0 where
  pub id : String
  pub worker_id : String
  pub fencing_token : ℕ
  pub issued_at : ℕ
  pub expires_at : ℕ
  pub acknowledged_at : Option ℕ
  pub last_heartbeat_at : Option ℕ

-- `DistributedJobView`
pub record JobView : Type 0 where
  pub id : String
  pub idempotency_key : String
  pub tool : String
  pub args_digest : String
  pub payload_digest : String
  pub input_artifacts : List String
  pub required_capabilities : List String
  pub replay_policy : ReplayPolicy
  pub state : JobState
  pub attempts : ℕ
  pub created_at : ℕ
  pub updated_at : ℕ
  pub lease : Option LeaseView
  pub completed_at : Option ℕ
  pub failure : Option String
  pub blocked_reason : Option String
  pub completion : Option CompletionRecord

unfoldable pub clone_worker : WorkerRecord → WorkerView
clone_worker w = record {
  id = w.id;
  name = w.name;
  capabilities = w.capabilities;
  public_key_fingerprint = w.public_key_fingerprint;
  state = w.state;
  created_at = w.created_at;
  updated_at = w.updated_at;
  token_expires_at = w.token_expires_at;
  last_seen_at = w.last_seen_at;
  revoked_at = w.revoked_at;
  revoke_reason = w.revoke_reason;
}

abbrev clone_lease : Lease → LeaseView
clone_lease lease = record {
  id = lease.id;
  worker_id = lease.worker_id;
  fencing_token = lease.fencing_token;
  issued_at = lease.issued_at;
  expires_at = lease.expires_at;
  acknowledged_at = lease.acknowledged_at;
  last_heartbeat_at = lease.last_heartbeat_at;
}

unfoldable pub clone_job : JobRecord → JobView
clone_job job = record {
  id = job.id;
  idempotency_key = job.idempotency_key;
  tool = job.tool;
  args_digest = job.args_digest;
  payload_digest = job.payload_digest;
  input_artifacts = job.input_artifacts;
  required_capabilities = job.required_capabilities;
  replay_policy = job.replay_policy;
  state = job.state;
  attempts = job.attempts;
  created_at = job.created_at;
  updated_at = job.updated_at;
  lease = elim job.lease [ none ↦ none | some lease ↦ some (clone_lease lease) ];
  completed_at = job.completed_at;
  failure = job.failure;
  blocked_reason = job.blocked_reason;
  completion = job.completion;
}

-- `.sort((a, b) => b.updatedAt - a.updatedAt)`, by the time that `at` reads
module _ {A : Type 0} (at : A → ℕ) where
  unfoldable pub insert_newest : A → List A → List A
  insert_newest x [] = x ∷ []
  insert_newest x (y ∷ ys) =
      let rest = insert_newest x ys in if leb (at y) (at x) then x ∷ y ∷ ys else y ∷ rest

  unfoldable pub newest_first : List A → List A
  unfolding insert_newest
  newest_first [] = []
  newest_first (x ∷ xs) = insert_newest x (newest_first xs)

unfoldable pub list_workers : CoordinatorStore → List WorkerView
unfolding newest_first clone_worker
list_workers s = newest_first (λ w. w.updated_at) (map clone_worker s.workers)

unfoldable pub list_jobs : ℕ → CoordinatorStore → List JobView
unfolding newest_first clone_job
list_jobs limit s =
    take (max 1 (min 1000 limit)) (newest_first (λ j. j.updated_at) (map clone_job s.jobs))

unfoldable pub get_job : Host → String → CoordinatorStore → Result JobView
unfolding find_job clone_job
get_job h id s = do
  named ← require (h.is_job_id id) invalid_argument
  job ← find_job h id s
  ok (clone_job job)

-- What `verifyCompletion` finds; the coordinator's key and the worker's are the signer's.
pub record Verification : Type 0 where
  pub valid : Bool
  pub worker_valid : Bool
  pub coordinator_valid : Bool
  pub job : JobView

module _ (h : Host) (k : Signer) (verify_acceptance : CompletionRecord → Bool) where
  unfoldable pub verify_found : JobRecord → CoordinatorStore → Result Verification
  unfolding find_worker clone_job
  verify_found job s = elim job.completion [
    | none ↦ ok record {
      valid = false;
      worker_valid = false;
      coordinator_valid = false;
      job = clone_job job;
    }
    | some done ↦ find_worker h done.evidence.worker_id s >>= (λ worker.
        let by_worker =
          k.verify_evidence done.evidence done.worker_signature worker.public_key_pem in
        ok record {
          valid = by_worker && verify_acceptance done;
          worker_valid = by_worker;
          coordinator_valid = verify_acceptance done;
          job = clone_job job;
        })
  ]

  unfoldable pub verify_completion : String → CoordinatorStore → Result Verification
  unfolding find_job verify_found
  verify_completion id s = do
    named ← require (h.is_job_id id) invalid_argument
    job ← find_job h id s
    verify_found job s

abbrev is_completed : JobState → Bool
is_completed completed = true
is_completed _ = false

abbrev is_failed : JobState → Bool
is_failed failed = true
is_failed _ = false

abbrev is_cancelled : JobState → Bool
is_cancelled cancelled = true
is_cancelled _ = false

abbrev in_state : (JobState → Bool) → CoordinatorStore → ℕ
in_state p s = count (λ job. p job.state) s.jobs

-- The counts of workers and of jobs by state.
pub record Stats : Type 0 where
  pub workers_total : ℕ
  pub workers_active : ℕ
  pub workers_revoked : ℕ
  pub jobs_queued : ℕ
  pub jobs_leased : ℕ
  pub jobs_running : ℕ
  pub jobs_completed : ℕ
  pub jobs_failed : ℕ
  pub jobs_blocked : ℕ
  pub jobs_cancelled : ℕ
  pub next_fencing_token : ℕ

unfoldable pub stats : CoordinatorStore → Stats
stats s = record {
  workers_total = length s.workers;
  workers_active = count (λ w. is_active w.state) s.workers;
  workers_revoked = count (λ w. not (is_active w.state)) s.workers;
  jobs_queued = in_state is_queued s;
  jobs_leased = in_state is_leased s;
  jobs_running = in_state is_running s;
  jobs_completed = in_state is_completed s;
  jobs_failed = in_state is_failed s;
  jobs_blocked = in_state is_blocked s;
  jobs_cancelled = in_state is_cancelled s;
  next_fencing_token = s.next_fencing_token;
}

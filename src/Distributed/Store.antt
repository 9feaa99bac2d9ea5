-- ===== src/Distributed/Store.antt =====
-- src/distributed/coordinator.ts: the store, and how an operation reads and writes it. The lock and
-- the file are left out: an operation runs alone, on the store that the last one saved.
use folder_forge.Base.{
  ℕ, String, Bool, true, false, not, ◌&&◌, ◌||◌, Option, none, some, List, [], ◌∷◌, leb,
  if◌then◌else◌, ◌==◌, string_eq, nat_eq,
}
use folder_forge.Json.{◌⧺◌}

pub data ReplayPolicy : Type 0 where
  idempotent no_replay : ReplayPolicy

pub data JobState : Type 0 where
  queued leased running completed failed blocked cancelled : JobState

pub data WorkerState : Type 0 where
  active revoked : WorkerState

pub record Lease : Type 0 where
  pub id : String
  pub worker_id : String
  pub token_id : String
  pub fencing_token : ℕ
  pub issued_at : ℕ
  pub expires_at : ℕ
  pub acknowledged_at : Option ℕ
  pub last_heartbeat_at : Option ℕ

-- `DistributedSandboxEvidence`, the fields that a check reads
pub record SandboxEvidence : Type 0 where
  pub mode : String
  pub policy_digest : String
  pub image_digest : Option String

pub record Evidence : Type 0 where
  pub schema_version : ℕ
  pub job_id : String
  pub lease_id : String
  pub fencing_token : ℕ
  pub worker_id : String
  pub tool : String
  pub args_digest : String
  pub result_digest : String
  pub result_ok : Bool
  pub result_summary : Option String
  pub input_artifacts : List String
  pub output_artifacts : List String
  pub sandbox_evidence : SandboxEvidence
  pub completed_at : ℕ

pub record CompletionRecord : Type 0 where
  pub evidence : Evidence
  pub worker_signature : String
  pub coordinator_signature : String
  pub coordinator_key_fingerprint : String
  pub accepted_at : ℕ

pub record JobRecord : Type 0 where
  pub id : String
  pub idempotency_key : String
  pub tool : String
  pub args_digest : String
  pub payload_digest : String
  pub encrypted_payload : String
  pub input_artifacts : List String
  pub required_capabilities : List String
  pub replay_policy : ReplayPolicy
  pub state : JobState
  pub attempts : ℕ
  pub created_at : ℕ
  pub updated_at : ℕ
  pub lease : Option Lease
  pub lease_output_artifacts : Option (List String)
  pub completed_at : Option ℕ
  pub failure : Option String
  pub blocked_reason : Option String
  pub completion : Option CompletionRecord

pub record WorkerRecord : Type 0 where
  pub id : String
  pub name : String
  pub capabilities : List String
  pub public_key_pem : String
  pub public_key_fingerprint : String
  pub state : WorkerState
  pub active_token_id : Option String
  pub token_expires_at : Option ℕ
  pub created_at : ℕ
  pub updated_at : ℕ
  pub last_seen_at : Option ℕ
  pub revoked_at : Option ℕ
  pub revoke_reason : Option String

pub record CoordinatorStore : Type 0 where
  pub next_fencing_token : ℕ
  pub workers : List WorkerRecord
  pub jobs : List JobRecord

-- What the operations throw.
pub data CoordinatorError : Type 0 where
  invalid_argument not_found duplicate_key quota_reached payload_conflict : CoordinatorError
  invalid_token worker_revoked token_rotated token_expired : CoordinatorError
  no_lease stale_lease lease_expired wrong_state not_idempotent : CoordinatorError
  evidence_mismatch invalid_signature clock_skew artifact_limit unreadable_payload :
      CoordinatorError

pub data Result {ℓ} (A : Type ℓ) : Type ℓ where
  ok : A → Result A
  fail : CoordinatorError → Result A

infixl 5 ◌>>=◌
unfoldable pub ◌>>=◌ {ℓ κ} : {A : Type ℓ} {B : Type κ} → Result A → (A → Result B) → Result B
fail e >>= f = fail e
ok a >>= f = f a

-- `if (!passed) throw error;`
unfoldable pub require : Bool → CoordinatorError → Result Bool
require true error = ok true
require false error = fail error

unfoldable pub or_fail {ℓ} : {A : Type ℓ} → Option A → CoordinatorError → Result A
or_fail none error = fail error
or_fail (some a) error = ok a

abbrev pub is_active : WorkerState → Bool
is_active active = true
is_active revoked = false

-- `['leased', 'running'].includes(job.state)`
abbrev pub holds_lease : JobState → Bool
holds_lease leased = true
holds_lease running = true
holds_lease _ = false

abbrev pub is_queued : JobState → Bool
is_queued queued = true
is_queued _ = false

abbrev pub is_running : JobState → Bool
is_running running = true
is_running _ = false

abbrev pub is_leased : JobState → Bool
is_leased leased = true
is_leased _ = false

abbrev pub is_blocked : JobState → Bool
is_blocked blocked = true
is_blocked _ = false

-- `['completed', 'failed', 'cancelled'].includes(job.state)`
abbrev pub is_final : JobState → Bool
is_final completed = true
is_final failed = true
is_final cancelled = true
is_final _ = false

abbrev pub is_idempotent : ReplayPolicy → Bool
is_idempotent idempotent = true
is_idempotent no_replay = false

-- The object of an array that a test finds first, changed in place.
unfoldable pub change_first {ℓ} : {A : Type ℓ} → (A → Bool) → (A → A) → List A → List A
change_first p f [] = []
change_first p f (x ∷ xs) = let rest = change_first p f xs in if p x then f x ∷ xs else x ∷ rest

abbrev pub has_job_id : String → JobRecord → Bool
has_job_id id job = job.id == id

abbrev pub has_worker_id : String → WorkerRecord → Bool
has_worker_id id worker = worker.id == id

abbrev pub change_job : String → (JobRecord → JobRecord) → CoordinatorStore → CoordinatorStore
change_job id f s = record s { jobs = change_first (has_job_id id) f s.jobs }

abbrev pub change_worker :
    String → (WorkerRecord → WorkerRecord) → CoordinatorStore → CoordinatorStore
change_worker id f s = record s { workers = change_first (has_worker_id id) f s.workers }

unfoldable pub clear_lease : JobRecord → JobRecord
clear_lease job = record job { lease = none; lease_output_artifacts = none }

-- `Boolean(job.lease?.acknowledgedAt)`: the time 0 counts as no acknowledgement.
abbrev pub acknowledged : Option Lease → Bool
acknowledged none = false
acknowledged (some lease) = elim lease.acknowledged_at [ none ↦ false | some t ↦ not (t == 0) ]

unfoldable pub expire_lease : JobRecord → ℕ → String → JobRecord
unfolding clear_lease
expire_lease job now reason =
    if not (is_running job.state || acknowledged job.lease) || is_idempotent job.replay_policy
    then clear_lease (record job { state = queued; updated_at = now; blocked_reason = none })
    else clear_lease (record job {
      state = blocked;
      updated_at = now;
      blocked_reason = some (reason ⧺ " Side-effect status is unknown and replayPolicy=no-replay.");
    })

-- `job.lease.expiresAt <= now`
abbrev pub is_over : Option Lease → ℕ → Bool
is_over none now = false
is_over (some lease) now = leb lease.expires_at now

unfoldable pub recover_job : ℕ → JobRecord → JobRecord
unfolding expire_lease
recover_job now job =
    if is_over job.lease now && holds_lease job.state
    then expire_lease job now "Lease expired during coordinator recovery."
    else job

unfoldable pub map_jobs : (JobRecord → JobRecord) → List JobRecord → List JobRecord
map_jobs f [] = []
map_jobs f (job ∷ jobs) = f job ∷ map_jobs f jobs

unfoldable pub recover_in_store : ℕ → CoordinatorStore → CoordinatorStore
unfolding recover_job map_jobs
recover_in_store now s = record s { jobs = map_jobs (recover_job now) s.jobs }

-- An operation that throws saves nothing, the recovery of leases included.
abbrev pub settle {ℓ} :
    {A : Type ℓ} → CoordinatorStore → Result (A × CoordinatorStore) → Result A × CoordinatorStore
settle s (fail error) = (fail error, s)
settle s (ok (a, s')) = (ok a, s')

unfoldable pub mutate {ℓ} :
    {A : Type ℓ}
    → ℕ
    → (CoordinatorStore → Result (A × CoordinatorStore))
    → CoordinatorStore
    → Result A × CoordinatorStore
unfolding recover_in_store
mutate now f s = settle s (f (recover_in_store now s))

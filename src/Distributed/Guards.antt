-- ===== src/Distributed/Guards.antt =====
-- src/distributed/coordinator.ts: the checks that the operations share. The keys, the expressions of
-- the ids, `trim` and `Buffer.byteLength` are the host's.
use folder_forge.Base.{
  ℕ, String, Bool, not, ◌&&◌, ◌||◌, Option, some, ltb, leb, ◌==◌, string_eq, nat_eq, find,
  option_beq,
}
use folder_forge.Distributed.Store.{
  Lease, JobRecord, WorkerRecord, CoordinatorStore, Result, ok, ◌>>=◌, require, or_fail,
  invalid_argument, not_found, invalid_token, worker_revoked, token_rotated, token_expired,
  no_lease, stale_lease, lease_expired, is_active, has_job_id, has_worker_id, is_over,
}

pub record TokenClaims : Type 0 where
  pub worker_id : String
  pub token_id : String
  pub issued_at : ℕ
  pub expires_at : ℕ

pub record Host : Type 0 where
  -- the claims of a token `ffw1.<body>.<signature>` whose signature the coordinator's key verifies
  pub verified_claims : String → Option TokenClaims
  pub sign_token : TokenClaims → String
  -- the expressions WORKER_ID, JOB_ID, ARTIFACT_ID and CAPABILITY, and the one of a tool's name
  pub is_worker_id : String → Bool
  pub is_job_id : String → Bool
  pub is_artifact_id : String → Bool
  pub is_capability : String → Bool
  pub is_tool_name : String → Bool
  -- HASH, and `replace(/^sha256:/, '')`
  pub is_hash : String → Bool
  pub without_sha256 : String → String
  -- the option `artifactExists`
  pub artifact_exists : String → Bool
  pub trim : String → String
  pub byte_length : String → ℕ
  pub has_nul : String → Bool
  -- the stable order of `sort` on strings
  pub text_le : String → String → Bool
  -- AES-256-GCM under the payload key; an unreadable payload throws
  pub encrypt : String → String
  pub decrypt : String → Option String

-- What the constructor's options set.
pub record Limits : Type 0 where
  pub max_queued_jobs : ℕ
  pub max_token_ttl_ms : ℕ
  pub max_lease_ttl_ms : ℕ

-- The readings of the clock in one operation, in their order.
pub record Clock : Type 0 where
  pub recovery : ℕ
  pub token : ℕ
  pub lease : ℕ
  pub operation : ℕ

module _ (h : Host) where
  unfoldable pub bounded_string : ℕ → String → Result String
  bounded_string max value =
      let text = h.trim value in
      do
        valid ←
            require (not (text == "" || ltb max (h.byte_length text) || h.has_nul text))
              invalid_argument
        ok text

  unfoldable pub bound_ttl : ℕ → ℕ → Result ℕ
  bound_ttl value maximum = do
    valid ← require (leb 1000 value && leb value maximum) invalid_argument
    ok value

  unfoldable pub find_job : String → CoordinatorStore → Result JobRecord
  find_job id s = or_fail (find (has_job_id id) s.jobs) not_found

  unfoldable pub find_worker : String → CoordinatorStore → Result WorkerRecord
  find_worker id s = or_fail (find (has_worker_id id) s.workers) not_found

  unfoldable pub authenticate : ℕ → String → CoordinatorStore → Result (WorkerRecord × TokenClaims)
  unfolding find_worker
  authenticate now token s = do
    claims ← or_fail (h.verified_claims token) invalid_token
    named ← require (h.is_worker_id claims.worker_id) invalid_argument
    claimed ← require (not (claims.token_id == "")) invalid_token
    worker ← find_worker claims.worker_id s
    live ← require (is_active worker.state) worker_revoked
    current ← require (option_beq worker.active_token_id (some claims.token_id)) token_rotated
    fresh ← require (ltb now claims.expires_at) token_expired
    ok (worker, claims)

  -- The lease that the caller names is the one of the job.
  abbrev pub is_lease : String → String → ℕ → Lease → Bool
  is_lease worker_id lease_id fencing_token lease =
      lease.worker_id == worker_id && lease.id == lease_id && lease.fencing_token == fencing_token

  unfoldable pub match_lease :
      ℕ → String → String → String → ℕ → CoordinatorStore → Result (JobRecord × Lease)
  unfolding find_job
  match_lease now worker_id job_id lease_id fencing_token s = do
    named ← require (h.is_job_id job_id) invalid_argument
    job ← find_job job_id s
    lease ← or_fail job.lease no_lease
    same ← require (is_lease worker_id lease_id fencing_token lease) stale_lease
    live ← require (not (is_over job.lease now)) lease_expired
    ok (job, lease)

-- ===== src/Distributed/Leases.antt =====
-- src/distributed/coordinator.ts: the operations on leases. Each returns the record of the job, of
-- which the source returns a copy without the secret fields. An id names one job.
use folder_forge.Base.{
  ℕ, suc, ◌+◌, String, Bool, false, ◌&&◌, Option, none, some, List, [], ◌∷◌, leb, if◌then◌else◌,
  ◌==◌, string_eq, nat_eq, find, filter, all, any,
}
use folder_forge.Distributed.Store.{
  Lease, JobState, queued, leased, running, failed, cancelled, JobRecord, WorkerRecord,
  CoordinatorStore, Result, ok, fail, ◌>>=◌, require, or_fail, wrong_state, not_idempotent,
  unreadable_payload, invalid_argument, holds_lease, is_queued, is_leased, is_blocked, is_final,
  is_idempotent, change_job, change_worker, clear_lease, recover_in_store, mutate,
}
use folder_forge.Distributed.Guards.{
  TokenClaims, Host, Limits, Clock, bounded_string, bound_ttl, find_job, authenticate, match_lease,
}

-- What a worker's call proves who it is with, and which lease it names.
pub record LeaseRef : Type 0 where
  pub job_id : String
  pub lease_id : String
  pub fencing_token : ℕ

abbrev pub touch : ℕ → WorkerRecord → WorkerRecord
touch now worker = record worker { last_seen_at = some now; updated_at = now }

-- A job of the array with its place there, which stands for the object.
abbrev pub Placed : Type 0
Placed = ℕ × JobRecord

unfoldable pub placed_from : ℕ → List JobRecord → List Placed
placed_from i [] = []
placed_from i (job ∷ jobs) = (i, job) ∷ placed_from (suc i) jobs

-- The object at a place, changed in place; the array starts at place `i`.
unfoldable pub change_place : ℕ → ℕ → (JobRecord → JobRecord) → List JobRecord → List JobRecord
change_place place i f [] = []
change_place place i f (job ∷ jobs) =
    let rest = change_place place (suc i) f jobs in if place == i then f job ∷ jobs else job ∷ rest

-- `sort((a, b) => a.createdAt - b.createdAt)`
unfoldable pub insert_by_age : Placed → List Placed → List Placed
insert_by_age x [] = x ∷ []
insert_by_age x (y ∷ ys) =
    let rest = insert_by_age x ys in
    if leb x.1.created_at y.1.created_at then x ∷ y ∷ ys else y ∷ rest

unfoldable pub by_age : List Placed → List Placed
unfolding insert_by_age
by_age [] = []
by_age (x ∷ xs) = insert_by_age x (by_age xs)

abbrev pub can_run : List String → Placed → Bool
can_run capabilities x = all (λ c. any (λ d. d == c) capabilities) x.1.required_capabilities

abbrev pub waits : Placed → Bool
waits x = is_queued x.1.state

unfoldable pub next_job : List String → List JobRecord → Option Placed
unfolding by_age placed_from
next_job capabilities jobs =
    find (can_run capabilities) (by_age (filter waits (placed_from 0 jobs)))

abbrev is_lessee : String → Option Lease → Bool
is_lessee worker_id none = false
is_lessee worker_id (some lease) = lease.worker_id == worker_id

-- `job.lease?.workerId === id && ['leased', 'running'].includes(job.state)`
abbrev pub leased_to : String → JobRecord → Bool
leased_to worker_id job = is_lessee worker_id job.lease && holds_lease job.state

unfoldable pub held_by : String → List JobRecord → Option JobRecord
held_by worker_id jobs = find (leased_to worker_id) jobs

unfoldable pub grant : Lease → JobRecord → JobRecord
grant lease job = record job {
  attempts = suc job.attempts;
  state = leased;
  updated_at = lease.issued_at;
  lease_output_artifacts = some [];
  lease = some lease;
}

unfoldable pub acknowledge : ℕ → Lease → JobRecord → JobRecord
acknowledge now lease job = record job {
  state = running;
  updated_at = now;
  lease = some (record lease { acknowledged_at = some now; last_heartbeat_at = some now });
}

unfoldable pub renew : ℕ → ℕ → Lease → JobRecord → JobRecord
renew now ttl lease job = record job {
  updated_at = now;
  lease = some (record lease { last_heartbeat_at = some now; expires_at = now + ttl });
}

unfoldable pub finish : JobState → Option String → ℕ → JobRecord → JobRecord
unfolding clear_lease
finish state failure now job =
    clear_lease
      (record job { state = state; failure = failure; updated_at = now; completed_at = some now })

unfoldable pub requeue : ℕ → JobRecord → JobRecord
unfolding clear_lease
requeue now job =
    clear_lease (record job { state = queued; updated_at = now; blocked_reason = none })

module _ (h : Host) (l : Limits) where
  -- `leaseView`: the job and its payload, which may be unreadable.
  unfoldable pub lease_view : JobRecord → Result (JobRecord × String)
  lease_view job = do
    payload ← or_fail (h.decrypt job.encrypted_payload) unreadable_payload
    ok (job, payload)

  abbrev pub new_lease : String → WorkerRecord → TokenClaims → ℕ → ℕ → CoordinatorStore → Lease
  new_lease id worker claims now ttl s = record {
    id = id;
    worker_id = worker.id;
    token_id = claims.token_id;
    fencing_token = suc s.next_fencing_token;
    issued_at = now;
    expires_at = now + ttl;
    acknowledged_at = none;
    last_heartbeat_at = none;
  }

  -- The queued job that a worker gets, under a new fencing token.
  unfoldable pub grant_next :
      String
      → WorkerRecord
      → TokenClaims
      → ℕ
      → ℕ
      → CoordinatorStore
      → Result (Option (JobRecord × String) × CoordinatorStore)
  unfolding next_job grant lease_view change_place
  grant_next lease_id worker claims now ttl s = elim (next_job worker.capabilities s.jobs) [
    | none ↦ ok (none, s)
    | some x ↦
        let lease = new_lease lease_id worker claims now ttl s in
        do
          view ← lease_view (grant lease x.1)
          ok (
            some view,
            record s {
              next_fencing_token = suc s.next_fencing_token;
              jobs = change_place x.0 0 (grant lease) s.jobs;
            },
          )
  ]

  -- A worker that holds a lease gets that one again.
  unfoldable pub hold_or_grant :
      Option JobRecord
      → String
      → WorkerRecord
      → TokenClaims
      → ℕ
      → ℕ
      → CoordinatorStore
      → Result (Option (JobRecord × String) × CoordinatorStore)
  unfolding lease_view grant_next
  hold_or_grant (some job) lease_id worker claims now ttl s = do
    view ← lease_view job
    ok (some view, s)
  hold_or_grant none lease_id worker claims now ttl s = grant_next lease_id worker claims now ttl s

  unfoldable pub lease_in_store :
      Clock
      → String
      → String
      → ℕ
      → CoordinatorStore
      → Result (Option (JobRecord × String) × CoordinatorStore)
  unfolding authenticate held_by hold_or_grant
  lease_in_store c lease_id token ttl s = do
    (worker, claims) ← authenticate h c.token token s
    let s' = change_worker worker.id (touch c.operation) s
    hold_or_grant (held_by worker.id s.jobs) lease_id worker claims c.operation ttl s'

  unfoldable pub lease_job :
      Clock
      → String
      → String
      → ℕ
      → CoordinatorStore
      → Result (Option (JobRecord × String)) × CoordinatorStore
  unfolding bound_ttl lease_in_store
  lease_job c lease_id token ttl s = elim (bound_ttl h ttl l.max_lease_ttl_ms) [
    | fail error ↦ (fail error, s)
    | ok t ↦ mutate c.recovery (lease_in_store c lease_id token t) s
  ]

  -- The body of `acknowledgeJob`
  unfoldable pub acknowledge_in_store :
      Clock → String → LeaseRef → CoordinatorStore → Result (JobRecord × CoordinatorStore)
  unfolding authenticate match_lease acknowledge
  acknowledge_in_store c token ref s = do
    (worker, claims) ← authenticate h c.token token s
    (job, lease) ← match_lease h c.lease worker.id ref.job_id ref.lease_id ref.fencing_token s
    ready ← require (is_leased job.state) wrong_state
    ok (
      acknowledge c.operation lease job,
      change_worker worker.id (touch c.operation)
          (change_job ref.job_id (acknowledge c.operation lease) s),
    )

  unfoldable pub acknowledge_job :
      Clock → String → LeaseRef → CoordinatorStore → Result JobRecord × CoordinatorStore
  unfolding acknowledge_in_store
  acknowledge_job c token ref = mutate c.recovery (acknowledge_in_store c token ref)

  -- The body of `heartbeat`
  unfoldable pub heartbeat_in_store :
      Clock → String → LeaseRef → ℕ → CoordinatorStore → Result (JobRecord × CoordinatorStore)
  unfolding authenticate match_lease renew
  heartbeat_in_store c token ref ttl s = do
    (worker, claims) ← authenticate h c.token token s
    (job, lease) ← match_lease h c.lease worker.id ref.job_id ref.lease_id ref.fencing_token s
    ready ← require (holds_lease job.state) wrong_state
    ok (
      renew c.operation ttl lease job,
      change_worker worker.id (touch c.operation)
          (change_job ref.job_id (renew c.operation ttl lease) s),
    )

  unfoldable pub heartbeat :
      Clock → String → LeaseRef → ℕ → CoordinatorStore → Result JobRecord × CoordinatorStore
  unfolding bound_ttl heartbeat_in_store
  heartbeat c token ref ttl s = elim (bound_ttl h ttl l.max_lease_ttl_ms) [
    | fail error ↦ (fail error, s)
    | ok t ↦ mutate c.recovery (heartbeat_in_store c token ref t) s
  ]

  unfoldable pub authorize_lease : Clock → String → LeaseRef → CoordinatorStore → Result JobRecord
  unfolding authenticate match_lease
  authorize_lease c token ref s = do
    (worker, claims) ← authenticate h c.token token s
    (job, lease) ← match_lease h c.lease worker.id ref.job_id ref.lease_id ref.fencing_token s
    ok job

  -- The body of `failJob`
  unfoldable pub fail_in_store :
      Clock → String → LeaseRef → String → CoordinatorStore → Result (JobRecord × CoordinatorStore)
  unfolding authenticate match_lease bounded_string finish
  fail_in_store c token ref reason s = do
    (worker, claims) ← authenticate h c.token token s
    (job, lease) ← match_lease h c.lease worker.id ref.job_id ref.lease_id ref.fencing_token s
    text ← bounded_string h 2000 reason
    ok (
      finish failed (some text) c.operation job,
      change_job ref.job_id (finish failed (some text) c.operation) s,
    )

  unfoldable pub fail_job :
      Clock → String → LeaseRef → String → CoordinatorStore → Result JobRecord × CoordinatorStore
  unfolding fail_in_store
  fail_job c token ref reason = mutate c.recovery (fail_in_store c token ref reason)

  -- `cancelJob` of a job that is found: a final one stays as it is.
  unfoldable pub cancel_found :
      (JobRecord → JobRecord)
      → String
      → JobRecord
      → String
      → CoordinatorStore
      → Result (JobRecord × CoordinatorStore)
  unfolding bounded_string
  cancel_found change reason job id s =
      let cancelled_job =
        bounded_string h 2000 reason >>= (λ text. ok (change job, change_job id change s)) in
      if is_final job.state then ok (job, s) else cancelled_job

  unfoldable pub cancel_job :
      Clock → String → String → CoordinatorStore → Result JobRecord × CoordinatorStore
  unfolding find_job cancel_found finish
  cancel_job c id reason s =
      if h.is_job_id id
      then mutate c.recovery
          (λ s. do
            job ← find_job h id s
            cancel_found (finish cancelled (some (h.trim reason)) c.operation) reason job id s)
          s
      else (fail invalid_argument, s)

  unfoldable pub retry_blocked :
      Clock → String → CoordinatorStore → Result JobRecord × CoordinatorStore
  unfolding find_job requeue
  retry_blocked c id s =
      if h.is_job_id id
      then mutate c.recovery
          (λ s. do
            job ← find_job h id s
            stopped ← require (is_blocked job.state) wrong_state
            again ← require (is_idempotent job.replay_policy) not_idempotent
            ok (requeue c.operation job, change_job id (requeue c.operation) s))
          s
      else (fail invalid_argument, s)

-- `recoverExpiredLeases`, which also returns the ids by their new state.
unfoldable pub recover_expired_leases : ℕ → CoordinatorStore → CoordinatorStore
recover_expired_leases now s = recover_in_store now s

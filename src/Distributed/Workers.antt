-- ===== src/Distributed/Workers.antt =====
-- src/distributed/coordinator.ts: workers and their tokens.
use folder_forge.Base.{
  ℕ, ◌+◌, String, Bool, not, ◌&&◌, Option, none, some, List, [], ◌∷◌, ◌++◌, if◌then◌else◌, ◌==◌,
  string_eq, find, is_some,
}
use folder_forge.Distributed.Store.{
  JobRecord, WorkerRecord, active, revoked, CoordinatorStore, Result, ok, fail, ◌>>=◌, require,
  or_fail, invalid_argument, duplicate_key, worker_revoked, is_active, change_worker, map_jobs,
  expire_lease, mutate,
}
use folder_forge.Distributed.Leases.{leased_to}
use folder_forge.Distributed.Submission.{unique_capabilities}
use folder_forge.Distributed.Guards.{
  TokenClaims, Host, Limits, Clock, bounded_string, bound_ttl, find_worker,
}

-- `issueTokenInStore` on the worker: only the last token issued is the worker's.
unfoldable pub issue : TokenClaims → WorkerRecord → WorkerRecord
issue claims worker = record worker {
  active_token_id = some claims.token_id;
  token_expires_at = some claims.expires_at;
  updated_at = claims.issued_at;
}

unfoldable pub new_claims : String → String → ℕ → ℕ → TokenClaims
new_claims worker_id token_id now ttl = record {
  worker_id = worker_id;
  token_id = token_id;
  issued_at = now;
  expires_at = now + ttl;
}

-- A worker as `registerWorker` makes it, after its input is checked.
unfoldable pub new_worker : String → String → List String → String → String → ℕ → WorkerRecord
new_worker id name capabilities pem fingerprint now = record {
  id = id;
  name = name;
  capabilities = capabilities;
  public_key_pem = pem;
  public_key_fingerprint = fingerprint;
  state = active;
  active_token_id = none;
  token_expires_at = none;
  created_at = now;
  updated_at = now;
  last_seen_at = none;
  revoked_at = none;
  revoke_reason = none;
}

abbrev uses_key : String → WorkerRecord → Bool
uses_key fingerprint worker = worker.public_key_fingerprint == fingerprint && is_active worker.state

unfoldable pub revoke : ℕ → String → WorkerRecord → WorkerRecord
revoke now reason worker = record worker {
  state = revoked;
  revoked_at = some now;
  revoke_reason = some reason;
  updated_at = now;
  active_token_id = none;
  token_expires_at = none;
}

-- What `revokeWorker` does to each job.
unfoldable pub release : String → ℕ → JobRecord → JobRecord
unfolding expire_lease
release worker_id now job =
    if leased_to worker_id job
    then expire_lease job now "Worker revoked while holding lease."
    else job

module _ (h : Host) (l : Limits) where
  unfoldable pub add_worker :
      TokenClaims
      → WorkerRecord
      → CoordinatorStore
      → Result ((WorkerRecord × String) × CoordinatorStore)
  unfolding issue
  add_worker claims worker s =
      let made = issue claims worker in
      do
        unused ←
            require (not (is_some (find (uses_key worker.public_key_fingerprint) s.workers)))
              duplicate_key
        ok ((made, h.sign_token claims), record s { workers = s.workers ++ made ∷ [] })

  -- The checks of `registerWorker`, and the worker that it makes. `details` is
  -- `publicKeyDetails`: the normal form and the fingerprint of an Ed25519 key.
  unfoldable pub check_registration :
      (String → Option (String × String))
      → String
      → ℕ
      → String
      → List String
      → String
      → ℕ
      → Result (ℕ × WorkerRecord)
  unfolding bounded_string unique_capabilities bound_ttl new_worker
  check_registration details id now name capabilities pem ttl = do
    text ← bounded_string h 128 name
    skills ← unique_capabilities h capabilities
    given ← bounded_string h 16384 pem
    (normal, print) ← or_fail (details given) invalid_argument
    t ← bound_ttl h ttl l.max_token_ttl_ms
    ok (t, new_worker id text skills normal print now)

  -- The worker and its token are made at two readings of the clock.
  unfoldable pub register_worker :
      Clock
      → (String → Option (String × String))
      → String
      → String
      → String
      → List String
      → String
      → ℕ
      → CoordinatorStore
      → Result (WorkerRecord × String) × CoordinatorStore
  unfolding check_registration add_worker new_claims
  register_worker c details id token_id name capabilities pem ttl s =
      elim (check_registration details id c.token name capabilities pem ttl) [
        | fail error ↦ (fail error, s)
        | ok checked ↦
            mutate c.recovery (add_worker (new_claims id token_id c.operation checked.0) checked.1)
              s
      ]

  unfoldable pub check_rotation : String → ℕ → Result ℕ
  unfolding bound_ttl
  check_rotation id ttl = do
    named ← require (h.is_worker_id id) invalid_argument
    bound_ttl h ttl l.max_token_ttl_ms

  unfoldable pub rotate_worker_token :
      Clock
      → String
      → String
      → ℕ
      → CoordinatorStore
      → Result (WorkerRecord × String) × CoordinatorStore
  unfolding check_rotation find_worker issue new_claims
  rotate_worker_token c id token_id ttl s = elim (check_rotation id ttl) [
    | fail error ↦ (fail error, s)
    | ok t ↦
        mutate c.recovery
          (λ s. do
            worker ← find_worker h id s
            live ← require (is_active worker.state) worker_revoked
            let claims = new_claims id token_id c.operation t
            ok ((issue claims worker, h.sign_token claims), change_worker id (issue claims) s))
          s
  ]

  unfoldable pub revoke_worker :
      Clock → String → String → CoordinatorStore → Result WorkerRecord × CoordinatorStore
  unfolding find_worker bounded_string revoke map_jobs release
  revoke_worker c id reason s =
      if h.is_worker_id id
      then mutate c.recovery
          (λ s. do
            worker ← find_worker h id s
            text ← bounded_string h 512 reason
            let t = change_worker id (revoke c.operation text) s
            ok (
              revoke c.operation text worker,
              record t { jobs = map_jobs (release id c.operation) t.jobs },
            ))
          s
      else (fail invalid_argument, s)

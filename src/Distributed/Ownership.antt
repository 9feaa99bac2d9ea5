-- ===== src/Distributed/Ownership.antt =====
-- Who may change a leased job of src/distributed/coordinator.ts.
use folder_forge.Base.{
  refl, ◌+◌, ◌-◌, ◌≤◌, leb, max, min, ◌&&◌, false, ℕ, ◌<◌, String, ◌≡◌, Bool, true, some, arith,
  find, ltb, subst, inl, inr, option_beq_iff, string_eq,
}
use folder_forge.Json.{Platform}
use folder_forge.Distributed.Completion.{
  Signer, check_evidence, complete_in_store, record_output_artifact,
}
use folder_forge.Distributed.Store.{
  Evidence, CoordinatorError, require, is_running, Lease, JobRecord, WorkerRecord, is_active,
  CoordinatorStore, Result, ok, fail, has_worker_id, ◌>>=◌, recover_in_store, settle, mutate,
}
use folder_forge.Distributed.Guards.{
  TokenClaims, Host, Limits, Clock, authenticate, find_worker, match_lease, bound_ttl,
}
use folder_forge.Distributed.Leases.{
  LeaseRef, acknowledge_job, acknowledge_in_store, heartbeat, heartbeat_in_store, fail_job,
  fail_in_store,
}
use folder_forge.Distributed.Progress.{Post, fails, gives}
use folder_forge.Distributed.LeaseSteps.{
  Result-cases, bind-Post, bind_known, require-Post, or_fail-Post, IsMatched, match_lease-IsMatched,
}

post_of {ℓ κ} : {A : Type ℓ} (P : A → Type κ) (r : Result A) (a : A) → Post P r → r ≡ ok a → P a
post_of P (fail error) a holds e = absurd (ground arith)
post_of P (ok b) a (gives v) e = let same : b ≡ a = ground arith in subst P same v

pub settle-Post {ℓ κ} :
    {A : Type ℓ} (P : A × CoordinatorStore → Type κ) (s : CoordinatorStore)
    (r : Result (A × CoordinatorStore)) (a : A)
    → Post P r
    → (settle s r).0 ≡ ok a
    → P (a, (settle s r).1)
settle-Post P s (fail error) a holds e = absurd (ground arith)
settle-Post P s (ok (b, t)) a (gives v) e =
    let same : b ≡ a = ground arith in subst (λ y. P (y, t)) same v

Post-all {ℓ κ} : {A : Type ℓ} {P : A → Type κ} (r : Result A) → ((a : A) → P a) → Post P r
Post-all (fail error) every = fails
Post-all (ok a) every = gives (every a)

-- The token is verified, is the last one issued to its worker, is not over, and the worker is active.
pub record IsAuthentic (h : Host) (now : ℕ) (token : String) (s : CoordinatorStore)
    (who : WorkerRecord × TokenClaims) : Type 0 where
  pub verified : h.verified_claims token ≡ some who.1
  pub known : find (has_worker_id who.1.worker_id) s.workers ≡ some who.0
  pub live : is_active who.0.state ≡ true
  pub current : who.0.active_token_id ≡ some who.1.token_id
  pub fresh : now < who.1.expires_at

module _ (h : Host) (l : Limits) (c : Clock) where
  below : (a b : ℕ) → ltb a b ≡ true → a < b
  below a b e = ground arith

  pub authenticate-IsAuthentic :
      (now : ℕ) (token : String) (s : CoordinatorStore)
      → Post (IsAuthentic h now token s) (authenticate h now token s)
  unfolding authenticate find_worker
  authenticate-IsAuthentic now token s = or_fail-Post _ _ _ (λ claims verified.
      require-Post _ _ _ (λ named. require-Post _ _ _ (λ claimed.
        or_fail-Post _ _ _ (λ worker found. require-Post _ _ _ (λ live.
          require-Post _ _ _ (λ current. require-Post _ _ _ (λ fresh. gives record {
            verified = verified;
            known = found;
            live = live;
            current = (option_beq_iff _ _).0 current;
            fresh = below _ _ fresh;
          })))))))

  -- The caller's worker, and the job and the lease that it holds under exactly these names.
  unfoldable pub IsOwner : String → LeaseRef → CoordinatorStore → Type 0
  IsOwner token ref s =
      (who : WorkerRecord × TokenClaims) × (held : JobRecord × Lease) × (IsAuthentic h c.token token
          s who
        × IsMatched who.0.id ref.lease_id ref.fencing_token ref.job_id s held)

-- The calls with which a worker changes the job that it leases, but for its completion.
pub data LeaseCall : Type 0 where
  acknowledges : LeaseCall
  beats : (ttl : ℕ) → LeaseCall
  fails_for : (reason : String) → LeaseCall
  uploads : (artifact : String) → LeaseCall

module _ (p : Platform) (h : Host) (l : Limits) (c : Clock) where
  abbrev pub lease_call :
      LeaseCall → String → LeaseRef → CoordinatorStore → Result JobRecord × CoordinatorStore
  lease_call acknowledges token ref s = acknowledge_job h l c token ref s
  lease_call (beats ttl) token ref s = heartbeat h l c token ref ttl s
  lease_call (fails_for reason) token ref s = fail_job h l c token ref reason s
  lease_call (uploads artifact) token ref s = record_output_artifact p h l c token ref artifact s

  owned-Post :
      (token : String) (ref : LeaseRef) (m : CoordinatorStore)
      (rest : WorkerRecord × TokenClaims
        → JobRecord × Lease
        → Result (JobRecord × CoordinatorStore))
      → Post
          (λ r. IsOwner h l c token ref m)
          (authenticate h c.token token m >>= (λ who.
            match_lease h c.lease who.0.id ref.job_id ref.lease_id ref.fencing_token m
            >>= rest who))
  unfolding IsOwner
  owned-Post token ref m rest =
      bind_known _ _ (authenticate-IsAuthentic h l c c.token token m) (λ who authentic.
        bind_known _ _
          (match_lease-IsMatched h c.lease who.0.id ref.job_id ref.lease_id ref.fencing_token m)
          (λ held matched. Post-all (rest who held) (λ r. (who, held, (authentic, matched)))))

  -- Where `acknowledgeJob`, `heartbeat`, `failJob` or `recordOutputArtifact` returns a job: in the
  -- store after the recovery of expired leases, the token is verified, is not over and is the last
  -- one issued to an active worker, and the job that the call names has a lease of that worker with
  -- exactly the id and the fencing token that the call names.
  pub lease_call-IsOwner :
      (call : LeaseCall) (token : String) (ref : LeaseRef) (s : CoordinatorStore) (job : JobRecord)
      → (lease_call call token ref s).0 ≡ ok job
      → IsOwner h l c token ref (recover_in_store c.recovery s)
  unfolding acknowledge_job acknowledge_in_store heartbeat heartbeat_in_store fail_job fail_in_store
      record_output_artifact mutate
  lease_call-IsOwner acknowledges token ref s job e =
      let m = recover_in_store c.recovery s in
      settle-Post (λ y. IsOwner h l c token ref m) s _ job (owned-Post token ref m _) e
  lease_call-IsOwner (beats ttl) token ref s job e =
      let m = recover_in_store c.recovery s in
      elim (Result-cases (bound_ttl h ttl l.max_lease_ttl_ms)) [
        | inl (error, b) ↦ absurd (ground arith)
        | inr (t, b) ↦
            settle-Post (λ y. IsOwner h l c token ref m) s _ job (owned-Post token ref m _)
              (rw (b, heartbeat) at e)
      ]
  lease_call-IsOwner (fails_for reason) token ref s job e =
      let m = recover_in_store c.recovery s in
      settle-Post (λ y. IsOwner h l c token ref m) s _ job (owned-Post token ref m _) e
  lease_call-IsOwner (uploads artifact) token ref s job e =
      let m = recover_in_store c.recovery s in
      settle-Post (λ y. IsOwner h l c token ref m) s _ job (owned-Post token ref m _) e

-- What the evidence of a completion is checked for, against the worker and its leased job.
pub record IsVerified (p : Platform) (h : Host) (k : Signer) (now : ℕ) (v : Evidence)
    (signature : String) (worker : WorkerRecord) (job : JobRecord) : Type 0 where
  pub runs : is_running job.state ≡ true
  pub by_worker : v.worker_id ≡ worker.id
  pub of_tool : v.tool ≡ job.tool
  pub of_args : v.args_digest ≡ job.args_digest
  pub signed : k.verify_evidence v signature worker.public_key_pem ≡ true
  pub in_time : (now ≤ v.completed_at + 300000) × (v.completed_at ≤ now + 300000)

module _ (p : Platform) (h : Host) (l : Limits) (k : Signer) (c : Clock) where
  two : (a b : Bool) → a && b ≡ true → (a ≡ true) × (b ≡ true)
  two a b e = ground arith

  skew : (a b : ℕ) → leb (max a b - min a b) 300000 ≡ true → (a ≤ b + 300000) × (b ≤ a + 300000)
  skew a b e = ground arith

  last-Post :
      {P : Bool → Type 0} (b : Bool) (error : CoordinatorError)
      → (b ≡ true → P true)
      → Post P (require b error)
  unfolding require
  last-Post true error holds = gives (holds refl)
  last-Post false error holds = fails

  check_evidence-IsVerified :
      (now : ℕ) (v : Evidence) (signature : String) (worker : WorkerRecord) (job : JobRecord)
      → Post
          (λ b. IsVerified p h k now v signature worker job)
          (check_evidence p h l k now v signature worker job)
  unfolding check_evidence
  check_evidence-IsVerified now v signature worker job = require-Post _ _ _ (λ runs.
      require-Post _ _ _ (λ about. require-Post _ _ _ (λ inputs. bind-Post _ _ (λ outputs known.
        require-Post _ _ _ (λ uploaded. require-Post _ _ _ (λ signed. last-Post _ _ (λ close.
          let (first, third) = two _ _ about in
          let (one, second) = two _ _ first in
          record {
            runs = runs;
            by_worker = (string_eq.equals_iff _ _).0 one;
            of_tool = (string_eq.equals_iff _ _).0 second;
            of_args = (string_eq.equals_iff _ _).0 third;
            signed = signed;
            in_time = skew now v.completed_at close;
          })))))))

  -- The caller's worker, and its leased job, which the evidence is about.
  unfoldable pub IsCompletion : String → Evidence → String → CoordinatorStore → Type 0
  IsCompletion token v signature s =
      (who : WorkerRecord × TokenClaims) × (held : JobRecord × Lease) × (IsAuthentic h c.token token
          s who
        × (IsMatched who.0.id v.lease_id v.fencing_token v.job_id s held
            × IsVerified p h k c.operation v signature who.0 held.0))

  -- Where the body of `completeJob` returns a job: the token is verified, is not over and is the last
  -- one issued to an active worker; the job of the evidence has a lease of that worker with exactly
  -- the id and the fencing token of the evidence; the job is running; the evidence names that worker
  -- and the job's tool and arguments, is signed by the worker's key, and is dated within five minutes
  -- of the coordinator's clock.
  pub complete_in_store-IsCompletion :
      (token : String) (v : Evidence) (signature : String) (s : CoordinatorStore)
      (result : JobRecord × CoordinatorStore)
      → complete_in_store p h l k c token v signature s ≡ ok result
      → IsCompletion token v signature s
  unfolding complete_in_store IsCompletion
  complete_in_store-IsCompletion token v signature s result e =
      post_of (λ r. IsCompletion token v signature s) _ result
        (bind_known _ _ (authenticate-IsAuthentic h l c c.token token s) (λ who authentic.
          bind-Post _ _ (λ formed fit.
            bind_known _ _
              (match_lease-IsMatched h c.lease who.0.id v.job_id v.lease_id v.fencing_token s)
              (λ held matched.
                bind_known _ _ (check_evidence-IsVerified c.operation v signature who.0 held.0)
                  (λ valid verified. gives (who, held, (authentic, (matched, verified))))))))
        e

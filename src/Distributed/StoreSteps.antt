-- ===== src/Distributed/StoreSteps.antt =====
-- The other operations of src/distributed/coordinator.ts move jobs as the state machine says.
use folder_forge.Base.{
  ℕ, suc, String, ◌≡◌, refl, Bool, true, false, Option, none, some, List, arith, find,
  if◌then◌else◌, Bool-cases, Option-cases, inl, inr, get_or,
}
use folder_forge.Json.{Platform}
use folder_forge.Distributed.Store.{
  completed, failed, JobRecord, WorkerRecord, CoordinatorStore, Evidence, Result, ok, fail,
  is_final,
}
use folder_forge.Distributed.Guards.{TokenClaims, Host, Limits, Clock, bound_ttl}
use folder_forge.Distributed.Leases.{
  LeaseRef, grant, lease_job, lease_in_store, hold_or_grant, grant_next, next_job, held_by,
  new_lease,
}
use folder_forge.Distributed.Workers.{
  add_worker, check_rotation, check_registration, register_worker, rotate_worker_token,
  revoke_worker, release,
}
use folder_forge.Distributed.Submission.{
  JobInput, Submission, check_input, new_job, add_job, submit_job, has_key,
}
use folder_forge.Distributed.Completion.{
  Signer, accept, complete_in_store, complete_job, add_output, record_output_artifact,
}
use folder_forge.Distributed.Machine.{
  stay, IsSound, IsStep, finish-IsStep, grant-IsStep, release-IsStep,
}
use folder_forge.Distributed.Progress.{
  Progress, WellFormed, Evolves, IsSafe, Post, fails, gives, Evolves-refl, mutate-Evolves,
  raise-All, Progress-append, map_jobs-Progress, Progress-refl,
}
use folder_forge.Distributed.Next.{next_job-queued, change_place-Progress}
use folder_forge.Distributed.LeaseSteps.{
  Result-cases, bind-Post, bind_known, require-Post, match_lease-IsMatched, IsMatched,
  change_job-Evolves, lease-live,
}

module _ (p : Platform) (h : Host) (l : Limits) (c : Clock) where
  raised :
      (s : CoordinatorStore) (jobs : List JobRecord)
      → WellFormed s
      → Progress (suc s.next_fencing_token) s.jobs jobs
      → Evolves s (record s { next_fencing_token = suc s.next_fencing_token; jobs = jobs })
  raised s jobs v progress = record { fencing = omega arith; progress = progress }

  grant_next-Post :
      (lease_id : String) (worker : WorkerRecord) (claims : TokenClaims) (now ttl : ℕ)
      (s : CoordinatorStore)
      → WellFormed s
      → Post (λ x. Evolves s x.1) (grant_next h l lease_id worker claims now ttl s)
  unfolding grant_next
  grant_next-Post lease_id worker claims now ttl s v =
      elim (Option-cases (next_job worker.capabilities s.jobs)) [
        | inl e ↦ rw (e, grant_next) (gives (Evolves-refl s v))
        | inr (x, e) ↦
            let (place, waiting) = next_job-queued worker.capabilities s.jobs x e in
            rw (e, grant_next)
              (bind-Post _ _ (λ view readable. gives (
                raised s _ v (
                  change_place-Progress (suc s.next_fencing_token) 0 x.0
                    (grant (new_lease h l lease_id worker claims now ttl s)) s.jobs x.1 place
                    (grant-IsStep (suc s.next_fencing_token)
                      (new_lease h l lease_id worker claims now ttl s) x.1 waiting (omega arith)
                      refl)
                    (raise-All (suc s.next_fencing_token) s.jobs (omega arith) v)))))
      ]

  hold_or_grant-Post :
      (held : Option JobRecord) (lease_id : String) (worker : WorkerRecord) (claims : TokenClaims)
      (now ttl : ℕ) (s : CoordinatorStore)
      → WellFormed s
      → Post (λ x. Evolves s x.1) (hold_or_grant h l held lease_id worker claims now ttl s)
  unfolding hold_or_grant
  hold_or_grant-Post (some job) lease_id worker claims now ttl s v =
      bind-Post _ _ (λ view readable. gives (Evolves-refl s v))
  hold_or_grant-Post none lease_id worker claims now ttl s v =
      grant_next-Post lease_id worker claims now ttl s v

  -- A change of the workers alone.
  with_workers :
      {A : Type 0} (s : CoordinatorStore) (workers : List WorkerRecord)
      (r : Result (A × CoordinatorStore))
      → Post (λ x. Evolves (record s { workers = workers }) x.1) r
      → Post (λ x. Evolves s x.1) r
  with_workers s workers (fail error) fails = fails
  with_workers s workers (ok x) (gives v) =
      gives record { fencing = v.fencing; progress = v.progress }

  lease_in_store-IsSafe :
      (lease_id token : String) (ttl : ℕ) → IsSafe (lease_in_store h l c lease_id token ttl)
  unfolding lease_in_store
  lease_in_store-IsSafe lease_id token ttl s v = bind-Post _ _ (λ who known.
      with_workers s _ _
        (hold_or_grant-Post (held_by who.0.id s.jobs) lease_id who.0 who.1 c.operation ttl _ v))

  pub lease_job-Evolves :
      (lease_id token : String) (ttl : ℕ) (s : CoordinatorStore)
      → WellFormed s
      → Evolves s (lease_job h l c lease_id token ttl s).1
  unfolding lease_job
  lease_job-Evolves lease_id token ttl s v =
      elim (Result-cases (bound_ttl h ttl l.max_lease_ttl_ms)) [
        | inl (error, e) ↦ rw (e, lease_job) (Evolves-refl s v)
        | inr (t, e) ↦
            rw (e, lease_job)
              (mutate-Evolves c.recovery _ s (lease_in_store-IsSafe lease_id token t) v)
      ]

  pub register_worker-Evolves :
      (details : String → Option (String × String)) (id token_id name : String)
      (capabilities : List String) (pem : String) (ttl : ℕ) (s : CoordinatorStore)
      → WellFormed s
      → Evolves s (register_worker h l c details id token_id name capabilities pem ttl s).1
  unfolding register_worker add_worker
  register_worker-Evolves details id token_id name capabilities pem ttl s v =
      elim (Result-cases (check_registration h l details id c.token name capabilities pem ttl)) [
        | inl (error, e) ↦ rw (e, register_worker) (Evolves-refl s v)
        | inr (x, e) ↦
            rw (e, register_worker)
              (mutate-Evolves c.recovery _ s
                (λ m w. require-Post _ _ _ (λ unused. gives record {
                  fencing = omega arith;
                  progress = Progress-refl m.next_fencing_token m.jobs w;
                }))
                v)
      ]

  pub rotate_worker_token-Evolves :
      (id token_id : String) (ttl : ℕ) (s : CoordinatorStore)
      → WellFormed s
      → Evolves s (rotate_worker_token h l c id token_id ttl s).1
  unfolding rotate_worker_token
  rotate_worker_token-Evolves id token_id ttl s v =
      elim (Result-cases (check_rotation h l id ttl)) [
        | inl (error, e) ↦ rw (e, rotate_worker_token) (Evolves-refl s v)
        | inr (t, e) ↦
            rw (e, rotate_worker_token)
              (mutate-Evolves c.recovery _ s
                (λ m w. bind-Post _ _ (λ worker found. require-Post _ _ _ (λ live. gives record {
                  fencing = omega arith;
                  progress = Progress-refl m.next_fencing_token m.jobs w;
                })))
                v)
      ]

  pub revoke_worker-Evolves :
      (id reason : String) (s : CoordinatorStore)
      → WellFormed s
      → Evolves s (revoke_worker h l c id reason s).1
  unfolding revoke_worker
  revoke_worker-Evolves id reason s v = elim (Bool-cases (h.is_worker_id id)) [
    | inr b ↦ rw (b, revoke_worker) (Evolves-refl s v)
    | inl b ↦
        rw (b, revoke_worker)
          (mutate-Evolves c.recovery _ s
            (λ m w. bind-Post _ _ (λ worker found. bind-Post _ _ (λ text bounded. gives record {
              fencing = omega arith;
              progress =
                  map_jobs-Progress (release id c.operation) m.jobs
                    (λ j u. release-IsStep m.next_fencing_token c.operation id j u) w;
            })))
            v)
  ]

  new_job-IsSound :
      (last : ℕ) (id : String) (now : ℕ) (x : Submission) → IsSound last (new_job p h l id now x)
  unfolding new_job
  new_job-IsSound last id now x = record {
    holds = refl;
    acknowledged = refl;
    fenced = omega arith;
    no_blocked_replay = refl;
  }

  add_job-IsSafe : (id : String) (now : ℕ) (x : Submission) → IsSafe (add_job p h l id now x)
  unfolding add_job
  add_job-IsSafe id now x s v =
      elim (Option-cases (find (has_key p h l x.idempotency_key) s.jobs)) [
        | inr (job, e) ↦ rw (e, add_job) (require-Post _ _ _ (λ same. gives (Evolves-refl s v)))
        | inl e ↦
            rw (e, add_job)
              (require-Post _ _ _ (λ room. gives record {
                fencing = omega arith;
                progress =
                    Progress-append (new_job p h l id now x) s.jobs
                      (new_job-IsSound s.next_fencing_token id now x) v;
              }))
      ]

  pub submit_job-Evolves :
      (id : String) (input : JobInput) (s : CoordinatorStore)
      → WellFormed s
      → Evolves s (submit_job p h l c id input s).1
  unfolding submit_job
  submit_job-Evolves id input s v = elim (Result-cases (check_input p h l input)) [
    | inl (error, e) ↦ rw (e, submit_job) (Evolves-refl s v)
    | inr (x, e) ↦
        rw (e, submit_job) (mutate-Evolves c.recovery _ s (add_job-IsSafe id c.operation x) v)
  ]

  ended : (good : Bool) → is_final (if good then completed else failed) ≡ true
  ended good = ground arith

  accept-IsStep :
      (last : ℕ) (k : Signer) (now : ℕ) (v : Evidence) (signature : String) (job : JobRecord)
      → is_final job.state ≡ false
      → IsStep last job (accept p h l k now v signature job)
  unfolding accept
  accept-IsStep last k now v signature job live =
      let step =
        finish-IsStep last now (if v.result_ok then completed else failed)
          (if v.result_ok
            then job.failure
            else some (get_or v.result_summary "Remote worker reported a failed result."))
          job live (ended v.result_ok) in
      record {
        sound = record {
          holds = step.sound.holds;
          acknowledged = step.sound.acknowledged;
          fenced = step.sound.fenced;
          no_blocked_replay = step.sound.no_blocked_replay;
        };
        same_policy = step.same_policy;
        move = step.move;
      }

  pub complete_job-Evolves :
      (k : Signer) (token : String) (v : Evidence) (signature : String) (s : CoordinatorStore)
      → WellFormed s
      → Evolves s (complete_job p h l k c token v signature s).1
  unfolding complete_job complete_in_store IsMatched
  complete_job-Evolves k token v signature s w =
      mutate-Evolves c.recovery _ s
        (λ m u. bind-Post _ _ (λ who known. bind-Post _ _ (λ formed fit.
          bind_known _ _
            (match_lease-IsMatched h c.lease who.0.id v.job_id v.lease_id v.fencing_token m)
            (λ x matched. bind-Post _ _ (λ valid checked.
              let (found, rest) = matched in
              gives (
                change_job-Evolves v.job_id _ m x.0 u found (λ sound.
                  accept-IsStep m.next_fencing_token k c.operation v signature x.0
                    (lease-live p h l c m.next_fencing_token x.1 x.0 sound rest.0))))))))
        w

  add_output-IsStep :
      (last now : ℕ) (artifact : String) (job : JobRecord)
      → IsSound last job
      → IsStep last job (add_output p h l now artifact job)
  unfolding add_output
  add_output-IsStep last now artifact job v = record {
    sound = record {
      holds = v.holds;
      acknowledged = v.acknowledged;
      fenced = v.fenced;
      no_blocked_replay = v.no_blocked_replay;
    };
    same_policy = refl;
    move = stay;
  }

  pub record_output_artifact-Evolves :
      (token : String) (ref : LeaseRef) (artifact : String) (s : CoordinatorStore)
      → WellFormed s
      → Evolves s (record_output_artifact p h l c token ref artifact s).1
  unfolding record_output_artifact IsMatched
  record_output_artifact-Evolves token ref artifact s w =
      mutate-Evolves c.recovery _ s
        (λ m u. bind-Post _ _ (λ who known.
          bind_known _ _
            (match_lease-IsMatched h c.lease who.0.id ref.job_id ref.lease_id ref.fencing_token m)
            (λ x matched. bind-Post _ _ (λ valid checked. require-Post _ _ _ (λ room. gives (
              change_job-Evolves ref.job_id _ m x.0 u matched.0 (λ sound.
                add_output-IsStep m.next_fencing_token c.operation artifact x.0 sound)))))))
        w

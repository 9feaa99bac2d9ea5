-- ===== src/Distributed/LeaseSteps.antt =====
-- The operations of src/distributed/coordinator.ts on the leased job move it as the state machine says.
use folder_forge.Base.{
  ℕ, String, ◌≡◌, refl, sym, Bool, true, false, ◌&&◌, Option, none, some, arith, string_eq, nat_eq,
  find, find_All, Bool-cases, inl, inr, ◌⊎◌,
}
use folder_forge.Distributed.Store.{
  Lease, JobState, failed, cancelled, is_final, JobRecord, CoordinatorStore, CoordinatorError,
  Result, ok, fail, ◌>>=◌, require, or_fail, has_job_id, holds_lease, is_leased, wrong_state,
  change_worker, change_job,
}
use folder_forge.Distributed.Guards.{
  Host, Limits, Clock, authenticate, is_lease, match_lease, find_job, bound_ttl,
}
use folder_forge.Json.{Platform}
use folder_forge.Distributed.Leases.{
  LeaseRef, touch, acknowledge, acknowledge_in_store, acknowledge_job, renew, heartbeat_in_store,
  heartbeat, finish, fail_in_store, fail_job, retry_blocked, cancel_found, cancel_job,
}
use folder_forge.Distributed.Machine.{
  IsSound, IsStep, acknowledge-IsStep, renew-IsStep, finish-IsStep, requeue-IsStep,
}
use folder_forge.Distributed.Progress.{
  WellFormed, Evolves, IsSafe, Post, fails, gives, Evolves-refl, mutate-Evolves,
  change_first-Progress,
}

pub Result-cases {ℓ} :
    {A : Type ℓ} (r : Result A)
    → ((error : CoordinatorError) × (r ≡ fail error)) ⊎ ((a : A) × (r ≡ ok a))
Result-cases (fail error) = inl (error, refl)
Result-cases (ok a) = inr (a, refl)

pub bind-Post {ℓ κ μ} :
    {A : Type ℓ} {B : Type κ} {P : B → Type μ} (r : Result A) (k : A → Result B)
    → ((a : A) → r ≡ ok a → Post P (k a))
    → Post P (r >>= k)
unfolding ◌>>=◌
bind-Post (fail error) k after = fails
bind-Post (ok a) k after = after a refl

pub bind_known {ℓ κ μ ν} :
    {A : Type ℓ} {B : Type κ} {Q : A → Type ν} {P : B → Type μ} (r : Result A) (k : A → Result B)
    → Post Q r
    → ((a : A) → Q a → Post P (k a))
    → Post P (r >>= k)
unfolding ◌>>=◌
bind_known (fail error) k known after = fails
bind_known (ok a) k (gives known) after = after a known

pub require-Post {κ μ} :
    {B : Type κ} {P : B → Type μ} (b : Bool) (error : CoordinatorError) (k : Bool → Result B)
    → (b ≡ true → Post P (k true))
    → Post P (require b error >>= k)
unfolding ◌>>=◌ require
require-Post true error k after = after refl
require-Post false error k after = fails

pub or_fail-Post {ℓ κ μ} :
    {A : Type ℓ} {B : Type κ} {P : B → Type μ} (o : Option A) (error : CoordinatorError)
    (k : A → Result B)
    → ((a : A) → o ≡ some a → Post P (k a))
    → Post P (or_fail o error >>= k)
unfolding ◌>>=◌ or_fail
or_fail-Post none error k after = fails
or_fail-Post (some a) error k after = after a refl

both : (a b : Bool) → a && b ≡ true → (a ≡ true) × (b ≡ true)
both a b e = ground arith

is_lease_ok :
    (h : Host) (worker_id lease_id : String) (fencing_token : ℕ) (lease : Lease)
    → is_lease h worker_id lease_id fencing_token lease ≡ true
    → (lease.worker_id ≡ worker_id)
      × ((lease.id ≡ lease_id) × (lease.fencing_token ≡ fencing_token))
is_lease_ok h worker_id lease_id fencing_token lease e =
    let (first, third) = both _ _ e in
    let (one, two) = both _ _ first in
    (
      (string_eq.equals_iff _ _).0 one,
      ((string_eq.equals_iff _ _).0 two, (nat_eq.equals_iff _ _).0 third),
    )

-- What `matchLease` makes sure of.
unfoldable pub IsMatched :
    String → String → ℕ → String → CoordinatorStore → JobRecord × Lease → Type 0
IsMatched worker_id lease_id fencing_token job_id s x =
    (find (has_job_id job_id) s.jobs ≡ some x.0)
    × ((x.0.lease ≡ some x.1)
        × ((x.1.worker_id ≡ worker_id)
            × ((x.1.id ≡ lease_id) × (x.1.fencing_token ≡ fencing_token))))

pub match_lease-IsMatched :
    (h : Host) (now : ℕ) (worker_id job_id lease_id : String) (fencing_token : ℕ)
    (s : CoordinatorStore)
    → Post
        (IsMatched worker_id lease_id fencing_token job_id s)
        (match_lease h now worker_id job_id lease_id fencing_token s)
unfolding match_lease find_job IsMatched
match_lease-IsMatched h now worker_id job_id lease_id fencing_token s = require-Post _ _ _ (λ named.
    or_fail-Post _ _ _ (λ job found. or_fail-Post _ _ _ (λ lease held. require-Post _ _ _ (λ same.
      require-Post _ _ _ (λ live.
        gives (found, (held, is_lease_ok h worker_id lease_id fencing_token lease same)))))))

-- The common shape of the bodies of `acknowledgeJob` and `heartbeat`.
unfoldable on_lease :
    (h : Host) (l : Limits) (c : Clock) (token : String) (ref : LeaseRef)
    (admits : JobRecord → Bool) (change : Lease → JobRecord → JobRecord)
    → CoordinatorStore
    → Result (JobRecord × CoordinatorStore)
unfolding authenticate match_lease
on_lease h l c token ref admits change s = do
  (worker, claims) ← authenticate h c.token token s
  (job, lease) ← match_lease h c.lease worker.id ref.job_id ref.lease_id ref.fencing_token s
  ready ← require (admits job) wrong_state
  ok (
    change lease job,
    change_worker worker.id (touch c.operation) (change_job ref.job_id (change lease) s),
  )

-- A change of the leased job that is a step makes a safe operation.
on_lease-IsSafe :
    (h : Host) (l : Limits) (c : Clock) (token : String) (ref : LeaseRef)
    (admits : JobRecord → Bool) (change : Lease → JobRecord → JobRecord)
    → ((last : ℕ) (lease : Lease) (job : JobRecord)
        → IsSound last job
        → job.lease ≡ some lease
        → admits job ≡ true
        → IsStep last job (change lease job))
    → IsSafe (on_lease h l c token ref admits change)
unfolding on_lease IsMatched
on_lease-IsSafe h l c token ref admits change step s v = bind-Post _ _ (λ who known.
    bind_known _ _
      (match_lease-IsMatched h c.lease who.0.id ref.job_id ref.lease_id ref.fencing_token s)
      (λ x matched. require-Post _ _ _ (λ ready.
        let (found, rest) = matched in
        let (held, owned) = rest in
        gives record {
          fencing = omega arith;
          progress =
              change_first-Progress (has_job_id ref.job_id) (change x.1) s.jobs x.0 found
                (step s.next_fencing_token x.1 x.0
                  (find_All (IsSound s.next_fencing_token) (has_job_id ref.job_id) s.jobs v found)
                  held ready)
                v;
        })))

-- A change of the job with an id, where a test of the job admits it.
pub change_job-Evolves :
    (id : String) (f : JobRecord → JobRecord) (s : CoordinatorStore) (job : JobRecord)
    → WellFormed s
    → find (has_job_id id) s.jobs ≡ some job
    → (IsSound s.next_fencing_token job → IsStep s.next_fencing_token job (f job))
    → Evolves s (change_job id f s)
change_job-Evolves id f s job v found step = record {
  fencing = omega arith;
  progress =
      change_first-Progress (has_job_id id) f s.jobs job found
        (step (find_All (IsSound s.next_fencing_token) (has_job_id id) s.jobs v found)) v;
}

module _ (p : Platform) (h : Host) (l : Limits) (c : Clock) where
  pub acknowledge_job-Evolves :
      (token : String) (ref : LeaseRef) (s : CoordinatorStore)
      → WellFormed s
      → Evolves s (acknowledge_job h l c token ref s).1
  unfolding acknowledge_job acknowledge_in_store on_lease
  acknowledge_job-Evolves token ref s v =
      mutate-Evolves c.recovery (acknowledge_in_store h l c token ref) s
        (on_lease-IsSafe h l c token ref (λ job. is_leased job.state) (acknowledge c.operation)
          (λ last lease job w held ready.
            acknowledge-IsStep last c.operation lease job w held ready))
        v

  pub heartbeat-Evolves :
      (token : String) (ref : LeaseRef) (ttl : ℕ) (s : CoordinatorStore)
      → WellFormed s
      → Evolves s (heartbeat h l c token ref ttl s).1
  unfolding heartbeat heartbeat_in_store on_lease
  heartbeat-Evolves token ref ttl s v = elim (Result-cases (bound_ttl h ttl l.max_lease_ttl_ms)) [
    | inl (error, e) ↦ rw (e, heartbeat) (Evolves-refl s v)
    | inr (t, e) ↦
        rw (e, heartbeat)
          (mutate-Evolves c.recovery (heartbeat_in_store h l c token ref t) s
            (on_lease-IsSafe h l c token ref (λ job. holds_lease job.state) (renew c.operation t)
              (λ last lease job w held ready. renew-IsStep last c.operation t lease job w held))
            v)
  ]

  not_final : (a : JobState) → holds_lease a ≡ true → is_final a ≡ false
  not_final a held = ground arith

  -- A job that has a lease is not final.
  pub lease-live :
      (last : ℕ) (lease : Lease) (job : JobRecord)
      → IsSound last job
      → job.lease ≡ some lease
      → is_final job.state ≡ false
  lease-live last lease job w held = not_final job.state (sym (rw held at w.holds))

  pub fail_job-Evolves :
      (token : String) (ref : LeaseRef) (reason : String) (s : CoordinatorStore)
      → WellFormed s
      → Evolves s (fail_job h l c token ref reason s).1
  unfolding fail_job fail_in_store IsMatched
  fail_job-Evolves token ref reason s v =
      mutate-Evolves c.recovery (fail_in_store h l c token ref reason) s
        (λ m w. bind-Post _ _ (λ who known.
          bind_known _ _
            (match_lease-IsMatched h c.lease who.0.id ref.job_id ref.lease_id ref.fencing_token m)
            (λ x matched. bind-Post _ _ (λ text bounded. gives (
              change_job-Evolves ref.job_id (finish failed (some text) c.operation) m x.0 w
                matched.0
                (λ u.
                  finish-IsStep m.next_fencing_token c.operation failed (some text) x.0
                    (lease-live m.next_fencing_token x.1 x.0 u matched.1.0) refl))))))
        v

  pub retry_blocked-Evolves :
      (id : String) (s : CoordinatorStore) → WellFormed s → Evolves s (retry_blocked h l c id s).1
  unfolding retry_blocked find_job
  retry_blocked-Evolves id s v = elim (Bool-cases (h.is_job_id id)) [
    | inr b ↦ rw (b, retry_blocked) (Evolves-refl s v)
    | inl b ↦
        rw (b, retry_blocked)
          (mutate-Evolves c.recovery _ s
            (λ m w. or_fail-Post _ _ _ (λ job found. require-Post _ _ _ (λ stopped.
              require-Post _ _ _ (λ again. gives (
                change_job-Evolves id _ m job w found
                  (λ u. requeue-IsStep m.next_fencing_token c.operation job u stopped again))))))
            v)
  ]

  cancel_found-Post :
      (f : JobRecord → JobRecord) (reason : String) (job : JobRecord) (id : String)
      (s : CoordinatorStore)
      → WellFormed s
      → (is_final job.state ≡ false → Evolves s (change_job id f s))
      → Post (λ x. Evolves s x.1) (cancel_found h l f reason job id s)
  unfolding cancel_found
  cancel_found-Post f reason job id s v evolves = elim (Bool-cases (is_final job.state)) [
    | inl b ↦ rw (b, cancel_found) (gives (Evolves-refl s v))
    | inr b ↦ rw (b, cancel_found) (bind-Post _ _ (λ text e. gives (evolves b)))
  ]

  pub cancel_job-Evolves :
      (id reason : String) (s : CoordinatorStore)
      → WellFormed s
      → Evolves s (cancel_job h l c id reason s).1
  unfolding cancel_job find_job
  cancel_job-Evolves id reason s v = elim (Bool-cases (h.is_job_id id)) [
    | inr b ↦ rw (b, cancel_job) (Evolves-refl s v)
    | inl b ↦
        rw (b, cancel_job)
          (mutate-Evolves c.recovery _ s
            (λ m w. or_fail-Post _ _ _ (λ job found.
              cancel_found-Post (finish cancelled (some (h.trim reason)) c.operation) reason job id
                m w
                (λ live. change_job-Evolves id _ m job w found (λ u.
                  finish-IsStep m.next_fencing_token c.operation cancelled (some (h.trim reason))
                    job live refl))))
            v)
  ]

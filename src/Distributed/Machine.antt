-- ===== src/Distributed/Machine.antt =====
-- The states of a job of src/distributed/coordinator.ts as a state machine: each change that the
-- coordinator makes of a job is one of its moves, and keeps the record in order.
use folder_forge.Base.{
  ℕ, ◌≤◌, ◌≡◌, refl, Bool, true, false, not, ◌&&◌, ◌||◌, Option, none, some, arith, is_some, String,
  Bool-cases, inl, inr, sym, string_eq,
}
use folder_forge.Distributed.Store.{
  ReplayPolicy, idempotent, no_replay, JobState, queued, leased, running, completed, failed,
  blocked, cancelled, Lease, JobRecord, holds_lease, is_queued, is_leased, is_running, is_blocked,
  is_final, is_idempotent, is_over, clear_lease, expire_lease, recover_job, acknowledged,
}
use folder_forge.Distributed.Leases.{leased_to, grant, acknowledge, renew, finish, requeue}
use folder_forge.Distributed.Workers.{release}

-- The moves of a job with a replay policy.
pub data Move (r : ReplayPolicy) : JobState → JobState → Type 0 where
  stay : {a : JobState} → Move r a a
  grants : Move r queued leased
  starts : Move r leased running
  expires : Move r leased queued
  replays : r ≡ idempotent → Move r running queued
  blocks : r ≡ no_replay → Move r running blocked
  retries : r ≡ idempotent → Move r blocked queued
  ends : {a b : JobState} → is_final a ≡ false → is_final b ≡ true → Move r a b

-- Any number of moves.
pub data Moves (r : ReplayPolicy) : JobState → JobState → Type 0 where
  done : {a : JobState} → Moves r a a
  then_move : {a b c : JobState} → Moves r a b → Move r b c → Moves r a c

abbrev pub fence : Option Lease → ℕ
fence none = 0
fence (some lease) = lease.fencing_token

abbrev is_acknowledged : Option Lease → Bool
is_acknowledged none = false
is_acknowledged (some lease) = is_some lease.acknowledged_at

-- A job in order, under the last fencing token that was given out.
pub record IsSound (last : ℕ) (job : JobRecord) : Type 0 where
  pub holds : is_some job.lease ≡ holds_lease job.state
  pub acknowledged : is_acknowledged job.lease ≡ is_running job.state
  pub fenced : fence job.lease ≤ last
  pub no_blocked_replay : is_blocked job.state && is_idempotent job.replay_policy ≡ false

-- A change of a job that is a move and leaves the job in order.
pub record IsStep (last : ℕ) (before after : JobRecord) : Type 0 where
  pub sound : IsSound last after
  pub same_policy : after.replay_policy ≡ before.replay_policy
  pub move : Move before.replay_policy before.state after.state

pub stay-IsStep : (last : ℕ) (job : JobRecord) → IsSound last job → IsStep last job job
stay-IsStep last job v = record { sound = v; same_policy = refl; move = stay }

-- The test of `expireLease`.
abbrev is_free : ReplayPolicy → JobState → Option Lease → Bool
is_free r a lease = not (is_running a || acknowledged lease) || is_idempotent r

free_move :
    (r : ReplayPolicy) (a : JobState) (lease : Option Lease)
    → holds_lease a ≡ true
    → is_free r a lease ≡ true
    → Move r a queued
free_move r leased lease held free = expires
free_move idempotent running lease held free = replays refl
free_move no_replay running lease held free = absurd (ground arith)
free_move r queued lease held free = absurd (ground arith)
free_move r completed lease held free = absurd (ground arith)
free_move r failed lease held free = absurd (ground arith)
free_move r blocked lease held free = absurd (ground arith)
free_move r cancelled lease held free = absurd (ground arith)

not_free_move :
    (r : ReplayPolicy) (a : JobState) (lease : Option Lease)
    → holds_lease a ≡ true
    → is_acknowledged lease ≡ is_running a
    → is_free r a lease ≡ false
    → Move r a blocked × (r ≡ no_replay)
not_free_move no_replay running lease held known free = (blocks refl, refl)
not_free_move idempotent running lease held known free = absurd (ground arith)
not_free_move r leased none held known free = absurd (ground arith)
not_free_move r leased (some lease) held known free = absurd (ground arith)
not_free_move r queued lease held known free = absurd (ground arith)
not_free_move r completed lease held known free = absurd (ground arith)
not_free_move r failed lease held known free = absurd (ground arith)
not_free_move r blocked lease held known free = absurd (ground arith)
not_free_move r cancelled lease held known free = absurd (ground arith)

pub expire_lease-IsStep :
    (last : ℕ) (job : JobRecord) (now : ℕ) (reason : String)
    → IsSound last job
    → holds_lease job.state ≡ true
    → IsStep last job (expire_lease job now reason)
unfolding expire_lease clear_lease
expire_lease-IsStep last job now reason v held =
    elim (Bool-cases (is_free job.replay_policy job.state job.lease)) [
      | inl free ↦
          rw (free, expire_lease)
            (record {
              sound = record {
                holds = refl;
                acknowledged = refl;
                fenced = omega arith;
                no_blocked_replay = refl;
              };
              same_policy = refl;
              move = free_move job.replay_policy job.state job.lease held free;
            })
      | inr kept ↦
          let (moved, once) =
            not_free_move job.replay_policy job.state job.lease held v.acknowledged kept in
          rw (kept, expire_lease)
            (record {
              sound = record {
                holds = refl;
                acknowledged = refl;
                fenced = omega arith;
                no_blocked_replay = ground arith;
              };
              same_policy = refl;
              move = moved;
            })
    ]

pub recover_job-IsStep :
    (last now : ℕ) (job : JobRecord) → IsSound last job → IsStep last job (recover_job now job)
unfolding recover_job
recover_job-IsStep last now job v =
    elim (Bool-cases (is_over job.lease now && holds_lease job.state)) [
      | inr b ↦ rw (b, recover_job) (stay-IsStep last job v)
      | inl b ↦
          rw (b, recover_job)
            (expire_lease-IsStep last job now "Lease expired during coordinator recovery." v
              (ground arith))
    ]

pub release-IsStep :
    (last now : ℕ) (worker_id : String) (job : JobRecord)
    → IsSound last job
    → IsStep last job (release worker_id now job)
unfolding release
release-IsStep last now worker_id job v = elim (Bool-cases (leased_to worker_id job)) [
  | inr b ↦ rw (b, release) (stay-IsStep last job v)
  | inl b ↦
      rw (b, release)
        (expire_lease-IsStep last job now "Worker revoked while holding lease." v (ground arith))
]

pub acknowledge-IsStep :
    (last now : ℕ) (lease : Lease) (job : JobRecord)
    → IsSound last job
    → job.lease ≡ some lease
    → is_leased job.state ≡ true
    → IsStep last job (acknowledge now lease job)
unfolding acknowledge
acknowledge-IsStep last now lease job v same ready = record {
  sound = record {
    holds = refl;
    acknowledged = refl;
    fenced = rw same at v.fenced;
    no_blocked_replay = refl;
  };
  same_policy = refl;
  move = leased_move job.state ready;
}
  where
    leased_move : (a : JobState) → is_leased a ≡ true → Move job.replay_policy a running
    leased_move leased ready = starts
    leased_move queued ready = absurd (ground arith)
    leased_move running ready = absurd (ground arith)
    leased_move completed ready = absurd (ground arith)
    leased_move failed ready = absurd (ground arith)
    leased_move blocked ready = absurd (ground arith)
    leased_move cancelled ready = absurd (ground arith)

pub renew-IsStep :
    (last now ttl : ℕ) (lease : Lease) (job : JobRecord)
    → IsSound last job
    → job.lease ≡ some lease
    → IsStep last job (renew now ttl lease job)
unfolding renew
renew-IsStep last now ttl lease job v same = record {
  sound = record {
    holds = rw same at v.holds;
    acknowledged = rw same at v.acknowledged;
    fenced = rw same at v.fenced;
    no_blocked_replay = v.no_blocked_replay;
  };
  same_policy = refl;
  move = stay;
}

final_facts :
    (a : JobState)
    → is_final a ≡ true
    → (holds_lease a ≡ false) × ((is_running a ≡ false) × (is_blocked a ≡ false))
final_facts a end = ground arith

pub finish-IsStep :
    (last now : ℕ) (state : JobState) (failure : Option String) (job : JobRecord)
    → is_final job.state ≡ false
    → is_final state ≡ true
    → IsStep last job (finish state failure now job)
unfolding finish clear_lease
finish-IsStep last now state failure job live end =
    let (free, rest) = final_facts state end in
    let (idle, moving) = rest in
    record {
      sound = record {
        holds = sym free;
        acknowledged = sym idle;
        fenced = omega arith;
        no_blocked_replay = ground arith;
      };
      same_policy = refl;
      move = ends live end;
    }

pub requeue-IsStep :
    (last now : ℕ) (job : JobRecord)
    → IsSound last job
    → is_blocked job.state ≡ true
    → is_idempotent job.replay_policy ≡ true
    → IsStep last job (requeue now job)
requeue-IsStep last now job v stopped again =
    absurd (let never = v.no_blocked_replay in ground arith)

pub grant-IsStep :
    (last : ℕ) (lease : Lease) (job : JobRecord)
    → is_queued job.state ≡ true
    → lease.fencing_token ≤ last
    → is_some lease.acknowledged_at ≡ false
    → IsStep last job (grant lease job)
unfolding grant
grant-IsStep last lease job waiting fenced unknown = record {
  sound = record {
    holds = refl;
    acknowledged = unknown;
    fenced = fenced;
    no_blocked_replay = refl;
  };
  same_policy = refl;
  move = queued_move job.state waiting;
}
  where
    queued_move : (a : JobState) → is_queued a ≡ true → Move job.replay_policy a leased
    queued_move queued ready = grants
    queued_move leased ready = absurd (ground arith)
    queued_move running ready = absurd (ground arith)
    queued_move completed ready = absurd (ground arith)
    queued_move failed ready = absurd (ground arith)
    queued_move blocked ready = absurd (ground arith)
    queued_move cancelled ready = absurd (ground arith)

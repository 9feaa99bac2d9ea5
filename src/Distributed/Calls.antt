-- ===== src/Distributed/Calls.antt =====
-- The calls of the coordinator of src/distributed/coordinator.ts, and a history of them.
use folder_forge.Base.{ℕ, String, Option, List, [], ◌∷◌}
use folder_forge.Json.{Platform}
use folder_forge.Distributed.Store.{CoordinatorStore, Evidence}
use folder_forge.Distributed.Guards.{Host, Limits, Clock}
use folder_forge.Distributed.Leases.{
  LeaseRef, lease_job, acknowledge_job, heartbeat, fail_job, cancel_job, retry_blocked,
  recover_expired_leases,
}
use folder_forge.Distributed.Workers.{register_worker, rotate_worker_token, revoke_worker}
use folder_forge.Distributed.Submission.{JobInput, submit_job}
use folder_forge.Distributed.Completion.{Signer, complete_job, record_output_artifact}

-- A call that writes the store, with its arguments and the ids that it makes.
pub data Call : Type 0 where
  register : (id token_id name : String) → List String → (pem : String) → ℕ → Call
  rotate : (id token_id : String) → ℕ → Call
  revoke : (id reason : String) → Call
  submit : (id : String) → JobInput → Call
  lease : (lease_id token : String) → ℕ → Call
  acknowledge : (token : String) → LeaseRef → Call
  beat : (token : String) → LeaseRef → ℕ → Call
  complete : (token : String) → Evidence → (signature : String) → Call
  upload : (token : String) → LeaseRef → (artifact : String) → Call
  report_failure : (token : String) → LeaseRef → (reason : String) → Call
  cancel : (id reason : String) → Call
  retry : (id : String) → Call
  recover : Call

-- What the calls take of the host.
pub record Setting : Type 0 where
  pub platform : Platform
  pub host : Host
  pub limits : Limits
  pub signer : Signer
  pub key_details : String → Option (String × String)

module _ (x : Setting) where
  unfoldable pub after : Clock × Call → CoordinatorStore → CoordinatorStore
  after (c, register id token_id name capabilities pem ttl) s =
      (register_worker x.host x.limits c x.key_details id token_id name capabilities pem ttl s).1
  after (c, rotate id token_id ttl) s = (rotate_worker_token x.host x.limits c id token_id ttl s).1
  after (c, revoke id reason) s = (revoke_worker x.host x.limits c id reason s).1
  after (c, submit id input) s = (submit_job x.platform x.host x.limits c id input s).1
  after (c, lease lease_id token ttl) s = (lease_job x.host x.limits c lease_id token ttl s).1
  after (c, acknowledge token ref) s = (acknowledge_job x.host x.limits c token ref s).1
  after (c, beat token ref ttl) s = (heartbeat x.host x.limits c token ref ttl s).1
  after (c, complete token evidence signature) s =
      (complete_job x.platform x.host x.limits x.signer c token evidence signature s).1
  after (c, upload token ref artifact) s =
      (record_output_artifact x.platform x.host x.limits c token ref artifact s).1
  after (c, report_failure token ref reason) s = (fail_job x.host x.limits c token ref reason s).1
  after (c, cancel id reason) s = (cancel_job x.host x.limits c id reason s).1
  after (c, retry id) s = (retry_blocked x.host x.limits c id s).1
  after (c, recover) s = recover_expired_leases c.recovery s

  unfoldable pub run : List (Clock × Call) → CoordinatorStore → CoordinatorStore
  unfolding after
  run [] s = s
  run (call ∷ calls) s = run calls (after call s)

-- ===== src/Examples/Coordinator.antt =====
-- Runs of the coordinator of src/distributed/coordinator.ts.
use folder_forge.Base.{
  ℕ, String, ◌≡◌, ◌≢◌, refl, true, false, Option, none, some, List, [], ◌∷◌, arith, if◌then◌else◌,
  ◌==◌, string_eq,
}
use folder_forge.Distributed.Store.{
  Evidence, Lease, JobState, ReplayPolicy, queued, running, completed, blocked, no_replay,
  idempotent, active, JobRecord, WorkerRecord, CoordinatorStore, ok, mutate, recover_in_store,
  map_jobs, recover_job, require, or_fail, ◌>>=◌, change_first,
}
use folder_forge.Distributed.Guards.{
  bounded_string, Host, Limits, Clock, TokenClaims, authenticate, match_lease, find_job,
  find_worker, bound_ttl,
}
use folder_forge.Distributed.Leases.{
  LeaseRef, renew, heartbeat, heartbeat_in_store, lease_job, lease_in_store, hold_or_grant,
  grant_next, next_job, retry_blocked, lease_view, held_by, grant, by_age, placed_from,
  insert_by_age,
}
use folder_forge.Distributed.Completion.{
  validate_evidence, check_evidence, same_texts, text_items, accept, complete_in_store,
}
use folder_forge.Distributed.Submission.{
  distinct_onto, sort_texts, validate_artifact_ids, JobInput, Submission, new_job,
}
use folder_forge.Json.{canonical, str, obj, field, no_fields}
use folder_forge.Distributed.Calls.{Call, Setting, recover, retry, cancel, lease, run}
use folder_forge.Distributed.Machine.{IsSound}
use folder_forge.Distributed.Progress.{WellFormed, Evolves}
use folder_forge.Distributed.History.{job_at, is_started, run-Evolves, run-no_replay, run-final}
use folder_forge.Distributed.Fencing.{IsFenced, lease_job-IsFenced, retry_blocked-fails}
use folder_forge.Distributed.Ownership.{
  IsOwner, beats, lease_call-IsOwner, IsCompletion, complete_in_store-IsCompletion,
}
use folder_forge.Examples.Approvals.{platform}

abbrev claims : TokenClaims
claims = record { worker_id = "w1"; token_id = "t1"; issued_at = 0; expires_at = 5000 }

abbrev host : Host
host = record {
  verified_claims = λ token. if token == "good" then some claims else none;
  sign_token = λ c. "good";
  is_worker_id = λ s. true;
  is_job_id = λ s. true;
  is_artifact_id = λ s. true;
  is_capability = λ s. true;
  is_tool_name = λ s. true;
  is_hash = λ s. true;
  without_sha256 = λ s. s;
  artifact_exists = λ s. true;
  trim = λ s. s;
  byte_length = λ s. 10;
  has_nul = λ s. false;
  text_le = λ a b. true;
  encrypt = λ s. s;
  decrypt = λ s. some s;
}

abbrev limits : Limits
limits = record { max_queued_jobs = 10; max_token_ttl_ms = 900000; max_lease_ttl_ms = 60000 }

abbrev setting : Setting
setting = record {
  platform = platform;
  host = host;
  limits = limits;
  signer = record {
    verify_evidence = λ v s k. true;
    sign_acceptance = λ v s t. "signed";
    fingerprint = "key";
  };
  key_details = λ pem. some (pem, pem);
}

abbrev clock : ℕ → Clock
clock t = record { recovery = t; token = t; lease = t; operation = t }

abbrev worker : WorkerRecord
worker = record {
  id = "w1";
  name = "one";
  capabilities = "net" ∷ [];
  public_key_pem = "pem";
  public_key_fingerprint = "pem";
  state = active;
  active_token_id = some "t1";
  token_expires_at = some 5000;
  created_at = 0;
  updated_at = 0;
  last_seen_at = none;
  revoked_at = none;
  revoke_reason = none;
}

abbrev job_with : String → ReplayPolicy → JobState → Option Lease → JobRecord
job_with id policy state current = record {
  id = id;
  idempotency_key = id;
  tool = "shell_exec";
  args_digest = "a";
  payload_digest = "p";
  encrypted_payload = "payload";
  input_artifacts = [];
  required_capabilities = "net" ∷ [];
  replay_policy = policy;
  state = state;
  attempts = 1;
  created_at = 0;
  updated_at = 0;
  lease = current;
  lease_output_artifacts = none;
  completed_at = none;
  failure = none;
  blocked_reason = none;
  completion = none;
}

abbrev held : Lease
held = record {
  id = "l1";
  worker_id = "w1";
  token_id = "t1";
  fencing_token = 3;
  issued_at = 0;
  expires_at = 1000;
  acknowledged_at = some 5;
  last_heartbeat_at = some 5;
}

abbrev store_of : JobRecord → CoordinatorStore
store_of job = record {
  next_fencing_token = 3;
  workers = worker ∷ [];
  jobs = job ∷ job_with "j2" idempotent queued none ∷ [];
}

abbrev runs : CoordinatorStore
runs = store_of (job_with "j1" no_replay running (some held))

abbrev stops : CoordinatorStore
stops = store_of (job_with "j1" no_replay blocked none)

abbrev ends : CoordinatorStore
ends = store_of (job_with "j1" no_replay completed none)

waiting-IsSound : IsSound 3 (job_with "j2" idempotent queued none)
waiting-IsSound = record {
  holds = refl;
  acknowledged = refl;
  fenced = omega arith;
  no_blocked_replay = refl;
}

runs-WellFormed : WellFormed runs
runs-WellFormed = (
  record { holds = refl; acknowledged = refl; fenced = omega arith; no_blocked_replay = refl },
  (waiting-IsSound, tt),
)

stops-WellFormed : WellFormed stops
stops-WellFormed = (
  record { holds = refl; acknowledged = refl; fenced = omega arith; no_blocked_replay = refl },
  (waiting-IsSound, tt),
)

ends-WellFormed : WellFormed ends
ends-WellFormed = (
  record { holds = refl; acknowledged = refl; fenced = omega arith; no_blocked_replay = refl },
  (waiting-IsSound, tt),
)

-- The lease is over, the recovery blocks the job, and no retry brings it back.
abbrev calls : List (Clock × Call)
calls =
    (clock 1000, recover)
    ∷ (clock 1001, retry "j1")
    ∷ (clock 1002, lease "l2" "good" 2000)
    ∷ (clock 1003, cancel "j1" "stop")
    ∷ []

run-Evolves_example : Evolves runs (run setting calls runs)
run-Evolves_example = run-Evolves setting calls runs runs-WellFormed

run-no_replay_example :
    (k : JobRecord) × ((job_at (run setting calls runs).jobs 0 ≡ some k)
      × (is_started k.state ≡ true))
unfolding job_at
run-no_replay_example =
    run-no_replay setting calls runs 0 (job_with "j1" no_replay running (some held)) runs-WellFormed
      refl refl refl

run-final_example :
    (k : JobRecord) × ((job_at (run setting calls ends).jobs 0 ≡ some k) × (k.state ≡ completed))
unfolding job_at
run-final_example =
    run-final setting calls ends 0 (job_with "j1" no_replay completed none) ends-WellFormed refl
      refl

retry_blocked-fails_example :
    (retry_blocked host limits (clock 10) "j1" stops).0 ≢ ok (job_with "j1" no_replay queued none)
retry_blocked-fails_example =
    retry_blocked-fails host limits (clock 10) "j1" stops (job_with "j1" no_replay queued none)
      stops-WellFormed

abbrev granted : JobRecord
granted =
    grant
      (record {
        id = "l2";
        worker_id = "w1";
        token_id = "t1";
        fencing_token = 4;
        issued_at = 10;
        expires_at = 2010;
        acknowledged_at = none;
        last_heartbeat_at = none;
      })
      (job_with "j2" idempotent queued none)

lease_job-IsFenced_example :
    IsFenced host limits
      (clock 10)
      "good"
      (recover_in_store (clock 10).recovery stops)
      (some (granted, "payload"), (lease_job host limits (clock 10) "l2" "good" 2000 stops).1)
unfolding lease_job mutate recover_in_store map_jobs recover_job bound_ttl lease_in_store
    authenticate find_worker hold_or_grant grant_next next_job by_age placed_from insert_by_age
    lease_view held_by require or_fail ◌>>=◌ grant
lease_job-IsFenced_example =
    lease_job-IsFenced host limits (clock 10) "l2" "good" 2000 stops (some (granted, "payload"))
      stops-WellFormed refl

abbrev ref : LeaseRef
ref = record { job_id = "j1"; lease_id = "l1"; fencing_token = 3 }

lease_call-IsOwner_example :
    IsOwner host limits (clock 10) "good" ref (recover_in_store (clock 10).recovery runs)
unfolding heartbeat heartbeat_in_store bound_ttl mutate recover_in_store map_jobs recover_job
    authenticate find_worker match_lease find_job require or_fail ◌>>=◌ change_first renew
lease_call-IsOwner_example =
    lease_call-IsOwner platform host limits (clock 10) (beats 2000) "good" ref runs
      (renew 10 2000 held (job_with "j1" no_replay running (some held))) refl

abbrev evidence : Evidence
evidence = record {
  schema_version = 1;
  job_id = "j1";
  lease_id = "l1";
  fencing_token = 3;
  worker_id = "w1";
  tool = "shell_exec";
  args_digest = "a";
  result_digest = "r";
  result_ok = true;
  result_summary = none;
  input_artifacts = [];
  output_artifacts = [];
  sandbox_evidence = record { mode = "docker"; policy_digest = "d"; image_digest = none };
  completed_at = 9;
}

abbrev accepted : JobRecord × CoordinatorStore
accepted =
    let f = accept platform host limits setting.signer 10 evidence "s" in
    (
      f (job_with "j1" no_replay running (some held)),
      store_of (f (job_with "j1" no_replay running (some held))),
    )

complete_in_store-IsCompletion_example :
    IsCompletion platform host limits setting.signer (clock 10) "good" evidence "s" runs
unfolding complete_in_store authenticate find_worker validate_evidence bounded_string
    validate_artifact_ids distinct_onto sort_texts match_lease find_job check_evidence same_texts
    text_items canonical require or_fail ◌>>=◌ change_first
complete_in_store-IsCompletion_example =
    complete_in_store-IsCompletion platform host limits setting.signer (clock 10) "good" evidence
      "s" runs accepted refl

abbrev sent : JobInput
sent = record {
  tool = "shell_exec";
  args = obj no_fields;
  idempotency_key = some "k3";
  replay_policy = idempotent;
  required_capabilities = "net" ∷ [];
  input_artifacts = [];
}

abbrev payload_text : String
payload_text =
    canonical platform
      (obj (field "tool" (str "shell_exec") (field "args" (obj no_fields) no_fields)))

abbrev submission : Submission
submission = record {
  tool = "shell_exec";
  idempotency_key = "k3";
  args_digest = platform.sha256 (canonical platform (obj no_fields));
  payload_digest = platform.sha256 payload_text;
  payload_text = payload_text;
  replay_policy = idempotent;
  required_capabilities = "net" ∷ [];
  input_artifacts = [];
}

abbrev added : JobRecord
added = new_job platform host limits "j3" 10 submission

-- ===== src/Distributed/Completion.antt =====
-- src/distributed/coordinator.ts: `completeJob` and `recordOutputArtifact`. The keys that sign and
-- verify evidence are arguments. Numbers and flags of evidence are of their types.
use folder_forge.Base.{
  nat_eq, ltb, any, Option, none, true, ℕ, ◌-◌, String, Bool, ◌&&◌, some, List, [], ◌∷◌, leb, max,
  min, if◌then◌else◌, ◌==◌, string_eq, get_or, length,
}
use folder_forge.Json.{str, arr, Items, no_items, item, Platform, canonical}
use folder_forge.Distributed.Store.{
  Evidence, JobRecord, WorkerRecord, completed, failed, CoordinatorStore, Result, ok, ◌>>=◌,
  require, wrong_state, evidence_mismatch, invalid_signature, clock_skew, artifact_limit,
  invalid_argument, is_running, change_job, mutate,
}
use folder_forge.Distributed.Guards.{Host, Limits, Clock, authenticate, match_lease, bounded_string}
use folder_forge.Distributed.Leases.{LeaseRef, finish}
use folder_forge.Distributed.Submission.{distinct_onto, sort_texts, validate_artifact_ids}

-- `node:crypto` on evidence: of the worker's key and signature, and of the coordinator's key.
pub record Signer : Type 0 where
  pub verify_evidence : Evidence → (signature public_key_pem : String) → Bool
  pub sign_acceptance : Evidence → (signature : String) → (accepted_at : ℕ) → String
  pub fingerprint : String

unfoldable pub text_items : List String → Items
text_items [] = no_items
text_items (t ∷ texts) = item (str t) (text_items texts)

module _ (p : Platform) (h : Host) (l : Limits) where
  -- `canonicalJson(a) === canonicalJson(b)`
  unfoldable pub same_texts : List String → List String → Bool
  unfolding text_items
  same_texts a b = canonical p (arr (text_items a)) == canonical p (arr (text_items b))

  abbrev optional_string : Option String → Result Bool
  optional_string none = ok true
  optional_string (some text) = bounded_string h 2000 text >>= (λ bounded. ok true)

  abbrev is_image : Option String → Bool
  is_image none = true
  is_image (some digest) = h.is_hash (h.without_sha256 digest)

  -- The form of evidence.
  unfoldable pub validate_evidence : Evidence → Result Bool
  unfolding bounded_string validate_artifact_ids
  validate_evidence v = do
    version ← require (v.schema_version == 1) invalid_argument
    job_named ← require (h.is_job_id v.job_id) invalid_argument
    worker_named ← require (h.is_worker_id v.worker_id) invalid_argument
    lease_id ← bounded_string h 128 v.lease_id
    tool ← bounded_string h 128 v.tool
    token ← require (ltb 0 v.fencing_token) invalid_argument
    digests ← require (h.is_hash v.args_digest && h.is_hash v.result_digest) invalid_argument
    summary ← optional_string v.result_summary
    inputs ← validate_artifact_ids h v.input_artifacts
    outputs ← validate_artifact_ids h v.output_artifacts
    time ← require (ltb 0 v.completed_at) invalid_argument
    sandbox ←
        require
          (any (λ m. m == v.sandbox_evidence.mode)
            ("process" ∷ "docker" ∷ "podman" ∷ "remote" ∷ []))
          invalid_argument
    policy ← require (h.is_hash v.sandbox_evidence.policy_digest) invalid_argument
    require (is_image v.sandbox_evidence.image_digest) invalid_argument

  -- What evidence must say of the job that its lease names.
  unfoldable pub check_evidence :
      Signer → ℕ → Evidence → String → WorkerRecord → JobRecord → Result Bool
  unfolding same_texts validate_artifact_ids
  check_evidence k now v signature worker job = do
    ready ← require (is_running job.state) wrong_state
    about ←
        require (v.worker_id == worker.id && v.tool == job.tool && v.args_digest == job.args_digest)
          evidence_mismatch
    inputs ← require (same_texts v.input_artifacts job.input_artifacts) evidence_mismatch
    outputs ← validate_artifact_ids h v.output_artifacts
    uploaded ← require (same_texts outputs (get_or job.lease_output_artifacts [])) evidence_mismatch
    signed ← require (k.verify_evidence v signature worker.public_key_pem) invalid_signature
    require (leb (max now v.completed_at - min now v.completed_at) 300000) clock_skew

  unfoldable pub accept : Signer → ℕ → Evidence → String → JobRecord → JobRecord
  unfolding finish
  accept k now v signature job =
      let failure =
        if v.result_ok
        then job.failure
        else some (get_or v.result_summary "Remote worker reported a failed result.") in
      record (finish (if v.result_ok then completed else failed) failure now job) {
        completion = some record {
          evidence = v;
          worker_signature = signature;
          coordinator_signature = k.sign_acceptance v signature now;
          coordinator_key_fingerprint = k.fingerprint;
          accepted_at = now;
        };
      }

  unfoldable pub complete_in_store :
      Signer
      → Clock
      → String
      → Evidence
      → String
      → CoordinatorStore
      → Result (JobRecord × CoordinatorStore)
  unfolding authenticate validate_evidence match_lease check_evidence accept
  complete_in_store k c token v signature s = do
    (worker, claims) ← authenticate h c.token token s
    formed ← validate_evidence v
    (job, lease) ← match_lease h c.lease worker.id v.job_id v.lease_id v.fencing_token s
    valid ← check_evidence k c.operation v signature worker job
    ok (
      accept k c.operation v signature job,
      change_job v.job_id (accept k c.operation v signature) s,
    )

  unfoldable pub complete_job :
      Signer
      → Clock
      → String
      → Evidence
      → String
      → CoordinatorStore
      → Result JobRecord × CoordinatorStore
  unfolding complete_in_store
  complete_job k c token v signature = mutate c.recovery (complete_in_store k c token v signature)

  -- The set of the job's uploads with one more.
  unfoldable pub with_output : String → JobRecord → List String
  unfolding distinct_onto
  with_output artifact job =
      distinct_onto (distinct_onto [] (get_or job.lease_output_artifacts [])) (artifact ∷ [])

  unfoldable pub add_output : ℕ → String → JobRecord → JobRecord
  unfolding with_output sort_texts
  add_output now artifact job = record job {
    lease_output_artifacts = some (sort_texts h (with_output artifact job));
    updated_at = now;
  }

  unfoldable pub record_output_artifact :
      Clock → String → LeaseRef → String → CoordinatorStore → Result JobRecord × CoordinatorStore
  unfolding authenticate match_lease validate_artifact_ids add_output
  record_output_artifact c token ref artifact = mutate c.recovery (λ s. do
    (worker, claims) ← authenticate h c.token token s
    (job, lease) ← match_lease h c.lease worker.id ref.job_id ref.lease_id ref.fencing_token s
    valid ← validate_artifact_ids h (artifact ∷ [])
    room ← require (leb (length (with_output artifact job)) 64) artifact_limit
    ok (
      add_output c.operation artifact job,
      change_job ref.job_id (add_output c.operation artifact) s,
    ))

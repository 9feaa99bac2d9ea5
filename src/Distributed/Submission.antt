-- ===== src/Distributed/Submission.antt =====
-- src/distributed/coordinator.ts: `submitJob`, and the lists of its input.
use folder_forge.Base.{
  ℕ, String, Bool, true, false, not, ◌&&◌, Option, none, some, List, [], ◌∷◌, ◌++◌, map, ltb, leb,
  if◌then◌else◌, ◌==◌, string_eq, find, all, any, length, count,
}
use folder_forge.Json.{Value, str, obj, no_fields, field, Platform, canonical, ◌⧺◌}
use folder_forge.Distributed.Store.{
  ReplayPolicy, queued, JobRecord, CoordinatorStore, Result, ok, fail, ◌>>=◌, require,
  invalid_argument, quota_reached, payload_conflict, is_final, mutate,
}
use folder_forge.Distributed.Guards.{Host, Limits, Clock, bounded_string}

-- `[...new Set(values)]`
unfoldable pub distinct_onto : List String → List String → List String
distinct_onto seen [] = seen
distinct_onto seen (v ∷ values) =
    distinct_onto (if any (λ x. x == v) seen then seen else seen ++ v ∷ []) values

-- `!value || typeof value !== 'object' || Array.isArray(value)` fails.
abbrev is_object : Value → Bool
is_object (obj _) = true
is_object _ = false

module _ (h : Host) where
  unfoldable pub insert_text : String → List String → List String
  insert_text v [] = v ∷ []
  insert_text v (x ∷ xs) =
      let rest = insert_text v xs in if h.text_le v x then v ∷ x ∷ xs else x ∷ rest

  unfoldable pub sort_texts : List String → List String
  unfolding insert_text
  sort_texts [] = []
  sort_texts (v ∷ values) = insert_text v (sort_texts values)

  unfoldable pub unique_capabilities : List String → Result (List String)
  unfolding sort_texts distinct_onto
  unique_capabilities value = do
    short ← require (leb (length value) 32) invalid_argument
    let result = sort_texts (distinct_onto [] (map h.trim value))
    valid ← require (all h.is_capability result) invalid_argument
    ok result

  unfoldable pub validate_artifact_ids : List String → Result (List String)
  unfolding sort_texts distinct_onto
  validate_artifact_ids value = do
    short ← require (leb (length value) 64) invalid_argument
    let ids = distinct_onto [] value
    valid ← require (all (λ id. h.is_artifact_id id && h.artifact_exists id) ids) invalid_argument
    ok (sort_texts ids)

pub record JobInput : Type 0 where
  pub tool : String
  pub args : Value
  pub idempotency_key : Option String
  pub replay_policy : ReplayPolicy
  pub required_capabilities : List String
  pub input_artifacts : List String

-- What the first half of `submitJob` computes.
pub record Submission : Type 0 where
  pub tool : String
  pub idempotency_key : String
  pub args_digest : String
  pub payload_digest : String
  pub payload_text : String
  pub replay_policy : ReplayPolicy
  pub required_capabilities : List String
  pub input_artifacts : List String

module _ (p : Platform) (h : Host) (l : Limits) where
  unfoldable pub key_of : Option String → String → Result String
  unfolding bounded_string
  key_of none digest = ok ("auto:" ⧺ digest)
  key_of (some key) digest =
      let given = bounded_string h 256 key in if key == "" then ok ("auto:" ⧺ digest) else given

  unfoldable pub check_input : JobInput → Result Submission
  unfolding bounded_string key_of unique_capabilities validate_artifact_ids
  check_input input = do
    tool ← bounded_string h 128 input.tool
    named ← require (h.is_tool_name tool) invalid_argument
    object ← require (is_object input.args) invalid_argument
    let payload = canonical p (obj (field "tool" (str tool) (field "args" input.args no_fields)))
    short ← require (leb (h.byte_length payload) 256000) invalid_argument
    key ← key_of input.idempotency_key (p.sha256 payload)
    capabilities ← unique_capabilities h input.required_capabilities
    artifacts ← validate_artifact_ids h input.input_artifacts
    ok record {
      tool = tool;
      idempotency_key = key;
      args_digest = p.sha256 (canonical p input.args);
      payload_digest = p.sha256 payload;
      payload_text = payload;
      replay_policy = input.replay_policy;
      required_capabilities = capabilities;
      input_artifacts = artifacts;
    }

  unfoldable pub new_job : String → ℕ → Submission → JobRecord
  new_job id now x = record {
    id = id;
    idempotency_key = x.idempotency_key;
    tool = x.tool;
    args_digest = x.args_digest;
    payload_digest = x.payload_digest;
    encrypted_payload = h.encrypt x.payload_text;
    input_artifacts = x.input_artifacts;
    required_capabilities = x.required_capabilities;
    replay_policy = x.replay_policy;
    state = queued;
    attempts = 0;
    created_at = now;
    updated_at = now;
    lease = none;
    lease_output_artifacts = none;
    completed_at = none;
    failure = none;
    blocked_reason = none;
    completion = none;
  }

  abbrev pub active_count : List JobRecord → ℕ
  active_count jobs = count (λ job. not (is_final job.state)) jobs

  abbrev pub has_key : String → JobRecord → Bool
  has_key key job = job.idempotency_key == key

  -- The job, and whether it was there before.
  unfoldable pub add_job :
      String → ℕ → Submission → CoordinatorStore → Result ((JobRecord × Bool) × CoordinatorStore)
  unfolding new_job
  add_job id now x s =
      let made = new_job id now x in
      elim (find (has_key x.idempotency_key) s.jobs) [
        | some job ↦ do
          same ← require (job.payload_digest == x.payload_digest) payload_conflict
          ok ((job, true), s)
        | none ↦ do
          room ← require (ltb (active_count s.jobs) l.max_queued_jobs) quota_reached
          ok ((made, false), record s { jobs = s.jobs ++ made ∷ [] })
      ]

  unfoldable pub submit_job :
      Clock → String → JobInput → CoordinatorStore → Result (JobRecord × Bool) × CoordinatorStore
  unfolding check_input add_job
  submit_job c id input s = elim (check_input input) [
    | fail error ↦ (fail error, s)
    | ok x ↦ mutate c.recovery (add_job id c.operation x) s
  ]

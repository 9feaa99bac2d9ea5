-- ===== src/AgentLoops/Files.antt =====
-- src/agent-loops/agent-loop-manager.ts: the files of the loops, by id: `get`, `save`,
-- `appendEvent`, `cleanItems` and `boundedEventData`.
use folder_forge.Base.{
  ℕ, suc, zero, ◌+◌, ◌-◌, String, Bool, true, false, not, ◌&&◌, ◌||◌, Option, none, some, List, [],
  ◌∷◌, ◌++◌, map, length, filter, if◌then◌else◌, ltb, leb, ◌==◌, string_eq, take, nat_eq, lookup,
  insert,
}
use folder_forge.Base.Results.{Result, ok, ◌>>=◌, require, or_fail}
use folder_forge.Json.{Value, str, bool, obj, Fields, field, no_fields}
use folder_forge.Core.{ToolPrincipal, is_admin}
use folder_forge.Distributed.Submission.{distinct_onto}
use folder_forge.AgentLoops.{
  AgentLoopRun, AgentLoopEvent, LoopHost, LoopError, invalid_id, loop_not_found, integrity_failed,
  access_denied, client_mismatch, session_mismatch, task_mismatch,
}

abbrev pub max_text : ℕ
max_text = 8000

abbrev pub max_items : ℕ
max_items = 50

abbrev pub max_events : ℕ
max_events = 500

abbrev max_event_data : ℕ
max_event_data = 4000

-- `text || fallback`
abbrev pub or_text : String → String → String
or_text s fallback = if s == "" then fallback else s

-- `principal.id || 'local:unknown'`
unfoldable pub owner_id : ToolPrincipal → String
owner_id principal = or_text principal.id "local:unknown"

-- `bound && bound !== given`
unfoldable pub differs : Option String → Option String → Bool
differs none given = false
differs (some bound) none = not (bound == "")
differs (some bound) (some given) = not (bound == "") && not (bound == given)

unfoldable pub last_seq : List AgentLoopEvent → ℕ
last_seq [] = 0
last_seq (e ∷ []) = e.seq
last_seq (e ∷ f ∷ rest) = last_seq (f ∷ rest)

-- `items.slice(-n)`
unfoldable pub keep_last {ℓ} : {A : Type ℓ} → ℕ → List A → List A
keep_last n [] = []
keep_last n (x ∷ xs) = let rest = keep_last n xs in if leb (length (x ∷ xs)) n then x ∷ xs else rest

-- The readings of the clock in one operation.
pub record LoopClock : Type 0 where
  pub operation : ℕ
  pub event : ℕ
  pub save : ℕ

module _ {T : Type 0} (h : LoopHost T) where
  unfoldable pub clean_items : List String → ℕ → List String
  unfolding distinct_onto
  clean_items value max =
      map (h.slice 2000)
        (take max (distinct_onto [] (filter (λ s. not (s == "")) (map h.trim value))))

  abbrev cut : String → Value
  cut preview = obj (field "truncated" (bool true) (field "preview" (str preview) no_fields))

  -- The `while` loop with `n` characters kept; each round drops 64, so `n` rounds are enough.
  shrink : (fuel n : ℕ) → String → Value
  shrink zero n text = cut (h.slice n text)
  shrink (suc fuel) n text =
      let rest = shrink fuel (n - 64) text in
      if ltb max_event_data (h.text_length (h.stringify (cut (h.slice n text)))) && ltb 0 n
      then rest
      else cut (h.slice n text)

  unfoldable pub bounded_event_data : Value → Value
  unfolding shrink
  bounded_event_data details =
      let bounded = shrink max_event_data max_event_data (h.stringify details) in
      if leb (h.text_length (h.stringify details)) max_event_data then details else bounded

  add_field : String → Value → Fields → Fields
  add_field key value no_fields = field key value no_fields
  add_field key value (field k v rest) = field k v (add_field key value rest)

  add_task : Option String → Fields → Fields
  unfolding add_field
  add_task none fields = fields
  add_task (some task) fields =
      let more = add_field "taskId" (str task) fields in if task == "" then fields else more

  abbrev details_of : Fields → Option Value
  details_of no_fields = none
  details_of fields = some (bounded_event_data (obj fields))

  unfoldable pub new_event : ℕ → String → String → Fields → AgentLoopRun T → AgentLoopEvent
  unfolding bounded_event_data last_seq add_task
  new_event now kind message details run = record {
    seq = last_seq run.events + 1;
    kind = h.slice 120 kind;
    phase = run.phase;
    iteration = run.iteration;
    message = h.slice 2000 (h.trim message);
    details = details_of (add_task run.task_id details);
    recorded_at = now;
  }

  unfoldable pub append_event : ℕ → String → String → Fields → AgentLoopRun T → AgentLoopRun T
  unfolding new_event keep_last
  append_event now kind message details run = record run {
    events = keep_last max_events (run.events ++ new_event now kind message details run ∷ []);
  }

  unfoldable pub check_access : ToolPrincipal → AgentLoopRun T → Result LoopError (Unit {0})
  unfolding differs owner_id
  check_access principal run = do
    let trusted = is_admin principal.role
    owner ← require (trusted || run.owner_id == owner_id principal) access_denied
    client ←
        require (trusted || not (differs run.client_id principal.oauth_client_id)) client_mismatch
    session ←
        require (trusted || not (differs run.session_id principal.session_id)) session_mismatch
    require (trusted || not (differs run.task_id principal.task_id)) task_mismatch

  -- The files of the directory `runs`, by the id in their name.
  abbrev pub Runs : Type 0
  Runs = List (String × AgentLoopRun T)

  -- `hash(unsigned(run))`
  unfoldable pub seal : AgentLoopRun T → AgentLoopRun T
  seal run = record run { integrity_sha256 = h.digest (record run { integrity_sha256 = "" }) }

  unfoldable pub check_file :
      String → ToolPrincipal → Option (AgentLoopRun T) → Result LoopError (AgentLoopRun T)
  unfolding check_access
  check_file id principal file = do
    valid ← require (h.is_loop_id id) invalid_id
    run ← or_fail file loop_not_found
    intact ←
        require
          (run.id == id
            && run.schema_version == 1
            && h.digest (record run { integrity_sha256 = "" }) == run.integrity_sha256)
          integrity_failed
    allowed ← check_access principal run
    ok run

  unfoldable pub get : String → ToolPrincipal → Runs → Result LoopError (AgentLoopRun T)
  unfolding lookup check_file
  get id principal runs = check_file id principal (lookup id runs)

  -- The file is a JSON text, of which `get` parses a copy of the record: here the record itself. What
  -- JSON changes of a record is NaN, which is `null` in the text; the records have 0 in its place.
  unfoldable pub save : ℕ → AgentLoopRun T → Runs → AgentLoopRun T × Runs
  unfolding insert seal
  save now run runs =
      let sealed = seal (record run { updated_at = now; revision = run.revision + 1 }) in
      (sealed, insert sealed.id sealed runs)

  -- What an operation does with the run that `get` returned.
  pub data Change : Type 0 where
    unchanged : AgentLoopRun T → Change
    changed : AgentLoopRun T → Change

  unfoldable pub commit : ℕ → Change → Runs → AgentLoopRun T × Runs
  unfolding save
  commit now (unchanged run) runs = (run, runs)
  commit now (changed run) runs = save now run runs

  -- An operation that throws writes nothing.
  unfoldable pub operate :
      LoopClock
      → String
      → ToolPrincipal
      → (AgentLoopRun T → Result LoopError Change)
      → Runs
      → Result LoopError (AgentLoopRun T × Runs)
  unfolding get commit
  operate c id principal body runs = do
    run ← get id principal runs
    change ← body run
    ok (commit c.save change runs)

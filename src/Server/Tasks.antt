-- ===== src/Server/Tasks.antt =====
-- `McpTaskManager` of src/server/mcp-task-manager.ts. A record is an object that the table of tasks and a
-- running execution share: it stands once in `objects`, and they have its id. An ISO text of a time is
-- that time; a task's `ttl` is a number. Each write to the store of records is taken to succeed.
pub mod Runs
pub mod Listing
pub mod Cells
pub mod Settling
pub mod Starts
pub mod Calls
pub mod Table
pub mod Ends
pub mod Revival
use folder_forge.Base.{
  ℕ, ◌+◌, ◌-◌, String, Bool, true, false, not, ◌&&◌, ◌||◌, Option, none, some, List, [], ◌∷◌, ◌++◌,
  map, filter, any, length, take, min, max, if◌then◌else◌, ltb, leb, ◌==◌, string_eq, option_beq,
  is_some, get_or, lookup, insert, erase,
}
use folder_forge.Base.Results.{Result, ok, fail}
use folder_forge.Json.{
  Value, null, bool, num, str, arr, obj, Fields, field, no_fields, field_of, Platform, canonical,
  ◌⧺◌,
}
use folder_forge.Core.{ToolPrincipal, Role, admin, agent, system}

pub data TaskStatus : Type 0 where
  working input_required completed failed cancelled : TaskStatus

-- `Task`
pub record Task : Type 0 where
  pub task_id : String
  pub status : TaskStatus
  pub ttl : ℕ
  pub created_at : ℕ
  pub last_updated_at : ℕ
  pub poll_interval : ℕ
  pub status_message : String

-- `PersistedTaskRecord`, with the result as its JSON value
pub record TaskRecord : Type 0 where
  pub task : Task
  pub owner_id : String
  pub tool : String
  pub args_sha256 : String
  pub args_summary : Value
  pub has_output_schema : Bool
  pub result : Option Value

-- A call of `execute` that waits for its tool.
pub record Execution : Type 0 where
  pub aborted : Bool
  pub last_progress_write : ℕ

pub record TaskManager : Type 0 where
  pub objects : List (String × TaskRecord)
  pub records : List String
  pub controllers : List String
  pub executions : List (String × Execution)
  pub store : List (String × TaskRecord)
  pub audit : List String

pub data TaskError : Type 0 where
  limit_reached unknown_tool task_not_found not_owned not_complete no_stored_result : TaskError
  already_terminal invalid_cursor : TaskError

-- What `registry.get` gives for a tool: whether its audience is agent, and whether it has an output
-- schema.
pub record ToolInfo : Type 0 where
  pub for_agent : Bool
  pub output_schema : Bool

-- What the code takes of the language and of its constructor's `redact`. `text_of` is what `redact` makes
-- of a value that is no text, and `null_error` the message of the exception of reading a member of null.
pub record TaskHost : Type 0 where
  pub platform : Platform
  pub stringify : Value → Option String
  pub parse : String → Option Value
  pub redact : String → String
  pub text_of : Value → String
  pub json_bytes : Value → ℕ
  pub null_error : String
  pub tool_info : String → Option ToolInfo

abbrev pub default_ttl_ms : ℕ
default_ttl_ms = 3600000

abbrev pub min_ttl_ms : ℕ
min_ttl_ms = 60000

abbrev pub max_ttl_ms : ℕ
max_ttl_ms = 86400000

abbrev pub default_poll_ms : ℕ
default_poll_ms = 1000

abbrev pub min_poll_ms : ℕ
min_poll_ms = 250

abbrev pub max_poll_ms : ℕ
max_poll_ms = 5000

abbrev pub max_tasks : ℕ
max_tasks = 1000

abbrev pub page_size : ℕ
page_size = 50

abbrev pub max_result_bytes : ℕ
max_result_bytes = 1048576

abbrev pub max_status_message : ℕ
max_status_message = 1000

-- `clamp` of a number that is taken as its floor, and as 0 if it is negative.
unfoldable pub clamp : Option ℕ → (fallback low high : ℕ) → ℕ
clamp none fallback low high = fallback
clamp (some n) fallback low high = max low (min high n)

abbrev pub is_terminal : TaskStatus → Bool
is_terminal completed = true
is_terminal failed = true
is_terminal cancelled = true
is_terminal _ = false

abbrev pub is_cancelled : TaskStatus → Bool
is_cancelled cancelled = true
is_cancelled _ = false

abbrev pub has : String → List String → Bool
has id ids = any (λ other. other == id) ids

abbrev pub without : String → List String → List String
without id ids = filter (λ other. not (other == id)) ids

-- `set` of a `Map` or `Set`, of whose entries only the keys are kept.
abbrev pub include : String → List String → List String
include id ids = if has id ids then ids else ids ++ id ∷ []

abbrev pub status_name : TaskStatus → String
status_name working = "working"
status_name input_required = "input_required"
status_name completed = "completed"
status_name failed = "failed"
status_name cancelled = "cancelled"

-- A JavaScript value as a test.
unfoldable pub truthy : Option Value → Bool
truthy (some (bool b)) = b
truthy (some (num n)) = not (n == "0")
truthy (some (str s)) = not (s == "")
truthy (some (arr _)) = true
truthy (some (obj _)) = true
truthy _ = false

-- `value.key` of a value of JSON
unfoldable pub member : String → Value → Option Value
unfolding field_of
member key (obj entries) = field_of key entries
member key _ = none

abbrev pub is_admin : Role → Bool
is_admin admin = true
is_admin _ = false

abbrev pub failure : String → Value
failure error = obj (field "ok" (bool false) (field "error" (str error) no_fields))

-- Puts the record back after changes of its object.
abbrev pub set_object : String → TaskRecord → TaskManager → TaskManager
set_object id r s = record s { objects = insert id r s.objects }

abbrev pub persist : String → TaskRecord → TaskManager → TaskManager
persist id r s = record s { store = insert id r s.store }

abbrev pub note : String → TaskManager → TaskManager
note summary s = record s { audit = s.audit ++ summary ∷ [] }

abbrev pub mark : TaskStatus → String → ℕ → Option Value → TaskRecord → TaskRecord
mark status message now result r = record r {
  task = record r.task { status = status; status_message = message; last_updated_at = now };
  result = result;
}

-- `this.controllers.get(taskId)?.abort(…)`
abbrev pub abort : String → TaskManager → TaskManager
abort id s = elim (lookup id s.executions) [
  | none ↦ s
  | some x ↦
      if has id s.controllers
      then record s { executions = insert id (record x { aborted = true }) s.executions }
      else s
]

abbrev pub is_expired : ℕ → TaskRecord → Bool
is_expired now r = leb (r.task.last_updated_at + r.task.ttl) now

abbrev pub forget : String → TaskManager → TaskManager
forget id s = record s {
  controllers = without id s.controllers;
  records = without id s.records;
  store = erase id s.store;
}

abbrev pub expire_one : ℕ → String → TaskManager → TaskManager
expire_one now id s = elim (lookup id s.objects) [
  | none ↦ s
  | some r ↦ if is_expired now r then forget id (abort id s) else s
]

abbrev pub expire_each : ℕ → List String → TaskManager → TaskManager
expire_each now [] s = s
expire_each now (id ∷ ids) s = expire_each now ids (expire_one now id s)

-- `cleanupExpired`
abbrev pub cleanup_expired : ℕ → TaskManager → TaskManager
cleanup_expired now s = expire_each now s.records s

-- `requireOwned`
unfoldable pub require_owned : String → ToolPrincipal → TaskManager → Result TaskError TaskRecord
require_owned id principal s = elim (if has id s.records then lookup id s.objects else none) [
  | none ↦ fail task_not_found
  | some r ↦
      if not (is_admin principal.role) && not (r.owner_id == principal.id)
      then fail not_owned
      else ok r
]

-- `get`, with the manager that it leaves
unfoldable pub get :
    ℕ → String → ToolPrincipal → TaskManager → TaskManager × Result TaskError TaskRecord
unfolding require_owned
get now id principal s = let s' = cleanup_expired now s in (s', require_owned id principal s')

abbrev pub result_of : TaskRecord → Result TaskError (Value × Bool)
result_of r =
    if not (is_terminal r.task.status)
    then fail not_complete
    else if truthy r.result
    then ok (get_or r.result null, r.has_output_schema)
    else fail no_stored_result

abbrev pub owned_result : Result TaskError TaskRecord → Result TaskError (Value × Bool)
owned_result (fail e) = fail e
owned_result (ok r) = result_of r

-- `result`
unfoldable pub task_result :
    ℕ → String → ToolPrincipal → TaskManager → TaskManager × Result TaskError (Value × Bool)
unfolding require_owned
task_result now id principal s =
    let s' = cleanup_expired now s in (s', owned_result (require_owned id principal s'))

abbrev pub cancel_owned :
    ℕ
    → String
    → Result TaskError TaskRecord
    → TaskManager
    → TaskManager × Result TaskError TaskRecord
cancel_owned now id (fail e) s = (s, fail e)
cancel_owned now id (ok r) s =
    let r' =
      mark cancelled "Cancelled by caller" now (some (failure "Task cancelled by caller.")) r in
    if is_terminal r.task.status
    then (s, fail already_terminal)
    else (note ("cancelled " ⧺ id) (persist id r' (set_object id r' (abort id s))), ok r')

-- `cancel`
unfoldable pub cancel :
    ℕ → String → ToolPrincipal → TaskManager → TaskManager × Result TaskError TaskRecord
unfolding require_owned
cancel now id principal s = cancel_owned now id (require_owned id principal s) s

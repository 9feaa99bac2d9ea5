-- ===== src/Server/Tasks/Runs.antt =====
-- The creation and the run of a task in `McpTaskManager` of src/server/mcp-task-manager.ts: `execute` up to
-- the call of the tool, what a report of progress does, what follows the answer of the tool, and a restart.
use folder_forge.Base.{
  ℕ, ◌-◌, String, Bool, true, false, Option, none, some, [], map, length, if◌then◌else◌, leb,
  string_eq, lookup, insert, erase,
}
use folder_forge.Base.Results.{Result, ok, fail}
use folder_forge.Json.{Value, null, bool, num, str, obj, field, no_fields, canonical, ◌⧺◌}
use folder_forge.Core.{ToolPrincipal}
use folder_forge.Server.Tasks.{
  TaskRecord, working, completed, failed, cancelled, Execution, TaskManager, TaskError,
  limit_reached, unknown_tool, ToolInfo, TaskHost, default_ttl_ms, min_ttl_ms, max_ttl_ms,
  default_poll_ms, min_poll_ms, max_poll_ms, max_tasks, max_result_bytes, max_status_message, clamp,
  is_terminal, is_cancelled, without, include, status_name, truthy, member, failure, set_object,
  persist, note, mark, cleanup_expired,
}

-- The arguments of `createToolTask`, and the readings of the clock and of the source of ids.
pub record TaskInput : Type 0 where
  pub principal : ToolPrincipal
  pub tool : String
  pub args : Value
  pub ttl : Option ℕ
  pub poll_interval : Option ℕ
  pub id : String
  pub cleaned : ℕ
  pub created : ℕ
  pub started : ℕ

-- The answer of a tool: its result, or the message of its exception.
pub data ToolOutcome : Type 0 where
  resolved : Value → ToolOutcome
  rejected : String → ToolOutcome

abbrev pub end_execution : String → TaskManager → TaskManager
end_execution id s = record s {
  controllers = without id s.controllers;
  executions = erase id s.executions;
}

abbrev pub restart_record : ℕ → TaskRecord → TaskRecord
restart_record now r =
    if is_terminal r.task.status
    then r
    else mark failed "Server restarted; task was not replayed." now
        (some (
          failure
            "Server restarted while the task was active. FolderForge does not replay uncertain tool calls."))
        r

-- A new process with the records of the store.
abbrev pub reloaded : ℕ → TaskManager → TaskManager
reloaded now s =
    let loaded = map (λ b. (b.0, restart_record now b.1)) s.store in
    record {
      objects = loaded;
      records = map (λ b. b.0) loaded;
      controllers = [];
      executions = [];
      store = loaded;
      audit = s.audit;
    }

-- `load` in a new process
abbrev pub restart : ℕ → TaskManager → TaskManager
restart now s = cleanup_expired now (reloaded now s)

module _ (h : TaskHost) where
  unfoldable pub redact_json : Value → Value
  redact_json v = elim (h.stringify v) [
    | none ↦ str "[unserializable]"
    | some text ↦ elim (h.parse (h.redact text)) [ none ↦ str (h.redact text) | some w ↦ w ]
  ]

  unfoldable pub bound_result : Value → Value
  unfolding redact_json
  bound_result v =
      let redacted = redact_json v in
      if leb (h.json_bytes redacted) max_result_bytes
      then redacted
      else obj (
          field "ok" (bool false) (
            field "error"
              (str (
                "Task result exceeded "
                ⧺ h.platform.decimal max_result_bytes
                ⧺ " bytes after redaction and was not persisted."))
              (field "data"
                (obj (
                  field "truncated" (bool true) (
                    field "originalBytes" (num (h.platform.decimal (h.json_bytes redacted)))
                      no_fields)))
                no_fields)))

  unfoldable pub new_record : TaskInput → ToolInfo → TaskRecord
  unfolding clamp redact_json
  new_record input info =
      let summary = redact_json input.args in
      record {
        task = record {
          task_id = input.id;
          status = working;
          ttl = clamp input.ttl default_ttl_ms min_ttl_ms max_ttl_ms;
          created_at = input.created;
          last_updated_at = input.created;
          poll_interval = clamp input.poll_interval default_poll_ms min_poll_ms max_poll_ms;
          status_message = "Queued " ⧺ input.tool;
        };
        owner_id = input.principal.id;
        tool = input.tool;
        args_sha256 = h.platform.sha256 (canonical h.platform summary);
        args_summary = summary;
        has_output_schema = info.output_schema;
        result = none;
      }

  abbrev pub running_record : TaskInput → ToolInfo → TaskRecord
  running_record input info =
      mark working ("Running " ⧺ input.tool) input.started none (new_record input info)

  -- `createToolTask` after its checks, with the start of `execute`.
  abbrev pub add_task : TaskInput → ToolInfo → TaskManager → TaskManager
  add_task input info s =
      let r = new_record input info in
      let added =
        note ("created " ⧺ input.id) (record (persist input.id r (set_object input.id r s)) {
          records = include input.id s.records;
        }) in
      let running = running_record input info in
      persist input.id running (
        set_object input.id running (record added {
          controllers = include input.id s.controllers;
          executions =
              insert input.id (record { aborted = false; last_progress_write = 0 }) s.executions;
        }))

  unfoldable pub create_tool_task :
      TaskInput → TaskManager → TaskManager × Result TaskError TaskRecord
  unfolding new_record
  create_tool_task input s =
      let s' = cleanup_expired input.cleaned s in
      if leb max_tasks (length s'.records)
      then (s', fail limit_reached)
      else elim (h.tool_info input.tool) [
        | none ↦ (s', fail unknown_tool)
        | some info ↦
            if info.for_agent
            then (add_task input info s', ok (running_record input info))
            else (s', fail unknown_tool)
      ]

  -- `reportProgress`, with its text
  abbrev pub report_record : ℕ → String → TaskRecord → TaskRecord
  report_record now text r =
      mark r.task.status (h.platform.slice max_status_message (h.redact text)) now r.result r

  unfoldable pub report_progress : ℕ → String → String → TaskManager → TaskManager
  report_progress now id text s = elim (lookup id s.executions) [
    | none ↦ s
    | some x ↦ elim (lookup id s.objects) [
      | none ↦ s
      | some r ↦
          let changed = set_object id (report_record now text r) s in
          if is_terminal r.task.status
          then s
          else if leb 250 (now - x.last_progress_write)
          then persist id (report_record now text r) (record changed {
            executions = insert id (record x { last_progress_write = now }) s.executions;
          })
          else changed
    ]
  ]

  abbrev message_of : String → Value → String
  message_of tool v = elim (member "error" v) [
    | none ↦ h.redact ("Failed " ⧺ tool)
    | some null ↦ h.redact ("Failed " ⧺ tool)
    | some (str s) ↦ h.redact s
    | some w ↦ h.text_of w
  ]

  abbrev pub is_null : Value → Bool
  is_null null = true
  is_null _ = false

  -- The `catch` of `execute`
  unfoldable pub caught : ℕ → Execution → String → TaskRecord → TaskRecord
  caught now x message r =
      let text = h.platform.slice max_status_message (h.redact message) in
      mark (if x.aborted then cancelled else failed) text now (some (failure text)) r

  -- The record after the answer of the tool. A stored null makes `storedResult.ok` raise.
  unfoldable pub settle_record : ℕ → Execution → ToolOutcome → TaskRecord → TaskRecord
  unfolding bound_result truthy member caught
  settle_record now x (resolved v) r =
      let stored = bound_result v in
      let raised = caught now x h.null_error r in
      if is_null stored
      then raised
      else if truthy (member "ok" stored)
      then mark completed (h.platform.slice max_status_message (h.redact ("Completed " ⧺ r.tool)))
          now (some stored) r
      else mark failed (h.platform.slice max_status_message (message_of r.tool stored)) now
          (some stored) r
  settle_record now x (rejected message) r = caught now x message r

  -- `execute` from the answer of the tool on.
  unfoldable pub settle : ℕ → String → ToolOutcome → TaskManager → TaskManager
  unfolding settle_record
  settle now id outcome s = elim (lookup id s.executions) [
    | none ↦ s
    | some x ↦ elim (lookup id s.objects) [
      | none ↦ s
      | some r ↦
          let settled = settle_record now x outcome r in
          if is_cancelled r.task.status
          then end_execution id s
          else end_execution id (
              note (status_name settled.task.status ⧺ " " ⧺ id)
                (persist id settled (set_object id settled s)))
    ]
  ]

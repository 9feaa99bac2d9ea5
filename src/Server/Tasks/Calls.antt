-- ===== src/Server/Tasks/Calls.antt =====
-- The steps of `McpTaskManager` of src/server/mcp-task-manager.ts, in any order, and what they keep.
use folder_forge.Base.{
  Option, ℕ, ◌≡◌, refl, String, false, not, ◌&&◌, ◌⊎◌, some, [], ◌==◌, string_eq, lookup,
  Bool-cases, Option-cases, inl, inr,
}
use folder_forge.Base.Results.{ok, fail}
use folder_forge.Core.{ToolPrincipal}
use folder_forge.Server.Tasks.{
  TaskRecord, TaskManager, TaskHost, has, cancel, require_owned, task_not_found, not_owned,
  is_admin, get, task_result,
}
use folder_forge.Server.Tasks.Runs.{
  TaskInput, ToolOutcome, create_tool_task, report_progress, settle, restart,
}
use folder_forge.Server.Tasks.Cells.{IsSound, cleanup_expired-IsSound}
use folder_forge.Server.Tasks.Listing.{list_tasks}
use folder_forge.Server.Tasks.Settling.{
  cancel_owned-IsSound, settle-IsSound, report_progress-IsSound,
}
use folder_forge.Server.Tasks.Starts.{create_tool_task-IsSound, restart-IsSound}

abbrev pub empty : TaskManager
empty = record {
  objects = [];
  records = [];
  controllers = [];
  executions = [];
  store = [];
  audit = [];
}

-- What may happen to a manager next: a call, a report of a running tool, its answer, or a restart. A new
-- id is not in the table.
pub data Step (h : TaskHost) (s : TaskManager) : TaskManager → Type 0 where
  creates :
      (input : TaskInput) → has input.id s.records ≡ false → Step h s (create_tool_task h input s).0
  gets : (now : ℕ) (id : String) (principal : ToolPrincipal) → Step h s (get now id principal s).0
  reads :
      (now : ℕ) (id : String) (principal : ToolPrincipal)
      → Step h s (task_result now id principal s).0
  lists :
      (now : ℕ) (principal : ToolPrincipal) (cursor : Option String)
      → Step h s (list_tasks now principal cursor s).0
  cancels :
      (now : ℕ) (id : String) (principal : ToolPrincipal) → Step h s (cancel now id principal s).0
  reports : (now : ℕ) (id text : String) → Step h s (report_progress h now id text s)
  settles : (now : ℕ) (id : String) (outcome : ToolOutcome) → Step h s (settle h now id outcome s)
  restarts : (now : ℕ) → Step h s (restart now s)

pub data Reachable (h : TaskHost) : TaskManager → Type 0 where
  start : Reachable h empty
  next : {s t : TaskManager} → Reachable h s → Step h s t → Reachable h t

pub require_owned-cases :
    (id : String) (principal : ToolPrincipal) (s : TaskManager)
    → (require_owned id principal s ≡ fail task_not_found)
      ⊎ ((require_owned id principal s ≡ fail not_owned)
          ⊎ ((r : TaskRecord) × ((require_owned id principal s ≡ ok r)
                × (lookup id s.objects ≡ some r))))
unfolding require_owned
require_owned-cases id principal s = elim (Bool-cases (has id s.records)) [
  | inr b ↦ inl (rw (b, require_owned) refl)
  | inl b ↦ elim (Option-cases (lookup id s.objects)) [
    | inl o ↦ inl (rw (b, o, require_owned) refl)
    | inr (r, o) ↦
        elim (Bool-cases (not (is_admin principal.role) && not (r.owner_id == principal.id))) [
          | inl c ↦ inr (inl (rw (b, o, c, require_owned) refl))
          | inr c ↦ inr (inr (r, (rw (b, o, c, require_owned) refl, o)))
        ]
  ]
]

module _ (h : TaskHost) where
  Step-IsSound : (s t : TaskManager) → Step h s t → IsSound s → IsSound t
  unfolding get task_result cancel list_tasks
  Step-IsSound s t (creates input fresh) sound = create_tool_task-IsSound h input s sound
  Step-IsSound s t (gets now id principal) sound = cleanup_expired-IsSound now s sound
  Step-IsSound s t (reads now id principal) sound = cleanup_expired-IsSound now s sound
  Step-IsSound s t (lists now principal cursor) sound = cleanup_expired-IsSound now s sound
  Step-IsSound s t (cancels now id principal) sound =
      cancel_owned-IsSound now id (require_owned id principal s) s sound
  Step-IsSound s t (reports now id text) sound = report_progress-IsSound h now id text s sound
  Step-IsSound s t (settles now id outcome) sound = settle-IsSound h now id outcome s sound
  Step-IsSound s t (restarts now) sound = restart-IsSound now s sound

  -- In every reachable manager each task that is over has a result, and if it is in the table this is
  -- what is stored; a task of the table that is not over has an execution; and an execution of a task
  -- that is over is of a cancelled one.
  pub Reachable-IsSound : (s : TaskManager) → Reachable h s → IsSound s
  Reachable-IsSound s start = unfold lookup in λ i. (refl, refl, tt)
  Reachable-IsSound t (next {s} reach step) = Step-IsSound s t step (Reachable-IsSound s reach)

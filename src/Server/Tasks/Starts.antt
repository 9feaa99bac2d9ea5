-- ===== src/Server/Tasks/Starts.antt =====
-- What the creation of a task and a restart keep of the tasks of src/server/mcp-task-manager.ts.
use folder_forge.Base.{
  ℕ, ◌≡◌, refl, String, Bool, true, false, Option, none, some, List, [], ◌∷◌, map, arith, leb, ◌==◌,
  length, string_eq, is_some, lookup, insert, lookup-insert, Bool-cases, Option-cases, inl, inr,
}
use folder_forge.Server.Tasks.{
  TaskRecord, Execution, TaskManager, TaskHost, ToolInfo, is_terminal, has, cleanup_expired,
  max_tasks,
}
use folder_forge.Server.Tasks.Runs.{
  TaskInput, new_record, running_record, add_task, create_tool_task, restart_record, reloaded,
  restart,
}
use folder_forge.Server.Tasks.Cells.{
  IsStored, IsCell, IsSound, has-include, cleanup_expired-IsSound,
}

module _ (h : TaskHost) where
  add_task-IsSound :
      (input : TaskInput) (info : ToolInfo) (s : TaskManager)
      → IsSound s
      → IsSound (add_task h input info s)
  add_task-IsSound input info s sound i =
      let made = new_record h input info in
      let running = running_record h input info in
      let started : Execution = record { aborted = false; last_progress_write = 0 } in
      elim (Bool-cases (input.id == i)) [
        | inl same ↦
            rw
              (
                lookup-insert input.id i running (insert input.id made s.objects),
                lookup-insert input.id i running (insert input.id made s.store),
                has-include i input.id s.records,
                lookup-insert input.id i started s.executions,
                same,
              )
              (
                λ t. absurd (ground arith),
                λ t. absurd (ground arith),
                λ l t. absurd (ground arith),
                λ x t. absurd (ground arith),
                λ l t. refl,
              )
        | inr other ↦
            rw
              (
                lookup-insert input.id i running (insert input.id made s.objects),
                lookup-insert input.id i made s.objects,
                lookup-insert input.id i running (insert input.id made s.store),
                lookup-insert input.id i made s.store,
                has-include i input.id s.records,
                lookup-insert input.id i started s.executions,
                other,
              )
              (sound i)
      ]

  pub create_tool_task-IsSound :
      (input : TaskInput) (s : TaskManager) → IsSound s → IsSound (create_tool_task h input s).0
  unfolding create_tool_task
  create_tool_task-IsSound input s sound =
      let cleaned = cleanup_expired-IsSound input.cleaned s sound in
      elim (Bool-cases (leb max_tasks (length (cleanup_expired input.cleaned s).records))) [
        | inl full ↦ rw (full, create_tool_task) cleaned
        | inr room ↦ elim (Option-cases (h.tool_info input.tool)) [
          | inl b ↦ rw (room, b, create_tool_task) cleaned
          | inr (info, b) ↦ elim (Bool-cases info.for_agent) [
            | inl m ↦
                rw (room, b, m, create_tool_task)
                  (add_task-IsSound input info (cleanup_expired input.cleaned s) cleaned)
            | inr m ↦ rw (room, b, m, create_tool_task) cleaned
          ]
        ]
      ]

pub lookup-map :
    (f : TaskRecord → TaskRecord) (i : String) (stored : List (String × TaskRecord))
    → lookup i (map (λ b. (b.0, f b.1)) stored)
      ≡ elim (lookup i stored) [ none ↦ none | some q ↦ some (f q) ]
unfolding lookup
lookup-map f i [] = refl
lookup-map f i ((k, q) ∷ stored) = elim (Bool-cases (k == i)) [
  | inl same ↦ rw same refl
  | inr other ↦ rw other (lookup-map f i stored)
]

pub has-keys :
    (i : String) (stored : List (String × TaskRecord))
    → has i (map (λ b. b.0) stored) ≡ is_some (lookup i stored)
unfolding lookup
has-keys i [] = refl
has-keys i ((k, q) ∷ stored) = elim (Bool-cases (k == i)) [
  | inl same ↦ rw same refl
  | inr other ↦ rw other (has-keys i stored)
]

IsCell-IsStored :
    (o : Option TaskRecord) (listed : Bool) (stored : Option TaskRecord) (run : Option Execution)
    → IsCell o listed stored run
    → IsStored stored
IsCell-IsStored none listed stored run cell = cell.2
IsCell-IsStored (some r) listed stored run cell = cell.1

restart_record-over :
    (now : ℕ) (r : TaskRecord)
    → IsStored (some r)
    → (is_terminal (restart_record now r).task.status ≡ true)
      × (is_some (restart_record now r).result ≡ true)
restart_record-over now r stored = elim (Bool-cases (is_terminal r.task.status)) [
  | inl over ↦ rw over (over, stored over)
  | inr going ↦ rw going (refl, refl)
]

abbrev restarted : ℕ → Option TaskRecord → Option TaskRecord
restarted now none = none
restarted now (some q) = some (restart_record now q)

restarted-IsCell :
    (now : ℕ) (stored : Option TaskRecord)
    → IsStored stored
    → IsCell (restarted now stored) (is_some (restarted now stored)) (restarted now stored) none
restarted-IsCell now none kept = (refl, refl, tt)
restarted-IsCell now (some q) kept =
    let over = restart_record-over now q kept in
    (
      λ t. over.1,
      λ t. over.1,
      λ l t. refl,
      λ x t. absurd (ground arith),
      λ l t. absurd (ground arith),
    )

pub restart-IsSound : (now : ℕ) (s : TaskManager) → IsSound s → IsSound (restart now s)
unfolding lookup
restart-IsSound now s sound = cleanup_expired-IsSound now (reloaded now s) (λ i.
    rw
      (
        has-keys i (map (λ b. (b.0, restart_record now b.1)) s.store),
        lookup-map (restart_record now) i s.store,
      )
      (restarted-IsCell now (lookup i s.store) (
        IsCell-IsStored (lookup i s.objects) (has i s.records) (lookup i s.store)
          (lookup i s.executions) (sound i))))

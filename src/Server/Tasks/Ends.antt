-- ===== src/Server/Tasks/Ends.antt =====
-- A task of src/server/mcp-task-manager.ts that is over.
use folder_forge.Base.{
  ℕ, ◌-◌, ◌≡◌, refl, sym, ◌∙◌, subst, String, true, false, some, List, length, arith, leb, ◌==◌,
  string_eq, lookup, insert, lookup-insert, Bool-cases, Option-cases, inl, inr,
}
use folder_forge.Server.Tasks.{
  TaskRecord, TaskManager, TaskHost, ToolInfo, is_terminal, is_cancelled, has, cleanup_expired, get,
  task_result, max_tasks,
}
use folder_forge.Server.Tasks.Runs.{
  TaskInput, ToolOutcome, new_record, running_record, add_task, create_tool_task, report_progress,
  report_record, settle, settle_record, reloaded,
}
use folder_forge.Server.Tasks.Cells.{has-include, IsCell, IsSound}
use folder_forge.Server.Tasks.Revival.{IsListed, reloaded-IsListed}
use folder_forge.Server.Tasks.Calls.{
  Step, creates, gets, reads, lists, cancels, reports, settles, restarts, Reachable,
  Reachable-IsSound,
}
use folder_forge.Server.Tasks.Listing.{list_tasks}
use folder_forge.Server.Tasks.Table.{
  IsKept, cleanup_expired-IsKept, insert-IsListed, same_object, cancel-IsListed,
}

module _ (h : TaskHost) where
  report_progress-IsListed :
      (now : ℕ) (j id text : String) (r : TaskRecord) (s : TaskManager)
      → is_terminal r.task.status ≡ true
      → IsListed id r s
      → IsListed id r (report_progress h now j text s)
  unfolding report_progress
  report_progress-IsListed now j id text r s over listed =
      elim (Option-cases (lookup j s.executions)) [
        | inl b ↦ rw (b, report_progress) listed
        | inr (x, b) ↦ elim (Option-cases (lookup j s.objects)) [
          | inl o ↦ rw (b, o, report_progress) listed
          | inr (q, o) ↦ elim (Bool-cases (is_terminal q.task.status)) [
            | inl t ↦ rw (b, o, t, report_progress) listed
            | inr t ↦ elim (Bool-cases (j == id)) [
              | inl same ↦
                  let over' =
                    subst (λ k. is_terminal k.task.status ≡ true)
                      (sym (same_object j id q r s same o listed)) over in
                  absurd (ground arith)
              | inr other ↦
                  let kept = insert-IsListed j id (report_record h now text q) r s other listed in
                  elim (Bool-cases (leb 250 (now - x.last_progress_write))) [
                    | inl w ↦ rw (b, o, t, w, report_progress) kept
                    | inr w ↦ rw (b, o, t, w, report_progress) kept
                  ]
            ]
          ]
        ]
      ]

  settle-kept :
      (now : ℕ) (j id : String) (outcome : ToolOutcome) (r : TaskRecord) (s : TaskManager)
      → IsSound s
      → is_terminal r.task.status ≡ true
      → IsListed id r s
      → IsListed id r (settle h now j outcome s)
  unfolding settle
  settle-kept now j id outcome r s sound over listed = elim (Option-cases (lookup j s.executions)) [
    | inl b ↦ rw (b, settle) listed
    | inr (x, b) ↦ elim (Option-cases (lookup j s.objects)) [
      | inl o ↦ rw (b, o, settle) listed
      | inr (q, o) ↦ elim (Bool-cases (is_cancelled q.task.status)) [
        | inl c ↦ rw (b, o, c, settle) listed
        | inr c ↦ elim (Bool-cases (j == id)) [
          | inr other ↦
              rw (b, o, c, settle)
                (insert-IsListed j id (settle_record h now x outcome q) r s other listed)
          | inl same ↦
              let over' =
                subst (λ k. is_terminal k.task.status ≡ true)
                  (sym (same_object j id q r s same o listed)) over in
              let cell =
                subst (λ t. IsCell t (has j s.records) (lookup j s.store) (some x)) o
                  (subst (λ t. IsCell (lookup j s.objects) (has j s.records) (lookup j s.store) t) b
                    (sound j)) in
              let stopped = cell.3 refl over' in absurd (ground arith)
        ]
      ]
    ]
  ]

  add_task-IsListed :
      (input : TaskInput) (info : ToolInfo) (id : String) (r : TaskRecord) (s : TaskManager)
      → input.id == id ≡ false
      → IsKept id r s
      → IsKept id r (add_task h input info s)
  add_task-IsListed input info id r s other kept =
      let made = new_record h input info in
      let running = running_record h input info in
      elim kept [
        | inl listed ↦ inl (
          has-include id input.id s.records ∙ rw other listed.0,
          lookup-insert input.id id running (insert input.id made s.objects)
              ∙ rw (lookup-insert input.id id made s.objects, other) listed.1,
        )
        | inr gone ↦ inr (has-include id input.id s.records ∙ rw other gone)
      ]

  create_tool_task-IsKept :
      (input : TaskInput) (id : String) (r : TaskRecord) (s : TaskManager)
      → input.id == id ≡ false
      → IsKept id r s
      → IsKept id r (create_tool_task h input s).0
  unfolding create_tool_task
  create_tool_task-IsKept input id r s other kept =
      let cleaned = cleanup_expired-IsKept input.cleaned id r s kept in
      elim (Bool-cases (leb max_tasks (length (cleanup_expired input.cleaned s).records))) [
        | inl full ↦ rw (full, create_tool_task) cleaned
        | inr room ↦ elim (Option-cases (h.tool_info input.tool)) [
          | inl b ↦ rw (room, b, create_tool_task) cleaned
          | inr (info, b) ↦ elim (Bool-cases info.for_agent) [
            | inl m ↦
                rw (room, b, m, create_tool_task)
                  (add_task-IsListed input info id r (cleanup_expired input.cleaned s) other
                    cleaned)
            | inr m ↦ rw (room, b, m, create_tool_task) cleaned
          ]
        ]
      ]

  not_same :
      (j id : String) (ids : List String) → has j ids ≡ false → has id ids ≡ true → j == id ≡ false
  not_same j id ids absent there = elim (Bool-cases (j == id)) [
    | inr other ↦ other
    | inl same ↦
        let both = subst (λ k. has k ids ≡ false) ((string_eq.equals_iff j id).0 same) absent in
        absurd (ground arith)
  ]

  Step-IsKept :
      (s t : TaskManager) (id : String) (r : TaskRecord)
      → IsSound s
      → Step h s t
      → IsListed id r s
      → is_terminal r.task.status ≡ true
      → IsKept id r t
  unfolding get task_result list_tasks
  Step-IsKept s t id r sound (creates input fresh) listed over =
      create_tool_task-IsKept input id r s (not_same input.id id s.records fresh listed.0)
        (inl listed)
  Step-IsKept s t id r sound (gets now j principal) listed over =
      cleanup_expired-IsKept now id r s (inl listed)
  Step-IsKept s t id r sound (reads now j principal) listed over =
      cleanup_expired-IsKept now id r s (inl listed)
  Step-IsKept s t id r sound (lists now principal cursor) listed over =
      cleanup_expired-IsKept now id r s (inl listed)
  Step-IsKept s t id r sound (cancels now j principal) listed over =
      inl (cancel-IsListed now j id principal r s over listed)
  Step-IsKept s t id r sound (reports now j text) listed over =
      inl (report_progress-IsListed now j id text r s over listed)
  Step-IsKept s t id r sound (settles now j outcome) listed over =
      inl (settle-kept now j id outcome r s sound over listed)
  Step-IsKept s t id r sound (restarts now) listed over =
      let cell =
        subst (λ o. IsCell o (has id s.records) (lookup id s.store) (lookup id s.executions))
          listed.1 (sound id) in
      cleanup_expired-IsKept now id r (reloaded now s)
        (inl (reloaded-IsListed now id r s (cell.2 listed.0 over) over))

  -- In a reachable manager, after any step a task of the table that is over is in the table with the
  -- same record, or no longer in the table.
  pub Reachable-IsKept :
      (s t : TaskManager) (id : String) (r : TaskRecord)
      → Reachable h s
      → Step h s t
      → IsListed id r s
      → is_terminal r.task.status ≡ true
      → IsKept id r t
  Reachable-IsKept s t id r reach step listed over =
      Step-IsKept s t id r (Reachable-IsSound h s reach) step listed over

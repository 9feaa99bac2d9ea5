-- ===== src/Server/Tasks/Settling.antt =====
-- What a cancellation, a report of progress and the answer of a tool keep of the tasks of
-- src/server/mcp-task-manager.ts.
use folder_forge.Base.{
  ℕ, ◌≡◌, refl, sym, subst, String, Bool, true, false, Option, none, some, arith, leb, ◌==◌, ◌-◌,
  string_eq, is_some, lookup, insert, lookup-insert, lookup-erase, Bool-cases, Option-cases, inl,
  inr,
}
use folder_forge.Base.Results.{Result, ok, fail}
use folder_forge.Server.Tasks.{
  TaskRecord, Execution, TaskManager, TaskHost, TaskError, truthy, member, is_terminal,
  is_cancelled, has, persist, set_object, abort, cancel_owned,
}
use folder_forge.Server.Tasks.Runs.{
  ToolOutcome, resolved, rejected, report_record, report_progress, settle_record, settle,
  end_execution, bound_result, is_null, caught,
}
use folder_forge.Server.Tasks.Cells.{IsCell, IsSound, abort-IsSound}

overwrite-IsSound :
    (id : String) (r : TaskRecord) (s : TaskManager)
    → IsSound s
    → IsCell (some r) (has id s.records) (some r) (lookup id s.executions)
    → IsSound (persist id r (set_object id r s))
overwrite-IsSound id r s sound cell i = elim (Bool-cases (id == i)) [
  | inl same ↦
      rw (lookup-insert id i r s.objects, lookup-insert id i r s.store, same)
        (subst (λ k. IsCell (some r) (has k s.records) (some r) (lookup k s.executions))
          ((string_eq.equals_iff id i).0 same) cell)
  | inr other ↦ rw (lookup-insert id i r s.objects, lookup-insert id i r s.store, other) (sound i)
]

end_execution-IsSound :
    (id : String) (s : TaskManager)
    → IsSound s
    → IsCell (lookup id s.objects) (has id s.records) (lookup id s.store) none
    → IsSound (end_execution id s)
end_execution-IsSound id s sound cell i = elim (Bool-cases (id == i)) [
  | inl same ↦
      rw (lookup-erase id i s.executions, same)
        (subst (λ k. IsCell (lookup k s.objects) (has k s.records) (lookup k s.store) none)
          ((string_eq.equals_iff id i).0 same) cell)
  | inr other ↦ rw (lookup-erase id i s.executions, other) (sound i)
]

pub cancel_owned-IsSound :
    (now : ℕ) (id : String) (owned : Result TaskError TaskRecord) (s : TaskManager)
    → IsSound s
    → IsSound (cancel_owned now id owned s).0
cancel_owned-IsSound now id (fail e) s sound = sound
cancel_owned-IsSound now id (ok r) s sound = elim (Bool-cases (is_terminal r.task.status)) [
  | inl over ↦ rw (over, cancel_owned) sound
  | inr going ↦
      rw (going, cancel_owned)
        (overwrite-IsSound id _ (abort id s) (abort-IsSound id s sound)
          (λ t. refl, λ t. refl, λ l t. refl, λ x t. refl, λ l t. absurd (ground arith)))
]

changed-IsSound :
    (id : String) (r : TaskRecord) (s : TaskManager)
    → IsSound s
    → IsCell (some r) (has id s.records) (lookup id s.store) (lookup id s.executions)
    → IsSound (set_object id r s)
changed-IsSound id r s sound cell i = elim (Bool-cases (id == i)) [
  | inl same ↦
      rw (lookup-insert id i r s.objects, same)
        (subst (λ k. IsCell (some r) (has k s.records) (lookup k s.store) (lookup k s.executions))
          ((string_eq.equals_iff id i).0 same) cell)
  | inr other ↦ rw (lookup-insert id i r s.objects, other) (sound i)
]

reported-IsSound :
    (id : String) (r : TaskRecord) (x : Execution) (s : TaskManager)
    → IsSound s
    → IsCell (some r) (has id s.records) (some r) (some x)
    → IsSound (persist id r (record (set_object id r s) { executions = insert id x s.executions }))
reported-IsSound id r x s sound cell i = elim (Bool-cases (id == i)) [
  | inl same ↦
      rw
        (
          lookup-insert id i r s.objects,
          lookup-insert id i r s.store,
          lookup-insert id i x s.executions,
          same,
        )
        (subst (λ k. IsCell (some r) (has k s.records) (some r) (some x))
          ((string_eq.equals_iff id i).0 same) cell)
  | inr other ↦
      rw
        (
          lookup-insert id i r s.objects,
          lookup-insert id i r s.store,
          lookup-insert id i x s.executions,
          other,
        )
        (sound i)
]

module _ (h : TaskHost) where
  caught-over :
      (now : ℕ) (x : Execution) (message : String) (r : TaskRecord)
      → (is_terminal (caught h now x message r).task.status ≡ true)
        × (is_some (caught h now x message r).result ≡ true)
  unfolding caught
  caught-over now x message r = elim (Bool-cases x.aborted) [
    | inl b ↦ rw (b, caught) (refl, refl)
    | inr b ↦ rw (b, caught) (refl, refl)
  ]

  pub settle_record-over :
      (now : ℕ) (x : Execution) (outcome : ToolOutcome) (r : TaskRecord)
      → (is_terminal (settle_record h now x outcome r).task.status ≡ true)
        × (is_some (settle_record h now x outcome r).result ≡ true)
  unfolding settle_record
  settle_record-over now x (resolved v) r = elim (Bool-cases (is_null h (bound_result h v))) [
    | inl n ↦ rw (n, settle_record) (caught-over now x h.null_error r)
    | inr n ↦ elim (Bool-cases (truthy (member "ok" (bound_result h v)))) [
      | inl b ↦ rw (n, b, settle_record) (refl, refl)
      | inr b ↦ rw (n, b, settle_record) (refl, refl)
    ]
  ]
  settle_record-over now x (rejected message) r = caught-over now x message r

  over-IsCell :
      (r : TaskRecord) (listed : Bool)
      → is_terminal r.task.status ≡ true
      → is_some r.result ≡ true
      → IsCell (some r) listed (some r) none
  over-IsCell r listed over result = (
    λ t. result,
    λ t. result,
    λ l t. refl,
    λ x t. absurd (ground arith),
    λ l t. absurd (ground arith),
  )

  settled-IsSound :
      (id : String) (r : TaskRecord) (s : TaskManager)
      → IsSound s
      → is_terminal r.task.status ≡ true
      → is_some r.result ≡ true
      → IsSound (end_execution id (persist id r (set_object id r s)))
  settled-IsSound id r s sound over result i = elim (Bool-cases (id == i)) [
    | inl same ↦
        rw
          (
            lookup-insert id i r s.objects,
            lookup-insert id i r s.store,
            lookup-erase id i s.executions,
            same,
          )
          (over-IsCell r (has i s.records) over result)
    | inr other ↦
        rw
          (
            lookup-insert id i r s.objects,
            lookup-insert id i r s.store,
            lookup-erase id i s.executions,
            other,
          )
          (sound i)
  ]

  IsCell-stop :
      (r : TaskRecord) (listed : Bool) (stored : Option TaskRecord) (run : Option Execution)
      → is_cancelled r.task.status ≡ true
      → IsCell (some r) listed stored run
      → IsCell (some r) listed stored none
  IsCell-stop r listed stored run c cell =
      (cell.0, cell.1, cell.2, λ x t. absurd (ground arith), λ l t. absurd (ground arith))

  pub settle-IsSound :
      (now : ℕ) (id : String) (outcome : ToolOutcome) (s : TaskManager)
      → IsSound s
      → IsSound (settle h now id outcome s)
  unfolding settle
  settle-IsSound now id outcome s sound = elim (Option-cases (lookup id s.executions)) [
    | inl b ↦ rw (b, settle) sound
    | inr (x, b) ↦ elim (Option-cases (lookup id s.objects)) [
      | inl o ↦ rw (b, o, settle) sound
      | inr (r, o) ↦ elim (Bool-cases (is_cancelled r.task.status)) [
        | inl c ↦
            rw (b, o, c, settle)
              (end_execution-IsSound id s sound (
                subst (λ t. IsCell t (has id s.records) (lookup id s.store) none) (sym o)
                  (IsCell-stop r (has id s.records) (lookup id s.store) (lookup id s.executions) c (
                    subst
                      (λ t.
                        IsCell t (has id s.records) (lookup id s.store) (lookup id s.executions))
                      o (sound id)))))
        | inr c ↦
            let over = settle_record-over now x outcome r in
            rw (b, o, c, settle)
              (settled-IsSound id (settle_record h now x outcome r) s sound over.0 over.1)
      ]
    ]
  ]

  IsCell-report :
      (r q : TaskRecord) (listed : Bool) (stored : Option TaskRecord) (x y : Execution)
      → is_terminal r.task.status ≡ false
      → q.task.status ≡ r.task.status
      → IsCell (some r) listed stored (some x)
      → IsCell (some q) listed stored (some y) × IsCell (some q) listed (some q) (some y)
  IsCell-report r q listed stored x y going same cell =
      let on : is_terminal q.task.status ≡ false =
        subst (λ t. is_terminal t ≡ false) (sym same) going in
      (
        (
          λ t. absurd (ground arith),
          cell.1,
          λ l t. absurd (ground arith),
          λ z t. absurd (ground arith),
          λ l t. refl,
        ),
        (
          λ t. absurd (ground arith),
          λ t. absurd (ground arith),
          λ l t. absurd (ground arith),
          λ z t. absurd (ground arith),
          λ l t. refl,
        ),
      )

  pub report_progress-IsSound :
      (now : ℕ) (id text : String) (s : TaskManager)
      → IsSound s
      → IsSound (report_progress h now id text s)
  unfolding report_progress
  report_progress-IsSound now id text s sound = elim (Option-cases (lookup id s.executions)) [
    | inl b ↦ rw (b, report_progress) sound
    | inr (x, b) ↦ elim (Option-cases (lookup id s.objects)) [
      | inl o ↦ rw (b, o, report_progress) sound
      | inr (r, o) ↦ elim (Bool-cases (is_terminal r.task.status)) [
        | inl over ↦ rw (b, o, over, report_progress) sound
        | inr going ↦
            let was =
              subst (λ t. IsCell t (has id s.records) (lookup id s.store) (some x)) o
                (subst (λ t. IsCell (lookup id s.objects) (has id s.records) (lookup id s.store) t)
                  b (sound id)) in
            let y : Execution = record x { last_progress_write = now } in
            let cell =
              IsCell-report r (report_record h now text r) (has id s.records) (lookup id s.store) x
                y going refl was in
            let same_run =
              IsCell-report r (report_record h now text r) (has id s.records) (lookup id s.store) x
                x going refl was in
            elim (Bool-cases (leb 250 (now - x.last_progress_write))) [
              | inl w ↦
                  rw (b, o, going, w, report_progress)
                    (reported-IsSound id (report_record h now text r) y s sound cell.1)
              | inr w ↦
                  rw (b, o, going, w, report_progress)
                    (changed-IsSound id (report_record h now text r) s sound (
                      subst
                        (λ t.
                          IsCell (some (report_record h now text r)) (has id s.records)
                            (lookup id s.store) t)
                        (sym b) same_run.0))
            ]
      ]
    ]
  ]

-- ===== src/Server/Tasks/Revival.antt =====
-- What becomes of a task of src/server/mcp-task-manager.ts that expires while its tool runs.
use folder_forge.Base.{
  ℕ, ◌+◌, ◌≡◌, refl, sym, ◌∙◌, ap, subst, String, true, false, some, List, [], ◌∷◌, map, arith, leb,
  ◌==◌, string_eq, lookup, lookup-insert, beq_refl, Bool-cases, Option-cases, inl, inr,
}
use folder_forge.Base.Results.{fail}
use folder_forge.Core.{ToolPrincipal}
use folder_forge.Server.Tasks.{
  TaskRecord, Execution, TaskManager, TaskHost, task_not_found, is_terminal, is_cancelled, has,
  truthy, member, abort, is_expired, expire_one, expire_each, require_owned,
}
use folder_forge.Server.Tasks.Runs.{
  ToolOutcome, resolved, rejected, bound_result, is_null, settle_record, settle, restart_record,
  reloaded, restart,
}
use folder_forge.Server.Tasks.Cells.{has-without}
use folder_forge.Server.Tasks.Settling.{settle_record-over}
use folder_forge.Server.Tasks.Starts.{lookup-map, has-keys}

-- The task is in the table with this record.
abbrev pub IsListed : String → TaskRecord → TaskManager → Type 0
IsListed id r s = (has id s.records ≡ true) × (lookup id s.objects ≡ some r)

pub abort-IsListed :
    (j id : String) (r : TaskRecord) (s : TaskManager) → IsListed id r s → IsListed id r (abort j s)
abort-IsListed j id r s listed = elim (Option-cases (lookup j s.executions)) [
  | inl b ↦ rw (b, abort) listed
  | inr (x, b) ↦ elim (Bool-cases (has j s.controllers)) [
    | inl m ↦ rw (b, m, abort) listed
    | inr m ↦ rw (b, m, abort) listed
  ]
]

expire_one-IsListed :
    (now : ℕ) (j id : String) (r : TaskRecord) (s : TaskManager)
    → is_expired now r ≡ false
    → IsListed id r s
    → IsListed id r (expire_one now j s)
expire_one-IsListed now j id r s young listed = elim (Option-cases (lookup j s.objects)) [
  | inl b ↦ rw (b, expire_one) listed
  | inr (q, b) ↦ elim (Bool-cases (is_expired now q)) [
    | inr e ↦ rw (b, e, expire_one) listed
    | inl e ↦
        let kept = abort-IsListed j id r s listed in
        elim (Bool-cases (j == id)) [
          | inr other ↦
              rw (b, e, expire_one)
                (rw (has-without id j (abort j s).records, other) kept.0, kept.1)
          | inl same ↦
              let here =
                sym
                  (subst (λ k. lookup k s.objects ≡ some q) ((string_eq.equals_iff j id).0 same) b)
                ∙ listed.1 in
              absurd (
                let both : q ≡ r = ground arith in
                let old = subst (λ t. is_expired now t ≡ true) both e in ground arith)
        ]
  ]
]

expire_each-IsListed :
    (now : ℕ) (ids : List String) (id : String) (r : TaskRecord) (s : TaskManager)
    → is_expired now r ≡ false
    → IsListed id r s
    → IsListed id r (expire_each now ids s)
expire_each-IsListed now [] id r s young listed = listed
expire_each-IsListed now (j ∷ ids) id r s young listed =
    expire_each-IsListed now ids id r (expire_one now j s) young
      (expire_one-IsListed now j id r s young listed)

pub reloaded-IsListed :
    (now : ℕ) (id : String) (r : TaskRecord) (s : TaskManager)
    → lookup id s.store ≡ some r
    → is_terminal r.task.status ≡ true
    → IsListed id r (reloaded now s)
reloaded-IsListed now id r s stored over =
    let kept : restart_record now r ≡ r = rw over refl in
    let found = lookup-map (restart_record now) id s.store ∙ rw stored (ap some kept) in
    (has-keys id (map (λ b. (b.0, restart_record now b.1)) s.store) ∙ rw found refl, found)

-- A record of the store that is over comes back with a restart.
restart-IsListed :
    (now : ℕ) (id : String) (r : TaskRecord) (s : TaskManager)
    → lookup id s.store ≡ some r
    → is_terminal r.task.status ≡ true
    → is_expired now r ≡ false
    → IsListed id r (restart now s)
restart-IsListed now id r s stored over young =
    expire_each-IsListed now (reloaded now s).records id r (reloaded now s) young
      (reloaded-IsListed now id r s stored over)

module _ (h : TaskHost) where
  settle_record-times :
      (now : ℕ) (x : Execution) (outcome : ToolOutcome) (r : TaskRecord)
      → ((settle_record h now x outcome r).task.last_updated_at ≡ now)
        × ((settle_record h now x outcome r).task.ttl ≡ r.task.ttl)
  unfolding settle_record
  settle_record-times now x (resolved v) r = elim (Bool-cases (is_null h (bound_result h v))) [
    | inl n ↦ rw (n, settle_record) (refl, refl)
    | inr n ↦ elim (Bool-cases (truthy (member "ok" (bound_result h v)))) [
      | inl b ↦ rw (n, b, settle_record) (refl, refl)
      | inr b ↦ rw (n, b, settle_record) (refl, refl)
    ]
  ]
  settle_record-times now x (rejected message) r = (refl, refl)

  settle-stored :
      (now : ℕ) (id : String) (outcome : ToolOutcome) (s : TaskManager) (x : Execution)
      (r : TaskRecord)
      → lookup id s.executions ≡ some x
      → lookup id s.objects ≡ some r
      → is_cancelled r.task.status ≡ false
      → lookup id (settle h now id outcome s).store ≡ some (settle_record h now x outcome r)
  unfolding settle
  settle-stored now id outcome s x r run object going =
      rw (run, object, going, settle)
        (lookup-insert id id (settle_record h now x outcome r) s.store ∙ rw (beq_refl id) refl)

  -- A task that was taken out of the table while its tool runs, and was not cancelled by its caller,
  -- is not found; but when the tool has answered, a restart before the ttl has passed again puts it
  -- into the table with the outcome.
  pub settle-IsListed :
      (now later : ℕ) (id : String) (outcome : ToolOutcome) (principal : ToolPrincipal)
      → (s : TaskManager) (x : Execution) (r : TaskRecord) → has id s.records ≡ false
      → lookup id s.executions ≡ some x
      → lookup id s.objects ≡ some r
      → is_cancelled r.task.status ≡ false
      → leb (now + r.task.ttl) later ≡ false
      → (require_owned id principal s ≡ fail task_not_found)
        × IsListed id (settle_record h now x outcome r) (restart later (settle h now id outcome s))
  unfolding require_owned
  settle-IsListed now later id outcome principal s x r gone run object going young =
      let times = settle_record-times now x outcome r in
      (
        rw (gone, require_owned) refl,
        restart-IsListed later id (settle_record h now x outcome r) (settle h now id outcome s)
            (settle-stored now id outcome s x r run object going)
            (settle_record-over h now x outcome r).0 (rw (times.0, times.1) young),
      )

-- ===== src/Server/Tasks/Table.antt =====
-- What stays in the table of tasks of src/server/mcp-task-manager.ts.
use folder_forge.Base.{
  ℕ, ◌≡◌, ◌⊎◌, refl, sym, ◌∙◌, subst, String, true, false, some, List, [], ◌∷◌, arith, ◌==◌,
  string_eq, lookup, lookup-insert, Bool-cases, Option-cases, inl, inr,
}
use folder_forge.Core.{ToolPrincipal}
use folder_forge.Server.Tasks.{
  TaskRecord, TaskManager, is_terminal, has, set_object, abort, forget, is_expired, expire_one,
  expire_each, cleanup_expired, cancel_owned, cancel,
}
use folder_forge.Server.Tasks.Cells.{has-without}
use folder_forge.Server.Tasks.Revival.{IsListed, abort-IsListed}
use folder_forge.Server.Tasks.Calls.{require_owned-cases}

-- The task is in the table with this record, or no longer in the table.
abbrev pub IsKept : String → TaskRecord → TaskManager → Type 0
IsKept id r s = IsListed id r s ⊎ (has id s.records ≡ false)

pub abort-records : (j : String) (s : TaskManager) → (abort j s).records ≡ s.records
abort-records j s = elim (Option-cases (lookup j s.executions)) [
  | inl b ↦ rw (b, abort) refl
  | inr (x, b) ↦ elim (Bool-cases (has j s.controllers)) [
    | inl m ↦ rw (b, m, abort) refl
    | inr m ↦ rw (b, m, abort) refl
  ]
]

pub forget-IsKept :
    (j id : String) (r : TaskRecord) (s : TaskManager)
    → IsKept id r s
    → IsKept id r (forget j (abort j s))
forget-IsKept j id r s kept = elim (Bool-cases (j == id)) [
  | inl same ↦ inr (has-without id j (abort j s).records ∙ rw same refl)
  | inr other ↦ elim kept [
    | inl listed ↦
        let still = abort-IsListed j id r s listed in
        inl (has-without id j (abort j s).records ∙ rw other still.0, still.1)
    | inr gone ↦ inr (has-without id j (abort j s).records ∙ rw (other, abort-records j s) gone)
  ]
]

pub expire_one-IsKept :
    (now : ℕ) (j id : String) (r : TaskRecord) (s : TaskManager)
    → IsKept id r s
    → IsKept id r (expire_one now j s)
expire_one-IsKept now j id r s kept = elim (Option-cases (lookup j s.objects)) [
  | inl b ↦ rw (b, expire_one) kept
  | inr (q, b) ↦ elim (Bool-cases (is_expired now q)) [
    | inr e ↦ rw (b, e, expire_one) kept
    | inl e ↦ rw (b, e, expire_one) (forget-IsKept j id r s kept)
  ]
]

pub expire_each-IsKept :
    (now : ℕ) (ids : List String) (id : String) (r : TaskRecord) (s : TaskManager)
    → IsKept id r s
    → IsKept id r (expire_each now ids s)
expire_each-IsKept now [] id r s kept = kept
expire_each-IsKept now (j ∷ ids) id r s kept =
    expire_each-IsKept now ids id r (expire_one now j s) (expire_one-IsKept now j id r s kept)

pub cleanup_expired-IsKept :
    (now : ℕ) (id : String) (r : TaskRecord) (s : TaskManager)
    → IsKept id r s
    → IsKept id r (cleanup_expired now s)
cleanup_expired-IsKept now id r s kept = expire_each-IsKept now s.records id r s kept

pub insert-IsListed :
    (j id : String) (q r : TaskRecord) (s : TaskManager)
    → j == id ≡ false
    → IsListed id r s
    → IsListed id r (set_object j q s)
insert-IsListed j id q r s other listed =
    (listed.0, lookup-insert j id q s.objects ∙ rw other listed.1)

pub same_object :
    (j id : String) (q r : TaskRecord) (s : TaskManager)
    → j == id ≡ true
    → lookup j s.objects ≡ some q
    → IsListed id r s
    → q ≡ r
same_object j id q r s same found listed =
    let here =
      sym (subst (λ k. lookup k s.objects ≡ some q) ((string_eq.equals_iff j id).0 same) found)
      ∙ listed.1 in
    ground arith

pub cancel-IsListed :
    (now : ℕ) (j id : String) (principal : ToolPrincipal) (r : TaskRecord) (s : TaskManager)
    → is_terminal r.task.status ≡ true
    → IsListed id r s
    → IsListed id r (cancel now j principal s).0
unfolding cancel
cancel-IsListed now j id principal r s over listed = elim (require_owned-cases j principal s) [
  | inl b ↦ rw b listed
  | inr (inl b) ↦ rw b listed
  | inr (inr (q, (b, o))) ↦ elim (Bool-cases (j == id)) [
    | inl same ↦
        let over' =
          subst (λ t. is_terminal t.task.status ≡ true) (sym (same_object j id q r s same o listed))
            over in
        rw (b, over', cancel_owned) listed
    | inr other ↦ elim (Bool-cases (is_terminal q.task.status)) [
      | inl t ↦ rw (b, t, cancel_owned) listed
      | inr t ↦
          rw (b, t, cancel_owned)
            (insert-IsListed j id _ r (abort j s) other (abort-IsListed j id r s listed))
    ]
  ]
]

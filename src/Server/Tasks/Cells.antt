-- ===== src/Server/Tasks/Cells.antt =====
-- What holds of each task of `McpTaskManager` of src/server/mcp-task-manager.ts.
use folder_forge.Base.{
  ℕ, ◌≡◌, refl, subst, String, Bool, true, false, ◌||◌, Option, none, some, List, [], ◌∷◌, ◌++◌,
  arith, if◌then◌else◌, ◌==◌, string_eq, is_some, lookup, lookup-insert, lookup-erase, Bool-cases,
  Option-cases, inl, inr,
}
use folder_forge.Server.Tasks.{
  TaskRecord, Execution, TaskManager, is_terminal, is_cancelled, has, without, include, abort,
  forget, is_expired, expire_one, expire_each, cleanup_expired,
}

pub has-without :
    (i j : String) (ids : List String)
    → has i (without j ids) ≡ (if j == i then false else has i ids)
has-without i j [] = ground arith
has-without i j (k ∷ ids) = ground (
  arith,
  has-without i j ids,
  string_eq.equals_iff k j,
  string_eq.equals_iff k i,
  string_eq.equals_iff j i,
)

has-append : (i : String) (xs ys : List String) → has i (xs ++ ys) ≡ has i xs || has i ys
has-append i [] ys = refl
has-append i (k ∷ xs) ys = ground (arith, has-append i xs ys)

pub has-include :
    (i j : String) (ids : List String)
    → has i (include j ids) ≡ (if j == i then true else has i ids)
has-include i j ids = ground (arith, has-append i ids (j ∷ []), string_eq.equals_iff j i)

-- A stored record of a task that is over has its result.
abbrev pub IsStored : Option TaskRecord → Type 0
IsStored none = Unit
IsStored (some q) = is_terminal q.task.status ≡ true → is_some q.result ≡ true

-- A task by its object, whether it is in the table, its stored record, and its execution: where it is
-- over, it has a result, and in the table this is what is stored; an execution of a task that is over is
-- of a cancelled one; and a task of the table that is not over has an execution.
abbrev pub IsCell : Option TaskRecord → Bool → Option TaskRecord → Option Execution → Type 0
IsCell none listed stored run = (listed ≡ false) × (run ≡ none) × IsStored stored
IsCell (some r) listed stored run =
    (is_terminal r.task.status ≡ true → is_some r.result ≡ true)
    × IsStored stored
    × (listed ≡ true → is_terminal r.task.status ≡ true → stored ≡ some r)
    × (is_some run ≡ true → is_terminal r.task.status ≡ true → is_cancelled r.task.status ≡ true)
    × (listed ≡ true → is_terminal r.task.status ≡ false → is_some run ≡ true)

abbrev pub Cell : String → TaskManager → Type 0
Cell i s = IsCell (lookup i s.objects) (has i s.records) (lookup i s.store) (lookup i s.executions)

abbrev pub IsSound : TaskManager → Type 0
IsSound s = (i : String) → Cell i s

IsCell-forget :
    (o : Option TaskRecord) (listed : Bool) (stored : Option TaskRecord) (run : Option Execution)
    → IsCell o listed stored run
    → IsCell o false none run
IsCell-forget none listed stored run c = (refl, c.1, tt)
IsCell-forget (some r) listed stored run c =
    (c.0, tt, λ l. absurd (ground arith), c.3, λ l. absurd (ground arith))

forget-IsSound : (id : String) (s : TaskManager) → IsSound s → IsSound (forget id s)
forget-IsSound id s sound i = elim (Bool-cases (id == i)) [
  | inl same ↦
      rw (has-without i id s.records, lookup-erase id i s.store, same)
        (IsCell-forget _ _ _ _ (sound i))
  | inr other ↦ rw (has-without i id s.records, lookup-erase id i s.store, other) (sound i)
]

IsCell-run :
    (o : Option TaskRecord) (listed : Bool) (stored : Option TaskRecord) (x y : Execution)
    → IsCell o listed stored (some x)
    → IsCell o listed stored (some y)
IsCell-run none listed stored x y c = absurd (let e = c.1 in ground arith)
IsCell-run (some r) listed stored x y c = (c.0, c.1, c.2, c.3, c.4)

pub abort-IsSound : (id : String) (s : TaskManager) → IsSound s → IsSound (abort id s)
abort-IsSound id s sound = elim (Option-cases (lookup id s.executions)) [
  | inl b ↦ rw (b, abort) sound
  | inr (x, b) ↦ elim (Bool-cases (has id s.controllers)) [
    | inr m ↦ rw (b, m, abort) sound
    | inl m ↦
        rw (b, m, abort)
          (λ i. elim (Bool-cases (id == i)) [
            | inr other ↦
                rw (lookup-insert id i (record x { aborted = true }) s.executions, other) (sound i)
            | inl same ↦
                let at : lookup i s.executions ≡ some x =
                  subst (λ k. lookup k s.executions ≡ some x) ((string_eq.equals_iff id i).0 same)
                    b in
                rw (lookup-insert id i (record x { aborted = true }) s.executions, same)
                  (IsCell-run (lookup i s.objects) (has i s.records) (lookup i s.store) x _ (
                    subst
                      (λ run. IsCell (lookup i s.objects) (has i s.records) (lookup i s.store) run)
                      at (sound i)))
          ])
  ]
]

expire_one-IsSound :
    (now : ℕ) (id : String) (s : TaskManager) → IsSound s → IsSound (expire_one now id s)
expire_one-IsSound now id s sound = elim (Option-cases (lookup id s.objects)) [
  | inl b ↦ rw (b, expire_one) sound
  | inr (r, b) ↦ elim (Bool-cases (is_expired now r)) [
    | inl e ↦ rw (b, e, expire_one) (forget-IsSound id (abort id s) (abort-IsSound id s sound))
    | inr e ↦ rw (b, e, expire_one) sound
  ]
]

expire_each-IsSound :
    (now : ℕ) (ids : List String) (s : TaskManager) → IsSound s → IsSound (expire_each now ids s)
expire_each-IsSound now [] s sound = sound
expire_each-IsSound now (id ∷ ids) s sound =
    expire_each-IsSound now ids (expire_one now id s) (expire_one-IsSound now id s sound)

pub cleanup_expired-IsSound :
    (now : ℕ) (s : TaskManager) → IsSound s → IsSound (cleanup_expired now s)
cleanup_expired-IsSound now s sound = expire_each-IsSound now s.records s sound

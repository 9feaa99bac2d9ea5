-- ===== src/Server/Tasks/Listing.antt =====
-- `list` of `McpTaskManager` of src/server/mcp-task-manager.ts and its pages.
use folder_forge.Base.{
  ℕ, zero, suc, ◌≡◌, ◌⊎◌, refl, sym, ◌∙◌, ap, subst, String, Bool, true, false, not, ◌&&◌, ◌||◌,
  Option, none, some, List, [], ◌∷◌, ◌++◌, map, length, take, arith, if◌then◌else◌, ltb, leb, ◌==◌,
  string_eq, lookup, Bool-cases, inl, inr, beq_refl, ◌≤◌, ◌<◌,
}
use mathlib.Core.List.{append_assoc}
use folder_forge.Base.Results.{Result, ok, fail}
use folder_forge.Core.{ToolPrincipal}
use folder_forge.Server.Tasks.{
  TaskRecord, TaskManager, TaskError, invalid_cursor, page_size, has, is_admin, cleanup_expired,
}

-- One step of the stable sort, newest first.
abbrev insert_newest : TaskRecord → List TaskRecord → List TaskRecord
insert_newest r [] = r ∷ []
insert_newest r (q ∷ rest) =
    let later = insert_newest r rest in
    if leb q.task.created_at r.task.created_at then r ∷ q ∷ rest else q ∷ later

-- The records of the table that the principal may see, newest first.
abbrev pub visible_tasks : ToolPrincipal → TaskManager → List String → List TaskRecord
visible_tasks principal s [] = []
visible_tasks principal s (id ∷ ids) =
    let rest = visible_tasks principal s ids in
    elim (lookup id s.objects) [
      | none ↦ rest
      | some r ↦
          if is_admin principal.role || r.owner_id == principal.id
          then insert_newest r rest
          else rest
    ]

-- The records after that of the cursor.
abbrev after_cursor : String → List TaskRecord → Option (List TaskRecord)
after_cursor cursor [] = none
after_cursor cursor (r ∷ rest) =
    let later = after_cursor cursor rest in if r.task.task_id == cursor then some rest else later

abbrev last_id : List TaskRecord → Option String
last_id [] = none
last_id (r ∷ []) = some r.task.task_id
last_id (r ∷ q ∷ rest) = last_id (q ∷ rest)

-- The page that starts with the given records, and the cursor of the next one.
abbrev pub page_of : List TaskRecord → List TaskRecord × Option String
page_of records = (
  take page_size records,
  if ltb page_size (length records) then last_id (take page_size records) else none,
)

abbrev pub page_after :
    Option (List TaskRecord) → Result TaskError (List TaskRecord × Option String)
page_after none = fail invalid_cursor
page_after (some records) = ok (page_of records)

abbrev pub list_page :
    Option String → List TaskRecord → Result TaskError (List TaskRecord × Option String)
list_page none records = ok (page_of records)
list_page (some cursor) records =
    if cursor == "" then ok (page_of records) else page_after (after_cursor cursor records)

unfoldable pub list_tasks :
    ℕ
    → ToolPrincipal
    → Option String
    → TaskManager
    → TaskManager × Result TaskError (List TaskRecord × Option String)
list_tasks now principal cursor s =
    let s' = cleanup_expired now s in (s', list_page cursor (visible_tasks principal s' s'.records))

-- The ids are different and not empty.
abbrev pub is_distinct : List TaskRecord → Bool
is_distinct [] = true
is_distinct (r ∷ rest) =
    not (has r.task.task_id (map (λ q. q.task.task_id) rest))
    && not (r.task.task_id == "")
    && is_distinct rest

-- The page of the records ends them, or its cursor gives the page of those after it.
abbrev pub IsFollowed : List TaskRecord → List TaskRecord → Type 0
IsFollowed front records =
    (((page_of records).1 ≡ none) × ((page_of records).0 ≡ records))
    ⊎ ((cursor : String) × ((later : List TaskRecord) × (((page_of records).1 ≡ some cursor)
            × (records ≡ (page_of records).0 ++ later)
            × (list_page (some cursor) (front ++ records) ≡ ok (page_of later)))))

has-later :
    (id : String) (front : List TaskRecord) (r : TaskRecord) (rest : List TaskRecord)
    → has id (map (λ q. q.task.task_id) (front ++ r ∷ rest)) ≡ false
    → id == r.task.task_id ≡ false
has-later id [] r rest absent =
    ground (arith, string_eq.equals_iff id r.task.task_id, string_eq.equals_iff r.task.task_id id)
has-later id (q ∷ front) r rest absent = has-later id front r rest (ground arith)

after_cursor-append :
    (front : List TaskRecord) (r : TaskRecord) (rest : List TaskRecord)
    → is_distinct (front ++ r ∷ rest) ≡ true
    → (after_cursor r.task.task_id (front ++ r ∷ rest) ≡ some rest) × (r.task.task_id == "" ≡ false)
after_cursor-append [] r rest distinct = (rw (beq_refl r.task.task_id) refl, ground arith)
after_cursor-append (q ∷ front) r rest distinct =
    let later = after_cursor-append front r rest (ground arith) in
    let other : q.task.task_id == r.task.task_id ≡ false =
      has-later q.task.task_id front r rest (ground arith) in
    (rw other later.0, later.1)

last_id-append :
    (front : List TaskRecord) (r : TaskRecord) → last_id (front ++ r ∷ []) ≡ some r.task.task_id
last_id-append [] r = refl
last_id-append (q ∷ []) r = refl
last_id-append (q ∷ p ∷ front) r = last_id-append (p ∷ front) r

-- A list that is longer than a page.
take-split :
    (n : ℕ) (records : List TaskRecord)
    → suc n < length records
    → (front : List TaskRecord) × ((r : TaskRecord) × ((rest : List TaskRecord) × ((take
                (suc n)
                records
              ≡ front ++ r ∷ [])
            × (records ≡ front ++ r ∷ rest))))
take-split n [] long = absurd (ground arith)
take-split zero (r ∷ rest) long = ([], (r, (rest, (refl, refl))))
take-split (suc n) (q ∷ records) long =
    let (front, (r, (rest, (page, whole)))) = take-split n records (ground arith) in
    (q ∷ front, (r, (rest, (ap (λ l. q ∷ l) page, ap (λ l. q ∷ l) whole))))

take-whole : (n : ℕ) (records : List TaskRecord) → length records ≤ n → take n records ≡ records
take-whole zero [] short = refl
take-whole zero (r ∷ rest) short = absurd (ground arith)
take-whole (suc n) [] short = refl
take-whole (suc n) (r ∷ rest) short = ap (λ l. r ∷ l) (take-whole n rest (ground arith))

-- Of records with different ids that are not empty, a page either has no next cursor and all
-- records that are left, or its cursor gives the page of the records after it, so that no record is
-- left out or repeated.
pub list_page-next :
    (front records : List TaskRecord)
    → is_distinct (front ++ records) ≡ true
    → IsFollowed front records
list_page-next front records distinct = elim (Bool-cases (ltb page_size (length records))) [
  | inr short ↦ inl (rw short refl, take-whole page_size records (ground arith))
  | inl long ↦
      let (start, (r, (later, (page, whole)))) = take-split 49 records (ground arith) in
      let after = after_cursor-append (front ++ start) r later (
        subst (λ l. is_distinct l ≡ true)
          (ap (λ l. front ++ l) whole ∙ sym (append_assoc front start (r ∷ later))) distinct) in
      let all_records : front ++ records ≡ (front ++ start) ++ r ∷ later =
        ap (λ l. front ++ l) whole ∙ sym (append_assoc front start (r ∷ later)) in
      inr (
        r.task.task_id,
        (
          later,
          (
            rw long (ap last_id page ∙ last_id-append start r),
            whole ∙ sym (append_assoc start (r ∷ []) later) ∙ ap (λ l. l ++ later) (sym page),
            rw (after.1, list_page)
                (ap page_after (ap (after_cursor r.task.task_id) all_records ∙ after.0)),
          ),
        ),
      )
]

-- ===== src/AgentLoops/Reports.antt =====
-- src/agent-loops/agent-loop-runner.ts: what the runner reads off the results of tools.
use folder_forge.Base.{
  String, Bool, true, false, ◌||◌, Option, none, some, List, [], ◌∷◌, ◌++◌, any, if◌then◌else◌,
  ◌==◌, string_eq,
}
use folder_forge.Json.{
  Value, null, bool, num, str, arr, obj, Items, no_items, item, Fields, no_fields, field_of, field,
  join,
}

-- `ToolResult` of src/core/types.ts, as far as the runner reads it.
pub record ToolAnswer : Type 0 where
  pub ok : Bool
  pub contents : Option Value
  pub error : Option String

-- `String(value)`
unfoldable mutual
  unfolding join

  pub string_of : Value → String
  string_of null = "null"
  string_of (bool true) = "true"
  string_of (bool false) = "false"
  string_of (num text) = text
  string_of (str s) = s
  string_of (arr items) = join (element_texts items)
  string_of (obj _) = "[object Object]"

  pub element_texts : Items → List String
  element_texts no_items = []
  element_texts (item null rest) = "" ∷ element_texts rest
  element_texts (item v rest) = string_of v ∷ element_texts rest

-- `value.key` of what is an object, as a text; `undefined` is the text "undefined".
unfoldable pub text_at : String → Value → String
unfolding field_of string_of
text_at key (obj fields) = elim (field_of key fields) [ none ↦ "undefined" | some v ↦ string_of v ]
text_at key v = "undefined"

abbrev is_text : String → Option Value → Bool
is_text text (some (str s)) = s == text
is_text text _ = false

unfoldable pub is_workflow_paused : Option Value → Bool
unfolding field_of
is_workflow_paused (some (obj fields)) = is_text "paused" (field_of "state" fields)
is_workflow_paused _ = false

abbrev one_of : List String → String → Bool
one_of texts text = any (λ t. t == text) texts

unfoldable pub is_workflow_incomplete : Option Value → Bool
unfolding text_at
is_workflow_incomplete (some (obj fields)) =
    one_of ("running" ∷ "paused" ∷ []) (text_at "state" (obj fields))
is_workflow_incomplete _ = false

-- `Set.add`
abbrev add_text : String → List String → List String
add_text t texts = if one_of texts t then texts else texts ++ t ∷ []

abbrev own_path : Bool → Option Value → List String → List String
own_path true (some (str path)) paths = add_text path paths
own_path _ _ paths = paths

-- `visit`, with the set of paths as an accumulator; `inside` is `insideFileCollection`.
unfoldable mutual
  unfolding field_of

  pub visit : Bool → Value → List String → List String
  visit inside (arr items) paths = visit_items inside items paths
  visit inside (obj fields) paths =
      visit_fields inside fields (own_path inside (field_of "path" fields) paths)
  visit inside v paths = paths

  pub visit_items : Bool → Items → List String → List String
  visit_items inside no_items paths = paths
  visit_items inside (item v rest) paths = visit_items inside rest (visit inside v paths)

  pub visit_fields : Bool → Fields → List String → List String
  visit_fields inside no_fields paths = paths
  visit_fields inside (field k v rest) paths =
      let files = visit true v paths in
      let nested = visit inside v paths in
      visit_fields inside rest (
        if one_of ("files" ∷ "changedPaths" ∷ []) k
        then files
        else if one_of ("steps" ∷ "evidence" ∷ "data" ∷ []) k
        then nested
        else paths)

unfoldable pub extract_changed_paths : Option Value → List String
unfolding visit
extract_changed_paths none = []
extract_changed_paths (some v) = visit false v []

unfoldable pub extract_verification_id : Option Value → Option String
unfolding field_of
extract_verification_id (some (obj fields)) = elim (field_of "id" fields) [
  | none ↦ none
  | some v ↦ elim v [ str id ↦ some id | _ ↦ none ]
]
extract_verification_id _ = none

unfoldable pub is_verification_terminal : Option Value → Bool
unfolding text_at
is_verification_terminal (some (obj fields)) =
    one_of ("completed" ∷ "cancelled" ∷ "interrupted" ∷ []) (text_at "state" (obj fields))
    || one_of ("passed" ∷ "failed" ∷ "unavailable" ∷ []) (text_at "overall" (obj fields))
is_verification_terminal (some (arr items)) = false
is_verification_terminal _ = true

abbrev is_true : Option Value → Bool
is_true (some (bool b)) = b
is_true _ = false

unfoldable pub verification_passed : Option Value → Bool
unfolding field_of
verification_passed (some (obj fields)) =
    is_true (field_of "passed" fields) || is_text "passed" (field_of "overall" fields)
verification_passed _ = false

abbrev check_of : Value → Option String
check_of (obj fields) = elim (field_of "check" fields) [
  | none ↦ none
  | some v ↦ elim v [ str s ↦ some s | _ ↦ none ]
]
check_of _ = none

unfoldable pub checks_of : Items → List String
unfolding field_of
checks_of no_items = []
checks_of (item v rest) = elim (check_of v) [ none ↦ checks_of rest | some s ↦ s ∷ checks_of rest ]

-- `results` of a report
unfoldable pub results_of : Option Value → Option Items
unfolding field_of
results_of (some (obj fields)) = elim (field_of "results" fields) [
  | none ↦ none
  | some v ↦ elim v [ arr items ↦ some items | _ ↦ none ]
]
results_of _ = none

unfoldable pub verification_checks : Option Value → List String
unfolding results_of checks_of
verification_checks report = elim (results_of report) [ none ↦ [] | some items ↦ checks_of items ]

-- `String(item.check ?? "").toLowerCase()` is contained in the lower-cased name.
module _ (lower : String → String) (includes : String → String → Bool) where
  abbrev check_text : Fields → String
  check_text fields = elim (field_of "check" fields) [
    | none ↦ ""
    | some v ↦ elim v [ null ↦ "" | w ↦ string_of w ]
  ]

  -- The first item that is about the criterion is passed.
  unfoldable pub relevant_passed : String → Items → Bool
  unfolding field_of string_of
  relevant_passed name no_items = false
  relevant_passed name (item (obj fields) rest) =
      let later = relevant_passed name rest in
      if includes name (lower (check_text fields))
      then is_text "passed" (field_of "status" fields)
      else later
  relevant_passed name (item (arr items) rest) =
      let later = relevant_passed name rest in if includes name "" then false else later
  relevant_passed name (item v rest) = relevant_passed name rest

  unfoldable pub criterion_passed : String → Option Value → Bool → Bool
  unfolding results_of relevant_passed
  criterion_passed name report overall =
      overall
      || elim (results_of report) [ none ↦ false | some items ↦ relevant_passed (lower name) items ]

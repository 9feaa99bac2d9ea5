-- ===== src/Policy/CommandPolicy.antt =====
-- src/policy/command-policy.ts. The `RegExp` engine, `toLowerCase`, `node:path` and `os.tmpdir` are
-- a parameter; the patterns are the texts of the source. A text is the list of its UTF-16 units.
pub mod Classes
use mathlib.Core.List.{reverse}
use folder_forge.Base.{
  ℕ, zero, suc, ◌+◌, String, Bool, true, false, not, ◌&&◌, ◌||◌, Option, none, some, List, [], ◌∷◌,
  ◌++◌, map, min, leb, if◌then◌else◌, ◌==◌, nat_eq, string_eq, length, filter, any, head?, is_some,
  utf16,
}
use folder_forge.Json.{◌⧺◌}
use folder_forge.Core.{RiskLevel, low, medium, high, critical}
use folder_forge.Policy.GlobMatch.{split}

abbrev pub Text : Type 0
Text = List ℕ

pub record CommandHost : Type 0 where
  -- `exec` of the expression with this source and these flags: the groups 1, 2, … of a match
  pub exec : (source flags : String) → Text → Option (List (Option Text))
  pub to_lower_case : Text → Text
  pub is_absolute : Text → Bool
  pub resolve : Text → Text
  pub relative : Text → Text → Text
  pub tmpdir : Text

abbrev pub critical_patterns : List String
critical_patterns =
    "\\brm\\s+-rf?\\s+\\/(?:\\s|$)" ∷ "\\brm\\s+-rf?\\s+~(?:\\/|\\s|$)" ∷ "\\bsudo\\b"
    ∷ "\\bmkfs\\b" ∷ "\\bdd\\s+if=" ∷ "\\bchmod\\s+-R\\s+777\\s+\\/" ∷ "\\bchown\\s+-R\\b"
    ∷ "\\bcurl\\b[^|]*\\|\\s*(?:bash|sh)\\b" ∷ "\\bwget\\b[^|]*\\|\\s*(?:bash|sh)\\b"
    ∷ "\\bgit\\s+reset\\s+--hard\\b" ∷ "\\bgit\\s+clean\\s+-[a-z]*f"
    ∷ "\\bgit\\s+push\\b[^&|;]*--force\\b" ∷ "\\bdocker\\s+system\\s+prune\\b"
    ∷ "\\bkubectl\\s+delete\\b" ∷ "\\bterraform\\s+apply\\b" ∷ "\\bmv\\s+\\S+\\s+\\/dev\\/null\\b"
    ∷ ":\\(\\)\\s*\\{.*\\|.*&\\s*\\}\\s*;" ∷ []

abbrev pub high_patterns : List String
high_patterns =
    "\\bgit\\s+push\\b" ∷ "\\bgit\\s+reset\\b" ∷ "\\bdocker\\s+compose\\s+down\\b"
    ∷ "\\bdocker\\s+rm\\b" ∷ "\\bnpm\\s+publish\\b" ∷ "\\brm\\s+-rf?\\b" ∷ []

abbrev pub medium_patterns : List String
medium_patterns =
    "\\bnpm\\s+(install|i|ci|add)\\b" ∷ "\\bpnpm\\s+(install|add)\\b"
    ∷ "\\byarn\\s+(add|install)\\b" ∷ "\\bpip\\s+install\\b" ∷ "\\bdocker\\s+compose\\s+up\\b"
    ∷ "\\bmake\\b" ∷ "\\b(npm|pnpm|yarn)\\s+run\\s+build\\b" ∷ []

-- What `trim` takes away.
abbrev is_white : ℕ → Bool
is_white c =
    leb 9 c && leb c 13
    || c == 32
    || c == 0xA0
    || c == 0x1680
    || leb 0x2000 c && leb c 0x200A
    || c == 0x2028
    || c == 0x2029
    || c == 0x202F
    || c == 0x205F
    || c == 0x3000
    || c == 0xFEFF

unfoldable pub trim_start : Text → Text
trim_start [] = []
trim_start (c ∷ s) = let rest = trim_start s in if is_white c then rest else c ∷ s

unfoldable pub trim : Text → Text
unfolding trim_start
trim s = reverse (trim_start (reverse (trim_start s)))

unfoldable pub starts_with : Text → Text → Bool
starts_with [] s = true
starts_with (c ∷ sub) [] = false
starts_with (c ∷ sub) (x ∷ s) = x == c && starts_with sub s

-- `s.indexOf(sub)`, counted from `i`
unfoldable pub search_from : Text → ℕ → Text → Option ℕ
unfolding starts_with
search_from sub i [] = if starts_with sub [] then some i else none
search_from sub i (x ∷ s) =
    let later = search_from sub (suc i) s in if starts_with sub (x ∷ s) then some i else later

unfoldable pub skip : ℕ → Text → Text
skip zero s = s
skip (suc n) [] = []
skip (suc n) (x ∷ s) = skip n s

-- `s.indexOf(sub, from)`
unfoldable pub index_of : Text → Text → ℕ → Option ℕ
unfolding search_from skip
index_of s sub from = let start = min from (length s) in search_from sub start (skip start s)

abbrev includes : Text → Text → Bool
includes s sub = is_some (index_of s sub 0)

-- The loop over the parts of a wildcard entry.
unfoldable pub parts_in_order : Text → List Text → ℕ → Bool
unfolding index_of trim
parts_in_order cmd [] idx = true
parts_in_order cmd (p ∷ parts) idx = elim (index_of cmd (trim p) idx) [
  | none ↦ false
  | some found ↦ parts_in_order cmd parts (found + length p)
]

abbrev is_nonempty : Text → Bool
is_nonempty [] = false
is_nonempty (c ∷ s) = true

-- The first of the groups that took part in the match, or "".
abbrev first_group : List (Option Text) → Text
first_group [] = []
first_group (none ∷ groups) = first_group groups
first_group (some t ∷ groups) = t

pub record CommandClassification : Type 0 where
  pub risk : RiskLevel
  pub blocked_reason : Option (String × Text)
  pub matched : Option (String × Text)

-- `if (entry)`: an empty text counts as none.
abbrev pub truthy : Option String → Option String
truthy none = none
truthy (some text) = if text == "" then none else some text

-- The early returns of `classify`.
abbrev pub unless_disposable : Option Text → CommandClassification → CommandClassification
unless_disposable (some target) rest = record {
  risk = medium;
  blocked_reason = none;
  matched = some ("disposable-temp:", target);
}
unless_disposable none rest = rest

abbrev pub unless_removal : Option Text → CommandClassification → CommandClassification
unless_removal (some target) rest = record {
  risk = critical;
  blocked_reason = some ("Recursive deletion targets an absolute non-disposable path: ", target);
  matched = some ("absolute-recursive-removal", []);
}
unless_removal none rest = rest

module _ (h : CommandHost) where
  abbrev pub test : String → String → Text → Bool
  test source flags s = is_some (h.exec source flags s)

  unfoldable pub entry_matches : Text → Text → Bool
  unfolding index_of parts_in_order split
  entry_matches cmd pat =
      if includes pat (b'*' ∷ [])
      then parts_in_order cmd (filter is_nonempty (split b'*' [] pat)) 0
      else includes cmd pat

  -- The entry of the configured blocklist that matches first.
  unfoldable pub matches_config_blocklist : List String → Text → Option String
  unfolding entry_matches
  matches_config_blocklist [] command = none
  matches_config_blocklist (entry ∷ blocked) command =
      let rest = matches_config_blocklist blocked command in
      if entry_matches (h.to_lower_case command) (h.to_lower_case (utf16 entry))
      then some entry
      else rest

  unfoldable pub removal_target : Text → Option Text
  removal_target raw =
      if not (is_nonempty raw)
        || test "[;&|`$*?{}\\x5b\\x5d\\r\\n]" "" raw
        || not (h.is_absolute raw)
      then none
      else some (h.resolve raw)

  unfoldable pub recursive_removal_target : Text → Option Text
  unfolding trim removal_target
  recursive_removal_target command =
      elim (h.exec
        "^rm\\s+-rf?\\s+(?:--\\s+)?(?:\"([^\"]+)\"|'([^']+)'|([^\\s;&|`$*?{}\\x5b\\x5d]+))$" ""
        (trim command)) [ none ↦ none | some groups ↦ removal_target (first_group groups) ]

  -- `rel.split(/[\\/]/)[0]`
  unfoldable pub first_component : Text → Text
  first_component [] = []
  first_component (c ∷ s) =
      let rest = first_component s in if c == b'/' || c == b'\\' then [] else c ∷ rest

  unfoldable pub is_disposable : Text → Bool
  unfolding first_component starts_with index_of
  is_disposable target =
      let rel = h.relative (h.resolve h.tmpdir) target in
      is_nonempty rel
      && not (starts_with (b'.' ∷ b'.' ∷ []) rel)
      && not (includes rel (b'.' ∷ b'.' ∷ []))
      && test "^(?:ff-|folderforge-)[a-z0-9._-]+$" "i" (first_component rel)

  unfoldable pub disposable_temp_removal : Text → Option Text
  unfolding recursive_removal_target is_disposable
  disposable_temp_removal command = elim (recursive_removal_target command) [
    | none ↦ none
    | some target ↦ if is_disposable target then some target else none
  ]

  -- The first pattern of a list that matches.
  unfoldable pub first_match : List String → Text → Option String
  first_match [] s = none
  first_match (re ∷ rest) s =
      let later = first_match rest s in if test re "" s then some re else later

  -- The tests that come after the removal targets, on the trimmed command.
  unfoldable pub classify_patterns : List String → Text → CommandClassification
  unfolding first_match matches_config_blocklist
  classify_patterns blocked trimmed = elim (first_match critical_patterns trimmed) [
    | some re ↦ record {
      risk = critical;
      blocked_reason = some ("Matches destructive pattern: ", utf16 ("/" ⧺ re ⧺ "/"));
      matched = some (re, []);
    }
    | none ↦ elim (truthy (matches_config_blocklist blocked trimmed)) [
      | some entry ↦ record {
        risk = critical;
        blocked_reason = some ("Matches blocked command rule: ", utf16 entry);
        matched = some (entry, []);
      }
      | none ↦ elim (first_match high_patterns trimmed) [
        | some re ↦ record { risk = high; blocked_reason = none; matched = some (re, []) }
        | none ↦ elim (first_match medium_patterns trimmed) [
          | some re ↦ record { risk = medium; blocked_reason = none; matched = some (re, []) }
          | none ↦ record { risk = low; blocked_reason = none; matched = none }
        ]
      ]
    ]
  ]

  unfoldable pub classify : List String → Text → CommandClassification
  unfolding trim disposable_temp_removal recursive_removal_target classify_patterns
  classify blocked command = unless_disposable (disposable_temp_removal (trim command)) (
      unless_removal (recursive_removal_target (trim command))
        (classify_patterns blocked (trim command)))

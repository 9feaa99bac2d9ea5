-- ===== src/Policy/CommandPolicy/Classes.antt =====
-- When `classify` of src/policy/command-policy.ts blocks a command.
use folder_forge.Base.{
  String, ◌≡◌, refl, ◌↔◌, Bool, true, not, ◌&&◌, ◌||◌, Option, none, some, List, [], ◌∷◌, any, all,
  ◌==◌, string_eq, is_some, utf16, arith,
}
use folder_forge.Core.{critical}
use folder_forge.Policy.CommandPolicy.{
  Text, CommandHost, CommandClassification, critical_patterns, first_match,
  matches_config_blocklist, entry_matches, classify_patterns, classify, trim, unless_removal,
  truthy, unless_disposable, disposable_temp_removal, recursive_removal_target, test,
}

module _ (h : CommandHost) where
  first_match-any :
      (patterns : List String) (s : Text)
      → is_some (first_match h patterns s) ≡ any (λ re. test h re "" s) patterns
  unfolding first_match
  first_match-any [] s = refl
  first_match-any (re ∷ patterns) s = let later = first_match-any patterns s in ground arith

  -- The command contains the entry, or the parts of a wildcard entry in their order.
  unfoldable pub hits_entry : Text → String → Bool
  hits_entry command entry =
      entry_matches h (h.to_lower_case command) (h.to_lower_case (utf16 entry))

  split_and : (a b : Bool) → a && b ≡ true → (a ≡ true) × (b ≡ true)
  split_and a b e = ground arith

  abbrev pub is_named : String → Bool
  is_named entry = not (entry == "")

  blocklist-any :
      (blocked : List String) (s : Text)
      → all is_named blocked ≡ true
      → is_some (truthy (matches_config_blocklist h blocked s)) ≡ any (hits_entry s) blocked
  unfolding matches_config_blocklist hits_entry
  blocklist-any [] s named = refl
  blocklist-any (entry ∷ blocked) s named =
      let (one, others) = split_and (is_named entry) (all is_named blocked) named in
      let later = blocklist-any blocked s others in ground arith

  unfoldable pub IsBlocked : CommandClassification → Bool → Type 0
  IsBlocked c b = (is_some c.blocked_reason ≡ b) × ((c.risk ≡ critical) ↔ (b ≡ true))

  patterns_block :
      (blocked : List String) (s : Text)
      → IsBlocked (classify_patterns h blocked s) (
          is_some (first_match h critical_patterns s)
          || is_some (truthy (matches_config_blocklist h blocked s)))
  unfolding classify_patterns IsBlocked
  patterns_block blocked s = ground arith

  -- What makes a command blocked, with no order of tests.
  unfoldable pub destructive : List String → Text → Bool
  destructive blocked s =
      not (is_some (disposable_temp_removal h s))
      && (is_some (recursive_removal_target h s)
          || (any (λ re. test h re "" s) critical_patterns || any (hits_entry s) blocked))

  unless_removal-IsBlocked :
      (target : Option Text) (c : CommandClassification) (b : Bool)
      → IsBlocked c b
      → IsBlocked (unless_removal target c) (is_some target || b)
  unfolding IsBlocked
  unless_removal-IsBlocked none c b blocks = blocks
  unless_removal-IsBlocked (some t) c b blocks = (refl, ((λ _. refl), (λ _. refl)))

  unless_disposable-IsBlocked :
      (target : Option Text) (c : CommandClassification) (b : Bool)
      → IsBlocked c b
      → IsBlocked (unless_disposable target c) (not (is_some target) && b)
  unfolding IsBlocked
  unless_disposable-IsBlocked none c b blocks = blocks
  unless_disposable-IsBlocked (some t) c b blocks = (refl, ((λ e. cc), (λ e. cc)))

  patterns-IsBlocked :
      (blocked : List String) (s : Text)
      → all is_named blocked ≡ true
      → IsBlocked
          (classify_patterns h blocked s)
          (any (λ re. test h re "" s) critical_patterns || any (hits_entry s) blocked)
  patterns-IsBlocked blocked s named =
      rw (← first_match-any critical_patterns s, ← blocklist-any blocked s named)
        (patterns_block blocked s)

  -- If no entry of the configured blocklist is empty: `classify` gives a reason to block a command,
  -- and calls its risk critical, exactly where the command is no removal of a disposable directory,
  -- and is a recursive removal of an absolute path or matches a critical pattern or an entry of the
  -- configured blocklist.
  pub classify-IsBlocked :
      (blocked : List String) (command : Text)
      → all is_named blocked ≡ true
      → IsBlocked (classify h blocked command) (destructive blocked (trim command))
  unfolding classify IsBlocked destructive
  classify-IsBlocked blocked command named =
      unless_disposable-IsBlocked (disposable_temp_removal h (trim command)) _ _ (
        unless_removal-IsBlocked (recursive_removal_target h (trim command)) _ _
          (patterns-IsBlocked blocked (trim command) named))

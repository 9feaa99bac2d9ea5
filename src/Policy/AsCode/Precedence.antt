-- ===== src/Policy/AsCode/Precedence.antt =====
-- Which rule decides: a matching deny rule before any other, and no rule only if none matches.
use folder_forge.Base.{
  ◌≡◌, refl, sym, ap, ◌∙◌, Bool, true, false, ◌&&◌, ◌||◌, Option, none, some, List, [], ◌∷◌, arith,
  if◌then◌else◌, any, find, find_passes, head?, is_some, Option-cases, inl, inr,
}
use folder_forge.Policy.AsCode.{
  LoadedRule, PolicyRuleContext, PolicyRuleMatch, is_deny, matches, matched, select, result_of,
  evaluate,
}

-- `matches` without an exception
abbrev pub is_hit : Option Bool → Bool
is_hit none = false
is_hit (some b) = b

any-find {ℓ} : {A : Type ℓ} (q : A → Bool) (xs : List A) → is_some (find q xs) ≡ any q xs
any-find q [] = refl
any-find q (x ∷ xs) = ground (arith, any-find q xs)

abbrev pub is_denial : Option PolicyRuleMatch → Bool
is_denial none = false
is_denial (some m) = is_deny m.effect

module _ (context : PolicyRuleContext) where
  abbrev hits : LoadedRule → Bool
  hits rule = is_hit (matches rule context)

  any-matched :
      (q : LoadedRule → Bool) (rules ms : List LoadedRule)
      → matched context rules ≡ some ms
      → any q ms ≡ any (λ r. q r && hits r) rules
  unfolding matched
  any-matched q [] ms e = ground arith
  any-matched q (r ∷ rules) ms e = elim (Option-cases (matches r context)) [
    | inl thrown ↦ absurd (ground arith)
    | inr (hit, h) ↦ elim (Option-cases (matched context rules)) [
      | inl thrown ↦ absurd (ground arith)
      | inr (more, m) ↦ step hit more h (any-matched q rules more m) (ground arith)
    ]
  ]
    where
      step :
          (hit : Bool) (more : List LoadedRule)
          → matches r context ≡ some hit
          → any q more ≡ any (λ x. q x && hits x) rules
          → ms ≡ (if hit then r ∷ more else more)
          → any q ms ≡ ((q r && hits r) || any (λ x. q x && hits x) rules)
      step true more h ih same = rw (same, h) (ground arith)
      step false more h ih same = rw (same, h) (ground arith)

  select_cases :
      (ms : List LoadedRule)
      → (is_some (result_of (select ms)) ≡ any (λ r. true) ms)
        × (is_denial (result_of (select ms)) ≡ any (λ r. is_deny r.effect) ms)
  unfolding select
  select_cases ms = elim (Option-cases (find (λ r. is_deny r.effect) ms)) [
    | inl no_deny ↦ rw (no_deny, select) (first_rule ms no_deny)
    | inr (r, found) ↦
        rw (found, select)
          (
            sym (any_of_find ms found),
            find_passes (λ x. is_deny x.effect) ms found
                ∙ sym (sym (any-find (λ x. is_deny x.effect) ms) ∙ ap is_some found),
          )
  ]
    where
      first_rule :
          (ms : List LoadedRule)
          → find (λ r. is_deny r.effect) ms ≡ none
          → (is_some (result_of (head? ms)) ≡ any (λ r. true) ms)
            × (is_denial (result_of (head? ms)) ≡ any (λ r. is_deny r.effect) ms)
      first_rule [] e = (refl, refl)
      first_rule (x ∷ xs) e = (refl, ground (arith, any-find (λ r. is_deny r.effect) xs))

      any_of_find :
          {r : LoadedRule} (ms : List LoadedRule)
          → find (λ r. is_deny r.effect) ms ≡ some r
          → any (λ r. true) ms ≡ true
      any_of_find [] e = cc
      any_of_find (x ∷ xs) e = refl

-- If no pattern throws: a rule decides exactly when some rule matches, and the decision is a deny
-- exactly when some matching rule is a deny rule, wherever it stands in the files.
pub deny_first :
    (rules : List LoadedRule) (context : PolicyRuleContext) (result : Option PolicyRuleMatch)
    → evaluate rules context ≡ some result
    → (is_some result ≡ any (λ r. is_hit (matches r context)) rules)
      × (is_denial result ≡ any (λ r. is_deny r.effect && is_hit (matches r context)) rules)
unfolding evaluate
deny_first rules context result e = elim (Option-cases (matched context rules)) [
  | inl thrown ↦ absurd (ground arith)
  | inr (ms, m) ↦
      let (exists, denies) = select_cases context ms in
      let same : result_of (select ms) ≡ result = ground arith in
      (
        ap is_some (sym same) ∙ exists ∙ any-matched context (λ r. true) rules ms m,
        ap is_denial (sym same) ∙ denies ∙ any-matched context (λ r. is_deny r.effect) rules ms m,
      )
]

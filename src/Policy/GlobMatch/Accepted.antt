-- ===== src/Policy/GlobMatch/Accepted.antt =====
-- Patterns of src/policy/glob-match.ts without `{` accept what they cover.
use mathlib.Core.List.{append_assoc}
use folder_forge.Base.{
  ℕ, suc, zero, ◌≤◌, ◌≡◌, refl, sym, ap, subst, ◌∙◌, inl, inr, ◌⊎◌, ◌↔◌, Bool, true, false, not,
  some, List, [], ◌∷◌, ◌++◌, arith, ◌==◌, nat_eq, all, length, Bool-cases, Option-cases,
}
use folder_forge.Policy.GlobMatch.{
  Node, globstar_dir, globstar, star, one, literal, is_at, node_at, glob_to_reg_exp, compile_from,
  match_nodes, glob_test,
}
use folder_forge.Policy.GlobMatch.Meaning.{NodeText, GlobText, match_nodes_iff}
use folder_forge.Policy.GlobMatch.Denied.{is_ordinary}
use folder_forge.Policy.GlobMatch.Covers.{
  Covers, ends, itself, any_one, in_name, anywhere, at_root, below, node-itself, node-one,
  node-star, node-globstar, node-globstar_dir, compile_skip, compile_all, Covers-Compiled,
}

-- What the text of a pattern that begins with a node is.
compile_step :
    (c k : ℕ) (p : List ℕ) (n : Node) (ns : List Node) (s : List ℕ)
    → node_at c p ≡ some (n, k)
    → compile_from 0 (c ∷ p) ≡ some ns
    → GlobText ns s
    → (more : List Node) × (compile_from k p ≡ some more) × GlobText (n ∷ more) s
unfolding compile_from
compile_step c k p n ns s node e text = elim (Option-cases (compile_from k p)) [
  | inl stuck ↦ absurd (let f = rw (node, stuck) at e in ground arith)
  | inr (more, found) ↦
      let f = rw (node, found) at e in
      let same : ns ≡ n ∷ more = ground arith in (more, found, subst (λ x. GlobText x s) same text)
]

abbrev pub no_brace : ℕ → Bool
no_brace c = not (c == b'{')

-- The converse for the shorter patterns, from which it follows for a pattern.
abbrev Converse : ℕ → Type 0
Converse n =
    (p : List ℕ) (ns : List Node) (s : List ℕ)
    → length p ≤ n
    → all no_brace p ≡ true
    → compile_from 0 p ≡ some ns
    → GlobText ns s
    → Covers p s

module _ (n : ℕ) (shorter : Converse n) where
  from_ordinary :
      (c : ℕ) (p : List ℕ) (ns : List Node) (s : List ℕ)
      → is_ordinary c ≡ true
      → length p ≤ n
      → all no_brace p ≡ true
      → compile_from 0 (c ∷ p) ≡ some ns
      → GlobText ns s
      → Covers (c ∷ p) s
  from_ordinary c p ns s ordinary le braces e text =
      let (more, found, (a, b, same, (x, ea, hx), rest)) =
        compile_step c 0 p (literal c) ns s (node-itself c p ordinary) e text in
      let x_same : x ≡ c = (nat_eq.equals_iff x c).0 hx in
      let whole : s ≡ c ∷ b = same ∙ ap (λ (y : List ℕ). y ++ b) (ea ∙ ap (λ z. z ∷ []) x_same) in
      subst (Covers (c ∷ p)) (sym whole)
        (itself c p b ordinary (shorter p more b le braces found rest))

  from_one :
      (p : List ℕ) (ns : List Node) (s : List ℕ)
      → length p ≤ n
      → all no_brace p ≡ true
      → compile_from 0 (b'?' ∷ p) ≡ some ns
      → GlobText ns s
      → Covers (b'?' ∷ p) s
  from_one p ns s le braces e text =
      let (more, found, (a, b, same, (x, ea, plain), rest)) =
        compile_step b'?' 0 p one ns s (node-one p) e text in
      let whole : x ∷ b ≡ s = sym (same ∙ ap (λ (y : List ℕ). y ++ b) ea) in
      subst (Covers (b'?' ∷ p)) whole (any_one x p b plain (shorter p more b le braces found rest))

  from_star :
      (p : List ℕ) (ns : List Node) (s : List ℕ)
      → is_at p b'*' ≡ false
      → length p ≤ n
      → all no_brace p ≡ true
      → compile_from 0 (b'*' ∷ p) ≡ some ns
      → GlobText ns s
      → Covers (b'*' ∷ p) s
  from_star p ns s single le braces e text =
      let (more, found, (a, b, same, plain, rest)) =
        compile_step b'*' 0 p star ns s (node-star p single) e text in
      subst (Covers (b'*' ∷ p)) (sym same)
        (in_name a p b single plain (shorter p more b le braces found rest))

  from_globstar :
      (p : List ℕ) (ns : List Node) (s : List ℕ)
      → is_at p b'/' ≡ false
      → length p ≤ n
      → all no_brace p ≡ true
      → compile_from 0 (b'*' ∷ b'*' ∷ p) ≡ some ns
      → GlobText ns s
      → Covers (b'*' ∷ b'*' ∷ p) s
  from_globstar p ns s open_end le braces e text =
      let (more, found, (a, b, same, plain, rest)) =
        compile_step b'*' 1 (b'*' ∷ p) globstar ns s (node-globstar p open_end) e text in
      subst (Covers (b'*' ∷ b'*' ∷ p)) (sym same) (
        anywhere a p b open_end plain
          (shorter p more b le braces (sym (compile_skip 0 b'*' p) ∙ found) rest))

  directory_text :
      (p s a b : List ℕ)
      → s ≡ a ++ b
      → NodeText globstar_dir a
      → Covers p b
      → Covers (b'*' ∷ b'*' ∷ b'/' ∷ p) s
  directory_text p s a b same (inl ea) rest =
      subst (Covers (b'*' ∷ b'*' ∷ b'/' ∷ p)) (sym (same ∙ ap (λ (y : List ℕ). y ++ b) ea))
        (at_root p b rest)
  directory_text p s a b same (inr (u, v, ea, plain, (x, ev, slash))) rest =
      let x_same : x ≡ b'/' = (nat_eq.equals_iff x b'/').0 slash in
      let whole : s ≡ u ++ b'/' ∷ b =
        same
        ∙ ap (λ (y : List ℕ). y ++ b) (ea ∙ ap (λ y. u ++ y) (ev ∙ ap (λ z. z ∷ []) x_same))
        ∙ append_assoc u (b'/' ∷ []) b in
      subst (Covers (b'*' ∷ b'*' ∷ b'/' ∷ p)) (sym whole) (below u p b plain rest)

  from_globstar_dir :
      (p : List ℕ) (ns : List Node) (s : List ℕ)
      → length p ≤ n
      → all no_brace p ≡ true
      → compile_from 0 (b'*' ∷ b'*' ∷ b'/' ∷ p) ≡ some ns
      → GlobText ns s
      → Covers (b'*' ∷ b'*' ∷ b'/' ∷ p) s
  from_globstar_dir p ns s le braces e text =
      let (more, found, (a, b, same, node, rest)) =
        compile_step b'*' 2 (b'*' ∷ b'/' ∷ p) globstar_dir ns s (node-globstar_dir p) e text in
      let found_after = sym (compile_skip 1 b'*' (b'/' ∷ p) ∙ compile_skip 0 b'/' p) ∙ found in
      directory_text p s a b same node (shorter p more b le braces found_after rest)

  from_two_stars :
      (p : List ℕ) (ns : List Node) (s : List ℕ)
      → length p ≤ n
      → all no_brace p ≡ true
      → compile_from 0 (b'*' ∷ b'*' ∷ p) ≡ some ns
      → GlobText ns s
      → Covers (b'*' ∷ b'*' ∷ p) s
  from_two_stars [] ns s le braces e text = from_globstar [] ns s refl le braces e text
  from_two_stars (d ∷ p) ns s le braces e text = elim (Bool-cases (d == b'/')) [
    | inr other ↦ from_globstar (d ∷ p) ns s other le braces e text
    | inl slash ↦
        let same : d ≡ b'/' = (nat_eq.equals_iff d b'/').0 slash in
        subst (λ x. Covers (b'*' ∷ b'*' ∷ x ∷ p) s) (sym same)
          (from_globstar_dir p ns s (omega arith) (ground arith)
            (subst (λ x. compile_from 0 (b'*' ∷ b'*' ∷ x ∷ p) ≡ some ns) same e) text)
  ]

  from_stars :
      (p : List ℕ) (ns : List Node) (s : List ℕ)
      → length p ≤ n
      → all no_brace p ≡ true
      → compile_from 0 (b'*' ∷ p) ≡ some ns
      → GlobText ns s
      → Covers (b'*' ∷ p) s
  from_stars [] ns s le braces e text = from_star [] ns s refl le braces e text
  from_stars (d ∷ p) ns s le braces e text = elim (Bool-cases (d == b'*')) [
    | inr other ↦ from_star (d ∷ p) ns s other le braces e text
    | inl again ↦
        let same : d ≡ b'*' = (nat_eq.equals_iff d b'*').0 again in
        subst (λ x. Covers (b'*' ∷ x ∷ p) s) (sym same)
          (from_two_stars p ns s (omega arith) (ground arith)
            (subst (λ x. compile_from 0 (b'*' ∷ x ∷ p) ≡ some ns) same e) text)
  ]

head_cases : (c : ℕ) → no_brace c ≡ true → (is_ordinary c ≡ true) ⊎ ((c ≡ b'?') ⊎ (c ≡ b'*'))
head_cases c h = ground arith

Compiled-Covers : (n : ℕ) → Converse n
Compiled-Covers n [] ns s le braces e text =
    let none_left : ns ≡ [] = (let f = sym compile_all ∙ e in ground arith) in
    let over : s ≡ [] = subst (λ x. GlobText x s) none_left text in
    subst (Covers []) (sym over) ends
Compiled-Covers zero (c ∷ p) ns s le braces e text = absurd (omega arith)
Compiled-Covers (suc n) (c ∷ p) ns s le braces e text =
    let le_rest : length p ≤ n = omega arith in
    let braces_rest : all no_brace p ≡ true = ground arith in
    elim (head_cases c (ground arith)) [
      | inl ordinary ↦
          from_ordinary n (Compiled-Covers n) c p ns s ordinary le_rest braces_rest e text
      | inr (inl same) ↦
          subst (λ x. Covers (x ∷ p) s) (sym same)
            (from_one n (Compiled-Covers n) p ns s le_rest braces_rest
              (subst (λ x. compile_from 0 (x ∷ p) ≡ some ns) same e) text)
      | inr (inr same) ↦
          subst (λ x. Covers (x ∷ p) s) (sym same)
            (from_stars n (Compiled-Covers n) p ns s le_rest braces_rest
              (subst (λ x. compile_from 0 (x ∷ p) ≡ some ns) same e) text)
    ]

accepted_nodes :
    (p s : List ℕ)
    → glob_test p s ≡ some true
    → (ns : List Node) × (compile_from 0 p ≡ some ns) × (match_nodes ns s ≡ true)
unfolding glob_test glob_to_reg_exp
accepted_nodes p s h = elim (Option-cases (compile_from 0 p)) [
  | inl stuck ↦ absurd (let f = rw stuck at h in ground arith)
  | inr (ns, found) ↦ (let f = rw found at h in (ns, found, ground arith))
]

-- A pattern without `{` accepts exactly the texts that it covers: an ordinary character covers
-- itself, `?` one character other than a slash, `*` any text without a slash, `**` any text without
-- a line terminator, and `**/` nothing or such a text with a slash behind it.
pub glob_test_iff :
    (p s : List ℕ) → all no_brace p ≡ true → (glob_test p s ≡ some true) ↔ Covers p s
unfolding glob_test glob_to_reg_exp
glob_test_iff p s h = (
  λ accepted.
      let (ns, found, matched) = accepted_nodes p s accepted in
      Compiled-Covers (length p) p ns s (omega arith) h found ((match_nodes_iff ns s).0 matched),
  λ covers.
      let (ns, found, text) = Covers-Compiled p s covers in
      rw (found, (match_nodes_iff ns s).1 text) refl,
)

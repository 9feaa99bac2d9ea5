-- ===== src/Policy/GlobMatch/Covers.antt =====
-- Which texts a pattern of src/policy/glob-match.ts without `{` accepts, read off the pattern itself.
use mathlib.Core.List.{append_assoc}
use folder_forge.Base.{
  ℕ, suc, ◌≡◌, refl, sym, ◌∙◌, inl, inr, true, false, not, some, List, [], ◌∷◌, ◌++◌, arith, nat_eq,
  all,
}
use folder_forge.Policy.GlobMatch.{
  Node, globstar_dir, globstar, star, one, literal, is_slash, is_line_end, is_at, node_at,
  compile_from,
}
use folder_forge.Policy.GlobMatch.Meaning.{GlobText}
use folder_forge.Policy.GlobMatch.Denied.{is_ordinary}

-- The pattern accepts the text.
pub data Covers : List ℕ → List ℕ → Type 0 where
  ends : Covers [] []
  itself : (c : ℕ) (p s : List ℕ) → is_ordinary c ≡ true → Covers p s → Covers (c ∷ p) (c ∷ s)
  any_one :
      (c : ℕ) (p s : List ℕ) → not (is_slash c) ≡ true → Covers p s → Covers (b'?' ∷ p) (c ∷ s)
  in_name :
      (a p s : List ℕ)
      → is_at p b'*' ≡ false
      → all (λ x. not (is_slash x)) a ≡ true
      → Covers p s
      → Covers (b'*' ∷ p) (a ++ s)
  anywhere :
      (a p s : List ℕ)
      → is_at p b'/' ≡ false
      → all (λ x. not (is_line_end x)) a ≡ true
      → Covers p s
      → Covers (b'*' ∷ b'*' ∷ p) (a ++ s)
  at_root : (p s : List ℕ) → Covers p s → Covers (b'*' ∷ b'*' ∷ b'/' ∷ p) s
  below :
      (a p s : List ℕ)
      → all (λ x. not (is_line_end x)) a ≡ true
      → Covers p s
      → Covers (b'*' ∷ b'*' ∷ b'/' ∷ p) (a ++ b'/' ∷ s)

pub node-itself : (c : ℕ) (p : List ℕ) → is_ordinary c ≡ true → node_at c p ≡ some (literal c, 0)
unfolding node_at
node-itself c p h = ground arith

pub node-one : (p : List ℕ) → node_at b'?' p ≡ some (one, 0)
unfolding node_at
node-one p = refl

pub node-star : (p : List ℕ) → is_at p b'*' ≡ false → node_at b'*' p ≡ some (star, 0)
unfolding node_at
node-star p h = rw h refl

pub node-globstar :
    (p : List ℕ) → is_at p b'/' ≡ false → node_at b'*' (b'*' ∷ p) ≡ some (globstar, 1)
unfolding node_at
node-globstar p h = rw h refl

pub node-globstar_dir : (p : List ℕ) → node_at b'*' (b'*' ∷ b'/' ∷ p) ≡ some (globstar_dir, 2)
unfolding node_at
node-globstar_dir p = refl

compile_to :
    (c k : ℕ) (p : List ℕ) (n : Node) (ns : List Node)
    → node_at c p ≡ some (n, k)
    → compile_from k p ≡ some ns
    → compile_from 0 (c ∷ p) ≡ some (n ∷ ns)
unfolding compile_from
compile_to c k p n ns node more = rw (node, more) refl

pub compile_skip : (k c : ℕ) (p : List ℕ) → compile_from (suc k) (c ∷ p) ≡ compile_from k p
unfolding compile_from
compile_skip k c p = refl

pub compile_all : compile_from 0 [] ≡ some []
unfolding compile_from
compile_all = refl

-- The pattern compiles to nodes of which the text is one.
abbrev Compiled : List ℕ → List ℕ → Type 0
Compiled p s = (ns : List Node) × (compile_from 0 p ≡ some ns) × GlobText ns s

pub Covers-Compiled : (p s : List ℕ) → Covers p s → Compiled p s
Covers-Compiled p s ends = ([], compile_all, refl)
Covers-Compiled p s (itself c q t ordinary rest) =
    let (ns, e, text) = Covers-Compiled q t rest in
    (
      literal c ∷ ns,
      compile_to c 0 q (literal c) ns (node-itself c q ordinary) e,
      (c ∷ [], t, refl, (c, refl, (nat_eq.equals_iff c c).1 refl), text),
    )
Covers-Compiled p s (any_one c q t plain rest) =
    let (ns, e, text) = Covers-Compiled q t rest in
    (one ∷ ns, compile_to b'?' 0 q one ns (node-one q) e, (c ∷ [], t, refl, (c, refl, plain), text))
Covers-Compiled p s (in_name a q t single plain rest) =
    let (ns, e, text) = Covers-Compiled q t rest in
    (star ∷ ns, compile_to b'*' 0 q star ns (node-star q single) e, (a, t, refl, plain, text))
Covers-Compiled p s (anywhere a q t open_end plain rest) =
    let (ns, e, text) = Covers-Compiled q t rest in
    (
      globstar ∷ ns,
      compile_to b'*' 1 (b'*' ∷ q) globstar ns (node-globstar q open_end)
          (compile_skip 0 b'*' q ∙ e),
      (a, t, refl, plain, text),
    )
Covers-Compiled p s (at_root q t rest) =
    let (ns, e, text) = Covers-Compiled q t rest in
    (
      globstar_dir ∷ ns,
      compile_to b'*' 2 (b'*' ∷ b'/' ∷ q) globstar_dir ns (node-globstar_dir q)
          (compile_skip 1 b'*' (b'/' ∷ q) ∙ compile_skip 0 b'/' q ∙ e),
      ([], t, refl, inl refl, text),
    )
Covers-Compiled p s (below a q t plain rest) =
    let (ns, e, text) = Covers-Compiled q t rest in
    (
      globstar_dir ∷ ns,
      compile_to b'*' 2 (b'*' ∷ b'/' ∷ q) globstar_dir ns (node-globstar_dir q)
          (compile_skip 1 b'*' (b'/' ∷ q) ∙ compile_skip 0 b'/' q ∙ e),
      (
        a ++ b'/' ∷ [],
        t,
        sym (append_assoc a (b'/' ∷ []) t),
        inr (a, b'/' ∷ [], refl, plain, (b'/', refl, refl)),
        text,
      ),
    )

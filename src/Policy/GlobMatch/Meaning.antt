-- ===== src/Policy/GlobMatch/Meaning.antt =====
-- The texts that a compiled pattern stands for, stated without the matcher's continuations.
use folder_forge.Base.{
  ℕ, ◌≡◌, refl, sym, ap, ◌∙◌, ◌⊎◌, inl, inr, ◌↔◌, Bool, true, false, not, ◌||◌, List, [], ◌∷◌, ◌++◌,
  arith, ◌==◌, nat_eq, any, all,
}
use mathlib.Core.List.{append_assoc}
use folder_forge.Policy.GlobMatch.{
  Atom, once, repeated, optional, Node, globstar_dir, globstar, star, one, alt, literal, is_slash,
  is_line_end, many, single, match_atoms, match_node, is_empty, match_nodes,
}

-- A text of one part and then of another.
abbrev pub Joined : (List ℕ → Type 0) → (List ℕ → Type 0) → List ℕ → Type 0
Joined P Q s = (a : List ℕ) × (b : List ℕ) × (s ≡ a ++ b) × P a × Q b

abbrev pub Single : (ℕ → Bool) → List ℕ → Type 0
Single p t = (c : ℕ) × (t ≡ c ∷ []) × (p c ≡ true)

abbrev pub Every : (ℕ → Bool) → List ℕ → Type 0
Every p t = all p t ≡ true

abbrev pub AtomText : Atom → List ℕ → Type 0
AtomText (once c) t = Single (λ x. x == c) t
AtomText (repeated c) t = Every (λ x. x == c) t
AtomText (optional c) t = (t ≡ []) ⊎ Single (λ x. x == c) t

abbrev pub AtomsText : List Atom → List ℕ → Type 0
AtomsText [] t = t ≡ []
AtomsText (a ∷ more) t = Joined (AtomText a) (AtomsText more) t

abbrev pub OneOf : List (List Atom) → List ℕ → Type 0
OneOf [] t = ⊥
OneOf (p ∷ ps) t = AtomsText p t ⊎ OneOf ps t

-- What each node stands for. `.` in `**` stops at a line terminator.
abbrev pub NodeText : Node → List ℕ → Type 0
NodeText globstar_dir t = (t ≡ []) ⊎ Joined (Every (λ x. not (is_line_end x))) (Single is_slash) t
NodeText globstar t = Every (λ x. not (is_line_end x)) t
NodeText star t = Every (λ x. not (is_slash x)) t
NodeText one t = Single (λ x. not (is_slash x)) t
NodeText (alt parts) t = OneOf parts t
NodeText (literal c) t = Single (λ x. x == c) t

abbrev pub GlobText : List Node → List ℕ → Type 0
GlobText [] t = t ≡ []
GlobText (n ∷ ns) t = Joined (NodeText n) (GlobText ns) t

-- What is left for the continuation.
abbrev Passes : (List ℕ → Bool) → List ℕ → Type 0
Passes k s = k s ≡ true

or_cases : (a b : Bool) → (a || b) ≡ true → (a ≡ true) ⊎ (b ≡ true)
or_cases true b h = inl refl
or_cases false b h = inr h

module _ (p : ℕ → Bool) (k : List ℕ → Bool) where
  many_sound : (s : List ℕ) → many p k s ≡ true → Joined (Every p) (Passes k) s
  unfolding many
  many_sound [] h = ([], [], refl, refl, h)
  many_sound (x ∷ xs) h = elim (or_cases (k (x ∷ xs)) _ h) [
    | inl stop ↦ ([], x ∷ xs, refl, refl, stop)
    | inr go ↦
        let (a, b, e, every, rest) = many_sound xs (ground arith) in
        (x ∷ a, b, ap (λ (t : List ℕ). x ∷ t) e, ground arith, rest)
  ]

  many_complete : (a b : List ℕ) → Every p a → k b ≡ true → many p k (a ++ b) ≡ true
  unfolding many
  many_complete [] [] every h = h
  many_complete [] (y ∷ b) every h = rw h
  many_complete (x ∷ a) b every h = ground (arith, many_complete a b)

  single_sound : (s : List ℕ) → single p k s ≡ true → Joined (Single p) (Passes k) s
  unfolding single
  single_sound [] h = cc
  single_sound (x ∷ xs) h = (x ∷ [], xs, refl, (x, refl, ground arith), ground arith)

  single_complete : (a b : List ℕ) → Single p a → k b ≡ true → single p k (a ++ b) ≡ true
  unfolding single
  single_complete a b (c, e, h) r = rw e (ground arith)

-- A part whose continuation is the match of the next part.
regroup :
    (P Q : List ℕ → Type 0) (k : List ℕ → Bool) (s : List ℕ)
    → Joined P (Joined Q (Passes k)) s
    → Joined (Joined P Q) (Passes k) s
regroup P Q k s (a, w, e, pa, (b, c, e', qb, r)) = (
  a ++ b,
  c,
  e ∙ ap (λ (t : List ℕ). a ++ t) e' ∙ sym (append_assoc a b c),
  (a, b, refl, pa, qb),
  r,
)

map_rest :
    (P Q R : List ℕ → Type 0) (s : List ℕ)
    → ((t : List ℕ) → Q t → R t)
    → Joined P Q s
    → Joined P R s
map_rest P Q R s f (a, b, e, pa, qb) = (a, b, e, pa, f b qb)

or_left : (a b : Bool) → a ≡ true → (a || b) ≡ true
or_left a b h = rw h

or_right : (a b : Bool) → b ≡ true → (a || b) ≡ true
or_right true b h = refl
or_right false b h = h

module _ (more : List Atom) (k : List ℕ → Bool) where
  atom_sound :
      (a : Atom) (s : List ℕ)
      → match_atoms (a ∷ more) k s ≡ true
      → Joined (AtomText a) (Passes (match_atoms more k)) s
  unfolding match_atoms
  atom_sound (once c) s h = single_sound (λ x. x == c) (match_atoms more k) s h
  atom_sound (repeated c) s h = many_sound (λ x. x == c) (match_atoms more k) s h
  atom_sound (optional c) s h = elim (or_cases (match_atoms more k s) _ h) [
    | inl none_here ↦ ([], s, refl, inl refl, none_here)
    | inr here ↦
        let (a, b, e, one_char, r) = single_sound (λ x. x == c) (match_atoms more k) s here in
        (a, b, e, inr one_char, r)
  ]

  atom_complete :
      (a : Atom) (t b : List ℕ)
      → AtomText a t
      → match_atoms more k b ≡ true
      → match_atoms (a ∷ more) k (t ++ b) ≡ true
  unfolding match_atoms
  atom_complete (once c) t b m r = single_complete (λ x. x == c) (match_atoms more k) t b m r
  atom_complete (repeated c) t b m r = many_complete (λ x. x == c) (match_atoms more k) t b m r
  atom_complete (optional c) t b (inl e) r = or_left (match_atoms more k (t ++ b)) _ (rw e r)
  atom_complete (optional c) t b (inr m) r =
      or_right _ _ (single_complete (λ x. x == c) (match_atoms more k) t b m r)

match_atoms_sound :
    (p : List Atom) (k : List ℕ → Bool) (s : List ℕ)
    → match_atoms p k s ≡ true
    → Joined (AtomsText p) (Passes k) s
match_atoms_sound [] k s h = ([], s, refl, refl, unfold match_atoms in h)
match_atoms_sound (a ∷ more) k s h =
    regroup _ _ k s (map_rest _ _ _ s (match_atoms_sound more k) (atom_sound more k a s h))

match_atoms_complete :
    (p : List Atom) (k : List ℕ → Bool) (t b : List ℕ)
    → AtomsText p t
    → k b ≡ true
    → match_atoms p k (t ++ b) ≡ true
match_atoms_complete [] k t b e r = unfold match_atoms in rw e r
match_atoms_complete (a ∷ more) k t b (u, v, e, mu, mv) r =
    rw (e, append_assoc u v b)
      (atom_complete more k a u (v ++ b) mu (match_atoms_complete more k v b mv r))

module _ (k : List ℕ → Bool) where
  parts_sound :
      (ps : List (List Atom)) (s : List ℕ)
      → any (λ p. match_atoms p k s) ps ≡ true
      → Joined (OneOf ps) (Passes k) s
  parts_sound [] s h = cc
  parts_sound (p ∷ ps) s h = elim (or_cases (match_atoms p k s) _ h) [
    | inl here ↦ let (a, b, e, m, r) = match_atoms_sound p k s here in (a, b, e, inl m, r)
    | inr later ↦ let (a, b, e, m, r) = parts_sound ps s later in (a, b, e, inr m, r)
  ]

  parts_complete :
      (ps : List (List Atom)) (t b : List ℕ)
      → OneOf ps t
      → k b ≡ true
      → any (λ p. match_atoms p k (t ++ b)) ps ≡ true
  parts_complete [] t b m r = absurd m
  parts_complete (p ∷ ps) t b (inl m) r = or_left _ _ (match_atoms_complete p k t b m r)
  parts_complete (p ∷ ps) t b (inr m) r = or_right _ _ (parts_complete ps t b m r)

  node_sound : (n : Node) (s : List ℕ) → match_node n k s ≡ true → Joined (NodeText n) (Passes k) s
  unfolding match_node
  node_sound globstar_dir s h = elim (or_cases (k s) _ h) [
    | inl here ↦ ([], s, refl, inl refl, here)
    | inr later ↦
        let (a, b, e, m, r) = regroup (Every (λ x. not (is_line_end x))) (Single is_slash) k s (
          map_rest _ _ _ s (single_sound is_slash k)
            (many_sound (λ x. not (is_line_end x)) (single is_slash k) s later)) in
        (a, b, e, inr m, r)
  ]
  node_sound globstar s h = many_sound (λ x. not (is_line_end x)) k s h
  node_sound star s h = many_sound (λ x. not (is_slash x)) k s h
  node_sound one s h = single_sound (λ x. not (is_slash x)) k s h
  node_sound (alt ps) s h = parts_sound ps s h
  node_sound (literal c) s h = single_sound (λ x. x == c) k s h

  node_complete :
      (n : Node) (t b : List ℕ) → NodeText n t → k b ≡ true → match_node n k (t ++ b) ≡ true
  unfolding match_node
  node_complete globstar_dir t b (inl e) r = or_left (k (t ++ b)) _ (rw e r)
  node_complete globstar_dir t b (inr (u, v, e, mu, mv)) r =
      or_right (k (t ++ b)) (many (λ x. not (is_line_end x)) (single is_slash k) (t ++ b)) (
        rw (e, append_assoc u v b)
          (many_complete (λ x. not (is_line_end x)) (single is_slash k) u (v ++ b) mu
            (single_complete is_slash k v b mv r)))
  node_complete globstar t b m r = many_complete (λ x. not (is_line_end x)) k t b m r
  node_complete star t b m r = many_complete (λ x. not (is_slash x)) k t b m r
  node_complete one t b m r = single_complete (λ x. not (is_slash x)) k t b m r
  node_complete (alt ps) t b m r = parts_complete ps t b m r
  node_complete (literal c) t b m r = single_complete (λ x. x == c) k t b m r

is_empty_lem : (s : List ℕ) → is_empty s ≡ true → s ≡ []
is_empty_lem [] h = refl
is_empty_lem (x ∷ xs) h = cc

match_nodes_sound : (ns : List Node) (s : List ℕ) → match_nodes ns s ≡ true → GlobText ns s
unfolding match_nodes
match_nodes_sound [] s h = is_empty_lem s h
match_nodes_sound (n ∷ ns) s h =
    map_rest _ _ _ s (match_nodes_sound ns) (node_sound (match_nodes ns) n s h)

match_nodes_complete : (ns : List Node) (s : List ℕ) → GlobText ns s → match_nodes ns s ≡ true
unfolding match_nodes
match_nodes_complete [] s e = rw e
match_nodes_complete (n ∷ ns) s (a, b, e, m, r) =
    rw e (node_complete (match_nodes ns) n a b m (match_nodes_complete ns b r))

-- A compiled pattern accepts exactly the texts that are the concatenation of one text for each of
-- its nodes.
pub match_nodes_iff : (ns : List Node) (s : List ℕ) → (match_nodes ns s ≡ true) ↔ GlobText ns s
match_nodes_iff ns s = (match_nodes_sound ns s, match_nodes_complete ns s)

-- ===== src/Policy/GlobMatch/Denied.antt =====
-- Patterns `**/name`, by which the policy denies a file in any directory.
use mathlib.Core.List.{append_cancel_right, append_assoc}
use folder_forge.Base.{
  ℕ, ◌≡◌, refl, sym, ap, inl, inr, Bool, true, false, not, ◌||◌, some, List, [], ◌∷◌, ◌++◌, map,
  arith, ◌==◌, nat_eq, all, length, length-append, ◌∙◌,
}
use folder_forge.Policy.GlobMatch.{
  globstar_dir, literal, is_line_end, glob_to_reg_exp, compile_from, glob_test,
}
use folder_forge.Policy.GlobMatch.Meaning.{GlobText, match_nodes_iff}

-- A character that stands for itself in a pattern.
abbrev pub is_ordinary : ℕ → Bool
is_ordinary c = not (c == b'*' || c == b'?' || c == b'{')

compile-ordinary :
    (name : List ℕ) → all is_ordinary name ≡ true → compile_from 0 name ≡ some (map literal name)
unfolding compile_from
compile-ordinary [] h = refl
compile-ordinary (c ∷ name) h = ground (arith, compile-ordinary name)

glob_to_reg_exp-any_dir :
    (name : List ℕ)
    → all is_ordinary name ≡ true
    → glob_to_reg_exp (b'*' ∷ b'*' ∷ b'/' ∷ name) ≡ some (globstar_dir ∷ map literal name)
unfolding glob_to_reg_exp
glob_to_reg_exp-any_dir name h = rw (compile-ordinary name h)

literals_text : (name t : List ℕ) → GlobText (map literal name) t → t ≡ name
literals_text [] t e = e
literals_text (c ∷ name) t (a, b, e, (x, ea, hx), rest) =
    let tail_same : b ≡ name = literals_text name b rest in
    let head_same : x ≡ c = (nat_eq.equals_iff x c).0 hx in rw (e, ea, head_same, tail_same)

text_literals : (name : List ℕ) → GlobText (map literal name) name
text_literals [] = refl
text_literals (c ∷ name) =
    (c ∷ [], name, refl, (c, refl, (nat_eq.equals_iff c c).1 refl), text_literals name)

no_shorter : (d name : List ℕ) (x : ℕ) → d ++ x ∷ name ≡ name → ⊥
no_shorter d name x e =
    let longer : length (d ++ x ∷ name) ≡ length name = ap length e in
    omega (arith, length-append d (x ∷ name))

-- In a directory: the name with any directory `d` before it.
module _ (d name : List ℕ) where
  abbrev in_dir : List ℕ
  in_dir = d ++ b'/' ∷ name

  dir_sound :
      GlobText (globstar_dir ∷ map literal name) in_dir → all (λ x. not (is_line_end x)) d ≡ true
  dir_sound (a, b, e, inl ea, rest) =
      absurd
        (no_shorter d name b'/' (e ∙ ap (λ (t : List ℕ). t ++ b) ea ∙ literals_text name b rest))
  dir_sound (a, b, e, inr (u, v, ea, every, (x, ev, slash)), rest) =
      let b_same : b ≡ name = literals_text name b rest in
      let x_same : x ≡ b'/' = (nat_eq.equals_iff x b'/').0 slash in
      let whole : (d ++ b'/' ∷ []) ++ name ≡ (u ++ b'/' ∷ []) ++ name =
        append_assoc d (b'/' ∷ []) name ∙ e ∙ rw (ea, ev, x_same, b_same) in
      let same : d ≡ u = append_cancel_right d u (b'/' ∷ []) (append_cancel_right _ _ name whole) in
      rw same every

  dir_complete :
      all (λ x. not (is_line_end x)) d ≡ true → GlobText (globstar_dir ∷ map literal name) in_dir
  dir_complete h = (
    d ++ b'/' ∷ [],
    name,
    sym (append_assoc d (b'/' ∷ []) name),
    inr (d, b'/' ∷ [], refl, h, (b'/', refl, refl)),
    text_literals name,
  )

bool_eq : (a b : Bool) → (a ≡ true → b ≡ true) → (b ≡ true → a ≡ true) → a ≡ b
bool_eq true b f g = sym (f refl)
bool_eq false true f g = g refl
bool_eq false false f g = refl

-- A pattern `**/name`, where `name` has no `*`, `?` and `{`, accepts `d/name` exactly when the
-- directory `d` holds no line terminator (newline, carriage return, U+2028, U+2029).
pub glob_test-any_dir :
    (d name : List ℕ)
    → all is_ordinary name ≡ true
    → glob_test (b'*' ∷ b'*' ∷ b'/' ∷ name) (d ++ b'/' ∷ name)
      ≡ some (all (λ x. not (is_line_end x)) d)
unfolding glob_test
glob_test-any_dir d name h = rw (glob_to_reg_exp-any_dir name h) (
    ap some (
      bool_eq _ _
        (λ m. dir_sound d name ((match_nodes_iff (globstar_dir ∷ map literal name) _).0 m))
        (λ e. (match_nodes_iff (globstar_dir ∷ map literal name) _).1 (dir_complete d name e))))

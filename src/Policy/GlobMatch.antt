-- ===== src/Policy/GlobMatch.antt =====
-- src/policy/glob-match.ts: the glob patterns of the path policy and of the policy files. A pattern
-- is translated to a regular expression; here the expression is a list of nodes, one for each text
-- that the source appends, with the meaning that an ECMAScript `RegExp` without flags gives it.
-- Texts are UTF-16 code units. The memo table of compiled patterns changes no result.
pub mod Meaning
pub mod Denied
pub mod Covers
pub mod Accepted
use mathlib.Core.List.{tail}
use folder_forge.Base.Options.{◌>>=◌}
use folder_forge.Base.{
  ℕ, zero, suc, ◌+◌, Bool, true, false, not, ◌&&◌, ◌||◌, Option, none, some, List, [], ◌∷◌, ◌++◌,
  map, if◌then◌else◌, ◌==◌, nat_eq, any, length, String, utf16,
}

-- A piece of a `{…}` alternative: a character, or one that the quantifier behind it repeats or
-- makes optional, since `escapeLiteral` leaves `*` and `?` as they are.
pub data Atom : Type 0 where
  once : ℕ → Atom
  repeated : ℕ → Atom
  optional : ℕ → Atom

pub data Node : Type 0 where
  -- `(?:.*/)?`, `.*`, `[^/]*`, `[^/]`, `(?:a|b)`, and an escaped character
  globstar_dir globstar star one : Node
  alt : List (List Atom) → Node
  literal : ℕ → Node

-- `glob.indexOf(c)`, as the text before and whether it was found
unfoldable pub before : ℕ → List ℕ → Option (List ℕ)
before c [] = none
before c (x ∷ xs) =
    let rest = before c xs in
    if x == c then some [] else elim rest [ none ↦ none | some ys ↦ some (x ∷ ys) ]

-- `text.split(c)`, with the part that is being read
unfoldable pub split : ℕ → List ℕ → List ℕ → List (List ℕ)
split c part [] = part ∷ []
split c part (x ∷ xs) =
    let closed = split c [] xs in
    let longer = split c (part ++ x ∷ []) xs in if x == c then part ∷ closed else longer

abbrev is_quantifier : ℕ → Bool
is_quantifier c = c == b'*' || c == b'?'

abbrev quantified : ℕ → ℕ → Atom
quantified c q = if q == b'*' then repeated c else optional c

-- The text of one alternative as a regular expression: a `?` behind a quantifier makes it lazy,
-- which changes no full match; any other quantifier with nothing to repeat is a `SyntaxError`.
unfoldable pub atoms : List ℕ → Option (List Atom)
atoms [] = some []
atoms (c ∷ []) = if is_quantifier c then none else some (once c ∷ [])
atoms (c ∷ q ∷ []) =
    if is_quantifier c
    then none
    else if is_quantifier q
    then some (quantified c q ∷ [])
    else some (once c ∷ once q ∷ [])
atoms (c ∷ q ∷ z ∷ rest) =
    let plain = atoms (q ∷ z ∷ rest) in
    let lazy = atoms rest in
    let next = atoms (z ∷ rest) in
    if is_quantifier c
    then none
    else if is_quantifier q
    then (do more ← if z == b'?' then lazy else next; some (quantified c q ∷ more))
    else (do more ← plain; some (once c ∷ more))

unfoldable pub alternatives : List (List ℕ) → Option (List (List Atom))
unfolding atoms
alternatives [] = some []
alternatives (p ∷ ps) = do first ← atoms p; more ← alternatives ps; some (first ∷ more)

abbrev is_at : List ℕ → ℕ → Bool
is_at [] c = false
is_at (x ∷ xs) c = x == c

-- One round of the loop: the node and how many characters behind `c` it takes too.
unfoldable pub node_at : ℕ → List ℕ → Option (Node × ℕ)
unfolding before split alternatives
node_at c rest =
    if c == b'*'
    then (if is_at rest b'*'
        then (if is_at (tail rest) b'/' then some (globstar_dir, 2) else some (globstar, 1))
        else some (star, 0))
    else if c == b'?'
    then some (one, 0)
    else if c == b'{'
    then elim (before b'}' rest) [
      | none ↦ some (literal c, 0)
      | some inner ↦ do
        parts ← alternatives (split b',' [] inner)
        some (alt parts, suc (length inner))
    ]
    else some (literal c, 0)

-- The loop over the pattern; `skip` characters are already taken. `none` is a `SyntaxError`.
pub compile_from : ℕ → List ℕ → Option (List Node)
unfolding node_at
compile_from skip [] = some []
compile_from (suc skip) (c ∷ rest) = compile_from skip rest
compile_from zero (c ∷ rest) = do
  (node, skip) ← node_at c rest
  more ← compile_from skip rest
  some (node ∷ more)

unfoldable pub glob_to_reg_exp : List ℕ → Option (List Node)
unfolding compile_from
glob_to_reg_exp glob = compile_from 0 glob

abbrev pub is_slash : ℕ → Bool
is_slash c = c == b'/'

-- What `.` does not match.
abbrev pub is_line_end : ℕ → Bool
is_line_end c = c == 10 || c == 13 || c == 0x2028 || c == 0x2029

-- `p*`, then `k`
unfoldable pub many : (ℕ → Bool) → (List ℕ → Bool) → List ℕ → Bool
many p k [] = k []
many p k (x ∷ xs) = k (x ∷ xs) || (p x && many p k xs)

-- one character with `p`, then `k`
unfoldable pub single : (ℕ → Bool) → (List ℕ → Bool) → List ℕ → Bool
single p k [] = false
single p k (x ∷ xs) = p x && k xs

unfoldable pub match_atoms : List Atom → (List ℕ → Bool) → List ℕ → Bool
unfolding many single
match_atoms [] k s = k s
match_atoms (once c ∷ more) k s = single (λ x. x == c) (match_atoms more k) s
match_atoms (repeated c ∷ more) k s = many (λ x. x == c) (match_atoms more k) s
match_atoms (optional c ∷ more) k s =
    match_atoms more k s || single (λ x. x == c) (match_atoms more k) s

unfoldable pub match_node : Node → (List ℕ → Bool) → List ℕ → Bool
unfolding match_atoms
match_node globstar_dir k s = k s || many (λ x. not (is_line_end x)) (single is_slash k) s
match_node globstar k s = many (λ x. not (is_line_end x)) k s
match_node star k s = many (λ x. not (is_slash x)) k s
match_node one k s = single (λ x. not (is_slash x)) k s
match_node (alt parts) k s = any (λ p. match_atoms p k s) parts
match_node (literal c) k s = single (λ x. x == c) k s

abbrev pub is_empty : List ℕ → Bool
is_empty [] = true
is_empty (x ∷ xs) = false

-- `^…$`
unfoldable pub match_nodes : List Node → List ℕ → Bool
unfolding match_node
match_nodes [] s = is_empty s
match_nodes (n ∷ ns) s = match_node n (match_nodes ns) s

-- `re.test(value)`; `none` is the exception of `new RegExp`.
unfoldable pub glob_test : List ℕ → List ℕ → Option Bool
unfolding glob_to_reg_exp match_nodes
glob_test pattern value = do re ← glob_to_reg_exp pattern; some (match_nodes re value)

unfoldable pub picomatch_lite : String → String → Option Bool
unfolding utf16 glob_test
picomatch_lite pattern value = glob_test (utf16 pattern) (utf16 value)

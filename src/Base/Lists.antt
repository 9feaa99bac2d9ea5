-- ===== src/Base/Lists.antt =====
-- Arrays: `length`, `filter`, `some`, `every` and `find`, over the native numbers.
use Prim.Native.Nat.{ℕ, zero, suc, ◌+◌}
use mathlib.Core.Path.{◌≡◌, refl}
use mathlib.Core.Bool.{Bool, true, false, ◌&&◌, ◌||◌}
use mathlib.Core.Option.{Option, none, some}
use mathlib.Core.List.{List, [], ◌∷◌, ◌++◌}
use native.Mathlib.Omega.{arith}
use folder_forge.Base.Tests.{if◌then◌else◌}

module _ {ℓ} {A : Type ℓ} where
  abbrev pub length : List A → ℕ
  length [] = 0
  length (x ∷ xs) = suc (length xs)

  abbrev pub head? : List A → Option A
  head? [] = none
  head? (x ∷ xs) = some x

  abbrev pub filter : (A → Bool) → List A → List A
  filter p [] = []
  filter p (x ∷ xs) = let rest = filter p xs in if p x then x ∷ rest else rest

  abbrev pub take : ℕ → List A → List A
  take zero xs = []
  take (suc n) [] = []
  take (suc n) (x ∷ xs) = x ∷ take n xs

  -- how many elements pass
  abbrev pub count : (A → Bool) → List A → ℕ
  count p [] = 0
  count p (x ∷ xs) = if p x then suc (count p xs) else count p xs

  abbrev pub any : (A → Bool) → List A → Bool
  any p [] = false
  any p (x ∷ xs) = p x || any p xs

  abbrev pub all : (A → Bool) → List A → Bool
  all p [] = true
  all p (x ∷ xs) = p x && all p xs

  abbrev pub find : (A → Bool) → List A → Option A
  find p [] = none
  find p (x ∷ xs) = if p x then some x else find p xs

  pub length-append : (xs ys : List A) → length (xs ++ ys) ≡ length xs + length ys
  length-append [] ys = omega arith
  length-append (x ∷ xs) ys = omega (arith, length-append xs ys)

  pub length-filter : (p : A → Bool) (xs : List A) → length (filter p xs) ≡ count p xs
  length-filter p [] = refl
  length-filter p (x ∷ xs) = ground (arith, length-filter p xs)

  pub count-append : (p : A → Bool) (xs ys : List A) → count p (xs ++ ys) ≡ count p xs + count p ys
  count-append p [] ys = omega arith
  count-append p (x ∷ xs) ys = ground (arith, count-append p xs ys)

module _ {ℓ κ} {A : Type ℓ} (P : A → Type κ) where
  -- every element has `P`
  abbrev pub All : List A → Type κ
  All [] = Unit
  All (x ∷ xs) = P x × All xs

  pub All-append : (xs ys : List A) → All xs → All ys → All (xs ++ ys)
  All-append [] ys hx hy = hy
  All-append (x ∷ xs) ys hx hy = (hx.0, All-append xs ys hx.1 hy)

  pub All-filter : (p : A → Bool) (xs : List A) → All xs → All (filter p xs)
  All-filter p [] h = h
  All-filter p (x ∷ xs) h = ground (arith, All-filter p xs h.1)

  pub find_All : (p : A → Bool) (xs : List A) {a : A} → All xs → find p xs ≡ some a → P a
  find_All p [] h e = cc
  find_All p (x ∷ xs) {a} h e = ground (arith, find_All p xs {a = a} h.1)

pub find_passes {ℓ} :
    {A : Type ℓ} (p : A → Bool) (xs : List A) {a : A} → find p xs ≡ some a → p a ≡ true
find_passes p [] e = cc
find_passes p (x ∷ xs) {a} e = ground (arith, find_passes p xs {a = a})

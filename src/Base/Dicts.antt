-- ===== src/Base/Dicts.antt =====
-- JavaScript's `Map`: an association list in the order of insertion, each key once.
use mathlib.Core.Path.{◌≡◌, refl}
use mathlib.Core.Bool.{true}
use mathlib.Core.Option.{Option, none, some}
use mathlib.Core.List.{List, [], ◌∷◌}
use native.Mathlib.Omega.{arith}
use folder_forge.Base.Tests.{Equality, ◌==◌, if◌then◌else◌}

module _ {ℓ κ} {K : Type ℓ} {V : Type κ} ⦃e : Equality K⦄ where
  -- `map.get(wanted)`
  unfoldable pub lookup : (wanted : K) (dict : List (K × V)) → Option V
  lookup wanted [] = none
  lookup wanted ((key, value) ∷ dict) = if key == wanted then some value else lookup wanted dict

  -- `map.set(key, value)`: in place if the key is there, at the end if not
  unfoldable pub insert : (key : K) (value : V) (dict : List (K × V)) → List (K × V)
  insert key value [] = (key, value) ∷ []
  insert key value ((other, old) ∷ dict) =
      let rest = insert key value dict in
      if other == key then (other, value) ∷ dict else (other, old) ∷ rest

  -- `map.delete(key)`
  unfoldable pub erase : (key : K) (dict : List (K × V)) → List (K × V)
  erase key [] = []
  erase key ((other, old) ∷ dict) =
      let rest = erase key dict in if other == key then rest else (other, old) ∷ rest

  pub lookup-insert :
      (key wanted : K) (value : V) (dict : List (K × V))
      → lookup wanted (insert key value dict)
        ≡ (if key == wanted then some value else lookup wanted dict)
  unfolding insert lookup
  lookup-insert key wanted value [] = refl
  lookup-insert key wanted value ((other, old) ∷ dict) = ground (
    lookup-insert key wanted value dict,
    e.equals_iff other wanted,
    e.equals_iff other key,
    e.equals_iff key wanted,
    arith,
  )

  pub lookup-erase :
      (key wanted : K) (dict : List (K × V))
      → lookup wanted (erase key dict) ≡ (if key == wanted then none else lookup wanted dict)
  unfolding erase lookup
  lookup-erase key wanted [] = ground arith
  lookup-erase key wanted ((other, old) ∷ dict) = ground (
    lookup-erase key wanted dict,
    e.equals_iff other wanted,
    e.equals_iff other key,
    e.equals_iff key wanted,
    arith,
  )

pub beq_refl {ℓ} : {K : Type ℓ} ⦃e : Equality K⦄ (k : K) → (k == k) ≡ true
beq_refl ⦃e⦄ k = (e.equals_iff k k).1 refl

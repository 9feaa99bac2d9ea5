-- ===== src/Base/Keys.antt =====
-- Maps in which each key stands once, and the entries of such maps.
use mathlib.Core.Path.{◌≡◌}
use mathlib.Core.Bool.{Bool, true, false}
use mathlib.Core.Option.{some}
use mathlib.Core.List.{List, [], ◌∷◌, map}
use Prim.Native.Nat.{suc, ◌+◌, ◌≤◌}
use native.Mathlib.Omega.{arith}
use folder_forge.Base.Tests.{Equality, ◌==◌, if◌then◌else◌}
use folder_forge.Base.Lists.{count, All}
use folder_forge.Base.Dicts.{lookup, insert, beq_refl}

module _ {ℓ κ} {K : Type ℓ} {V : Type κ} ⦃e : Equality K⦄ where
  -- `k` is not a key.
  abbrev pub Fresh : K → List (K × V) → Type 0
  Fresh k [] = Unit
  Fresh k (b ∷ m) = ((b.0 == k) ≡ false) × Fresh k m

  abbrev pub Distinct : List (K × V) → Type 0
  Distinct [] = Unit
  Distinct (b ∷ m) = Fresh b.0 m × Distinct m

  insert-Fresh :
      (j k : K) (v : V) (m : List (K × V)) → (k == j) ≡ false → Fresh j m → Fresh j (insert k v m)
  unfolding insert
  insert-Fresh j k v [] ne f = (ne, tt)
  insert-Fresh j k v ((i, w) ∷ m) ne f =
      ground (arith, e.equals_iff i k, insert-Fresh j k v m ne f.1)

  pub insert-Distinct : (k : K) (v : V) (m : List (K × V)) → Distinct m → Distinct (insert k v m)
  unfolding insert
  insert-Distinct k v [] d = (tt, tt)
  insert-Distinct k v ((i, w) ∷ m) d =
      ground
        (arith, e.equals_iff i k, e.equals_iff k i, insert-Distinct k v m d.1, insert-Fresh i k v m)

  -- Every entry is the one that its key finds.
  lookup_further :
      (j : K) (w : V) (l m : List (K × V))
      → Fresh j l
      → All (λ b. lookup b.0 m ≡ some b.1) l
      → All (λ b. lookup b.0 ((j, w) ∷ m) ≡ some b.1) l
  unfolding lookup
  lookup_further j w [] m f h = tt
  lookup_further j w (b ∷ l) m f h =
      (ground (arith, h.0, e.equals_iff b.0 j, e.equals_iff j b.0), lookup_further j w l m f.1 h.1)

  pub Distinct-lookup : (m : List (K × V)) → Distinct m → All (λ b. lookup b.0 m ≡ some b.1) m
  Distinct-lookup [] d = tt
  Distinct-lookup ((j, w) ∷ m) d =
      (unfold lookup in rw (beq_refl j), lookup_further j w m m d.0 (Distinct-lookup m d.1))

  pub All-insert {μ} :
      (P : K × V → Type μ) (k : K) (v : V) (m : List (K × V))
      → ((j : K) → (j == k) ≡ true → P (j, v))
      → All P m
      → All P (insert k v m)
  unfolding insert
  All-insert P k v [] new h = (new k (beq_refl k), tt)
  All-insert P k v ((i, w) ∷ m) new h = ground (arith, new i, All-insert P k v m new h.1)

  -- A value that is put in place of another is undone by putting the other back.
  pub insert-restore :
      (k : K) (old new : V) (m : List (K × V))
      → lookup k m ≡ some old
      → insert k old (insert k new m) ≡ m
  unfolding insert lookup
  insert-restore k old new [] found = cc
  insert-restore k old new ((i, w) ∷ m) found =
      ground
        (arith, e.equals_iff i k, e.equals_iff k i, e.equals_iff k k, insert-restore k old new m)

  -- How many values pass, before and after one is put in.
  pub count-insert-le :
      (q : V → Bool) (k : K) (v : V) (m : List (K × V))
      → count q (map (λ b. b.1) (insert k v m))
        ≤ count q (map (λ b. b.1) m) + (if q v then 1 else 0)
  unfolding insert
  count-insert-le q k v [] = ground arith
  count-insert-le q k v ((i, w) ∷ m) = ground (arith, count-insert-le q k v m)

  pub count-insert-taken :
      (q : V → Bool) (k : K) (v w : V) (m : List (K × V))
      → lookup k m ≡ some w
      → q w ≡ true
      → q v ≡ false
      → suc (count q (map (λ b. b.1) (insert k v m))) ≡ count q (map (λ b. b.1) m)
  unfolding insert lookup
  count-insert-taken q k v w [] found was now = cc
  count-insert-taken q k v w ((i, u) ∷ m) found was now =
      ground (arith, count-insert-taken q k v w m)

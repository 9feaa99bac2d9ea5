-- ===== src/Json/KeyOrder.antt =====
-- The canonical text does not depend on the order in which an object's keys were written.
use folder_forge.Base.{String, ◌≡◌, refl, ap, ◌∙◌, ◌≢◌, ◌⊎◌, true, List, [], ◌∷◌, arith}
use mathlib.Core.Path.{ap₂}
use folder_forge.Json.{
  Value, arr, obj, Items, no_items, item, Fields, no_fields, field, Platform, ◌⧺◌, join,
  insert_entry, sort_entries, entry_texts, canonical, canonical_items, canonical_fields,
}

-- `localeCompare` orders the texts, and no two texts are equal to it.
pub record IsOrder (p : Platform) : Type 0 where
  pub total : (a b : String) → (p.locale_le a b ≡ true) ⊎ (p.locale_le b a ≡ true)
  pub antisym : (a b : String) → p.locale_le a b ≡ true → p.locale_le b a ≡ true → a ≡ b
  pub trans :
      (a b c : String) → p.locale_le a b ≡ true → p.locale_le b c ≡ true → p.locale_le a c ≡ true

-- The same value up to the order of keys, in objects at any depth. Neighbours with different keys
-- may change places.
mutual
  pub data Same : Value → Value → Type 0 where
    same_refl : (v : Value) → Same v v
    same_arr : {xs ys : Items} → SameItems xs ys → Same (arr xs) (arr ys)
    same_obj : {fs gs : Fields} → SameFields fs gs → Same (obj fs) (obj gs)

  pub data SameItems : Items → Items → Type 0 where
    same_nil : SameItems no_items no_items
    same_cons :
        {v w : Value} {xs ys : Items}
        → Same v w
        → SameItems xs ys
        → SameItems (item v xs) (item w ys)

  pub data SameFields : Fields → Fields → Type 0 where
    same_end : SameFields no_fields no_fields
    same_field :
        {v w : Value} {fs gs : Fields} (k : String)
        → Same v w
        → SameFields fs gs
        → SameFields (field k v fs) (field k w gs)
    swapped :
        (j k : String) (v w : Value) (fs : Fields)
        → j ≢ k
        → SameFields (field j v (field k w fs)) (field k w (field j v fs))
    same_trans : {fs gs hs : Fields} → SameFields fs gs → SameFields gs hs → SameFields fs hs

module _ (p : Platform) (o : IsOrder p) where
  insert_entry_comm :
      (e f : String × String) (l : List (String × String))
      → e.0 ≢ f.0
      → insert_entry p e (insert_entry p f l) ≡ insert_entry p f (insert_entry p e l)
  unfolding insert_entry
  insert_entry_comm e f [] ne = ground (arith, o.total e.0 f.0, o.antisym e.0 f.0)
  insert_entry_comm e f (g ∷ l) ne = ground (
    arith,
    o.total e.0 f.0,
    o.antisym e.0 f.0,
    o.total e.0 g.0,
    o.total f.0 g.0,
    o.trans e.0 f.0 g.0,
    o.trans f.0 e.0 g.0,
    o.trans e.0 g.0 f.0,
    o.trans f.0 g.0 e.0,
    insert_entry_comm e f l ne,
  )

  mutual
    unfolding canonical sort_entries

    canonical-Same : {v w : Value} → Same v w → canonical p v ≡ canonical p w
    canonical-Same (same_refl v) = refl
    canonical-Same (same_arr s) = ap (λ t. "[" ⧺ join t ⧺ "]") (canonical_items-Same s)
    canonical-Same (same_obj s) = ap (λ t. "{" ⧺ join (entry_texts p t) ⧺ "}") (sort_entries-Same s)

    canonical_items-Same :
        {xs ys : Items} → SameItems xs ys → canonical_items p xs ≡ canonical_items p ys
    canonical_items-Same same_nil = refl
    canonical_items-Same (same_cons s r) =
        ap₂ (λ x y. x ∷ y) (canonical-Same s) (canonical_items-Same r)

    sort_entries-Same :
        {fs gs : Fields}
        → SameFields fs gs
        → sort_entries p (canonical_fields p fs) ≡ sort_entries p (canonical_fields p gs)
    sort_entries-Same same_end = refl
    sort_entries-Same (same_field k s r) =
        ap₂ (λ x y. insert_entry p (k, x) y) (canonical-Same s) (sort_entries-Same r)
    sort_entries-Same (swapped j k v w fs ne) =
        insert_entry_comm (j, canonical p v) (k, canonical p w) _ ne
    sort_entries-Same (same_trans s r) = sort_entries-Same s ∙ sort_entries-Same r

-- Where `localeCompare` is a total order on the texts: values that differ only in the order of
-- their objects' keys, at any depth, have one canonical text.
pub canonical_key_order :
    (p : Platform) (v w : Value) → IsOrder p → Same v w → canonical p v ≡ canonical p w
canonical_key_order p v w o s = canonical-Same p o s

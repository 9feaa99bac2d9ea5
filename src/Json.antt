-- ===== src/Json.antt =====
-- JSON values and their canonical text: `canonical` of src/policy/approvals.ts and `canonicalJson`
-- of src/evidence/audit-chain.ts, which are the same function. A number is the text that
-- `JSON.stringify` prints for it.
pub mod KeyOrder
use Prim.Native.String
use folder_forge.Base.{
  ℕ, String, Bool, true, false, Option, none, some, List, [], ◌∷◌, if◌then◌else◌, ◌==◌, string_eq,
}

mutual
  pub data Fields : Type 0 where
    no_fields : Fields
    field : (key : String) (value : Value) → Fields → Fields

  pub data Items : Type 0 where
    no_items : Items
    item : (value : Value) → Items → Items

  pub data Value : Type 0 where
    null : Value
    bool : Bool → Value
    num str : String → Value
    arr : Items → Value
    obj : Fields → Value

-- `object[key]`
unfoldable pub field_of : String → Fields → Option Value
field_of key no_fields = none
field_of key (field k v rest) = if k == key then some v else field_of key rest

-- What the code takes of the language's runtime and of `node:crypto`.
pub record Platform : Type 0 where
  -- `JSON.stringify` of a string
  pub quote : String → String
  -- `a.localeCompare(b) <= 0`
  pub locale_le : String → String → Bool
  -- `createHash('sha256').update(s).digest('hex')`
  pub sha256 : String → String
  -- `s.slice(0, n)` and the decimal text of a number
  pub slice : ℕ → String → String
  pub decimal : ℕ → String

infixr 66 ◌⧺◌
abbrev pub ◌⧺◌ : String → String → String
a ⧺ b = String.◌++◌ a b

-- `texts.join(',')`
unfoldable pub join : List String → String
join [] = ""
join (t ∷ []) = t
join (t ∷ u ∷ rest) = t ⧺ "," ⧺ join (u ∷ rest)

module _ (p : Platform) where
  -- One step of the stable sort of entries by key.
  unfoldable pub insert_entry : String × String → List (String × String) → List (String × String)
  insert_entry e [] = e ∷ []
  insert_entry e (f ∷ rest) =
      let later = insert_entry e rest in if p.locale_le e.0 f.0 then e ∷ f ∷ rest else f ∷ later

  unfoldable pub sort_entries : List (String × String) → List (String × String)
  unfolding insert_entry
  sort_entries [] = []
  sort_entries (e ∷ rest) = insert_entry e (sort_entries rest)

  unfoldable pub entry_texts : List (String × String) → List String
  entry_texts [] = []
  entry_texts (e ∷ rest) = (p.quote e.0 ⧺ ":" ⧺ e.1) ∷ entry_texts rest

  unfoldable mutual
    unfolding join sort_entries entry_texts

    pub canonical : Value → String
    canonical null = "null"
    canonical (bool true) = "true"
    canonical (bool false) = "false"
    canonical (num text) = text
    canonical (str s) = p.quote s
    canonical (arr items) = "[" ⧺ join (canonical_items items) ⧺ "]"
    canonical (obj fields) = "{" ⧺ join (entry_texts (sort_entries (canonical_fields fields))) ⧺ "}"

    pub canonical_items : Items → List String
    canonical_items no_items = []
    canonical_items (item v items) = canonical v ∷ canonical_items items

    pub canonical_fields : Fields → List (String × String)
    canonical_fields no_fields = []
    canonical_fields (field k v fields) = (k, canonical v) ∷ canonical_fields fields

-- ===== src/Policy/Approvals/Evidence.antt =====
-- `fingerprint` and `boundedEvidence` of src/policy/approvals.ts.
use folder_forge.Base.{
  ℕ, zero, suc, ◌+◌, ◌-◌, String, length, ltb, leb, if◌then◌else◌, ◌==◌, string_eq, utf16,
}
use folder_forge.Json.{
  Value, null, bool, num, str, arr, obj, Items, no_items, item, Fields, no_fields, field, Platform,
  canonical, ◌⧺◌,
}

unfoldable pub fingerprint : Platform → Value → String
fingerprint p args = "sha256:" ⧺ p.sha256 (canonical p args)

abbrev count_items : Items → ℕ
count_items no_items = 0
count_items (item v items) = suc (count_items items)

abbrev count_fields : Fields → ℕ
count_fields no_fields = 0
count_fields (field k v fields) = suc (count_fields fields)

-- `o.key = value`
unfoldable pub set_field : String → Value → Fields → Fields
set_field key value no_fields = field key value no_fields
set_field key value (field k v fields) =
    let rest = set_field key value fields in
    if k == key then field k value fields else field k v rest

module _ (p : Platform) where
  unfoldable pub bounded_text : String → String
  unfolding utf16
  bounded_text s = if ltb 1024 (length (utf16 s)) then p.slice 1024 s ⧺ "…[TRUNCATED]" else s

  abbrev bounded_object : ℕ → Fields → Fields
  bounded_object total fields =
      if ltb 20 total
      then set_field "__truncated" (str (p.decimal (total - 20) ⧺ " fields")) fields
      else fields

  -- `room` counts down the 20 entries that are kept.
  unfoldable mutual
    unfolding set_field bounded_text

    pub bounded : ℕ → Value → Value
    bounded depth null = if leb 5 depth then str "[TRUNCATED: depth]" else null
    bounded depth (bool b) = if leb 5 depth then str "[TRUNCATED: depth]" else bool b
    bounded depth (num n) = if leb 5 depth then str "[TRUNCATED: depth]" else num n
    bounded depth (str s) = if leb 5 depth then str "[TRUNCATED: depth]" else str (bounded_text s)
    bounded depth (arr items) =
        let kept = bounded_items (depth + 1) 20 items in
        if leb 5 depth then str "[TRUNCATED: depth]" else arr kept
    bounded depth (obj fields) =
        let kept = bounded_fields (depth + 1) 20 fields in
        if leb 5 depth
        then str "[TRUNCATED: depth]"
        else obj (bounded_object (count_fields fields) kept)

    pub bounded_items : ℕ → ℕ → Items → Items
    bounded_items depth room no_items = no_items
    bounded_items depth zero (item v items) =
        item (str ("[TRUNCATED: " ⧺ p.decimal (suc (count_items items)) ⧺ " items]")) no_items
    bounded_items depth (suc room) (item v items) =
        item (bounded depth v) (bounded_items depth room items)

    pub bounded_fields : ℕ → ℕ → Fields → Fields
    bounded_fields depth room no_fields = no_fields
    bounded_fields depth zero (field k v others) = no_fields
    bounded_fields depth (suc room) (field k v fields) =
        field k (bounded depth v) (bounded_fields depth room fields)

  unfoldable pub bounded_evidence : Value → Value
  unfolding bounded
  bounded_evidence value = bounded 0 value

-- ===== src/Evidence/FileAuditStore/Repair.antt =====
-- What `repairTornTail` of src/evidence/file-audit-store.ts does to a chain whose last record is torn.
use folder_forge.Base.{
  ℕ, suc, ◌≡◌, ◌⊎◌, ◌≤◌, refl, sym, ◌∙◌, ap, subst, String, Bool, true, false, not, ◌&&◌, Option,
  none, some, List, [], ◌∷◌, ◌++◌, length, all, arith, ◌==◌, nat_eq, inl, inr, insert, lookup,
  lookup-insert, beq_refl, string_eq,
}
use folder_forge.Evidence.AuditChain.{
  AuditHost, AuditSigner, newline, max_safe, ends_line, last_hash, matches_schema,
  create_audit_envelope, parse_audit_chain,
}
use folder_forge.Evidence.Ports.{AuditEnvelope}
use folder_forge.Evidence.AuditChain.Verdict.{parse_audit_chain-ok}
use folder_forge.Evidence.AuditChain.Growth.{IsReadable, record_line, parse_audit_chain-create}
use folder_forge.Evidence.FileAuditStore.{
  AuditStore, stored, TailCache, Moment, byte_length, put_before, split_torn, native_source,
  without_keys, quarantine_name, repair_event, store_marker, replace_torn, repair_torn_tail,
}
use folder_forge.Evidence.FileAuditStore.Tail.{IsSound}
use folder_forge.Evidence.FileAuditStore.Append.{next_record, created_at, keyless}

-- A part of a line.
abbrev pub is_torn : List ℕ → Bool
is_torn [] = false
is_torn (c ∷ cs) = not (c == newline) && all (λ d. not (d == newline)) cs

byte_length-positive : (c : ℕ) (cs : List ℕ) → byte_length (c ∷ cs) == 0 ≡ false
unfolding byte_length
byte_length-positive c [] = ground arith
byte_length-positive c (d ∷ cs) = ground arith

byte_length-append : (xs : List ℕ) (t : ℕ) (ts : List ℕ) → byte_length (xs ++ t ∷ ts) == 0 ≡ false
byte_length-append [] t ts = byte_length-positive t ts
byte_length-append (x ∷ xs) t ts = byte_length-positive x (xs ++ t ∷ ts)

ends_line-skip : (xs : List ℕ) (t : ℕ) (ts : List ℕ) → ends_line (xs ++ t ∷ ts) ≡ ends_line (t ∷ ts)
unfolding ends_line
ends_line-skip [] t ts = refl
ends_line-skip (c ∷ []) t ts = refl
ends_line-skip (c ∷ d ∷ cs) t ts = ends_line-skip (d ∷ cs) t ts

ends_line-torn : (t : ℕ) (ts : List ℕ) → is_torn (t ∷ ts) ≡ true → ends_line (t ∷ ts) ≡ false
unfolding ends_line
ends_line-torn t [] torn = ground arith
ends_line-torn t (u ∷ us) torn = ends_line-torn u us (ground arith)

split_torn-rest :
    (t : ℕ) (ts : List ℕ) → is_torn (t ∷ ts) ≡ true → split_torn (t ∷ ts) ≡ ([], t ∷ ts)
unfolding split_torn
split_torn-rest t [] torn = let other : t == newline ≡ false = ground arith in rw other refl
split_torn-rest t (u ∷ us) torn =
    let other : t == newline ≡ false = ground arith in
    ap (λ v. put_before t v) (split_torn-rest u us (ground arith)) ∙ rw other refl

split_torn-append :
    (xs : List ℕ) (t : ℕ) (ts : List ℕ)
    → is_torn (t ∷ ts) ≡ true
    → (xs ≡ []) ⊎ (ends_line xs ≡ true)
    → split_torn (xs ++ t ∷ ts) ≡ (xs, t ∷ ts)
unfolding split_torn ends_line
split_torn-append [] t ts torn done = split_torn-rest t ts torn
split_torn-append (c ∷ []) t ts torn done = elim done [
  | inl absent ↦ absurd (ground arith)
  | inr ends ↦ ap (λ v. put_before c v) (split_torn-rest t ts torn) ∙ rw ends refl
]
split_torn-append (c ∷ d ∷ cs) t ts torn done =
    ap (λ v. put_before c v)
      (split_torn-append (d ∷ cs) t ts torn
        (elim done [ inl absent ↦ absurd (ground arith) | inr ends ↦ inr ends ]))

module _ (host : AuditHost) (signer : Option AuditSigner) (max_file_bytes : ℕ) where
  -- The marker of a repair.
  abbrev pub marker_of : Moment → List ℕ → List AuditEnvelope → AuditEnvelope
  marker_of at torn es =
      next_record host signer max_file_bytes
        (repair_event host signer max_file_bytes at (byte_length torn) (last_hash es)) es

  marker-IsSound :
      (at : Moment) (text torn : List ℕ) (es : List AuditEnvelope)
      → ((parse_audit_chain (without_keys host) text).1.ok ≡ true)
        × ((parse_audit_chain (without_keys host) text).0 ≡ es)
      → suc (length es) ≤ max_safe
      → IsReadable host (marker_of at torn es)
      → matches_schema host (marker_of at torn es) ≡ true
      → IsSound host
          (es ++ marker_of at torn es ∷ [])
          (some (record {
            text = text ++ record_line host (marker_of at torn es);
            modified = at.repaired;
          }))
          none
  unfolding matches_schema
  marker-IsSound at text torn es ok small readable schema =
      let event = repair_event host signer max_file_bytes at (byte_length torn) (last_hash es) in
      let marker = marker_of at torn es in
      let grown =
        parse_audit_chain-create (without_keys host) text es event native_source signer marker ok
          (created_at host signer max_file_bytes event (suc (length es)) (last_hash es)
            (ground arith) small)
          readable schema (keyless host signer max_file_bytes marker) in
      (grown.0, grown.1, tt)

  -- The repair of the torn text after a part that is `done`.
  replace_sound :
      (at : Moment) (store : AuditStore) (text torn : List ℕ) (es : List AuditEnvelope)
      → (parse_audit_chain (without_keys host) text).0 ≡ es
      → suc (length es) ≤ max_safe
      → replace_torn host signer max_file_bytes at store text torn
          (parse_audit_chain (without_keys host) text).1
        ≡ store_marker host signer max_file_bytes at
            (record store { others = insert (quarantine_name at) torn store.others })
            text
            (some (marker_of at torn es))
  replace_sound at store text torn es read small =
      let report = (parse_audit_chain (without_keys host) text).1 in
      let records : report.records ≡ length es = unfold parse_audit_chain in ap length read in
      let head : report.head_hash ≡ last_hash es = unfold parse_audit_chain in ap last_hash read in
      let event = repair_event host signer max_file_bytes at (byte_length torn) in
      let created =
        ap
          (λ n.
            create_audit_envelope (without_keys host) (event report.head_hash) n report.head_hash
              native_source signer)
          (ground arith)
        ∙ ap
            (λ hash.
              create_audit_envelope (without_keys host) (event hash) (suc (length es)) hash
                native_source signer)
            head
        ∙ created_at host signer max_file_bytes (event (last_hash es)) (suc (length es))
            (last_hash es) (ground arith) small in
      ap
        (λ c.
          store_marker host signer max_file_bytes at
            (record store { others = insert (quarantine_name at) torn store.others }) text c)
        created

  repair_torn_tail-torn :
      (at : Moment) (others : List (String × List ℕ)) (cache : Option TailCache)
      → (text : List ℕ) (t : ℕ) (ts : List ℕ) (modified : ℕ) (es : List AuditEnvelope)
      → ((parse_audit_chain (without_keys host) text).1.ok ≡ true)
        × ((parse_audit_chain (without_keys host) text).0 ≡ es)
      → is_torn (t ∷ ts) ≡ true
      → suc (length es) ≤ max_safe
      → repair_torn_tail host signer max_file_bytes at
          (stored (some (record { text = text ++ t ∷ ts; modified = modified })) others cache)
        ≡ (
          stored
              (some (record {
                text = text ++ record_line host (marker_of at (t ∷ ts) es);
                modified = at.repaired;
              }))
              (insert (quarantine_name at) (t ∷ ts) others)
              none,
          true,
        )
  unfolding repair_torn_tail
  repair_torn_tail-torn at others cache text t ts modified es ok torn small =
      let done = ((parse_audit_chain-ok (without_keys host) text es).0 ok).0 in
      let ends = ends_line-skip text t ts ∙ ends_line-torn t ts torn in
      let rest : length (t ∷ ts) == 0 ≡ false = ground arith in
      rw (split_torn-append text t ts torn done, byte_length-append text t ts, ends, rest, ok.0)
        (replace_sound at
          (stored (some (record { text = text ++ t ∷ ts; modified = modified })) others cache) text
          (t ∷ ts) es ok.1 small)

  -- A part of a line after an ok chain of the records es is put into the quarantine file as it is, and
  -- the file is then an ok chain of es and the marker of the repair. The number of the marker must be
  -- a safe integer, its line must be read as the marker, and its event must match the schema.
  pub repair_torn_tail-IsSound :
      (at : Moment) (others : List (String × List ℕ)) (cache : Option TailCache)
      → (text : List ℕ) (t : ℕ) (ts : List ℕ) (modified : ℕ) (es : List AuditEnvelope)
      → ((parse_audit_chain (without_keys host) text).1.ok ≡ true)
        × ((parse_audit_chain (without_keys host) text).0 ≡ es)
      → is_torn (t ∷ ts) ≡ true
      → suc (length es) ≤ max_safe
      → IsReadable host (marker_of at (t ∷ ts) es)
      → matches_schema host (marker_of at (t ∷ ts) es) ≡ true
      → let out =
          repair_torn_tail host signer max_file_bytes at
            (stored (some (record { text = text ++ t ∷ ts; modified = modified })) others cache) in
        (out.1 ≡ true)
        × (lookup (quarantine_name at) out.0.others ≡ some (t ∷ ts))
        × IsSound host (es ++ marker_of at (t ∷ ts) es ∷ []) out.0.live out.0.tail_cache
  repair_torn_tail-IsSound at others cache text t ts modified es ok torn small readable schema =
      let found =
        lookup-insert (quarantine_name at) (quarantine_name at) (t ∷ ts) others
        ∙ rw (beq_refl (quarantine_name at)) refl in
      subst
        (λ out.
          (out.1 ≡ true)
          × (lookup (quarantine_name at) out.0.others ≡ some (t ∷ ts))
          × IsSound host (es ++ marker_of at (t ∷ ts) es ∷ []) out.0.live out.0.tail_cache)
        (sym (repair_torn_tail-torn at others cache text t ts modified es ok torn small))
        (refl, found, marker-IsSound at text (t ∷ ts) es ok small readable schema)

-- ===== src/Evidence/FileAuditStore/Append.antt =====
-- What `append` of src/evidence/file-audit-store.ts does to a sound store.
use folder_forge.Base.{
  ℕ, suc, ◌+◌, ◌≡◌, refl, sym, ◌∙◌, ap, subst, String, true, false, ◌&&◌, Option, none, some, List,
  [], ◌∷◌, ◌++◌, length, arith, if◌then◌else◌, leb, ◌≤◌, ◌==◌, nat_eq, Bool-cases, inl, inr,
}
use folder_forge.Json.{Value}
use folder_forge.Evidence.AuditChain.{
  AuditHost, AuditSigner, max_safe, unsigned, unknown, signature_state, last_hash, matches_schema,
  make_envelope, create_audit_envelope, parse_audit_chain,
}
use folder_forge.Evidence.Ports.{AuditEnvelope}
use folder_forge.Evidence.AuditChain.Intact.{is_bad}
use folder_forge.Evidence.AuditChain.Verdict.{parse_audit_chain-ok}
use folder_forge.Evidence.AuditChain.Growth.{IsReadable, parse_audit_chain-create}
use folder_forge.Evidence.FileAuditStore.{
  AuditStore, stored, LiveFile, TailCache, Moment, byte_length, native_source, without_keys,
  tail_of, reread_tail, read_tail_for_append, rotate_if_oversized, repair_torn_tail, read_raw,
  write_record, append_to_chain, append_created, append_after, append,
}
use folder_forge.Evidence.FileAuditStore.Tail.{chain_end, IsSound, ok-tail_of}

module _ (host : AuditHost) (signer : Option AuditSigner) (max_file_bytes : ℕ) where
  -- Nothing is torn off a sound store.
  repair_sound :
      (at : Moment) (live : Option LiveFile) (others : List (String × List ℕ))
      (cache : Option TailCache) (es : List AuditEnvelope)
      → IsSound host es live cache
      → repair_torn_tail host signer max_file_bytes at (stored live others cache)
        ≡ (stored live others cache, true)
  unfolding repair_torn_tail
  repair_sound at none others cache es sound = refl
  repair_sound at (some f) others cache es sound =
      let done = ((parse_audit_chain-ok (without_keys host) f.text es).0 (sound.0, sound.1)).0 in
      elim done [
        | inl empty ↦
            let size : byte_length f.text == 0 ≡ true =
              unfold byte_length in ap (λ t. byte_length t == 0) empty in
            rw size refl
        | inr ends ↦ elim (Bool-cases (byte_length f.text == 0)) [
          | inl size ↦ rw size refl
          | inr size ↦ rw (size, ends) refl
        ]
      ]

  -- The records of the chain after `rotateIfOversized`.
  abbrev pub kept : Option LiveFile → List AuditEnvelope → List AuditEnvelope
  kept none es = es
  kept (some f) es = if leb (byte_length f.text) max_file_bytes then es else []

  rotate-IsSound :
      (at : Moment) (live : Option LiveFile) (others : List (String × List ℕ))
      (cache : Option TailCache) (es : List AuditEnvelope)
      → IsSound host es live cache
      → let after = rotate_if_oversized host signer max_file_bytes at (stored live others cache) in
        IsSound host (kept live es) after.live after.tail_cache
  unfolding rotate_if_oversized
  rotate-IsSound at none others cache es sound = sound
  rotate-IsSound at (some f) others cache es sound =
      elim (Bool-cases (leb (byte_length f.text) max_file_bytes)) [
        | inl small ↦ rw small sound
        | inr large ↦ rw large refl
      ]

  reread_sound :
      (store : AuditStore) (f : LiveFile) (es : List AuditEnvelope)
      → (parse_audit_chain (without_keys host) f.text).1.ok ≡ true
      → (parse_audit_chain (without_keys host) f.text).0 ≡ es
      → ((reread_tail host signer max_file_bytes store f).1 ≡ some (chain_end es))
        × ((reread_tail host signer max_file_bytes store f).0.live ≡ store.live)
  unfolding reread_tail
  reread_sound store f es ok read =
      let tail =
        ap (λ l. some (tail_of l)) read
        ∙ ap some (ok-tail_of (without_keys host) f.text es ok read) in
      rw ok (tail, refl)

  read_tail_sound :
      (live : Option LiveFile) (others : List (String × List ℕ)) (cache : Option TailCache)
      (es : List AuditEnvelope)
      → IsSound host es live cache
      → ((read_tail_for_append host signer max_file_bytes (stored live others cache)).1
          ≡ some (chain_end es))
        × ((read_tail_for_append host signer max_file_bytes (stored live others cache)).0.live
            ≡ live)
  unfolding read_tail_for_append
  read_tail_sound none others cache es sound = (ap (λ l. some (chain_end l)) (sym sound), refl)
  read_tail_sound (some f) others none es sound = reread_sound _ f es sound.0 sound.1
  read_tail_sound (some f) others (some c) es sound =
      elim (Bool-cases (c.size == byte_length f.text && c.modified == f.modified)) [
        | inl hit ↦
            let fresh = sound.2 (ground arith) (ground arith) in
            rw hit (ap some (rw (fresh.0, fresh.1) refl), refl)
        | inr miss ↦ rw miss (reread_sound (stored (some f) others (some c)) f es sound.0 sound.1)
      ]

  read_raw_sound :
      (live : Option LiveFile) (others : List (String × List ℕ)) (cache : Option TailCache)
      (es : List AuditEnvelope)
      → IsSound host es live cache
      → ((parse_audit_chain
            (without_keys host)
            (read_raw host signer max_file_bytes (stored live others cache))).1.ok
          ≡ true)
        × ((parse_audit_chain
              (without_keys host)
              (read_raw host signer max_file_bytes (stored live others cache))).0
            ≡ es)
  unfolding read_raw
  read_raw_sound none others cache es sound = unfold parse_audit_chain in (refl, sym sound)
  read_raw_sound (some f) others cache es sound = (sound.0, sound.1)

  -- The record that is appended to a chain.
  abbrev pub next_record : Value → List AuditEnvelope → AuditEnvelope
  next_record event es =
      make_envelope (without_keys host) event (suc (length es)) (last_hash es) native_source signer

  -- Without keys no signature is found to be invalid.
  pub keyless :
      (e : AuditEnvelope)
      → is_bad (without_keys host) (signature_state (without_keys host) e) ≡ false
  unfolding signature_state
  keyless e =
      elim e.signature
        as (λ s.
          is_bad (without_keys host) (elim s [ none ↦ unsigned | some t ↦ unknown ]) ≡ false) [
            | none ↦ refl
            | some t ↦ refl
          ]

  pub created_at :
      (event : Value) (n : ℕ) (previous : Option String)
      → 1 ≤ n
      → n ≤ max_safe
      → create_audit_envelope (without_keys host) event n previous native_source signer
        ≡ some (make_envelope (without_keys host) event n previous native_source signer)
  unfolding create_audit_envelope
  created_at event n previous positive small =
      let guard : leb 1 n && leb n max_safe ≡ true = ground arith in rw guard refl

  pub created :
      (event : Value) (es : List AuditEnvelope)
      → suc (length es) ≤ max_safe
      → create_audit_envelope
          (without_keys host)
          event
          (length es + 1)
          (last_hash es)
          native_source
          signer
        ≡ some (next_record event es)
  created event es small =
      let next : length es + 1 ≡ suc (length es) = ground arith in
      subst
        (λ n.
          create_audit_envelope (without_keys host) event n (last_hash es) native_source signer
          ≡ some (next_record event es))
        (sym next) (created_at event (suc (length es)) (last_hash es) (ground arith) small)

  length-grown :
      (es : List AuditEnvelope) (e : AuditEnvelope) → length (es ++ e ∷ []) ≡ suc (length es)
  length-grown [] e = refl
  length-grown (f ∷ es) e = ap suc (length-grown es e)

  last_hash-grown :
      (es : List AuditEnvelope) (e : AuditEnvelope) → last_hash (es ++ e ∷ []) ≡ some e.record_hash
  last_hash-grown [] e = refl
  last_hash-grown (f ∷ []) e = refl
  last_hash-grown (f ∷ g ∷ es) e = last_hash-grown (g ∷ es) e

  pub write-IsSound :
      (at : Moment) (event : Value) (store : AuditStore) (es : List AuditEnvelope)
      → ((parse_audit_chain (without_keys host) (read_raw host signer max_file_bytes store)).1.ok
          ≡ true)
        × ((parse_audit_chain (without_keys host) (read_raw host signer max_file_bytes store)).0
            ≡ es)
      → suc (length es) ≤ max_safe
      → IsReadable host (next_record event es)
      → matches_schema host (next_record event es) ≡ true
      → let after = write_record host signer max_file_bytes at store (next_record event es) in
        IsSound host (es ++ next_record event es ∷ []) after.live after.tail_cache
  unfolding write_record matches_schema
  write-IsSound at event store es sound small readable schema =
      let e = next_record event es in
      let grown =
        parse_audit_chain-create (without_keys host) (read_raw host signer max_file_bytes store) es
          event native_source signer e sound
          (created_at event (suc (length es)) (last_hash es) (ground arith) small) readable schema
          (keyless e) in
      (
        grown.0,
        grown.1,
        λ same_size same_time.
            (unfold make_envelope in sym (length-grown es e), sym (last_hash-grown es e)),
      )

  -- The chain that `append_to_chain` reads.
  abbrev read_store : Moment → AuditStore → AuditStore
  read_store at store =
      (read_tail_for_append host signer max_file_bytes
        (rotate_if_oversized host signer max_file_bytes at store)).0

  pub append_to_chain-IsSound :
      (at : Moment) (event : Value) (store : AuditStore) (es : List AuditEnvelope)
      → IsSound host es store.live store.tail_cache
      → suc (length (kept store.live es)) ≤ max_safe
      → IsReadable host (next_record event (kept store.live es))
      → matches_schema host (next_record event (kept store.live es)) ≡ true
      → let out = append_to_chain host signer max_file_bytes at event store in
        (out.1 ≡ some (next_record event (kept store.live es)))
        × IsSound host
            (kept store.live es ++ next_record event (kept store.live es) ∷ [])
            out.0.live
            out.0.tail_cache
  unfolding append_to_chain
  append_to_chain-IsSound at event store es sound small readable schema =
      let es' = kept store.live es in
      let rotated = rotate_if_oversized host signer max_file_bytes at store in
      let rotated_sound = rotate-IsSound at store.live store.others store.tail_cache es sound in
      let tail = read_tail_sound rotated.live rotated.others rotated.tail_cache es' rotated_sound in
      let raw = read_raw_sound rotated.live rotated.others rotated.tail_cache es' rotated_sound in
      let same : read_raw host signer max_file_bytes rotated
          ≡ read_raw host signer max_file_bytes (read_store at store) =
        unfold read_raw in
        ap (λ l. elim l as (λ x. List ℕ) [ none ↦ [] | some f ↦ f.text ]) (sym tail.1) in
      let written =
        write-IsSound at event (read_store at store) es'
          (subst
            (λ t.
              ((parse_audit_chain (without_keys host) t).1.ok ≡ true)
              × ((parse_audit_chain (without_keys host) t).0 ≡ es'))
            same raw)
          small readable schema in
      let outcome = sym (
        ap (λ t. append_after host signer max_file_bytes at event (read_store at store) t) tail.0
        ∙ ap (λ c. append_created host signer max_file_bytes at (read_store at store) c)
            (created event es' small)) in
      subst
        (λ out.
          (out.1 ≡ some (next_record event es'))
          × IsSound host (es' ++ next_record event es' ∷ []) out.0.live out.0.tail_cache)
        outcome (refl, written)

  -- Of a store whose file is an ok chain of the records es, and whose cache fits, append gives the
  -- record with the next number and the last hash, and the file is then an ok chain of es and that
  -- record, with a cache that fits; where the file was larger than maxFileBytes, the chain starts anew
  -- with the record as its first. The number must be a safe integer, the line must be read as the
  -- record, and the event must match the schema.
  pub append-IsSound :
      (at : Moment) (event : Value) (store : AuditStore) (es : List AuditEnvelope)
      → IsSound host es store.live store.tail_cache
      → suc (length (kept store.live es)) ≤ max_safe
      → IsReadable host (next_record event (kept store.live es))
      → matches_schema host (next_record event (kept store.live es)) ≡ true
      → let out = append host signer max_file_bytes at event store in
        (out.1 ≡ some (next_record event (kept store.live es)))
        × IsSound host
            (kept store.live es ++ next_record event (kept store.live es) ∷ [])
            out.0.live
            out.0.tail_cache
  unfolding append
  append-IsSound at event store es sound small readable schema =
      rw (repair_sound at store.live store.others store.tail_cache es sound)
        (append_to_chain-IsSound at event store es sound small readable schema)

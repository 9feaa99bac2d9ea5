-- ===== src/Evidence/AuditChain/Growth.antt =====
-- How a chain that `parseAuditChain` of src/evidence/audit-chain.ts reports as ok grows by a record.
use folder_forge.Base.{
  ℕ, suc, ◌+◌, ◌≡◌, ◌⊎◌, refl, sym, ◌∙◌, ap, subst, String, Bool, true, false, not, ◌&&◌, Option,
  none, some, List, [], ◌∷◌, ◌++◌, length, all, Bool-cases, arith, ◌==◌, nat_eq, Option-cases, inl,
  inr,
}
use mathlib.Core.List.{append-nil, append_assoc}
use folder_forge.Json.{Value}
use folder_forge.Evidence.AuditChain.{
  AuditHost, AuditSigner, newline, strip_return, split_lines, ends_line, make_envelope,
  create_audit_envelope, record_hash_of, signature_state, matches_schema, last_hash,
  parse_audit_chain,
}
use folder_forge.Evidence.Ports.{AuditEnvelope, AuditRecordSource}
use folder_forge.Evidence.AuditChain.Intact.{IsIntact, is_bad, read_lines, read_first, onto}
use folder_forge.Evidence.AuditChain.Verdict.{parse_audit_chain-ok}

-- A text without line breaks.
abbrev pub is_plain : List ℕ → Bool
is_plain cs = all (λ c. not (c == newline) && not (c == 13)) cs

-- A text that is empty or ends a line, in two parts.
split-append :
    (line xs ys : List ℕ)
    → ends_line xs ≡ true
    → (front : List (List ℕ)) × ((split_lines line xs ≡ front ++ [] ∷ [])
        × (split_lines line (xs ++ ys) ≡ front ++ split_lines [] ys))
unfolding split_lines ends_line
split-append line [] ys ends = absurd (ground arith)
split-append line (c ∷ []) ys ends = (strip_return line ∷ [], (rw ends refl, rw ends refl))
split-append line (c ∷ d ∷ cs) ys ends = elim (Bool-cases (c == newline)) [
  | inl b ↦
      let (front, (first, second)) = split-append [] (d ∷ cs) ys ends in
      (strip_return line ∷ front, (rw (b, first) refl, rw (b, second) refl))
  | inr b ↦
      let (front, (first, second)) = split-append (line ++ c ∷ []) (d ∷ cs) ys ends in
      (front, (rw (b, first) refl, rw (b, second) refl))
]

-- The text before a record that is written is empty or ends a line.
split_done :
    (xs ys : List ℕ)
    → (xs ≡ []) ⊎ (ends_line xs ≡ true)
    → (front : List (List ℕ)) × ((split_lines [] xs ≡ front ++ [] ∷ [])
        × (split_lines [] (xs ++ ys) ≡ front ++ split_lines [] ys))
unfolding split_lines
split_done [] ys done = ([], (refl, refl))
split_done (c ∷ cs) ys done =
    split-append [] (c ∷ cs) ys (elim done [ inl absent ↦ absurd (ground arith) | inr ends ↦ ends ])

ends_line-append : (xs : List ℕ) → ends_line (xs ++ newline ∷ []) ≡ true
unfolding ends_line
ends_line-append [] = refl
ends_line-append (c ∷ []) = refl
ends_line-append (c ∷ d ∷ cs) = ends_line-append (d ∷ cs)

strip_return-plain : (cs : List ℕ) → is_plain cs ≡ true → strip_return cs ≡ cs
unfolding strip_return
strip_return-plain [] p = refl
strip_return-plain (c ∷ []) p = let other : c == 13 ≡ false = ground arith in rw other refl
strip_return-plain (c ∷ d ∷ cs) p = ap (λ l. c ∷ l) (strip_return-plain (d ∷ cs) (ground arith))

split-plain :
    (line cs : List ℕ)
    → is_plain cs ≡ true
    → split_lines line (cs ++ newline ∷ []) ≡ strip_return (line ++ cs) ∷ [] ∷ []
unfolding split_lines
split-plain line [] p = ap (λ l. strip_return l ∷ [] ∷ []) (sym (append-nil line))
split-plain line (c ∷ cs) p =
    let other : c == newline ≡ false = ground arith in
    rw other (
      split-plain (line ++ c ∷ []) cs (ground arith)
      ∙ ap (λ l. strip_return l ∷ [] ∷ []) (append_assoc line (c ∷ []) cs))

module _ (h : AuditHost) where
  read_lines-append :
      (front back : List (List ℕ)) (es fs : List AuditEnvelope)
      → read_lines h front ≡ some es
      → read_lines h back ≡ some fs
      → read_lines h (front ++ back) ≡ some (es ++ fs)
  unfolding read_lines
  read_lines-append [] back es fs read read' =
      let none_read : [] ≡ es = ground arith in
      subst (λ l. read_lines h back ≡ some (l ++ fs)) none_read read'
  read_lines-append ([] ∷ front) back es fs read read' =
      read_lines-append front back es fs read read'
  read_lines-append ((c ∷ cs) ∷ front) back es fs read read' =
      let (e, (b, (m, (rest, (later, same))))) = read_first h c cs front es read in
      let all_read = read_lines-append front back rest fs later read' in
      subst (λ l. read_lines h ((c ∷ cs) ∷ (front ++ back)) ≡ some (l ++ fs)) same
        (rw (b, m, all_read, read_lines) refl)

  read_lines-trim : (front : List (List ℕ)) → read_lines h (front ++ [] ∷ []) ≡ read_lines h front
  unfolding read_lines
  read_lines-trim [] = refl
  read_lines-trim ([] ∷ front) = read_lines-trim front
  read_lines-trim ((c ∷ cs) ∷ front) = elim (Option-cases (h.parse (c ∷ cs))) [
    | inl b ↦ rw (b, read_lines) refl
    | inr (e, b) ↦ elim (Bool-cases (matches_schema h e)) [
      | inl m ↦ rw (b, m, read_lines) (ap (onto h e) (read_lines-trim front))
      | inr m ↦ rw (b, m, read_lines) refl
    ]
  ]

  abbrev last_or : Option String → List AuditEnvelope → Option String
  last_or previous [] = previous
  last_or previous (e ∷ rest) = last_or (some e.record_hash) rest

  last_or-last_hash : (es : List AuditEnvelope) → last_or none es ≡ last_hash es
  last_or-last_hash [] = refl
  last_or-last_hash (e ∷ []) = refl
  last_or-last_hash (e ∷ f ∷ rest) = last_or-last_hash (f ∷ rest)

  IsIntact-append :
      (n : ℕ) (previous : Option String) (es : List AuditEnvelope) (e : AuditEnvelope)
      → IsIntact h n previous es
      → e.sequence ≡ n + length es
      → e.previous_hash ≡ last_or previous es
      → e.record_hash ≡ record_hash_of h e.sequence e.previous_hash e.event e.source
      → is_bad h (signature_state h e) ≡ false
      → IsIntact h n previous (es ++ e ∷ [])
  IsIntact-append n previous [] e intact sequence link hash signed =
      ((ground arith, link, hash, signed), tt)
  IsIntact-append n previous (f ∷ es) e intact sequence link hash signed = (
    intact.0,
    IsIntact-append (f.sequence + 1) (some f.record_hash) es e intact.1
        (let first : f.sequence ≡ n = intact.0.0 in ground arith) link hash signed,
  )

  -- The text that `append` of the store writes for a record.
  abbrev pub record_line : AuditEnvelope → List ℕ
  record_line e = h.stringify e ++ newline ∷ []

  -- What `JSON.stringify` gives for the record: a text without line breaks that is read as the record.
  abbrev pub IsReadable : AuditEnvelope → Type 0
  IsReadable e =
      (first : ℕ) × ((rest : List ℕ) × ((h.stringify e ≡ first ∷ rest)
          × (is_plain (h.stringify e) ≡ true)
          × (h.parse (h.stringify e) ≡ some e)))

  read-record_line :
      (e : AuditEnvelope)
      → IsReadable e
      → matches_schema h e ≡ true
      → read_lines h (split_lines [] (record_line e)) ≡ some (e ∷ [])
  read-record_line e readable schema =
      let (first, (rest, (text, plain, parsed))) = readable in
      let lines =
        split-plain [] (h.stringify e) plain
        ∙ ap (λ l. l ∷ [] ∷ []) (strip_return-plain (h.stringify e) plain ∙ text) in
      let read : h.parse (first ∷ rest) ≡ some e = subst (λ l. h.parse l ≡ some e) text parsed in
      subst (λ l. read_lines h l ≡ some (e ∷ [])) (sym lines)
        (unfold read_lines in rw (read, schema, read_lines) refl)

  -- An ok chain, after which the record is written.
  IsIntact-grow :
      (raw : List ℕ) (es : List AuditEnvelope) (e : AuditEnvelope)
      → IsReadable e
      → matches_schema h e ≡ true
      → e.sequence ≡ suc (length es)
      → e.previous_hash ≡ last_hash es
      → e.record_hash ≡ record_hash_of h e.sequence e.previous_hash e.event e.source
      → is_bad h (signature_state h e) ≡ false
      → ((parse_audit_chain h raw).1.ok ≡ true) × ((parse_audit_chain h raw).0 ≡ es)
      → ((parse_audit_chain h (raw ++ record_line e)).1.ok ≡ true)
        × ((parse_audit_chain h (raw ++ record_line e)).0 ≡ es ++ e ∷ [])
  IsIntact-grow raw es e readable schema sequence link hash signed ok =
      let (done, (read, intact)) = (parse_audit_chain-ok h raw es).0 ok in
      let (front, (before, after)) = split_done raw (record_line e) done in
      let read_before =
        sym (read_lines-trim front) ∙ subst (λ l. read_lines h l ≡ some es) before read in
      let read_after =
        read_lines-append front (split_lines [] (record_line e)) es (e ∷ []) read_before
          (read-record_line e readable schema) in
      let ends =
        subst (λ l. ends_line l ≡ true) (append_assoc raw (h.stringify e) (newline ∷ []))
          (ends_line-append (raw ++ h.stringify e)) in
      (parse_audit_chain-ok h (raw ++ record_line e) (es ++ e ∷ [])).1 (
        inr ends,
        (
          subst (λ l. read_lines h l ≡ some (es ++ e ∷ [])) (sym after) read_after,
          IsIntact-append 1 none es e intact (ground arith) (link ∙ sym (last_or-last_hash es)) hash
              signed,
        ),
      )

  -- The record that `createAuditEnvelope` makes after a chain.
  abbrev pub next_envelope :
      List AuditEnvelope → Value → AuditRecordSource → Option AuditSigner → Option AuditEnvelope
  next_envelope es event source signer =
      create_audit_envelope h event (suc (length es)) (last_hash es) source signer

  create_audit_envelope-made :
      (event : Value) (sequence : ℕ) (previous : Option String)
      → (source : AuditRecordSource) (signer : Option AuditSigner) (e : AuditEnvelope)
      → create_audit_envelope h event sequence previous source signer ≡ some e
      → make_envelope h event sequence previous source signer ≡ e
  unfolding create_audit_envelope
  create_audit_envelope-made event sequence previous source signer e made = ground arith

  -- After an ok chain of records es, the record that createAuditEnvelope makes with the number after
  -- them and their last hash gives an ok chain of es and the record, if its line is read as the
  -- record, it matches the schema and no known key refutes its signature.
  pub parse_audit_chain-create :
      (raw : List ℕ) (es : List AuditEnvelope)
      → (event : Value) (source : AuditRecordSource) (signer : Option AuditSigner)
        (e : AuditEnvelope)
      → ((parse_audit_chain h raw).1.ok ≡ true) × ((parse_audit_chain h raw).0 ≡ es)
      → next_envelope es event source signer ≡ some e
      → IsReadable e
      → matches_schema h e ≡ true
      → is_bad h (signature_state h e) ≡ false
      → ((parse_audit_chain h (raw ++ record_line e)).1.ok ≡ true)
        × ((parse_audit_chain h (raw ++ record_line e)).0 ≡ es ++ e ∷ [])
  unfolding make_envelope
  parse_audit_chain-create raw es event source signer e ok made readable schema signed =
      let same =
        create_audit_envelope-made event (suc (length es)) (last_hash es) source signer e made in
      IsIntact-grow raw es e readable schema (sym (ap (λ x. x.sequence) same))
        (sym (ap (λ x. x.previous_hash) same))
        (subst (λ x. x.record_hash ≡ record_hash_of h x.sequence x.previous_hash x.event x.source)
          same refl)
        signed ok

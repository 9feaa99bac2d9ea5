-- ===== src/Evidence/AuditChain/Intact.antt =====
-- What an intact chain of src/evidence/audit-chain.ts is, and the check of one record.
use folder_forge.Base.{
  ℕ, ◌+◌, ◌≡◌, ◌↔◌, refl, sym, ◌∙◌, ap, String, Bool, true, false, not, ◌&&◌, Option, none, some,
  List, [], ◌∷◌, ◌++◌, all, arith, if◌then◌else◌, ◌==◌, nat_eq, string_eq, option_beq,
  option_beq_iff, Bool-cases, Option-cases, inl, inr,
}
use folder_forge.Evidence.AuditChain.{
  AuditHost, SignatureState, bad, Scan, record_hash_of, signature_state, matches_schema, issue_if,
  signature_issue, check_envelope, check_line, is_hard, is_clean,
}
use folder_forge.Evidence.Ports.{
  AuditEnvelope, AuditIssue, IssueCode, invalid_sequence, invalid_previous_hash,
  invalid_record_hash,
}

module _ (h : AuditHost) where
  abbrev pub is_bad : SignatureState h → Bool
  is_bad bad = true
  is_bad _ = false

  -- Each record has the next sequence number, the hash of the record before, and the hash of its own
  -- content; and a signature by a known key is valid.
  abbrev pub IsIntact : ℕ → Option String → List AuditEnvelope → Type 0
  IsIntact sequence previous [] = Unit
  IsIntact sequence previous (e ∷ rest) =
      ((e.sequence ≡ sequence)
        × (e.previous_hash ≡ previous)
        × (e.record_hash ≡ record_hash_of h e.sequence e.previous_hash e.event e.source)
        × (is_bad (signature_state h e) ≡ false))
      × IsIntact (e.sequence + 1) (some e.record_hash) rest

  -- The records of the lines that are not empty; `none` if one is no record of the schema.
  abbrev pub onto : AuditEnvelope → Option (List AuditEnvelope) → Option (List AuditEnvelope)
  onto e none = none
  onto e (some es) = some (e ∷ es)

  unfoldable pub read_lines : List (List ℕ) → Option (List AuditEnvelope)
  read_lines [] = some []
  read_lines ([] ∷ rest) = read_lines rest
  read_lines ((c ∷ cs) ∷ rest) =
      let later = read_lines rest in
      elim (h.parse (c ∷ cs)) [
        | none ↦ none
        | some e ↦ if matches_schema h e then onto e later else none
      ]

  all-append :
      {A : Type 0} (p : A → Bool) (xs ys : List A) → all p (xs ++ ys) ≡ all p xs && all p ys
  all-append p [] ys = refl
  all-append p (x ∷ xs) ys = ground (arith, all-append p xs ys)

  pub fits : Scan h → AuditEnvelope → Bool
  fits s e =
      e.sequence == s.expected_sequence
      && option_beq e.previous_hash s.previous_hash
      && e.record_hash == record_hash_of h e.sequence e.previous_hash e.event e.source
      && not (is_bad (signature_state h e))

  pub clean_issue :
      (b : Bool) (line : ℕ) (code : IssueCode)
      → is_hard h code ≡ true
      → is_clean h (issue_if h (not b) line code) ≡ b
  clean_issue true line code hard = refl
  clean_issue false line code hard = rw hard refl

  clean_signature :
      (state : SignatureState h) (line : ℕ)
      → is_clean h (signature_issue h state line) ≡ not (is_bad state)
  clean_signature state line = ground arith

  clean_tail :
      (a b c : Bool) (state : SignatureState h) (line : ℕ)
      → is_clean h (
          issue_if h (not a) line invalid_sequence
          ++ (issue_if h (not b) line invalid_previous_hash
              ++ (issue_if h (not c) line invalid_record_hash ++ signature_issue h state line)))
        ≡ (a && b && c && not (is_bad state))
  clean_tail true true true state line = ground arith
  clean_tail true true false state line = refl
  clean_tail true false c state line = refl
  clean_tail false b c state line = refl

  pub clean-check_envelope :
      (s : Scan h) (line : ℕ) (e : AuditEnvelope)
      → is_clean h (check_envelope h s line e).issues ≡ is_clean h s.issues && fits s e
  unfolding check_envelope fits
  clean-check_envelope s line e =
      all-append (λ i. not (is_hard h i.code)) s.issues _
      ∙ ap (λ b. is_clean h s.issues && b) (clean_tail _ _ _ (signature_state h e) line)

  pub fits_iff :
      (s : Scan h) (e : AuditEnvelope)
      → (fits s e ≡ true) ↔ (
          (e.sequence ≡ s.expected_sequence)
          × (e.previous_hash ≡ s.previous_hash)
          × (e.record_hash ≡ record_hash_of h e.sequence e.previous_hash e.event e.source)
          × (is_bad (signature_state h e) ≡ false))
  unfolding fits
  fits_iff s e = (
    (λ b. (
      ground arith,
      (option_beq_iff e.previous_hash s.previous_hash).0 (ground arith),
      (string_eq.equals_iff e.record_hash
            (record_hash_of h e.sequence e.previous_hash e.event e.source)).0
          (ground arith),
      ground arith,
    )),
    (λ v.
        let second = (option_beq_iff e.previous_hash s.previous_hash).1 v.1 in
        let third =
          (string_eq.equals_iff e.record_hash
              (record_hash_of h e.sequence e.previous_hash e.event e.source)).1
            v.2 in
        ground arith),
  )

  read_again :
      (e : AuditEnvelope) (o : Option (List AuditEnvelope)) (es : List AuditEnvelope)
      → onto e o ≡ some es
      → (rest : List AuditEnvelope) × ((o ≡ some rest) × (e ∷ rest ≡ es))
  read_again e none es eq = cc
  read_again e (some rest) es eq = (rest, (refl, ground arith))

  -- A line of a readable text is a record of the schema.
  pub read_first :
      (c : ℕ) (cs : List ℕ) (lines : List (List ℕ)) (es : List AuditEnvelope)
      → read_lines ((c ∷ cs) ∷ lines) ≡ some es
      → (e : AuditEnvelope) × ((h.parse (c ∷ cs) ≡ some e)
          × ((matches_schema h e ≡ true)
              × ((rest : List AuditEnvelope) × ((read_lines lines ≡ some rest) × (e ∷ rest ≡ es)))))
  unfolding read_lines
  read_first c cs lines es read = elim (Option-cases (h.parse (c ∷ cs))) [
    | inl b ↦ absurd (let e = rw (b, read_lines) at read in ground arith)
    | inr (e, b) ↦ elim (Bool-cases (matches_schema h e)) [
      | inl m ↦ (e, (b, (m, read_again e (read_lines lines) es (rw (b, m, read_lines) at read))))
      | inr m ↦ absurd (let f = rw (b, m, read_lines) at read in ground arith)
    ]
  ]

  pub check_record :
      (s : Scan h) (line c : ℕ) (cs : List ℕ) (e : AuditEnvelope)
      → h.parse (c ∷ cs) ≡ some e
      → matches_schema h e ≡ true
      → check_line h s line (c ∷ cs) ≡ check_envelope h s line e
  unfolding check_line
  check_record s line c cs e b m = rw (b, m, check_line) refl

  pub both : (a b : Bool) → a ≡ true → b ≡ true → a && b ≡ true
  both a b p q = ground arith

  pub halves : (a b : Bool) → a && b ≡ true → (a ≡ true) × (b ≡ true)
  halves a b e = ground arith

  pub not_clean :
      (issues : List AuditIssue) (line : ℕ) (code : IssueCode)
      → is_hard h code ≡ true
      → is_clean h (issues ++ record { line = line; code = code } ∷ []) ≡ true
      → ⊥
  not_clean issues line code hard e =
      let split =
        all-append (λ i. not (is_hard h i.code)) issues
          (record { line = line; code = code } ∷ []) in
      let last : not (is_hard h code) && true ≡ true =
        (halves (is_clean h issues) (not (is_hard h code) && true) (sym split ∙ e)).1 in
      ground arith

-- ===== src/Evidence/AuditChain/Verdict.antt =====
-- Which texts `parseAuditChain` of src/evidence/audit-chain.ts reports as ok.
use folder_forge.Base.{
  ℕ, suc, ◌+◌, ◌≡◌, ◌↔◌, ◌⊎◌, refl, sym, ◌∙◌, subst, Bool, true, not, ◌&&◌, none, some, List, [],
  ◌∷◌, ◌++◌, length, arith, ltb, max, nat_eq, string_eq, Bool-cases, Option-cases, inl, inr,
}
use mathlib.Core.List.{append-nil, append_assoc}
use folder_forge.Evidence.AuditChain.{
  AuditHost, Scan, start_scan, matches_schema, issue_if, check_envelope, check_line, check_lines,
  is_clean, torn_issue, split_lines, ends_line, scan, parse_audit_chain,
}
use folder_forge.Evidence.Ports.{AuditEnvelope, invalid_json, invalid_schema}
use folder_forge.Evidence.AuditChain.Intact.{
  IsIntact, read_lines, read_first, fits, fits_iff, clean-check_envelope, check_record, both,
  halves, not_clean, clean_issue,
}

module _ (h : AuditHost) where
  -- What the loop makes of lines that are readable and whose records are intact.
  check_lines-intact :
      (s : Scan h) (line : ℕ) (lines : List (List ℕ)) (es : List AuditEnvelope)
      → is_clean h s.issues ≡ true
      → read_lines h lines ≡ some es
      → IsIntact h s.expected_sequence s.previous_hash es
      → (is_clean h (check_lines h s line lines).issues ≡ true)
        × ((check_lines h s line lines).envelopes ≡ s.envelopes ++ es)
  unfolding check_lines read_lines
  check_lines-intact s line [] es clean read intact =
      let same : [] ≡ es = ground arith in
      (clean, subst (λ x. s.envelopes ≡ s.envelopes ++ x) same (sym (append-nil s.envelopes)))
  check_lines-intact s line ([] ∷ lines) es clean read intact =
      unfold check_line in check_lines-intact s (line + 1) lines es clean read intact
  check_lines-intact s line ((c ∷ cs) ∷ lines) es clean read intact =
      let (e, (b, (m, (rest, (read', same))))) = read_first h c cs lines es read in
      subst
        (λ t.
          (is_clean h (check_lines h t (line + 1) lines).issues ≡ true)
          × ((check_lines h t (line + 1) lines).envelopes ≡ s.envelopes ++ es))
        (sym (check_record h s line c cs e b m))
        (subst
          (λ l.
            (is_clean h (check_lines h (check_envelope h s line e) (line + 1) lines).issues ≡ true)
            × ((check_lines h (check_envelope h s line e) (line + 1) lines).envelopes
                ≡ s.envelopes ++ l))
          same
          (let v =
              subst (λ l. IsIntact h s.expected_sequence s.previous_hash l) (sym same) intact in
            let fit = (fits_iff h s e).1 v.0 in
            let still =
              clean-check_envelope h s line e
              ∙ both h (is_clean h s.issues) (fits h s e) clean fit in
            let later =
              check_lines-intact (check_envelope h s line e) (line + 1) lines rest still read'
                (unfold check_envelope in v.1) in
            (later.0, unfold check_envelope in later.1 ∙ append_assoc s.envelopes (e ∷ []) rest)))

  -- An ok report comes from such lines only.
  check_lines-clean :
      (s : Scan h) (line : ℕ) (lines : List (List ℕ))
      → is_clean h (check_lines h s line lines).issues ≡ true
      → (is_clean h s.issues ≡ true)
        × ((es : List AuditEnvelope) × ((read_lines h lines ≡ some es)
              × IsIntact h s.expected_sequence s.previous_hash es))
  unfolding check_lines read_lines
  check_lines-clean s line [] clean = (clean, ([], (refl, tt)))
  check_lines-clean s line ([] ∷ lines) clean =
      unfold check_line in check_lines-clean s (line + 1) lines clean
  check_lines-clean s line ((c ∷ cs) ∷ lines) clean =
      let (clean', (es, (read, intact))) =
        check_lines-clean (check_line h s line (c ∷ cs)) (line + 1) lines clean in
      elim (Option-cases (h.parse (c ∷ cs))) [
        | inl b ↦
            absurd (not_clean h s.issues line invalid_json refl (rw (b, check_line) at clean'))
        | inr (e, b) ↦ elim (Bool-cases (matches_schema h e)) [
          | inr m ↦
              absurd
                (not_clean h s.issues line invalid_schema refl (rw (b, m, check_line) at clean'))
          | inl m ↦
              let same = check_record h s line c cs e b m in
              let parts = halves h (is_clean h s.issues) (fits h s e) (
                sym (clean-check_envelope h s line e)
                ∙ subst (λ t. is_clean h t.issues ≡ true) same clean') in
              let chain =
                subst (λ t. IsIntact h t.expected_sequence t.previous_hash es) same intact in
              (
                parts.0,
                (
                  e ∷ es,
                  (
                    rw (b, m, read, read_lines) refl,
                    ((fits_iff h s e).0 parts.1, unfold check_envelope in chain),
                  ),
                ),
              )
        ]
      ]

  torn_flag :
      (n : ℕ) (b : Bool) (line : ℕ)
      → is_clean h (issue_if h (ltb 0 (suc n) && not b) line invalid_json) ≡ b
  torn_flag n b line =
      let positive : ltb 0 (suc n) ≡ true = ground arith in
      subst (λ t. is_clean h (issue_if h (t && not b) line invalid_json) ≡ b) (sym positive)
        (clean_issue h b line invalid_json refl)

  torn_iff :
      (raw : List ℕ)
      → (is_clean h (torn_issue h raw) ≡ true) ↔ ((raw ≡ []) ⊎ (ends_line raw ≡ true))
  unfolding torn_issue
  torn_iff [] = (λ e. inl refl, λ v. refl)
  torn_iff (c ∷ cs) =
      let flag =
        torn_flag (length cs) (ends_line (c ∷ cs)) (max 1 (length (split_lines [] (c ∷ cs)))) in
      (
        λ e. inr (sym flag ∙ e),
        λ v. flag ∙ elim v [ inl absent ↦ absurd (ground arith) | inr b ↦ b ],
      )

  -- A text is reported as ok, with these records, exactly if it is empty or ends a line, each of its
  -- lines that is not empty is a record of the schema, and these records in turn have the sequence
  -- numbers from 1, the hash of the record before, the hash of their own content, and no signature
  -- that a known key refutes.
  pub parse_audit_chain-ok :
      (raw : List ℕ) (es : List AuditEnvelope)
      → (((parse_audit_chain h raw).1.ok ≡ true) × ((parse_audit_chain h raw).0 ≡ es)) ↔ (
          ((raw ≡ []) ⊎ (ends_line raw ≡ true))
          × ((read_lines h (split_lines [] raw) ≡ some es) × IsIntact h 1 none es))
  unfolding parse_audit_chain scan
  parse_audit_chain-ok raw es = (
    (λ v.
        let (clean, (ys, (read, intact))) =
          check_lines-clean (start_scan h (torn_issue h raw)) 1 (split_lines [] raw) v.0 in
        let same =
          sym
            (check_lines-intact (start_scan h (torn_issue h raw)) 1 (split_lines [] raw) ys clean
              read intact).1
          ∙ v.1 in
        (
          (torn_iff raw).0 clean,
          subst (λ l. (read_lines h (split_lines [] raw) ≡ some l) × IsIntact h 1 none l) same
              (read, intact),
        )),
    (λ v.
        check_lines-intact (start_scan h (torn_issue h raw)) 1 (split_lines [] raw) es
          ((torn_iff raw).1 v.0) v.1.0 v.1.1),
  )

-- ===== src/Evidence/AuditChain/Tamper.antt =====
-- What a replaced record of a chain of src/evidence/audit-chain.ts would need.
use folder_forge.Base.{
  ℕ, ◌+◌, ◌≡◌, ◌⊎◌, sym, ◌∙◌, String, true, Option, none, some, List, [], ◌∷◌, ◌++◌, arith,
  string_eq, Bool-cases, inl, inr, ◌==◌,
}
use text.Mathlib.TextLemmas.{append_cancel_left}
use folder_forge.Json.{◌⧺◌}
use folder_forge.Evidence.AuditChain.{AuditHost, hash_payload, record_hash_of, parse_audit_chain}
use folder_forge.Evidence.Ports.{AuditEnvelope}
use folder_forge.Evidence.AuditChain.Intact.{IsIntact}
use folder_forge.Evidence.AuditChain.Verdict.{parse_audit_chain-ok}

module _ (h : AuditHost) where
  abbrev pub payload_of : AuditEnvelope → String
  payload_of e = hash_payload h e.sequence e.previous_hash e.event e.source

  -- Two texts with one SHA-256.
  abbrev pub IsCollision : String → String → Type 0
  IsCollision a b = (¬ (a ≡ b)) × (h.platform.sha256 a ≡ h.platform.sha256 b)

  -- The record at a place, and the record after it.
  IsIntact-pair :
      (n : ℕ) (previous : Option String) (front : List AuditEnvelope) (e next : AuditEnvelope)
      (rest : List AuditEnvelope)
      → IsIntact h n previous (front ++ e ∷ next ∷ rest)
      → (e.record_hash ≡ record_hash_of h e.sequence e.previous_hash e.event e.source)
        × (next.previous_hash ≡ some e.record_hash)
  IsIntact-pair n previous [] e next rest intact = (intact.0.2, intact.1.0.1)
  IsIntact-pair n previous (f ∷ front) e next rest intact =
      IsIntact-pair (f.sequence + 1) (some f.record_hash) front e next rest intact.1

  same_text :
      (a b : String)
      → "sha256:" ⧺ h.platform.sha256 a ≡ "sha256:" ⧺ h.platform.sha256 b
      → (a ≡ b) ⊎ IsCollision a b
  same_text a b same = elim (Bool-cases (a == b)) [
    | inl equal ↦ inl ((string_eq.equals_iff a b).0 equal)
    | inr other ↦ inr (
      (λ eq. let t = (string_eq.equals_iff a b).1 eq in ground arith),
      append_cancel_left "sha256:" (h.platform.sha256 a) (h.platform.sha256 b) same,
    )
  ]

  -- If a record of an ok chain is replaced, and the result is an ok chain in which the same record
  -- follows, then the hashed text of the record is the same or two texts with one SHA-256 are at hand.
  pub parse_audit_chain-replace :
      (before after : List ℕ) (front : List AuditEnvelope) (e f next : AuditEnvelope)
      (rest rest' : List AuditEnvelope)
      → (parse_audit_chain h before).1.ok ≡ true
      → (parse_audit_chain h before).0 ≡ front ++ e ∷ next ∷ rest
      → (parse_audit_chain h after).1.ok ≡ true
      → (parse_audit_chain h after).0 ≡ front ++ f ∷ next ∷ rest'
      → (payload_of e ≡ payload_of f) ⊎ IsCollision (payload_of e) (payload_of f)
  parse_audit_chain-replace before after front e f next rest rest' ok read ok' read' =
      let first =
        IsIntact-pair 1 none front e next rest
          (((parse_audit_chain-ok h before (front ++ e ∷ next ∷ rest)).0 (ok, read)).1.1) in
      let second =
        IsIntact-pair 1 none front f next rest'
          (((parse_audit_chain-ok h after (front ++ f ∷ next ∷ rest')).0 (ok', read')).1.1) in
      let hashes : e.record_hash ≡ f.record_hash =
        let same : some e.record_hash ≡ some f.record_hash = sym first.1 ∙ second.1 in
        ground arith in
      same_text (payload_of e) (payload_of f)
        (unfold record_hash_of in (sym first.0 ∙ hashes ∙ second.0))

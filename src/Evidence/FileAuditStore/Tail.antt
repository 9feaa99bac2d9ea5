-- ===== src/Evidence/FileAuditStore/Tail.antt =====
-- The end of the chain that src/evidence/file-audit-store.ts appends to.
use folder_forge.Base.{
  ℕ, suc, ◌+◌, ◌≡◌, refl, ◌∙◌, ap, subst, String, true, Option, none, some, List, [], ◌∷◌, length,
  arith, nat_eq,
}
use folder_forge.Evidence.AuditChain.{AuditHost, last_hash, parse_audit_chain}
use folder_forge.Evidence.Ports.{AuditEnvelope}
use folder_forge.Evidence.AuditChain.Intact.{IsIntact}
use folder_forge.Evidence.AuditChain.Verdict.{parse_audit_chain-ok}
use folder_forge.Evidence.FileAuditStore.{
  LiveFile, TailCache, ChainTail, byte_length, without_keys, tail_of,
}

-- Where the records end.
abbrev pub chain_end : List AuditEnvelope → ChainTail
chain_end es = record { sequence = length es; record_hash = last_hash es }

-- A cache that fits the file holds the end of the chain.
abbrev pub IsFresh : List AuditEnvelope → Option TailCache → LiveFile → Type 0
IsFresh es none f = Unit
IsFresh es (some c) f =
    c.size ≡ byte_length f.text
    → c.modified ≡ f.modified
    → (c.sequence ≡ length es) × (c.record_hash ≡ last_hash es)

-- The records of a sound store: its file, if any, is an ok chain of them.
abbrev pub IsSound : AuditHost → List AuditEnvelope → Option LiveFile → Option TailCache → Type 0
IsSound host es none cache = es ≡ []
IsSound host es (some f) cache =
    ((parse_audit_chain (without_keys host) f.text).1.ok ≡ true)
    × ((parse_audit_chain (without_keys host) f.text).0 ≡ es)
    × IsFresh es cache f

module _ (host : AuditHost) where
  IsIntact-tail_of :
      (n : ℕ) (previous : Option String) (e : AuditEnvelope) (es : List AuditEnvelope)
      → IsIntact host (suc n) previous (e ∷ es)
      → tail_of (e ∷ es)
        ≡ record { sequence = suc (n + length es); record_hash = last_hash (e ∷ es) }
  IsIntact-tail_of n previous e [] intact =
      ap (λ k. record { sequence = k; record_hash = some e.record_hash })
        (let first = intact.0.0 in ground arith)
  IsIntact-tail_of n previous e (f ∷ es) intact =
      IsIntact-tail_of (suc n) (some e.record_hash) f es (
        subst (λ k. IsIntact host k (some e.record_hash) (f ∷ es))
          (let first = intact.0.0 in ground arith) intact.1)
      ∙ ap (λ k. record { sequence = k; record_hash = last_hash (f ∷ es) }) (ground arith)

  pub ok-tail_of :
      (text : List ℕ) (es : List AuditEnvelope)
      → (parse_audit_chain host text).1.ok ≡ true
      → (parse_audit_chain host text).0 ≡ es
      → tail_of es ≡ chain_end es
  ok-tail_of text [] ok read = refl
  ok-tail_of text (e ∷ es) ok read =
      IsIntact-tail_of 0 none e es (((parse_audit_chain-ok host text (e ∷ es)).0 (ok, read)).1.1)
      ∙ ap (λ k. record { sequence = k; record_hash = last_hash (e ∷ es) }) (ground arith)

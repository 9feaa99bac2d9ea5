-- ===== src/Evidence/FileAuditStore/Damage.antt =====
-- What `append` of src/evidence/file-audit-store.ts does to a damaged chain.
use folder_forge.Base.{
  ℕ, ◌≡◌, ◌⊎◌, refl, ap, subst, String, Bool, true, false, ◌||◌, Option, none, some, List, [], ◌∷◌,
  length, arith, leb, ◌==◌, nat_eq, Bool-cases, inl, inr,
}
use folder_forge.Json.{Value}
use folder_forge.Evidence.AuditChain.{AuditHost, AuditSigner, ends_line, parse_audit_chain}
use folder_forge.Evidence.AuditChain.Verdict.{parse_audit_chain-ok}
use folder_forge.Evidence.FileAuditStore.{
  AuditStore, stored, LiveFile, Moment, byte_length, put_before, split_torn, without_keys,
  reread_tail, read_tail_for_append, rotate_if_oversized, repair_torn_tail, append_to_chain, append,
}

or_true : (b : Bool) → b || true ≡ true
or_true b = ground arith

split_torn-done : (xs : List ℕ) → (xs ≡ []) ⊎ (ends_line xs ≡ true) → split_torn xs ≡ (xs, [])
unfolding split_torn ends_line
split_torn-done [] done = refl
split_torn-done (c ∷ []) done = elim done [
  | inl absent ↦ absurd (ground arith)
  | inr ends ↦ rw ends refl
]
split_torn-done (c ∷ d ∷ cs) done =
    ap (λ v. put_before c v)
      (split_torn-done (d ∷ cs)
        (elim done [ inl absent ↦ absurd (ground arith) | inr ends ↦ inr ends ]))

module _ (host : AuditHost) (signer : Option AuditSigner) (max_file_bytes : ℕ) where
  damaged_whole :
      (text : List ℕ)
      → (parse_audit_chain (without_keys host) (split_torn text).0).1.ok ≡ false
      → (parse_audit_chain (without_keys host) text).1.ok ≡ false
  damaged_whole text damaged = elim (Bool-cases (parse_audit_chain (without_keys host) text).1.ok) [
    | inr bad ↦ bad
    | inl ok ↦
        let done =
          ((parse_audit_chain-ok (without_keys host) text
              (parse_audit_chain (without_keys host) text).0).0
            (ok, refl)).0 in
        subst (λ t. (parse_audit_chain (without_keys host) t.0).1.ok ≡ false)
          (split_torn-done text done) damaged
  ]

  repair_damaged :
      (at : Moment) (f : LiveFile) (others : List (String × List ℕ))
      → (parse_audit_chain (without_keys host) (split_torn f.text).0).1.ok ≡ false
      → repair_torn_tail host signer max_file_bytes at (stored (some f) others none)
        ≡ (stored (some f) others none, true)
  unfolding repair_torn_tail
  repair_damaged at f others damaged =
      let guard =
        or_true
          (byte_length f.text == 0 || ends_line f.text || length (split_torn f.text).1 == 0) in
      rw (damaged, guard) refl

  reread_damaged :
      (store : AuditStore) (f : LiveFile)
      → (parse_audit_chain (without_keys host) f.text).1.ok ≡ false
      → reread_tail host signer max_file_bytes store f ≡ (store, none)
  unfolding reread_tail
  reread_damaged store f damaged = rw damaged refl

  rotate_small :
      (at : Moment) (f : LiveFile) (others : List (String × List ℕ))
      → leb (byte_length f.text) max_file_bytes ≡ true
      → rotate_if_oversized host signer max_file_bytes at (stored (some f) others none)
        ≡ stored (some f) others none
  unfolding rotate_if_oversized
  rotate_small at f others small = rw small refl

  -- If the text up to the last newline is no ok chain, and the file is within maxFileBytes and read
  -- for the first time, then append throws and changes nothing.
  pub append-damaged :
      (at : Moment) (event : Value) (f : LiveFile) (others : List (String × List ℕ))
      → (parse_audit_chain (without_keys host) (split_torn f.text).0).1.ok ≡ false
      → leb (byte_length f.text) max_file_bytes ≡ true
      → append host signer max_file_bytes at event (stored (some f) others none)
        ≡ (stored (some f) others none, none)
  unfolding append append_to_chain read_tail_for_append
  append-damaged at event f others damaged small =
      let tail = reread_damaged (stored (some f) others none) f (damaged_whole f.text damaged) in
      rw (repair_damaged at f others damaged, rotate_small at f others small, tail) refl

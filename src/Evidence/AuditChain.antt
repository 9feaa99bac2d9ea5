-- ===== src/Evidence/AuditChain.antt =====
-- src/evidence/audit-chain.ts. A text is the list of its UTF-16
-- code units. `JSON.parse` is taken to give a value of the type that the code casts it to, in which the
-- event or the source may be missing; an issue is kept without its message.
pub mod Intact
pub mod Verdict
pub mod Growth
pub mod Tamper
use folder_forge.Base.{
  ℕ, suc, ◌+◌, ◌≡◌, String, Bool, true, false, not, ◌&&◌, ◌||◌, Option, none, some, List, [], ◌∷◌,
  ◌++◌, map, filter, length, all, max, if◌then◌else◌, ltb, leb, ◌==◌, nat_eq, string_eq, option_beq,
  is_some,
}
use folder_forge.Json.{
  Value, null, bool, num, str, obj, Fields, field, no_fields, field_of, Platform, canonical, ◌⧺◌,
}
use folder_forge.Evidence.Ports.{
  AuditRecordSource, AuditSignature, AuditEnvelope, IssueCode, invalid_json, invalid_schema,
  invalid_sequence, invalid_previous_hash, invalid_record_hash, unknown_signer, invalid_signature,
  AuditIssue, AuditReport,
}

-- `AuditSigner`
pub record AuditSigner : Type 0 where
  pub key_id : String
  pub sign : String → String

-- What the code takes of the language and of `node:crypto`: the public keys are those of the options
-- of a verification, and `verify_bytes` is false where the library throws.
pub record AuditHost : Type 0 where
  pub platform : Platform
  pub parse : List ℕ → Option AuditEnvelope
  pub stringify : AuditEnvelope → List ℕ
  pub public_keys : String → Option String
  pub verify_bytes : (payload key value : String) → Bool

abbrev pub newline : ℕ
newline = 10

-- The `\r` of a line break `\r\n`.
unfoldable pub strip_return : List ℕ → List ℕ
strip_return [] = []
strip_return (c ∷ []) = if c == 13 then [] else c ∷ []
strip_return (c ∷ d ∷ cs) = c ∷ strip_return (d ∷ cs)

-- `raw.split(/\r?\n/)`, with the line so far.
unfoldable pub split_lines : List ℕ → List ℕ → List (List ℕ)
unfolding strip_return
split_lines line [] = line ∷ []
split_lines line (c ∷ cs) =
    let next = strip_return line ∷ split_lines [] cs in
    let more = split_lines (line ++ c ∷ []) cs in if c == newline then next else more

-- `raw.endsWith('\n')`
unfoldable pub ends_line : List ℕ → Bool
ends_line [] = false
ends_line (c ∷ []) = c == newline
ends_line (c ∷ d ∷ cs) = ends_line (d ∷ cs)

-- `Number.MAX_SAFE_INTEGER`
abbrev pub max_safe : ℕ
max_safe = 9007199254740991

abbrev present : String → Option Value → Fields → Fields
present key none rest = rest
present key (some v) rest = field key v rest

abbrev map_value : {A : Type 0} → (A → Value) → Option A → Option Value
map_value f none = none
map_value f (some a) = some (f a)

-- `envelopes.at(-1)?.recordHash ?? null`
abbrev pub last_hash : List AuditEnvelope → Option String
last_hash [] = none
last_hash (e ∷ []) = some e.record_hash
last_hash (e ∷ f ∷ rest) = last_hash (f ∷ rest)

module _ (h : AuditHost) where
  unfoldable pub source_value : AuditRecordSource → Value
  source_value source = obj (
      field "kind" (str source.kind) (
        present "legacyFileSha256" (map_value str source.legacy_file_sha256) (
          present "legacyLine" (map_value (λ n. num (h.platform.decimal n)) source.legacy_line)
            (present "migratedAt" (map_value str source.migrated_at) no_fields))))

  abbrev or_null : Option Value → Value
  or_null none = null
  or_null (some v) = v

  -- The text of `auditHashPayload`.
  unfoldable pub hash_payload : ℕ → Option String → Option Value → Option AuditRecordSource → String
  unfolding source_value
  hash_payload sequence previous event source = canonical h.platform (
      obj (
        field "schemaVersion" (num "2") (
          field "sequence" (num (h.platform.decimal sequence)) (
            field "previousHash" (or_null (map_value str previous)) (
              field "event" (or_null event)
                (field "source" (or_null (map_value source_value source)) no_fields))))))

  unfoldable pub record_hash_of :
      ℕ → Option String → Option Value → Option AuditRecordSource → String
  unfolding hash_payload
  record_hash_of sequence previous event source =
      "sha256:" ⧺ h.platform.sha256 (hash_payload sequence previous event source)

  abbrev signature_of : Option AuditSigner → String → Option AuditSignature
  signature_of none hash = none
  signature_of (some signer) hash =
      some (record { algorithm = "ed25519"; key_id = signer.key_id; value = signer.sign hash })

  unfoldable pub make_envelope :
      Value → ℕ → Option String → AuditRecordSource → Option AuditSigner → AuditEnvelope
  unfolding record_hash_of
  make_envelope event sequence previous source signer =
      let hash = record_hash_of sequence previous (some event) (some source) in
      record {
        schema_version = 2;
        sequence = sequence;
        previous_hash = previous;
        event = some event;
        source = some source;
        record_hash = hash;
        signature = signature_of signer hash;
      }

  -- `createAuditEnvelope`; `none` is its exception.
  unfoldable pub create_audit_envelope :
      Value → ℕ → Option String → AuditRecordSource → Option AuditSigner → Option AuditEnvelope
  unfolding make_envelope
  create_audit_envelope event sequence previous source signer =
      if leb 1 sequence && leb sequence max_safe
      then some (make_envelope event sequence previous source signer)
      else none

  abbrev is_str : Option Value → Bool
  is_str (some (str s)) = true
  is_str _ = false

  -- What the loop of `parseAuditChain` carries.
  pub record Scan : Type 0 where
    pub envelopes : List AuditEnvelope
    pub issues : List AuditIssue
    pub expected_sequence : ℕ
    pub previous_hash : Option String
    pub signed_records : ℕ
    pub verified_signatures : ℕ
    pub unverified_signatures : ℕ

  abbrev pub start_scan : List AuditIssue → Scan
  start_scan issues = record {
    envelopes = [];
    issues = issues;
    expected_sequence = 1;
    previous_hash = none;
    signed_records = 0;
    verified_signatures = 0;
    unverified_signatures = 0;
  }

  unfoldable pub matches_schema : AuditEnvelope → Bool
  unfolding field_of
  matches_schema e =
      e.schema_version == 2
      && elim e.event [
        | some (obj fields) ↦ is_str (field_of "ts" fields) && is_str (field_of "type" fields)
        | _ ↦ false
      ]
      && elim e.source [
        | none ↦ false
        | some source ↦ source.kind == "native-v2" || source.kind == "legacy-v1-import"
      ]

  abbrev pub issue_if : Bool → ℕ → IssueCode → List AuditIssue
  issue_if true line code = record { line = line; code = code } ∷ []
  issue_if false line code = []

  pub data SignatureState : Type 0 where
    unsigned good unknown bad : SignatureState

  unfoldable pub signature_state : AuditEnvelope → SignatureState
  signature_state e = elim e.signature [
    | none ↦ unsigned
    | some s ↦ elim (h.public_keys s.key_id) [
      | none ↦ unknown
      | some key ↦ if h.verify_bytes e.record_hash key s.value then good else bad
    ]
  ]

  abbrev pub signature_issue : SignatureState → ℕ → List AuditIssue
  signature_issue unknown line = record { line = line; code = unknown_signer } ∷ []
  signature_issue bad line = record { line = line; code = invalid_signature } ∷ []
  signature_issue _ line = []

  abbrev tally : (SignatureState → Bool) → SignatureState → ℕ → ℕ
  tally counts state n = if counts state then suc n else n

  abbrev is_signed : SignatureState → Bool
  is_signed unsigned = false
  is_signed _ = true

  abbrev is_good : SignatureState → Bool
  is_good good = true
  is_good _ = false

  abbrev is_unknown : SignatureState → Bool
  is_unknown unknown = true
  is_unknown _ = false

  -- The checks of a record that matches the schema.
  unfoldable pub check_envelope : Scan → ℕ → AuditEnvelope → Scan
  unfolding record_hash_of signature_state
  check_envelope s line e =
      let hash = record_hash_of e.sequence e.previous_hash e.event e.source in
      let state = signature_state e in
      record {
        envelopes = s.envelopes ++ e ∷ [];
        issues =
            s.issues
            ++ (issue_if (not (e.sequence == s.expected_sequence)) line invalid_sequence
                ++ (issue_if (not (option_beq e.previous_hash s.previous_hash)) line
                      invalid_previous_hash
                    ++ (issue_if (not (e.record_hash == hash)) line invalid_record_hash
                        ++ signature_issue state line)));
        expected_sequence = e.sequence + 1;
        previous_hash = some e.record_hash;
        signed_records = tally is_signed state s.signed_records;
        verified_signatures = tally is_good state s.verified_signatures;
        unverified_signatures = tally is_unknown state s.unverified_signatures;
      }

  unfoldable pub check_line : Scan → ℕ → List ℕ → Scan
  unfolding check_envelope matches_schema
  check_line s line [] = s
  check_line s line (c ∷ cs) = elim (h.parse (c ∷ cs)) [
    | none ↦ record s { issues = s.issues ++ record { line = line; code = invalid_json } ∷ [] }
    | some e ↦
        if matches_schema e
        then check_envelope s line e
        else record s { issues = s.issues ++ record { line = line; code = invalid_schema } ∷ [] }
  ]

  unfoldable pub check_lines : Scan → ℕ → List (List ℕ) → Scan
  unfolding check_line
  check_lines s line [] = s
  check_lines s line (text ∷ rest) = check_lines (check_line s line text) (line + 1) rest

  abbrev pub is_hard : IssueCode → Bool
  is_hard unknown_signer = false
  is_hard _ = true

  -- No issue but those of unknown signers.
  abbrev pub is_clean : List AuditIssue → Bool
  is_clean issues = all (λ i. not (is_hard i.code)) issues

  unfoldable pub torn_issue : List ℕ → List AuditIssue
  unfolding ends_line split_lines
  torn_issue raw =
      issue_if (ltb 0 (length raw) && not (ends_line raw)) (max 1 (length (split_lines [] raw)))
        invalid_json

  unfoldable pub scan : List ℕ → Scan
  unfolding check_lines torn_issue split_lines
  scan raw = check_lines (start_scan (torn_issue raw)) 1 (split_lines [] raw)

  unfoldable pub parse_audit_chain : List ℕ → List AuditEnvelope × AuditReport
  unfolding scan
  parse_audit_chain raw =
      let s = scan raw in
      (
        s.envelopes,
        record {
          ok = is_clean s.issues;
          records = length s.envelopes;
          head_hash = last_hash s.envelopes;
          signed_records = s.signed_records;
          verified_signatures = s.verified_signatures;
          unverified_signatures = s.unverified_signatures;
          issues = s.issues;
        },
      )

  unfoldable pub verify_audit_chain : List ℕ → AuditReport
  unfolding parse_audit_chain
  verify_audit_chain raw = (parse_audit_chain raw).1

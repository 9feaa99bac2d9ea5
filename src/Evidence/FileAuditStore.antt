-- ===== src/Evidence/FileAuditStore.antt =====
-- src/evidence/file-audit-store.ts. A file is its text, decoded, with its modification time: what
-- `readFileSync` with utf8 reads and `writeFileSync` writes back. Bytes of a character that was torn
-- midway are U+FFFD in the text, and a rewritten file and its quarantine hold the text's bytes. The clock's
-- readings come with the call. Every system call is taken to succeed, a write to be whole, and the writer
-- lock to be held.
pub mod Tail
pub mod Append
pub mod Repair
pub mod Damage
use folder_forge.Base.{
  ℕ, suc, ◌+◌, ◌≡◌, String, Bool, true, false, not, ◌&&◌, ◌||◌, Option, none, some, List, [], ◌∷◌,
  ◌++◌, length, if◌then◌else◌, ltb, leb, ◌==◌, nat_eq, string_eq, insert,
}
use folder_forge.Json.{Value, null, num, str, obj, Fields, field, no_fields, ◌⧺◌}
use folder_forge.Evidence.AuditChain.{
  AuditHost, AuditSigner, newline, ends_line, create_audit_envelope, parse_audit_chain,
}
use folder_forge.Evidence.Ports.{AuditEnvelope, AuditReport, AuditRecordSource}

pub record LiveFile : Type 0 where
  pub text : List ℕ
  pub modified : ℕ

-- `tailCache`
pub record TailCache : Type 0 where
  pub sequence : ℕ
  pub record_hash : Option String
  pub size : ℕ
  pub modified : ℕ

-- The live chain, and the other files of its directory.
pub record AuditStore : Type 0 where
  pub live : Option LiveFile
  pub others : List (String × List ℕ)
  pub tail_cache : Option TailCache

-- The clock's readings of a call, as the code formats them, and the times of the files that it writes.
pub record Moment : Type 0 where
  pub repair_stamp : String
  pub marker_ts : String
  pub rotate_stamp : String
  pub repaired : ℕ
  pub written : ℕ

pub record ChainTail : Type 0 where
  pub sequence : ℕ
  pub record_hash : Option String

abbrev pub stored : Option LiveFile → List (String × List ℕ) → Option TailCache → AuditStore
stored live others cache = record { live = live; others = others; tail_cache = cache }

abbrev is_high : ℕ → Bool
is_high c = leb 55296 c && leb c 56319

abbrev is_low : ℕ → Bool
is_low c = leb 56320 c && leb c 57343

abbrev unit_bytes : ℕ → ℕ
unit_bytes c = if ltb c 128 then 1 else if ltb c 2048 then 2 else 3

-- The size of a text in UTF-8.
unfoldable pub byte_length : List ℕ → ℕ
byte_length [] = 0
byte_length (c ∷ []) = unit_bytes c
byte_length (c ∷ d ∷ cs) =
    let pair = 4 + byte_length cs in
    let one = unit_bytes c + byte_length (d ∷ cs) in if is_high c && is_low d then pair else one

-- A unit before the text up to the last newline, and before the rest.
abbrev pub put_before : ℕ → List ℕ × List ℕ → List ℕ × List ℕ
put_before c ([], torn) = if c == newline then (c ∷ [], torn) else ([], c ∷ torn)
put_before c (p ∷ ps, torn) = (c ∷ p ∷ ps, torn)

-- The text up to its last newline, and the rest.
unfoldable pub split_torn : List ℕ → List ℕ × List ℕ
split_torn [] = ([], [])
split_torn (c ∷ cs) = put_before c (split_torn cs)

abbrev pub last_envelope : List AuditEnvelope → Option AuditEnvelope
last_envelope [] = none
last_envelope (e ∷ []) = some e
last_envelope (e ∷ f ∷ rest) = last_envelope (f ∷ rest)

abbrev pub native_source : AuditRecordSource
native_source = record {
  kind = "native-v2";
  legacy_file_sha256 = none;
  legacy_line = none;
  migrated_at = none;
}

-- A store verifies without public keys.
abbrev pub without_keys : AuditHost → AuditHost
without_keys host = record host { public_keys = λ k. none }

abbrev pub tail_of : List AuditEnvelope → ChainTail
tail_of es = elim (last_envelope es) [
  | none ↦ record { sequence = 0; record_hash = none }
  | some e ↦ record { sequence = e.sequence; record_hash = some e.record_hash }
]

abbrev pub cached_tail : TailCache → ChainTail
cached_tail c = record { sequence = c.sequence; record_hash = c.record_hash }

abbrev pub quarantine_name : Moment → String
quarantine_name at = "audit.v2.torn-" ⧺ at.repair_stamp ⧺ ".jsonl"

module _ (host : AuditHost) (signer : Option AuditSigner) (max_file_bytes : ℕ) where
  unfoldable pub read_raw : AuditStore → List ℕ
  read_raw store = elim store.live [ none ↦ [] | some f ↦ f.text ]

  unfoldable pub verify : AuditStore → AuditReport
  unfolding read_raw
  verify store = (parse_audit_chain (without_keys host) (read_raw store)).1

  -- The tail that is read anew from the file; `none` is the exception of a damaged chain.
  unfoldable pub reread_tail : AuditStore → LiveFile → AuditStore × Option ChainTail
  reread_tail store f =
      let (envelopes, report) = parse_audit_chain (without_keys host) f.text in
      let tail = tail_of envelopes in
      if not report.ok then (store, none) else (
        record store {
          tail_cache = some (record {
            sequence = tail.sequence;
            record_hash = tail.record_hash;
            size = byte_length f.text;
            modified = f.modified;
          });
        },
        some tail,
      )

  unfoldable pub read_tail_for_append : AuditStore → AuditStore × Option ChainTail
  unfolding reread_tail
  read_tail_for_append store = elim store.live [
    | none ↦
        (record store { tail_cache = none }, some (record { sequence = 0; record_hash = none }))
    | some f ↦ elim store.tail_cache [
      | none ↦ reread_tail store f
      | some c ↦
          if c.size == byte_length f.text && c.modified == f.modified
          then (store, some (cached_tail c))
          else reread_tail store f
    ]
  ]

  unfoldable pub rotate_if_oversized : Moment → AuditStore → AuditStore
  rotate_if_oversized at store = elim store.live [
    | none ↦ store
    | some f ↦ if leb (byte_length f.text) max_file_bytes then store else record {
      live = none;
      others = insert ("audit.v2." ⧺ at.rotate_stamp ⧺ ".jsonl") f.text store.others;
      tail_cache = none;
    }
  ]

  abbrev or_null : Option String → Value
  or_null none = null
  or_null (some s) = str s

  -- The event of a repair's marker.
  unfoldable pub repair_event : Moment → ℕ → Option String → Value
  repair_event at torn_bytes head = obj (
      field "ts" (str at.marker_ts) (
        field "type" (str "audit_repair") (
          field "summary"
            (str (
              "Quarantined a torn audit tail ("
              ⧺ host.platform.decimal torn_bytes
              ⧺ " bytes) left by an interrupted write; "
              ⧺ "the chain resumes from the last complete record."))
            (field "detail"
              (obj (
                field "quarantine" (str (quarantine_name at)) (
                  field "tornBytes" (num (host.platform.decimal torn_bytes))
                    (field "resumedFromHash" (or_null head) no_fields))))
              no_fields))))

  -- The text that replaces the torn one; false is the exception that `createAuditEnvelope` throws.
  abbrev pub store_marker : Moment → AuditStore → List ℕ → Option AuditEnvelope → AuditStore × Bool
  store_marker at store prefix none = (store, false)
  store_marker at store prefix (some marker) = (
    record {
      live = some (record {
        text = prefix ++ (host.stringify marker ++ newline ∷ []);
        modified = at.repaired;
      });
      others = store.others;
      tail_cache = none;
    },
    true,
  )

  abbrev pub replace_torn : Moment → AuditStore → List ℕ → List ℕ → AuditReport → AuditStore × Bool
  replace_torn at store prefix torn report =
      store_marker at (record store { others = insert (quarantine_name at) torn store.others })
        prefix
        (create_audit_envelope (without_keys host)
          (repair_event at (byte_length torn) report.head_hash) (report.records + 1)
          report.head_hash native_source signer)

  unfoldable pub repair_torn_tail : Moment → AuditStore → AuditStore × Bool
  repair_torn_tail at store = elim store.live [
    | none ↦ (store, true)
    | some f ↦
        let (prefix, torn) = split_torn f.text in
        let report = (parse_audit_chain (without_keys host) prefix).1 in
        if byte_length f.text == 0 || ends_line f.text || length torn == 0 || not report.ok
        then (store, true)
        else replace_torn at store prefix torn report
  ]

  -- `append`; `none` is an exception.
  unfoldable pub write_record : Moment → AuditStore → AuditEnvelope → AuditStore
  unfolding read_raw
  write_record at store e =
      let text = read_raw store ++ (host.stringify e ++ newline ∷ []) in
      record store {
        live = some (record { text = text; modified = at.written });
        tail_cache = some (record {
          sequence = e.sequence;
          record_hash = some e.record_hash;
          size = byte_length text;
          modified = at.written;
        });
      }

  abbrev pub append_created :
      Moment → AuditStore → Option AuditEnvelope → AuditStore × Option AuditEnvelope
  append_created at store none = (store, none)
  append_created at store (some e) = (write_record at store e, some e)

  abbrev pub append_after :
      Moment → Value → AuditStore → Option ChainTail → AuditStore × Option AuditEnvelope
  append_after at event store none = (store, none)
  append_after at event store (some t) = append_created at store (
      create_audit_envelope (without_keys host) event (t.sequence + 1) t.record_hash native_source
        signer)

  unfoldable pub append_to_chain : Moment → Value → AuditStore → AuditStore × Option AuditEnvelope
  unfolding write_record read_tail_for_append rotate_if_oversized
  append_to_chain at event store =
      let (read, tail) = read_tail_for_append (rotate_if_oversized at store) in
      append_after at event read tail

  unfoldable pub append : Moment → Value → AuditStore → AuditStore × Option AuditEnvelope
  unfolding append_to_chain repair_torn_tail
  append at event store =
      let (repaired, ok) = repair_torn_tail at store in
      if ok then append_to_chain at event repaired else (repaired, none)

  -- `preflight`; false is an exception.
  unfoldable pub preflight : Moment → AuditStore → AuditStore × Bool
  unfolding verify repair_torn_tail
  preflight at store =
      let (repaired, ok) = repair_torn_tail at store in
      let opened : AuditStore = elim repaired.live [
        | none ↦ record repaired { live = some (record { text = []; modified = at.written }) }
        | some f ↦ repaired
      ] in
      if ok then (opened, (verify opened).ok) else (repaired, false)

-- ===== src/Examples/Audit.antt =====
-- Runs of the audit chain of src/evidence.
use folder_forge.Base.{
  ℕ, ◌≡◌, ◌⊎◌, refl, String, true, false, Option, none, some, List, [], ◌∷◌, inr, lookup, string_eq,
  nat_eq, arith, ◌==◌, if◌then◌else◌,
}
use folder_forge.Json.{Value, str, obj, field, no_fields, Platform, canonical}
use folder_forge.Evidence.AuditChain.{
  AuditHost, make_envelope, parse_audit_chain, split_lines, ends_line, matches_schema,
  signature_state,
}
use folder_forge.Evidence.Ports.{AuditEnvelope}
use folder_forge.Evidence.AuditChain.Intact.{read_lines}
use folder_forge.Evidence.AuditChain.Verdict.{parse_audit_chain-ok}
use folder_forge.Evidence.AuditChain.Tamper.{payload_of, IsCollision, parse_audit_chain-replace}
use folder_forge.Evidence.FileAuditStore.{
  stored, Moment, native_source, byte_length, split_torn, append, repair_torn_tail, quarantine_name,
  repair_event,
}
use folder_forge.Evidence.FileAuditStore.Tail.{IsSound}
use folder_forge.Evidence.FileAuditStore.Append.{append-IsSound}
use folder_forge.Evidence.FileAuditStore.Repair.{repair_torn_tail-IsSound}
use folder_forge.Evidence.FileAuditStore.Damage.{append-damaged}

-- A hash function that does not tell texts apart.
abbrev pub platform : Platform
platform = record {
  quote = λ s. s;
  locale_le = λ a b. true;
  sha256 = λ s. "0";
  slice = λ n s. s;
  decimal = λ n. "n";
}

abbrev hashing : AuditHost
hashing = record {
  platform = platform;
  parse = λ text. none;
  stringify = λ e. [];
  public_keys = λ k. none;
  verify_bytes = λ payload key value. false;
}

abbrev event : String → Value
event ts = obj (field "ts" (str ts) (field "type" (str "tool") no_fields))

abbrev first : AuditEnvelope
first = make_envelope hashing (event "a") 1 none native_source none

abbrev forged : AuditEnvelope
forged = make_envelope hashing (event "b") 1 none native_source none

abbrev second : AuditEnvelope
second = make_envelope hashing (event "c") 2 (some "sha256:0") native_source none

abbrev at : Moment
at = record { repair_stamp = "r"; marker_ts = "m"; rotate_stamp = "o"; repaired = 7; written = 9 }

abbrev marker : AuditEnvelope
marker =
    make_envelope hashing (repair_event hashing none 100 at 2 (some "sha256:0")) 2 (some "sha256:0")
      native_source none

-- The line of a record is a letter.
abbrev parse_letter : List ℕ → Option AuditEnvelope
parse_letter (c ∷ []) =
    if c == 65
    then some first
    else if c == 66
    then some forged
    else if c == 67
    then some second
    else if c == 77
    then some marker
    else none
parse_letter _ = none

abbrev event_letter : Option Value → List ℕ
event_letter (some (obj (field k (str ts) rest))) =
    if ts == "a"
    then 65 ∷ []
    else if ts == "b"
    then 66 ∷ []
    else if ts == "c"
    then 67 ∷ []
    else 77 ∷ []
event_letter _ = []

abbrev host : AuditHost
host = record hashing { parse = parse_letter; stringify = λ e. event_letter e.event }

parse_audit_chain-ok_example :
    ((parse_audit_chain host (65 ∷ 10 ∷ 67 ∷ 10 ∷ [])).1.ok ≡ true)
    × ((parse_audit_chain host (65 ∷ 10 ∷ 67 ∷ 10 ∷ [])).0 ≡ first ∷ second ∷ [])
unfolding split_lines read_lines make_envelope canonical signature_state matches_schema ends_line
parse_audit_chain-ok_example =
    (parse_audit_chain-ok host (65 ∷ 10 ∷ 67 ∷ 10 ∷ []) (first ∷ second ∷ [])).1
      (inr refl, (refl, ((refl, refl, refl, refl), ((refl, refl, refl, refl), tt))))

parse_audit_chain-replace_example :
    (payload_of host first ≡ payload_of host forged)
    ⊎ IsCollision host (payload_of host first) (payload_of host forged)
unfolding parse_audit_chain make_envelope canonical signature_state matches_schema
parse_audit_chain-replace_example =
    parse_audit_chain-replace host (65 ∷ 10 ∷ 67 ∷ 10 ∷ []) (66 ∷ 10 ∷ 67 ∷ 10 ∷ []) [] first forged
      second [] [] refl refl refl refl

append-IsSound_example :
    let out =
      append host none 100 at
        (event "c")
        (stored (some (record { text = 65 ∷ 10 ∷ []; modified = 3 })) [] none) in
    (out.1 ≡ some second) × IsSound host (first ∷ second ∷ []) out.0.live out.0.tail_cache
unfolding parse_audit_chain make_envelope canonical signature_state matches_schema byte_length
append-IsSound_example =
    append-IsSound host none 100 at (event "c")
      (stored (some (record { text = 65 ∷ 10 ∷ []; modified = 3 })) [] none) (first ∷ [])
      (refl, refl, tt) (ground arith) (67, ([], (refl, refl, refl))) refl

repair_torn_tail-IsSound_example :
    let out =
      repair_torn_tail host none 100 at
        (stored (some (record { text = 65 ∷ 10 ∷ 66 ∷ 67 ∷ []; modified = 3 })) [] none) in
    (out.1 ≡ true)
    × (lookup (quarantine_name at) out.0.others ≡ some (66 ∷ 67 ∷ []))
    × IsSound host (first ∷ marker ∷ []) out.0.live out.0.tail_cache
unfolding parse_audit_chain make_envelope canonical signature_state matches_schema byte_length
    repair_event
repair_torn_tail-IsSound_example =
    repair_torn_tail-IsSound host none 100 at [] none (65 ∷ 10 ∷ []) 66 (67 ∷ []) 3 (first ∷ [])
      (refl, refl) refl (ground arith) (77, ([], (refl, refl, refl))) refl

append-damaged_example :
    append host none 100 at
      (event "c")
      (stored (some (record { text = 67 ∷ 10 ∷ 65 ∷ []; modified = 3 })) [] none)
    ≡ (stored (some (record { text = 67 ∷ 10 ∷ 65 ∷ []; modified = 3 })) [] none, none)
unfolding parse_audit_chain make_envelope canonical signature_state matches_schema byte_length
    split_torn
append-damaged_example =
    append-damaged host none 100 at (event "c") (record { text = 67 ∷ 10 ∷ 65 ∷ []; modified = 3 })
      [] refl refl

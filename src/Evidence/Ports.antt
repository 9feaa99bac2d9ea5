-- ===== src/Evidence/Ports.antt =====
-- The types of src/evidence/ports.ts. An issue is kept without its message.
use folder_forge.Base.{ℕ, String, Bool, Option, List}
use folder_forge.Json.{Value}

-- `AuditRecordSource`
pub record AuditRecordSource : Type 0 where
  pub kind : String
  pub legacy_file_sha256 : Option String
  pub legacy_line : Option ℕ
  pub migrated_at : Option String

pub record AuditSignature : Type 0 where
  pub algorithm : String
  pub key_id : String
  pub value : String

pub record AuditEnvelope : Type 0 where
  pub schema_version : ℕ
  pub sequence : ℕ
  pub previous_hash : Option String
  pub event : Option Value
  pub source : Option AuditRecordSource
  pub record_hash : String
  pub signature : Option AuditSignature

pub data IssueCode : Type 0 where
  invalid_json invalid_schema invalid_sequence invalid_previous_hash invalid_record_hash : IssueCode
  unknown_signer invalid_signature : IssueCode

pub record AuditIssue : Type 0 where
  pub line : ℕ
  pub code : IssueCode

pub record AuditReport : Type 0 where
  pub ok : Bool
  pub records : ℕ
  pub head_hash : Option String
  pub signed_records : ℕ
  pub verified_signatures : ℕ
  pub unverified_signatures : ℕ
  pub issues : List AuditIssue

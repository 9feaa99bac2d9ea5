-- ===== src/Policy/Approvals/Binding.antt =====
-- `approvalBinding` and `bindingKey` of src/policy/approvals.ts.
use folder_forge.Base.{
  String, Bool, ◌||◌, Option, none, some, if◌then◌else◌, ◌==◌, string_eq, is_some,
}
use folder_forge.Core.{ToolPrincipal}
use folder_forge.Json.{Value, str, obj, Fields, no_fields, field, Platform, canonical, ◌⧺◌}

pub record ApprovalBinding : Type 0 where
  pub principal_id : String
  pub client_id : Option String
  pub project_id : Option String
  pub session_id : Option String
  pub capsule_id : Option String
  pub task_id : Option String

-- `...(v ? { k: v } : {})`: an empty text is left out
abbrev pub present : Option String → Option String
present none = none
present (some v) = if v == "" then none else some v

unfoldable pub approval_binding : ToolPrincipal → ApprovalBinding
approval_binding principal = record {
  principal_id = principal.id;
  client_id = present principal.oauth_client_id;
  project_id = present principal.project_id;
  session_id = present principal.session_id;
  capsule_id = present principal.capsule_id;
  task_id = present principal.task_id;
}

abbrev optional_field : String → Option String → Fields → Fields
optional_field k none rest = rest
optional_field k (some v) rest = field k (str v) rest

-- The binding as the object that `canonical` prints.
abbrev pub binding_value : ApprovalBinding → Value
binding_value b = obj (
    field "principalId" (str b.principal_id) (
      optional_field "clientId" b.client_id (
        optional_field "projectId" b.project_id (
          optional_field "sessionId" b.session_id (
            optional_field "capsuleId" b.capsule_id
              (optional_field "taskId" b.task_id no_fields))))))

abbrev pub is_contextual : ApprovalBinding → Bool
is_contextual b =
    is_some b.client_id
    || is_some b.project_id
    || is_some b.session_id
    || is_some b.capsule_id
    || is_some b.task_id

unfoldable pub binding_key : Platform → ApprovalBinding → String
binding_key p b =
    if is_contextual b
    then "binding:sha256:" ⧺ p.sha256 (canonical p (binding_value b))
    else b.principal_id

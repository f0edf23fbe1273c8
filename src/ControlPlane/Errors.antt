-- ===== src/ControlPlane/Errors.antt =====
-- packages/control-plane/src/errors.ts, whole: the codes of the errors that a request may end with, the status
-- of each, and the answer that `writeError` sends.
use serverless_harness.Base.{
  ℕ, String, Bool, true, false, Option, none, some, ◌==◌, if◌then◌else◌, string_key,
}
use serverless_harness.Harness.Json.{Json, string, object, Fields, no_fields, with_field}

pub data CpErrorCode : Type 0 where
  invalid_json invalid_request token_required token_invalid token_expired : CpErrorCode
  subject_conflict unauthorized forbidden session_not_found session_mismatch : CpErrorCode
  credential_required credential_ambiguous credential_not_found : CpErrorCode
  credential_unavailable endpoint_unresolved authorization_pending : CpErrorCode
  identity_provider_misconfigured redis_unavailable internal_error : CpErrorCode

-- The code as it is sent.
unfoldable pub code_text : CpErrorCode → String
code_text invalid_json = "invalid_json"
code_text invalid_request = "invalid_request"
code_text token_required = "token_required"
code_text token_invalid = "token_invalid"
code_text token_expired = "token_expired"
code_text subject_conflict = "subject_conflict"
code_text unauthorized = "unauthorized"
code_text forbidden = "forbidden"
code_text session_not_found = "session_not_found"
code_text session_mismatch = "session_mismatch"
code_text credential_required = "credential_required"
code_text credential_ambiguous = "credential_ambiguous"
code_text credential_not_found = "credential_not_found"
code_text credential_unavailable = "credential_unavailable"
code_text endpoint_unresolved = "endpoint_unresolved"
code_text authorization_pending = "authorization_pending"
code_text identity_provider_misconfigured = "identity_provider_misconfigured"
code_text redis_unavailable = "redis_unavailable"
code_text internal_error = "internal_error"

unfoldable pub status_for : CpErrorCode → ℕ
status_for invalid_json = 400
status_for invalid_request = 400
status_for token_required = 401
status_for token_invalid = 401
status_for token_expired = 401
status_for subject_conflict = 400
status_for unauthorized = 401
status_for forbidden = 403
status_for session_not_found = 404
status_for session_mismatch = 400
status_for credential_required = 400
status_for credential_ambiguous = 400
status_for credential_not_found = 404
status_for credential_unavailable = 503
status_for endpoint_unresolved = 400
status_for authorization_pending = 428
status_for identity_provider_misconfigured = 502
status_for redis_unavailable = 503
status_for internal_error = 500

-- `message` is the code where the constructor is given none.
pub record CpError : Type 0 where
  pub code : CpErrorCode
  pub message : String
  pub session_id : Option String

-- What may be thrown: an error of this kind, or any other value. Nothing here reads the text of the other.
pub data Thrown : Type 0 where
  cp : CpError → Thrown
  unrecognised : Thrown

abbrev pub message_or : CpErrorCode → Option String → String
message_or code none = code_text code
message_or code (some message) = message

abbrev pub cp_error : CpErrorCode → Option String → Option String → Thrown
cp_error code message session_id =
    cp (record { code = code; message = message_or code message; session_id = session_id })

-- An error with a message and no session.
abbrev pub refusal : CpErrorCode → String → Thrown
refusal code message = cp_error code (some message) none

abbrev pub is_empty : String → Bool
is_empty s = s == ""

-- `if (value) body.name = value`
abbrev pub field_unless : Bool → String → String → Fields
field_unless absent name value =
    if absent then no_fields else with_field name (string value) no_fields

abbrev pub session_fields : Option String → Fields
session_fields none = no_fields
session_fields (some id) = field_unless (is_empty id) "sessionId" id

abbrev pub message_is_left_out : CpError → Bool
message_is_left_out e = if is_empty e.message then true else e.message == code_text e.code

unfoldable pub error_body : CpError → Json
error_body e = object (
    with_field "error" (string (code_text e.code)) (
      if message_is_left_out e
      then session_fields e.session_id
      else with_field "message" (string e.message) (session_fields e.session_id)))

-- The status and the body that are written, `none` where the headers are sent already.
unfoldable pub write_error : Bool → Thrown → Option (ℕ × Json)
unfolding error_body status_for
write_error true thrown = none
write_error false (cp e) = some (status_for e.code, error_body e)
write_error false unrecognised =
    some (500, object (with_field "error" (string "internal_error") no_fields))

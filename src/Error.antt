-- ===== src/Error.antt =====
-- src/shared/error.rs: the errors of the machine-to-machine endpoints and their HTTP form.
use sharp_oauth.Prelude.{ℕ, Bool, true, false, String, Option, none, some}

-- `sea_orm::DbErr`, as far as the code tells its cases apart (`DbErr::sql_err`).
pub data DbErr : Type 0 where
  unique_violation failed : DbErr

pub data AppError : Type 0 where
  invalid_request : String → AppError
  invalid_client : AppError
  invalid_grant : String → AppError
  unauthorized_client : String → AppError
  unsupported_grant_type : AppError
  invalid_scope : String → AppError
  database : DbErr → AppError
  internal : AppError

unfoldable pub code : AppError → String
code (invalid_request _) = "invalid_request"
code invalid_client = "invalid_client"
code (invalid_grant _) = "invalid_grant"
code (unauthorized_client _) = "unauthorized_client"
code unsupported_grant_type = "unsupported_grant_type"
code (invalid_scope _) = "invalid_scope"
code (database _) = "server_error"
code internal = "server_error"

unfoldable pub description : AppError → Option String
description (invalid_request d) = some d
description (invalid_grant d) = some d
description (unauthorized_client d) = some d
description (invalid_scope d) = some d
description invalid_client = some "client authentication failed"
description unsupported_grant_type =
    some "supported grant types are authorization_code and refresh_token"
description (database _) = none
description internal = none

unfoldable pub status : AppError → ℕ
status invalid_client = 401
status (database _) = 500
status internal = 500
status _ = 400

-- The status, the two fields of the JSON body and the `WWW-Authenticate` header.
pub record ErrorResponse : Type 0 where
  pub status : ℕ
  pub error : String
  pub error_description : Option String
  pub www_authenticate : Option String

abbrev is_invalid_client : AppError → Bool
is_invalid_client invalid_client = true
is_invalid_client _ = false

abbrev challenge : Bool → Option String
challenge true = some "Basic realm=\"sharp-oauth\""
challenge false = none

unfoldable pub into_response : AppError → ErrorResponse
unfolding code description status
into_response e = record {
  status = status e;
  error = code e;
  error_description = description e;
  www_authenticate = challenge (is_invalid_client e);
}

-- ===== src/Server/Error.antt =====
-- deepbookv3/crates/server/src/error.rs: the errors of the API and their HTTP answers.
use rain_protocol.Prelude.{ℕ, String, ◌<>◌}

pub data DeepBookError : Type 0 where
  not_found database bad_request rpc deserialization internal : String → DeepBookError
  unauthorized : DeepBookError

-- The `#[error]` attributes.
unfoldable pub message : DeepBookError → String
message (not_found resource) = "Resource not found: " <> resource
message (database msg) = "Database error: " <> msg
message (bad_request msg) = "Invalid request: " <> msg
message (rpc msg) = "RPC error: " <> msg
message (deserialization msg) = "Deserialization error: " <> msg
message (internal msg) = "Internal error: " <> msg
message unauthorized = "Unauthorized"

pub record Response : Type 0 where
  pub status : ℕ
  pub body : String

abbrev pub status_code : DeepBookError → ℕ
status_code (not_found resource) = 404
status_code (bad_request msg) = 400
status_code unauthorized = 401
status_code _ = 500

unfoldable pub into_response : DeepBookError → Response
into_response e = record { status = status_code e; body = message e }

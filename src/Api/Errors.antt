-- ===== src/Api/Errors.antt =====
-- The handlers of exceptions of services/gateway/core/exceptions.py and services/gateway/main.py: what
-- a client receives for an exception that leaves an endpoint.
use edge_serverless_box.Base.{String, ℕ, Option, none, some}

-- An exception, with its text, that a handler is registered for; `other` stands for every other one.
-- `ResourceExhaustedError` and `FunctionNotFoundError` have handlers of their own.
pub data Raised : Type 0 where
  function_not_found : String → Raised
  resource_exhausted : String → Raised
  http_exception : ℕ → String → Raised
  request_validation : String → Raised
  other : String → Raised

-- `JSONResponse` with a message, and a detail if there is one.
pub record ErrorResponse : Type 0 where
  pub status_code : ℕ
  pub message : String
  pub detail : Option String

-- The handler that is registered for an exception, applied to it.
unfoldable pub exception_handler : Raised → ErrorResponse
exception_handler (function_not_found text) = record {
  status_code = 404;
  message = text;
  detail = none;
}
exception_handler (resource_exhausted text) = record {
  status_code = 429;
  message = "Too Many Requests";
  detail = some text;
}
exception_handler (http_exception status detail) = record {
  status_code = status;
  message = detail;
  detail = none;
}
exception_handler (request_validation errors) = record {
  status_code = 422;
  message = "Validation Error";
  detail = some errors;
}
exception_handler (other text) = record {
  status_code = 500;
  message = "Internal Server Error";
  detail = some text;
}

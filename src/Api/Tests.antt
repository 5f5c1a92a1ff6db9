-- ===== src/Api/Tests.antt =====
-- Requests to the endpoints of services/gateway/main.py.
use edge_serverless_box.Base.{◌≡◌, refl, String, false, Option, none, [], ◌∷◌, Result, ok, err}
use edge_serverless_box.Registry.{FunctionRegistry}
use edge_serverless_box.Http.{Response, not_text, parse_lambda_response}
use edge_serverless_box.Http.Value.{Json}
use edge_serverless_box.Invoker.{
  Failure, request_error, other_error, LambdaInvoker, invoke_function,
}
use edge_serverless_box.Api.{Handled, gateway_reply, reply_of, invoke_lambda_api}

abbrev registry : FunctionRegistry
registry = record { registry = ("echo", none) ∷ []; default_environment = none }

abbrev invoker : LambdaInvoker
invoker = record {
  lambda_port = 8080;
  breaker_threshold = 2;
  breaker_recovery_timeout = 30;
  breakers = [];
}

abbrev loads : String → Option Json
loads s = none

-- A request whose worker does not start.
abbrev ended : Result Failure Response
ended =
    (invoke_function registry invoker "echo" (err request_error) 1 2 (err request_error)
      false).result

abbrev answered : Handled
answered =
    invoke_lambda_api registry invoker "echo" none (err request_error) 1 2 (err request_error) false

-- A function's answer whose bytes are no text.
abbrev garbled : Response
garbled = record { status_code = 200; headers = []; content = 255 ∷ []; json = not_text }

garbled_raises : gateway_reply loads (ok garbled) ≡ err other_error
unfolding gateway_reply reply_of parse_lambda_response
garbled_raises = refl

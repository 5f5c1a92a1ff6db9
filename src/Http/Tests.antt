-- ===== src/Http/Tests.antt =====
-- Responses of Lambda functions through services/gateway/core/utils.py.
use edge_serverless_box.Base.{◌≡◌, refl, String, Option, none, some, [], str_eq, if◌then◌else◌}
use edge_serverless_box.Http.Value.{
  Json, null, number, text, object, Fields, end, field, get, has_key,
}
use edge_serverless_box.Http.{Response, Decoded, value, not_text, structured, parse_lambda_response}

-- A decoder that fails on the empty text.
abbrev loads : String → Option Json
loads s = if str_eq s "" then none else some (text s)

abbrev response : Decoded → Response
response j = record { status_code = 200; headers = []; content = []; json = j }

abbrev answer : Fields
answer = field "statusCode" (number "201") (field "headers" null (field "body" (text "hi") end))

parse_run :
    parse_lambda_response loads (response (value (object answer)))
    ≡ some (structured (number "201") (text "hi") null)
unfolding parse_lambda_response get has_key
parse_run = refl

-- Bytes that are no text.
garbled_run : parse_lambda_response loads (response not_text) ≡ none
unfolding parse_lambda_response
garbled_run = refl

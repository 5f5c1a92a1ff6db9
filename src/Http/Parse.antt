-- ===== src/Http/Parse.antt =====
-- `parse_lambda_response` of services/gateway/core/utils.py on the responses of a Lambda function.
use edge_serverless_box.Base.{◌≡◌, refl, String, false, Option, none, some}
use edge_serverless_box.Http.Value.{Json, number, object, Fields, end, has_key}
use edge_serverless_box.Http.{
  Response, value, not_json, not_text, structured, raw, parse_lambda_response,
}

-- Any other JSON value comes through whole, with status 200 and no headers; a response that is not
-- JSON comes through as it is; one whose bytes are no text raises.
pub parse-plain :
    (loads : String → Option Json) (r : Response) (fs : Fields)
    → has_key "statusCode" fs ≡ false
    → (parse_lambda_response loads (record r { json = value (object fs) })
        ≡ some (structured (number "200") (object fs) (object end)))
      × (parse_lambda_response loads (record r { json = not_json })
          ≡ some (raw r.status_code r.content r.headers))
      × (parse_lambda_response loads (record r { json = not_text }) ≡ none)
unfolding parse_lambda_response
parse-plain loads r fs h = (rw h, refl, refl)

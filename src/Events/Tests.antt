-- ===== src/Events/Tests.antt =====
-- Runs of services/gateway/core/event_builder.py.
use edge_serverless_box.Base.{◌≡◌, refl, String, none, some, List, [], ◌∷◌, str_eq, if◌then◌else◌}
use edge_serverless_box.Base.Dict.{lookup, insert}
use edge_serverless_box.Events.{
  Codecs, Request, getlist, collect_values, values_of, build, body_content, is_gzip,
}
use edge_serverless_box.Events.Values.{Holds, under, values_of-lookup}
use edge_serverless_box.Events.Body.{AreSound, body_bytes, body_bytes-build}

abbrev query : List (String × String)
query = ("tag", "a") ∷ ("page", "1") ∷ ("tag", "b") ∷ []

last_tag : lookup "tag" (values_of query).0 ≡ some "b"
unfolding values_of collect_values getlist insert lookup
last_tag = refl

values_of-lookup_example :
    Holds (under "tag" query) (lookup "tag" (values_of query).0) (lookup "tag" (values_of query).1)
values_of-lookup_example = values_of-lookup "tag" query

abbrev upload : Request
upload = record {
  method = "POST";
  path = "/upload";
  headers = ("content-encoding", "gzip") ∷ [];
  query_params = [];
  client_host = none;
  http_version = none;
  body = 120 ∷ 121 ∷ [];
}

-- Codecs that know the bytes of one body.
abbrev codecs : Codecs
codecs = record {
  b64encode = λ b. "eHk=";
  b64decode = λ t. if str_eq t "" then [] else 120 ∷ 121 ∷ [];
  decode_utf8 = λ b. none;
  encode_utf8 = λ t. if str_eq t "" then [] else 120 ∷ 121 ∷ [];
  lower = λ t. t;
  contains = λ needle t. str_eq needle t;
}

codecs-AreSound : AreSound codecs upload.body
codecs-AreSound = record {
  b64decode-encode = refl;
  b64decode_empty = refl;
  encode-decode_utf8 = λ t e. cc;
  encode_utf8_empty = refl;
}

encoded_upload : (build codecs upload "u" [] "/upload" none "id").body ≡ some "eHk="
unfolding build body_content is_gzip getlist
encoded_upload = refl

body_bytes-build_example :
    let event = build codecs upload "u" [] "/upload" none "id" in
    body_bytes codecs event.is_base64_encoded event.body ≡ 120 ∷ 121 ∷ []
body_bytes-build_example = body_bytes-build codecs upload "u" [] "/upload" none "id" codecs-AreSound

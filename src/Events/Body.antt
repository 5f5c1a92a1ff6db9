-- ===== src/Events/Body.antt =====
-- The body of a request in its event, of services/gateway/core/event_builder.py.
use edge_serverless_box.Base.{
  ℕ, ◌≡◌, inl, inr, refl, sym, ◌∙◌, subst, String, Bool, true, false, Option, none, some, List, [],
  eq_iff, str_eq, if◌then◌else◌, Bool-cases,
}
use edge_serverless_box.Base.Dict.{Dict}
use edge_serverless_box.Events.{Codecs, Request, is_gzip, text_or_base64, body_content, build}

-- What the libraries promise of some bytes: what they encode is decoded to what it was.
pub record AreSound (codecs : Codecs) (b : List ℕ) : Type 0 where
  pub b64decode-encode : codecs.b64decode (codecs.b64encode b) ≡ b
  pub b64decode_empty : codecs.b64decode "" ≡ []
  pub encode-decode_utf8 : (t : String) → codecs.decode_utf8 b ≡ some t → codecs.encode_utf8 t ≡ b
  pub encode_utf8_empty : codecs.encode_utf8 "" ≡ []

-- The bytes that a function finds in an event.
abbrev decoded : Codecs → Bool → String → List ℕ
decoded codecs true t = codecs.b64decode t
decoded codecs false t = codecs.encode_utf8 t

abbrev pub body_bytes : Codecs → Bool → Option String → List ℕ
body_bytes codecs is_base64 none = []
body_bytes codecs is_base64 (some t) = decoded codecs is_base64 t

body_bytes_lem :
    (codecs : Codecs) (b : List ℕ) (content : String) (is_base64 : Bool)
    → AreSound codecs b
    → body_bytes codecs is_base64 (if str_eq content "" then none else some content)
      ≡ decoded codecs is_base64 content
body_bytes_lem codecs b content is_base64 sound = elim (Bool-cases (str_eq content "")) [
  | inl empty ↦ rw empty (
      sym (
        subst (λ t. decoded codecs is_base64 t ≡ []) (sym ((eq_iff content "").0 empty))
          (nothing is_base64)))
  | inr full ↦ rw full refl
]
  where
    nothing : (b : Bool) → decoded codecs b "" ≡ []
    nothing true = sound.b64decode_empty
    nothing false = sound.encode_utf8_empty

content-decoded :
    (codecs : Codecs) (r : Request)
    → AreSound codecs r.body
    → let (content, is_base64) = body_content codecs r in decoded codecs is_base64 content ≡ r.body
unfolding body_content
content-decoded codecs r sound = elim (Bool-cases (is_gzip codecs r)) [
  | inl gzip ↦ rw gzip (sound.b64decode-encode)
  | inr plain ↦ rw plain (by_text (codecs.decode_utf8 r.body) refl)
]
  where
    by_text :
        (o : Option String)
        → codecs.decode_utf8 r.body ≡ o
        → let (content, is_base64) = text_or_base64 codecs r.body o in
          decoded codecs is_base64 content ≡ r.body
    by_text none e = sound.b64decode-encode
    by_text (some t) e = sound.encode-decode_utf8 t e

-- Whatever a request's body and its encoding are, a function that decodes the event's body as its
-- flag says has the bytes of the request; an event without a body is that of an empty one.
pub body_bytes-build :
    (codecs : Codecs) (r : Request) (user_id : String) (path_params : Dict String)
    (route_path : String) (context_id : Option String) (new_id : String)
    → AreSound codecs r.body
    → let event = build codecs r user_id path_params route_path context_id new_id in
      body_bytes codecs event.is_base64_encoded event.body ≡ r.body
unfolding build
body_bytes-build codecs r user_id path_params route_path context_id new_id sound =
    let content = body_content codecs r in
    body_bytes_lem codecs r.body content.0 content.1 sound ∙ content-decoded codecs r sound

-- ===== src/Auth/Tests.antt =====
-- Runs of the authentication of services/gateway/main.py.
use edge_serverless_box.Base.{◌≡◌, refl, ◌&&◌, none, some, arith, str_eq, ltb, if◌then◌else◌, ok}
use edge_serverless_box.Base.Text.{has_char, is_space, lstrip}
use edge_serverless_box.Auth.{
  Claims, Tokens, first_word, scheme_and_token, bare_token, verify_token, AuthConfig,
  authenticate_user,
}
use edge_serverless_box.Auth.Session.{no_blank, AreSound, authenticate_user-verify}
use edge_serverless_box.Routes.{verify_authorization}

abbrev config : AuthConfig
config = record {
  x_api_key = "key";
  auth_user = "admin";
  auth_pass = "pass";
  jwt_secret_key = "secret";
  jwt_expires_delta = 3600;
}

abbrev claims : Claims
claims = record { sub = some "admin"; exp = 3700; iat = 100 }

-- A library that knows one token.
abbrev tokens : Tokens
tokens = record {
  encode = λ c key. "h.p.s";
  decode = λ now token key.
      if str_eq token "h.p.s" && str_eq key "secret" && ltb now 3700 then some claims else none;
  lower = λ t. if str_eq t "Bearer" then "bearer" else t;
}

tokens-AreSound : AreSound tokens claims "secret"
unfolding no_blank is_space
tokens-AreSound = record {
  decode-encode = λ now issued early. ground arith;
  one_word = refl;
  not_empty = refl;
  lower_bearer = refl;
}

logged_in : authenticate_user tokens config 100 "admin" "pass" (some "key") ≡ ok "h.p.s"
unfolding authenticate_user
logged_in = refl

wrong_scheme : verify_token tokens 200 "Basic h.p.s" "secret" ≡ none
unfolding verify_token bare_token scheme_and_token first_word lstrip has_char is_space
wrong_scheme = refl

authenticate_user-verify_example :
    (("admin" ≡ config.auth_user)
      × ("pass" ≡ config.auth_pass)
      × (some "key" ≡ some config.x_api_key))
    × (verify_authorization (λ h. verify_token tokens 200 h "secret") (some "Bearer h.p.s")
        ≡ ok "admin")
authenticate_user-verify_example =
    authenticate_user-verify tokens config 100 200 "admin" "pass" "h.p.s" (some "key")
      tokens-AreSound refl logged_in (omega arith) (omega arith)

-- ===== src/Auth/Session.antt =====
-- The token that services/gateway/main.py hands out, in a later request.
use edge_serverless_box.Base.{
  ℕ, ◌+◌, ◌≤◌, ◌<◌, ◌≡◌, inl, inr, refl, sym, ap, String, Bool, true, false, not, ◌&&◌, Option,
  none, some, arith, eq_iff, str_eq, Bool-cases, ok,
}
use Prim.Native.Char.{Char, code}
use text.Mathlib.TextLemmas.{cons≢nil}
use edge_serverless_box.Base.Text.{append, has_char, is_empty, is_space, lstrip}
use edge_serverless_box.Auth.{
  Claims, Tokens, first_word, scheme_and_token, create_access_token, bare_token, verify_token,
  AuthConfig, authenticate_user,
}
use edge_serverless_box.Routes.{verify_authorization}

-- No blank stands in the text.
unfoldable pub no_blank : String → Bool
no_blank String.[] = true
no_blank (String.◌∷◌ c s) = not (is_space (code c)) && no_blank s

-- What the library promises of a token that it makes for claims: it is decoded with the same key to
-- the claims from the time of its issue until they expire, is not empty, and has no blank.
pub record AreSound (tokens : Tokens) (c : Claims) (key : String) : Type 0 where
  pub decode-encode :
      (now : ℕ) → c.iat ≤ now → now < c.exp → tokens.decode now (tokens.encode c key) key ≡ some c
  pub one_word : no_blank (tokens.encode c key) ≡ true
  pub not_empty : is_empty (tokens.encode c key) ≡ false
  pub lower_bearer : tokens.lower "Bearer" ≡ "bearer"

lstrip-no_blank : (s : String) → no_blank s ≡ true → lstrip s ≡ s
unfolding lstrip no_blank
lstrip-no_blank String.[] h = refl
lstrip-no_blank (String.◌∷◌ c s) h = ground arith

cons_not_empty : (c : Char) (s : String) → str_eq (String.◌∷◌ c s) "" ≡ false
cons_not_empty c s = elim (Bool-cases (str_eq (String.◌∷◌ c s) "")) [
  | inl same ↦ elim (cons≢nil ((eq_iff (String.◌∷◌ c s) "").0 same)) [ ]
  | inr differ ↦ differ
]

bare_token-bearer :
    (tokens : Tokens) (token : String)
    → tokens.lower "Bearer" ≡ "bearer"
    → no_blank token ≡ true
    → is_empty token ≡ false
    → bare_token tokens (append "Bearer " token) ≡ some token
unfolding bare_token scheme_and_token lstrip first_word has_char is_space
bare_token-bearer tokens token low blank full =
    rw (lstrip-no_blank token blank) (rw full (rw low refl))

-- What `authenticate_user` has checked, and the token that it hands out.
granted :
    (tokens : Tokens) (c : AuthConfig) (now : ℕ) (username password token : String)
    (key : Option String)
    → authenticate_user tokens c now username password key ≡ ok token
    → ((username ≡ c.auth_user) × (password ≡ c.auth_pass) × (key ≡ some c.x_api_key))
      × (create_access_token tokens username c.jwt_secret_key c.jwt_expires_delta now ≡ token)
unfolding authenticate_user
granted tokens c now username password token none e = ground (arith, e)
granted tokens c now username password token (some k) e = (
  (
    ground (arith, eq_iff username c.auth_user, e),
    ground (arith, eq_iff password c.auth_pass, e),
    ap some ((eq_iff k c.x_api_key).0 (ground (arith, e))),
  ),
  ground (arith, e),
)

-- The claims of a user who logs in at a time.
abbrev pub claims_of : AuthConfig → ℕ → String → Claims
claims_of c now username = record {
  sub = some username;
  exp = now + c.jwt_expires_delta;
  iat = now;
}

-- Authentication succeeds only with the configured API key, user and password. The token that it
-- hands out then authorizes that user, as a bearer token, in every request from then on until it
-- expires. The user's name is not empty, and the library decodes the tokens that it makes.
pub authenticate_user-verify :
    (tokens : Tokens) (c : AuthConfig) (now later : ℕ) (username password token : String)
    (key : Option String)
    → AreSound tokens (claims_of c now username) c.jwt_secret_key
    → str_eq username "" ≡ false
    → authenticate_user tokens c now username password key ≡ ok token
    → now ≤ later
    → later < now + c.jwt_expires_delta
    → ((username ≡ c.auth_user) × (password ≡ c.auth_pass) × (key ≡ some c.x_api_key))
      × (verify_authorization
            (λ h. verify_token tokens later h c.jwt_secret_key)
            (some (append "Bearer " token))
          ≡ ok username)
unfolding verify_authorization verify_token create_access_token
authenticate_user-verify tokens c now later username password token key sound full e issued early =
    let (same, made) = granted tokens c now username password token key e in
    let claims = claims_of c now username in
    (
      same,
      rw (sym made) (
          rw
            (bare_token-bearer tokens (tokens.encode claims c.jwt_secret_key) sound.lower_bearer
              sound.one_word sound.not_empty)
            (rw (sound.decode-encode later issued early)
              (rw (cons_not_empty "B" _) (rw full (rw full refl))))),
    )

-- ===== src/Auth.antt =====
-- services/gateway/core/security.py, and `authenticate_user` of services/gateway/main.py. The
-- encoding of tokens is a library's, and a parameter.
pub mod Session
mod Tests
use edge_serverless_box.Base.{
  ℕ, zero, suc, ◌+◌, ◌-◌, ◌*◌, ◌≤◌, ◌<◌, ◌≡◌, ◌≢◌, ◌⊎◌, inl, inr, ◌↔◌, refl, sym, ap, ◌∙◌, subst,
  String, Bool, true, false, not, ◌&&◌, ◌||◌, Option, none, some, List, [], ◌∷◌, ◌++◌, map, arith,
  eq_iff, length, length-append, keep_if, any_of, str_eq, str_eq_refl, ltb, leb, ◌==◌,
  if◌then◌else◌, Bool-cases, Option-cases, Result, ok, err,
}
use Prim.Native.String
use Prim.Native.Char.{code}
use edge_serverless_box.Base.Text.{append, has_char, is_empty, is_space, lstrip}

-- The claims of a token that the code sets and reads.
pub record Claims : Type 0 where
  pub sub : Option String
  pub exp : ℕ
  pub iat : ℕ

-- `jwt.encode` and `jwt.decode` with a key, the latter at a time, and `lower`. `none` stands for one
-- of the exceptions that `verify_token` catches.
pub record Tokens : Type 0 where
  pub encode : Claims → String → String
  pub decode : ℕ → String → String → Option Claims
  pub lower : String → String

-- The text up to the first blank, and from it on.
unfoldable pub first_word : String → String × String
first_word String.[] = ("", "")
first_word (String.◌∷◌ c s) =
    let (word, rest) = first_word s in
    if is_space (code c) then ("", String.◌∷◌ c s) else (String.◌∷◌ c word, rest)

-- `token.split(None, 1)` into two words; `none` if there are fewer, which raises `ValueError`.
unfoldable pub scheme_and_token : String → Option (String × String)
unfolding first_word lstrip is_space
scheme_and_token text = two (first_word (lstrip text))
  where
    two : String × String → Option (String × String)
    two (word, rest) =
        if is_empty word || is_empty (lstrip rest) then none else some (word, lstrip rest)

-- What `authenticate_user` reads of the gateway's configuration.
pub record AuthConfig : Type 0 where
  pub x_api_key : String
  pub auth_user : String
  pub auth_pass : String
  pub jwt_secret_key : String
  pub jwt_expires_delta : ℕ

module _ (tokens : Tokens) where
  unfoldable pub create_access_token : String → String → ℕ → ℕ → String
  create_access_token username secret_key expires_delta now =
      tokens.encode (record { sub = some username; exp = now + expires_delta; iat = now })
        secret_key

  abbrev of_bearer : Option (String × String) → Option String
  of_bearer none = none
  of_bearer (some (scheme, token)) =
      if str_eq (tokens.lower scheme) "bearer" then some token else none

  -- The token of an `Authorization` header, with its scheme or without one.
  unfoldable pub bare_token : String → Option String
  unfolding scheme_and_token
  bare_token text = if has_char b' ' text then of_bearer (scheme_and_token text) else some text

  -- `payload.get("sub")`, unless it is empty
  abbrev user_of : Option Claims → Option String
  user_of none = none
  user_of (some c) = full c.sub
    where
      full : Option String → Option String
      full none = none
      full (some user) = if str_eq user "" then none else some user

  abbrev verify_bare : ℕ → String → Option String → Option String
  verify_bare now secret_key none = none
  verify_bare now secret_key (some token) = user_of (tokens.decode now token secret_key)

  unfoldable pub verify_token : ℕ → String → String → Option String
  unfolding bare_token
  verify_token now token secret_key = verify_bare now secret_key (bare_token token)

  abbrev key_matches : AuthConfig → Option String → Bool
  key_matches c none = false
  key_matches c (some key) = not (str_eq key "") && str_eq key c.x_api_key

  -- The token, or the status 401, raised for a wrong key and returned for a wrong user or password.
  unfoldable pub authenticate_user :
      AuthConfig → ℕ → String → String → Option String → Result ℕ String
  unfolding create_access_token
  authenticate_user c now username password key =
      if key_matches c key && (str_eq username c.auth_user && str_eq password c.auth_pass)
      then ok (create_access_token username c.jwt_secret_key c.jwt_expires_delta now)
      else err 401

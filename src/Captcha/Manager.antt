-- ===== src/Captcha/Manager.antt =====
-- `CaptchaManager` of pingoo/captcha.rs: its keys, the check of the cookie of verified clients, and the
-- requests under the captcha's path.
use pingoo.Prelude.{
  ℕ, ◌+◌, String, List, [], ◌∷◌, ◌++◌, Option, none, some, Bool, not, ◌&&◌, Result, ok, err, ◌>>=◌,
  ensure, ok_or, collect, if◌then◌else◌, HashMap, get, insert, unwrap_or, string_eq, ◌==◌,
  str_starts_with, trim_start_matches, ltb, eqb,
}
use pingoo.Http.{
  Response, new_internal_error_response_500, new_not_found_error, cache_control_dynamic,
}
use pingoo.HttpListener.{Cookie}
use pingoo.CryptoUtils.{constant_time_compare}
use pingoo.Jwt.{Bytes, Error, Header}
use pingoo.Jwt.Key.{Crypto, Key}
use pingoo.Jwt.Jwk.{Jwk, key_from_jwk}
use pingoo.Jwt.Token.{Codec, parse_header, parse_and_verify}
use pingoo.Captcha.{
  CaptchaCookieJwtClaims, CaptchaVerifiedCookieJwtClaims, SetCookie, JwkProblem, captcha_cookie,
  proof_of_work_difficulty, jwt_validation_options, generate_captcha_cookie,
  generate_captcha_verified_cookies, validate_jwk,
}

-- `Error` as this file builds it
pub data CaptchaError : Type 0 where
  bad_jwk : JwkProblem → CaptchaError
  jwt_error : Error → CaptchaError
  jwks_file_is_empty : CaptchaError
  jwt_is_not_valid : CaptchaError
  jwt_is_not_valid_because : Error → CaptchaError

pub record CaptchaVerifyRequestBody : Type 0 where
  pub hash : Bytes
  pub nonce : String

-- The rest of what the API takes from elsewhere: what a cookie is as a header, JSON, SHA-256, the
-- captcha's files and their types.
pub record Web : Type 0 where
  pub header_value : SetCookie → Option String
  pub init_body : String → ℕ → Option String
  pub empty_body : Option String
  pub verify_body : Bytes → Option CaptchaVerifyRequestBody
  pub sha256 : Bytes → Bytes
  pub asset : String → Option String
  pub content_type : String → String

-- a half of a byte is a zero in hexadecimal
abbrev pub leading_zeroes : Bytes → ℕ
leading_zeroes [] = 0
leading_zeroes (b ∷ bytes) = if eqb b 0 then 2 + leading_zeroes bytes else if ltb b 16 then 1 else 0

abbrev with_cookie : String → List (String × String)
with_cookie cookie = ("set-cookie", cookie) ∷ []

abbrev json_response : String → List (String × String) → Response
json_response body cookies = record {
  status = 200;
  headers =
      ("content-type", "application/json") ∷ ("cache-control", cache_control_dynamic) ∷ cookies;
  body = body;
}

-- a step that answers 500 when it fails
abbrev pub or_500 : {A : Type 0} → Option A → (A → Response) → Response
or_500 none k = new_internal_error_response_500
or_500 (some a) k = k a

abbrev pub to_option : {A E : Type 0} → Result A E → Option A
to_option (ok a) = some a
to_option (err e) = none

abbrev pub bad_jwk_or : {A : Type 0} → Result A JwkProblem → Result A CaptchaError
bad_jwk_or (ok a) = ok a
bad_jwk_or (err e) = err (bad_jwk e)

abbrev pub jwt_error_or :
    {A : Type 0} → (Error → CaptchaError) → Result A Error → Result A CaptchaError
jwt_error_or f (ok a) = ok a
jwt_error_or f (err e) = err (f e)

abbrev pub kid_of : Header → String
kid_of header = unwrap_or header.kid ""

-- `iter().find(|cookie| cookie.name() == name)`
abbrev pub cookie_value : String → List Cookie → Option String
cookie_value name [] = none
cookie_value name (c ∷ cookies) = if c.name == name then some c.value else cookie_value name cookies

module _ (crypto : Crypto) (captcha_codec : Codec CaptchaCookieJwtClaims)
    (verified_codec : Codec CaptchaVerifiedCookieJwtClaims) where
  pub record CaptchaManager : Type 0 where
    pub signing_key : Key crypto
    pub verifying_keys : HashMap String (Key crypto)

  abbrev pub load_key : Jwk → Result (Key crypto) CaptchaError
  load_key jwk = do
    _ ← bad_jwk_or (validate_jwk jwk)
    jwt_error_or jwt_error (key_from_jwk crypto jwk)

  -- `HashMap::from_iter`: a later key with the same id replaces an earlier one
  abbrev pub by_id : HashMap String (Key crypto) → List (Key crypto) → HashMap String (Key crypto)
  by_id m [] = m
  by_id m (key ∷ keys) = by_id (insert m key.id key) keys

  abbrev pub from_keys : List (Key crypto) → Result CaptchaManager CaptchaError
  from_keys [] = err jwks_file_is_empty
  from_keys (key ∷ keys) = ok (record { signing_key = key; verifying_keys = by_id [] (key ∷ keys) })

  -- `new` where the file is there, and where a key is generated
  unfoldable pub new_from_jwks : List Jwk → Result CaptchaManager CaptchaError
  new_from_jwks jwks = collect load_key jwks >>= from_keys

  unfoldable pub new_from_key : Key crypto → CaptchaManager
  new_from_key key = record { signing_key = key; verifying_keys = (key.id, key) ∷ [] }

  -- the key that a token names, if the token has a header
  unfoldable pub key_of_token :
      {C : Type 0} → Codec C → CaptchaManager → String → Option (Key crypto)
  key_of_token codec m token = elim (parse_header crypto codec token) [
    | err e ↦ none
    | ok header ↦ get m.verifying_keys (kid_of header)
  ]

  unfoldable pub validate_captcha_verified_cookie :
      CaptchaManager → ℕ → ℕ → String → String → Result (Unit {0}) CaptchaError
  validate_captcha_verified_cookie m now_exp now_nbf cookie client_id = do
    key ← ok_or (key_of_token verified_codec m cookie) jwt_is_not_valid
    token ←
        jwt_error_or jwt_is_not_valid_because
          (parse_and_verify crypto verified_codec key cookie jwt_validation_options now_exp now_nbf)
    ensure
        (constant_time_compare (verified_codec.as_bytes client_id)
            (verified_codec.as_bytes (unwrap_or token.claims.registered_claims.sub ""))
          && token.claims.challenge_passed)
        jwt_is_not_valid (ok tt)

  unfoldable pub api_init : Web → CaptchaManager → Bytes → ℕ → String → String → String → Response
  api_init web m nonce now uuid client_id challenge =
      or_500
        (to_option (
          generate_captcha_cookie crypto captcha_codec m.signing_key nonce now uuid client_id
            challenge proof_of_work_difficulty))
        (λ cookie. or_500 (web.init_body challenge proof_of_work_difficulty) (λ body.
          or_500 (web.header_value cookie) (λ header. json_response body (with_cookie header))))

  -- the client is the token's, and its hash solves the challenge
  unfoldable pub solves : Web → String → CaptchaCookieJwtClaims → CaptchaVerifyRequestBody → Bool
  solves web client_id claims input =
      constant_time_compare (captcha_codec.as_bytes client_id)
        (captcha_codec.as_bytes (unwrap_or claims.registered_claims.sub ""))
      && not (ltb (leading_zeroes input.hash) claims.difficulty)
      && constant_time_compare
          (web.sha256
            (captcha_codec.as_bytes claims.challenge ++ captcha_codec.as_bytes input.nonce))
          input.hash

  abbrev pub set_cookies : Web → List SetCookie → Option (List (String × String))
  set_cookies web [] = some []
  set_cookies web (c ∷ cookies) = elim (web.header_value c) [
    | none ↦ none
    | some v ↦ elim (set_cookies web cookies) [
      | none ↦ none
      | some vs ↦ some (("set-cookie", v) ∷ vs)
    ]
  ]

  -- the answer to a client that has passed
  unfoldable pub issue : Web → CaptchaManager → Bytes → ℕ → String → String → Response
  issue web m nonce now uuid client_id =
      or_500
        (to_option (
          generate_captcha_verified_cookies crypto verified_codec m.signing_key nonce now uuid
            client_id))
        (λ cookies.
          or_500 web.empty_body
            (λ body. or_500 (set_cookies web cookies) (λ headers. json_response body headers)))

  -- the challenge that the client's cookie holds
  unfoldable pub challenge_of : CaptchaManager → ℕ → ℕ → List Cookie → Option CaptchaCookieJwtClaims
  challenge_of m now_exp now_nbf cookies = elim (cookie_value captcha_cookie cookies) [
    | none ↦ none
    | some token ↦ elim (key_of_token captcha_codec m token) [
      | none ↦ none
      | some key ↦
          elim (parse_and_verify crypto captcha_codec key token jwt_validation_options now_exp
            now_nbf) [ err e ↦ none | ok jwt ↦ some jwt.claims ]
    ]
  ]

  -- `body` is `none` where it cannot be read
  unfoldable pub api_verify :
      Web
      → CaptchaManager
      → ℕ
      → ℕ
      → Bytes
      → ℕ
      → String
      → Option Bytes
      → List Cookie
      → String
      → Response
  api_verify web m now_exp now_nbf nonce now uuid body cookies client_id =
      or_500 (challenge_of m now_exp now_nbf cookies) (λ claims. or_500 body (λ bytes.
        or_500 (web.verify_body bytes) (λ input.
          if solves web client_id claims input
          then issue web m nonce now uuid client_id
          else new_internal_error_response_500)))

  unfoldable pub serve_asset : Web → String → Response
  serve_asset web path = elim (web.asset (trim_start_matches b'/' path)) [
    | none ↦ new_not_found_error
    | some content ↦ record {
      status = 200;
      headers =
          ("content-type", web.content_type path) ∷ ("cache-control", cache_control_dynamic) ∷ [];
      body = content;
    }
  ]

  -- `init` and `verify` are what the two calls of the API give
  unfoldable pub serve_captcha_request : Web → String → Response → Response → Response
  serve_captcha_request web path init verify =
      if str_starts_with path "/__pingoo/captcha/assets"
      then serve_asset web path
      else if path == "/__pingoo/captcha/api/init"
      then init
      else if path == "/__pingoo/captcha/api/verify"
      then verify
      else new_not_found_error

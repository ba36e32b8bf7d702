-- ===== src/Captcha.antt =====
-- pingoo/captcha.rs: the claims, the cookies and the keys of the captcha. Times count nanoseconds from
-- 1970; the random challenge and the UUIDs are arguments.
pub mod Manager
pub mod File
pub mod Restart
pub mod Access
pub mod Issue
pub mod Works
pub mod Keys
mod Small
mod RestartTests
mod Tests
use Prim.Native.Char.{Char}
use Prim.Native.String
use pingoo.Prelude.{
  ℕ, zero, suc, ◌+◌, ◌-◌, ◌/◌, String, List, [], ◌∷◌, Option, none, some, Bool, true, false, not,
  Result, ok, err, ◌>>=◌, ensure, if◌then◌else◌, append, str_len, str_is_empty, trim, length, leb,
  ltb, is_some,
}
use pingoo.Jwt.{Bytes, Error, Algorithm, algorithm_eq, eddsa, Header, ℤ, pos, ValidateOptions}
use pingoo.Jwt.Key.{Crypto, Key}
use pingoo.Jwt.Jwk.{Jwk, okp, ec, oct}
use pingoo.Jwt.Token.{Codec, sign}

abbrev pub captcha_cookie : String
captcha_cookie = "__pingoo_captcha"

abbrev pub captcha_verified_cookie : String
captcha_verified_cookie = "__pingoo_captcha_verified"

abbrev pub captcha_jwt_issuer : String
captcha_jwt_issuer = "pingoo"

abbrev pub secs : ℕ
secs = 1_000_000_000

abbrev pub captcha_verified_jwt_expiration : ℕ
captcha_verified_jwt_expiration = 86_400_000_000_000

abbrev pub captcha_jwt_expiration : ℕ
captcha_jwt_expiration = 600_000_000_000

abbrev pub proof_of_work_difficulty : ℕ
proof_of_work_difficulty = 1

abbrev pub jwt_validation_options : ValidateOptions
jwt_validation_options = record {
  allowed_time_drift = 5_000_000_000;
  nbf = true;
  exp = true;
  aud = captcha_jwt_issuer ∷ [];
  iss = captcha_jwt_issuer ∷ [];
}

-- `jwt::RegisteredClaims`
pub record RegisteredClaims : Type 0 where
  pub iss : Option String
  pub sub : Option String
  pub aud : Option String
  pub exp : Option ℤ
  pub nbf : Option ℤ
  pub iat : Option ℤ
  pub jti : Option String

pub record CaptchaCookieJwtClaims : Type 0 where
  pub challenge : String
  pub difficulty : ℕ
  pub registered_claims : RegisteredClaims

pub record CaptchaVerifiedCookieJwtClaims : Type 0 where
  pub challenge_passed : Bool
  pub registered_claims : RegisteredClaims

-- A cookie that is set, always secure, HTTP only and `Lax`, with the path "/".
pub record SetCookie : Type 0 where
  pub name : String
  pub value : String
  pub expires : ℕ

abbrev nul : Char
nul = "\0"

abbrev nuls : ℕ → String
nuls zero = ""
nuls (suc n) = String.◌∷◌ nul (nuls n)

-- The whole buffer of `n` bytes, which held zeros before `text` was written to its front; `none` is
-- the panic of `expect`.
unfoldable pub encode_to_base64_heapless : ℕ → String → Option String
encode_to_base64_heapless n text =
    if leb (str_len text) n then some (append text (nuls (n - str_len text))) else none

abbrev pub timestamp : ℕ → ℤ
timestamp now = pos (now / secs)

abbrev pub registered : ℕ → ℕ → String → String → RegisteredClaims
registered now lifetime client_id uuid = record {
  iss = some captcha_jwt_issuer;
  sub = some client_id;
  aud = some captcha_jwt_issuer;
  exp = some (timestamp (now + lifetime));
  nbf = some (timestamp now);
  iat = some (timestamp now);
  jti = some uuid;
}

abbrev pub header_for : String → Header
header_for kid = record {
  alg = eddsa;
  cty = none;
  jku = none;
  kid = some kid;
  x5u = none;
  x5c = none;
  x5t = none;
  x5t_s256 = none;
}

module _ (crypto : Crypto) where
  unfoldable pub generate_captcha_cookie :
      Codec CaptchaCookieJwtClaims
      → Key crypto
      → Bytes
      → ℕ
      → String
      → String
      → String
      → ℕ
      → Result SetCookie Error
  generate_captcha_cookie codec key nonce now uuid client_id challenge difficulty = do
    let claims : CaptchaCookieJwtClaims = record {
      challenge = challenge;
      difficulty = difficulty;
      registered_claims = registered now captcha_jwt_expiration client_id uuid;
    }
    token ← sign crypto codec key nonce (header_for key.id) claims
    ok (record {
      name = captcha_cookie;
      value = token;
      expires = (now + captcha_jwt_expiration) / secs - 60;
    })

  abbrev pub verified_claims : ℕ → String → String → CaptchaVerifiedCookieJwtClaims
  verified_claims now uuid client_id = record {
    challenge_passed = true;
    registered_claims = registered now captcha_verified_jwt_expiration client_id uuid;
  }

  -- the second cookie removes the challenge
  unfoldable pub generate_captcha_verified_cookies :
      Codec CaptchaVerifiedCookieJwtClaims
      → Key crypto
      → Bytes
      → ℕ
      → String
      → String
      → Result (List SetCookie) Error
  generate_captcha_verified_cookies codec key nonce now uuid client_id = do
    token ← sign crypto codec key nonce (header_for key.id) (verified_claims now uuid client_id)
    ok (
        record {
          name = captcha_verified_cookie;
          value = token;
          expires = (now + captcha_verified_jwt_expiration) / secs - 60;
        }
        ∷ record { name = captcha_cookie; value = ""; expires = 0 }
        ∷ [])

pub data JwkProblem : Type 0 where
  key_id_is_empty : JwkProblem
  algorithm_not_supported : Algorithm → String → JwkProblem
  private_key_is_missing : String → JwkProblem
  key_is_too_short : String → JwkProblem

unfoldable pub validate_jwk : Jwk → Result (Unit {0}) JwkProblem
validate_jwk jwk = ensure (not (str_is_empty (trim jwk.kid))) key_id_is_empty (
    ensure (algorithm_eq jwk.algorithm eddsa) (algorithm_not_supported jwk.algorithm jwk.kid)
      (elim jwk.jwk_crypto [
        | okp curve x d ↦ ensure (is_some d) (private_key_is_missing jwk.kid) (ok tt)
        | ec curve x y d ↦ ensure (is_some d) (private_key_is_missing jwk.kid) (ok tt)
        | oct key ↦ ensure (not (ltb (length key) 32)) (key_is_too_short jwk.kid) (ok tt)
      ]))

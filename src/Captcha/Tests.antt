-- ===== src/Captcha/Tests.antt =====
-- The captcha with the small signature scheme: a client that solves it, and its cookie.
use pingoo.Prelude.{
  ◌+◌, ◌≤◌, String, List, [], ◌∷◌, none, some, ◌≡◌, ◌↔◌, refl, ok, string_eq, length, arith, get,
  insert, append, collect,
}
use pingoo.HttpListener.{Cookie}
use pingoo.Jwt.{Bytes, eddsa, ed25519, signature_max_size}
use pingoo.Jwt.Key.{sign_message, verify_message}
use pingoo.Jwt.Jwk.{Jwk, sig, okp, key_from_jwk, okp_key_from_jwk}
use pingoo.Jwt.Token.{
  sign, parse_header, parse_and_verify, verify_parts, parse_claims, check_claims,
}
use pingoo.Jwt.Small.{bytes_eq_iff, small, small_encode, small_header, codes}
use pingoo.Captcha.{SetCookie, generate_captcha_verified_cookies, validate_jwk}
use pingoo.Captcha.Manager.{
  Web, validate_captcha_verified_cookie, api_verify, load_key, new_from_jwks, key_of_token,
  challenge_of, solves, issue,
}
use pingoo.Captcha.Access.{IsVerifiedClient, validate_captcha_verified_cookie-eq-ok_iff}
use pingoo.Captcha.Issue.{HasSolved, api_verify-HasSolved}
use pingoo.Captcha.Works.{ReadsClaims, generate-validate}
use pingoo.Captcha.Small.{members, codec_of-laws, me, verified, challenges, key, manager, whole}

-- "E" and "C" with the signature over them
abbrev token : String
token =
    append (append (small_encode (codes "E")) (append "." (small_encode (codes "C"))))
      (append "." (small_encode (144 ∷ [])))

signed : sign small verified key [] small_header me ≡ ok token
unfolding sign sign_message
signed = refl

-- equal signatures of the two tokens
key_sound :
    (m signature : Bytes)
    → sign_message small key [] m ≡ ok signature
    → (length signature ≤ signature_max_size) × (verify_message small key m signature ≡ ok tt)
unfolding sign_message verify_message
key_sound m signature h = ground (arith, bytes_eq_iff signature ((5 + length m) ∷ []))

abbrev cookie : SetCookie
cookie = record { name = "__pingoo_captcha_verified"; value = token; expires = 86440 }

abbrev removed : SetCookie
removed = record { name = "__pingoo_captcha"; value = ""; expires = 0 }

issued :
    generate_captcha_verified_cookies small verified key [] 100_000_000_000 "id" "me"
    ≡ ok (cookie ∷ removed ∷ [])
unfolding generate_captcha_verified_cookies sign sign_message
issued = refl

reads : (text : String) → ReadsClaims small challenges verified me text
reads text = record {
  value = whole;
  members = members me.registered_claims;
  parsed = refl;
  object = refl;
  exp = λ t h. ground arith;
  nbf = λ t h. ground arith;
  aud = λ t h. ground arith;
  iss = λ t h. ground arith;
  read = refl;
}

-- a day later
generate-validate_example :
    validate_captcha_verified_cookie small challenges verified manager 86_500_000_000_000
      100_000_000_000 token "me"
    ≡ ok tt
unfolding get
generate-validate_example =
    generate-validate small challenges verified manager [] 100_000_000_000 86_500_000_000_000
      100_000_000_000 "id" "me" cookie (removed ∷ []) (codec_of-laws me me.registered_claims)
      (λ text h. reads text) key_sound refl refl (omega arith) (omega arith) issued

abbrev jwk : Jwk
jwk = record {
  kid = "k1";
  key_use = sig;
  algorithm = eddsa;
  jwk_crypto = okp ed25519 (5 ∷ []) (some (5 ∷ []));
}

loaded : collect (load_key small challenges verified) (jwk ∷ []) ≡ ok (key ∷ [])
unfolding collect validate_jwk key_from_jwk okp_key_from_jwk
loaded = refl

managed : new_from_jwks small challenges verified (jwk ∷ []) ≡ ok manager
unfolding new_from_jwks insert collect validate_jwk key_from_jwk okp_key_from_jwk
managed = refl

-- the hash of everything starts with three zeroes in hexadecimal
abbrev web : Web
web = record {
  header_value = λ c. some c.value;
  init_body = λ c d. some c;
  empty_body = some "{}";
  verify_body = λ bytes. some (record { hash = 0 ∷ 7 ∷ []; nonce = "n" });
  sha256 = λ bytes. 0 ∷ 7 ∷ [];
  asset = λ path. none;
  content_type = λ path. "text/html";
}

abbrev cookies : List Cookie
cookies = record { name = "__pingoo_captcha"; value = token } ∷ []

passes :
    (api_verify small challenges verified web manager 101_000_000_000 101_000_000_000 []
      101_000_000_000 "id"
      (some [])
      cookies
      "me").status
    ≡ 200
unfolding api_verify challenge_of key_of_token solves issue generate_captcha_verified_cookies sign
    sign_message parse_header parse_and_verify verify_parts parse_claims check_claims verify_message
    get
passes = refl

api_verify-HasSolved_example :
    HasSolved small challenges verified web manager 101_000_000_000 101_000_000_000
      (some [])
      cookies
      "me"
    × (api_verify small challenges verified web manager 101_000_000_000 101_000_000_000 []
          101_000_000_000 "id"
          (some [])
          cookies
          "me"
        ≡ issue small challenges verified web manager [] 101_000_000_000 "id" "me")
api_verify-HasSolved_example =
    api_verify-HasSolved small challenges verified web manager 101_000_000_000 101_000_000_000 []
      101_000_000_000 "id" (some []) cookies "me" passes

works :
    validate_captcha_verified_cookie small challenges verified manager 101_000_000_000
      101_000_000_000 token "me"
    ≡ ok tt
unfolding validate_captcha_verified_cookie key_of_token parse_header parse_and_verify verify_parts
    parse_claims check_claims verify_message get
works = refl

validate_captcha_verified_cookie-eq-ok_iff_example :
    (validate_captcha_verified_cookie small challenges verified manager 101_000_000_000
        101_000_000_000 token "me"
      ≡ ok tt)
    ↔ IsVerifiedClient small challenges verified manager 101_000_000_000 101_000_000_000 token "me"
validate_captcha_verified_cookie-eq-ok_iff_example =
    validate_captcha_verified_cookie-eq-ok_iff small challenges verified manager 101_000_000_000
      101_000_000_000 token "me"

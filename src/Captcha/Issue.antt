-- ===== src/Captcha/Issue.antt =====
-- What a client must have done for the cookie that pingoo/captcha.rs issues.
use pingoo.Prelude.{
  ℕ, ◌≤◌, String, List, ◌++◌, Option, none, some, true, not, ◌&&◌, &&-eq-true, ◌≡◌, inl, inr, refl,
  sym, subst, arith, Option-cases, Result-cases, ok, string_eq, unwrap_or, ltb, if◌then◌else◌,
}
use pingoo.Http.{Response, new_internal_error_response_500}
use pingoo.HttpListener.{Cookie}
use pingoo.CryptoUtils.{constant_time_compare, constant_time_compare_iff}
use pingoo.Jwt.{Bytes}
use pingoo.Jwt.Key.{Crypto, Key}
use pingoo.Jwt.Token.{Codec, ParsedJwt, parse_and_verify}
use pingoo.Jwt.Verified.{IsVerified, parse_and_verify-eq-ok_iff}
use pingoo.Captcha.{
  CaptchaCookieJwtClaims, CaptchaVerifiedCookieJwtClaims, captcha_cookie, jwt_validation_options,
}
use pingoo.Captcha.Manager.{
  CaptchaManager, CaptchaVerifyRequestBody, Web, leading_zeroes, or_500, cookie_value, key_of_token,
  solves, issue, challenge_of, api_verify,
}
use pingoo.Captcha.Access.{NamesKey, key_of_token-NamesKey}

or_500-eq-200 :
    {A : Type 0} (o : Option A) (k : A → Response)
    → (or_500 o k).status ≡ 200
    → (a : A) × ((o ≡ some a) × ((k a).status ≡ 200))
or_500-eq-200 none k h = ground arith
or_500-eq-200 (some a) k h = (a, (refl, h))

module _ (crypto : Crypto) (captcha_codec : Codec CaptchaCookieJwtClaims)
    (verified_codec : Codec CaptchaVerifiedCookieJwtClaims) where
  abbrev M : Type 0
  M = CaptchaManager crypto captcha_codec verified_codec

  -- The work that a client has shown.
  pub record HasSolved (web : Web) (m : M) (now_exp now_nbf : ℕ) (body : Option Bytes)
      (cookies : List Cookie) (client_id : String) : Type 0 where
    pub token : String
    pub key : Key crypto
    pub jwt : ParsedJwt CaptchaCookieJwtClaims
    pub bytes : Bytes
    pub input : CaptchaVerifyRequestBody
    pub cookie : cookie_value captcha_cookie cookies ≡ some token
    pub named : NamesKey crypto captcha_codec verified_codec captcha_codec m token key
    pub verified :
        IsVerified crypto captcha_codec key token jwt_validation_options now_exp now_nbf jwt
    pub sent : body ≡ some bytes
    pub read : web.verify_body bytes ≡ some input
    pub client :
        captcha_codec.as_bytes client_id
        ≡ captcha_codec.as_bytes (unwrap_or jwt.claims.registered_claims.sub "")
    pub zeroes : jwt.claims.difficulty ≤ leading_zeroes input.hash
    pub hash :
        web.sha256
          (captcha_codec.as_bytes jwt.claims.challenge ++ captcha_codec.as_bytes input.nonce)
        ≡ input.hash

  challenge_of-eq-some :
      (m : M) (now_exp now_nbf : ℕ) (cookies : List Cookie) (claims : CaptchaCookieJwtClaims)
      → challenge_of crypto captcha_codec verified_codec m now_exp now_nbf cookies ≡ some claims
      → (token : String) × ((cookie_value captcha_cookie cookies ≡ some token)
          × ((key : Key crypto) × ((jwt : ParsedJwt CaptchaCookieJwtClaims) × ((key_of_token crypto
                      captcha_codec verified_codec captcha_codec m token
                    ≡ some key)
                  × (parse_and_verify crypto captcha_codec key token jwt_validation_options now_exp
                        now_nbf
                      ≡ ok jwt)
                  × (jwt.claims ≡ claims)))))
  unfolding challenge_of
  challenge_of-eq-some m now_exp now_nbf cookies claims h =
      elim (Option-cases (cookie_value captcha_cookie cookies)) [
        | inl e ↦ absurd (ground arith)
        | inr (token, e) ↦
            elim (Option-cases
              (key_of_token crypto captcha_codec verified_codec captcha_codec m token)) [
                | inl e' ↦ absurd (ground arith)
                | inr (key, e') ↦
                    elim (Result-cases (
                      parse_and_verify crypto captcha_codec key token jwt_validation_options now_exp
                        now_nbf)) [
                          | inl (jwt, p) ↦ (token, (e, (key, (jwt, (e', p, ground arith)))))
                          | inr (x, p) ↦ absurd (ground arith)
                        ]
              ]
      ]

  solves-eq-true :
      (web : Web) (client_id : String) (claims : CaptchaCookieJwtClaims)
      (input : CaptchaVerifyRequestBody)
      → solves crypto captcha_codec verified_codec web client_id claims input ≡ true
      → (captcha_codec.as_bytes client_id
          ≡ captcha_codec.as_bytes (unwrap_or claims.registered_claims.sub ""))
        × (claims.difficulty ≤ leading_zeroes input.hash)
        × (web.sha256
              (captcha_codec.as_bytes claims.challenge ++ captcha_codec.as_bytes input.nonce)
            ≡ input.hash)
  unfolding solves
  solves-eq-true web client_id claims input h =
      let client = captcha_codec.as_bytes client_id in
      let sub = captcha_codec.as_bytes (unwrap_or claims.registered_claims.sub "") in
      let zeroes = not (ltb (leading_zeroes input.hash) claims.difficulty) in
      let digest =
        web.sha256
          (captcha_codec.as_bytes claims.challenge ++ captcha_codec.as_bytes input.nonce) in
      let (first, last) =
        &&-eq-true (constant_time_compare client sub && zeroes)
          (constant_time_compare digest input.hash) h in
      let (same, enough) = &&-eq-true (constant_time_compare client sub) zeroes first in
      (
        (constant_time_compare_iff client sub).0 same,
        ground arith,
        (constant_time_compare_iff digest input.hash).0 last,
      )

  module _ (web : Web) (m : M) (now_exp now_nbf : ℕ) where
    -- The API verifies a client only if its captcha cookie names a key of the manager that verifies it
    -- under the captcha's options and has the client as its subject, and the hash that the client has
    -- sent has the leading zeroes that the cookie asks for and is the SHA-256 of the cookie's challenge
    -- and the nonce sent; the answer is then the issue of the cookies.
    pub api_verify-HasSolved :
        (nonce : Bytes) (now : ℕ) (uuid : String) (body : Option Bytes) (cookies : List Cookie)
        (client_id : String)
        → (api_verify crypto captcha_codec verified_codec web m now_exp now_nbf nonce now uuid body
            cookies client_id).status
          ≡ 200
        → HasSolved web m now_exp now_nbf body cookies client_id
          × (api_verify crypto captcha_codec verified_codec web m now_exp now_nbf nonce now uuid
                body cookies client_id
              ≡ issue crypto captcha_codec verified_codec web m nonce now uuid client_id)
    unfolding api_verify
    api_verify-HasSolved nonce now uuid body cookies client_id h =
        let last : CaptchaCookieJwtClaims → CaptchaVerifyRequestBody → Response = λ claims input.
          if solves crypto captcha_codec verified_codec web client_id claims input
          then issue crypto captcha_codec verified_codec web m nonce now uuid client_id
          else new_internal_error_response_500 in
        let k2 : CaptchaCookieJwtClaims → Bytes → Response =
          λ claims bytes. or_500 (web.verify_body bytes) (last claims) in
        let k1 : CaptchaCookieJwtClaims → Response = λ claims. or_500 body (k2 claims) in
        let (claims, (e1, r1)) =
          or_500-eq-200 (challenge_of crypto captcha_codec verified_codec m now_exp now_nbf cookies)
            k1 h in
        let (bytes, (e2, r2)) = or_500-eq-200 body (k2 claims) r1 in
        let (input, (e3, r3)) = or_500-eq-200 (web.verify_body bytes) (last claims) r2 in
        let (token, (c, (key, (jwt, (named, parsed, same))))) =
          challenge_of-eq-some m now_exp now_nbf cookies claims e1 in
        let solved : solves crypto captcha_codec verified_codec web client_id claims input ≡ true =
          ground arith in
        let (client, zeroes, hash) = solves-eq-true web client_id jwt.claims input (
          subst (λ x. solves crypto captcha_codec verified_codec web client_id x input ≡ true)
            (sym same) solved) in
        (
          record {
            token = token;
            key = key;
            jwt = jwt;
            bytes = bytes;
            input = input;
            cookie = c;
            named =
                (key_of_token-NamesKey crypto captcha_codec verified_codec captcha_codec m token
                    key).0
                  named;
            verified =
                (parse_and_verify-eq-ok_iff crypto captcha_codec key token jwt_validation_options
                    now_exp now_nbf jwt).0
                  parsed;
            sent = e2;
            read = e3;
            client = client;
            zeroes = zeroes;
            hash = hash;
          },
          ground arith,
        )

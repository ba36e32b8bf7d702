-- ===== src/Captcha/Access.antt =====
-- Who gets past the captcha of pingoo/captcha.rs, and whose cookie is good for what.
use pingoo.Prelude.{
  ℕ, String, some, Bool, true, ◌&&◌, &&-eq-true, ◌≡◌, ◌↔◌, inl, inr, ap, sym, ◌∙◌, arith,
  Result-cases, Result, ok, err, ◌>>=◌, ok_or, ensure, bind-eq-ok, ok-injective, get, string_eq,
  unwrap_or,
}
use pingoo.CryptoUtils.{constant_time_compare, constant_time_compare_iff}
use pingoo.Jwt.{Error, Header}
use pingoo.Jwt.Key.{Crypto, Key}
use pingoo.Jwt.Token.{Codec, ParsedJwt, parse_header, parse_and_verify}
use pingoo.Jwt.Verified.{IsVerified, parse_and_verify-eq-ok_iff}
use pingoo.Captcha.{CaptchaCookieJwtClaims, CaptchaVerifiedCookieJwtClaims, jwt_validation_options}
use pingoo.Captcha.Manager.{
  CaptchaManager, CaptchaError, kid_of, key_of_token, jwt_is_not_valid, jwt_is_not_valid_because,
  jwt_error_or, validate_captcha_verified_cookie,
}

module _ (crypto : Crypto) (captcha_codec : Codec CaptchaCookieJwtClaims)
    (verified_codec : Codec CaptchaVerifiedCookieJwtClaims) where
  abbrev pub Manager : Type 0
  Manager = CaptchaManager crypto captcha_codec verified_codec

  -- A token names a key of the manager.
  abbrev pub NamesKey : {C : Type 0} → Codec C → Manager → String → Key crypto → Type 0
  NamesKey codec m token key =
      (header : Header) × ((parse_header crypto codec token ≡ ok header)
        × (get m.verifying_keys (kid_of header) ≡ some key))

  pub key_of_token-NamesKey :
      {C : Type 0} (codec : Codec C) (m : Manager) (token : String) (key : Key crypto)
      → (key_of_token crypto captcha_codec verified_codec codec m token ≡ some key)
        ↔ NamesKey codec m token key
  unfolding key_of_token
  key_of_token-NamesKey codec m token key = elim (Result-cases (parse_header crypto codec token)) [
    | inl (header, e) ↦ ground arith
    | inr (x, e) ↦ ground arith
  ]

  -- A client that a cookie is good for.
  pub record IsVerifiedClient (m : Manager) (now_exp now_nbf : ℕ) (cookie client_id : String)
      : Type 0 where
    pub key : Key crypto
    pub jwt : ParsedJwt CaptchaVerifiedCookieJwtClaims
    pub named : NamesKey verified_codec m cookie key
    pub verified :
        IsVerified crypto verified_codec key cookie jwt_validation_options now_exp now_nbf jwt
    pub client :
        verified_codec.as_bytes client_id
        ≡ verified_codec.as_bytes (unwrap_or jwt.claims.registered_claims.sub "")
    pub passed : jwt.claims.challenge_passed ≡ true

  pub jwt_error_or-eq-ok :
      {A : Type 0} (f : Error → CaptchaError) (r : Result A Error) {a : A}
      → jwt_error_or f r ≡ ok a
      → r ≡ ok a
  jwt_error_or-eq-ok f (ok a) h = ground arith
  jwt_error_or-eq-ok f (err e) h = ground arith

  module _ (m : Manager) (now_exp now_nbf : ℕ) where
    validate-IsVerifiedClient :
        (cookie client_id : String)
        → validate_captcha_verified_cookie crypto captcha_codec verified_codec m now_exp now_nbf
            cookie client_id
          ≡ ok tt
        → IsVerifiedClient m now_exp now_nbf cookie client_id
    unfolding validate_captcha_verified_cookie
    validate-IsVerifiedClient cookie client_id h =
        let same_client : ParsedJwt CaptchaVerifiedCookieJwtClaims → Bool = λ token.
          constant_time_compare (verified_codec.as_bytes client_id)
            (verified_codec.as_bytes (unwrap_or token.claims.registered_claims.sub "")) in
        let k2 : ParsedJwt CaptchaVerifiedCookieJwtClaims → Result (Unit {0}) CaptchaError =
          λ token.
            ensure (same_client token && token.claims.challenge_passed) jwt_is_not_valid (ok tt) in
        let parse : Key crypto → Result (ParsedJwt CaptchaVerifiedCookieJwtClaims) CaptchaError =
          λ key. jwt_error_or jwt_is_not_valid_because (
            parse_and_verify crypto verified_codec key cookie jwt_validation_options now_exp
              now_nbf) in
        let k1 : Key crypto → Result (Unit {0}) CaptchaError = λ key. parse key >>= k2 in
        let named = key_of_token crypto captcha_codec verified_codec verified_codec m cookie in
        let (key, e1, r1) = bind-eq-ok (ok_or named jwt_is_not_valid) k1 h in
        let (token, e2, r2) = bind-eq-ok (parse key) k2 r1 in
        let both : (same_client token && token.claims.challenge_passed) ≡ true = ground arith in
        let (same, passed) = &&-eq-true (same_client token) token.claims.challenge_passed both in
        let parsed =
          jwt_error_or-eq-ok jwt_is_not_valid_because
            (parse_and_verify crypto verified_codec key cookie jwt_validation_options now_exp
              now_nbf)
            e2 in
        record {
          key = key;
          jwt = token;
          named = (key_of_token-NamesKey verified_codec m cookie key).0 (ground arith);
          verified =
              (parse_and_verify-eq-ok_iff crypto verified_codec key cookie jwt_validation_options
                  now_exp now_nbf token).0
                parsed;
          client =
              (constant_time_compare_iff (verified_codec.as_bytes client_id)
                  (verified_codec.as_bytes (unwrap_or token.claims.registered_claims.sub ""))).0
                same;
          passed = passed;
        }

    pub IsVerifiedClient-validate :
        (cookie client_id : String)
        → IsVerifiedClient m now_exp now_nbf cookie client_id
        → validate_captcha_verified_cookie crypto captcha_codec verified_codec m now_exp now_nbf
            cookie client_id
          ≡ ok tt
    unfolding validate_captcha_verified_cookie
    IsVerifiedClient-validate cookie client_id v =
        let key = (key_of_token-NamesKey verified_codec m cookie v.key).1 v.named in
        let parsed =
          (parse_and_verify-eq-ok_iff crypto verified_codec v.key cookie jwt_validation_options
              now_exp now_nbf v.jwt).1
            v.verified in
        let same =
          (constant_time_compare_iff (verified_codec.as_bytes client_id)
              (verified_codec.as_bytes (unwrap_or v.jwt.claims.registered_claims.sub ""))).1
            v.client in
        ground (arith, key, parsed, same, v.passed)

    -- A cookie proves that a client is verified just if its header names a key of the manager, that key
    -- verifies the token under the captcha's options, its subject has the client's bytes (an absent one
    -- is the empty text) and its claims say that the challenge was passed.
    pub validate_captcha_verified_cookie-eq-ok_iff :
        (cookie client_id : String)
        → (validate_captcha_verified_cookie crypto captcha_codec verified_codec m now_exp now_nbf
              cookie client_id
            ≡ ok tt)
          ↔ IsVerifiedClient m now_exp now_nbf cookie client_id
    validate_captcha_verified_cookie-eq-ok_iff cookie client_id =
        (validate-IsVerifiedClient cookie client_id, IsVerifiedClient-validate cookie client_id)

    parsed_unique :
        (cookie : String) (key key' : Key crypto)
        (jwt jwt' : ParsedJwt CaptchaVerifiedCookieJwtClaims)
        → parse_and_verify crypto verified_codec key cookie jwt_validation_options now_exp now_nbf
          ≡ ok jwt
        → parse_and_verify crypto verified_codec key' cookie jwt_validation_options now_exp now_nbf
          ≡ ok jwt'
        → key ≡ key'
        → jwt ≡ jwt'
    parsed_unique cookie key key' jwt jwt' p q e = ok-injective Error (
        sym p
        ∙ ap
            (λ k.
              parse_and_verify crypto verified_codec k cookie jwt_validation_options now_exp
                now_nbf)
            e
        ∙ q)

    -- At one time a cookie proves at most one client verified: two clients that it is good for have the
    -- same bytes.
    pub validate_captcha_verified_cookie_unique :
        (cookie client other : String)
        → validate_captcha_verified_cookie crypto captcha_codec verified_codec m now_exp now_nbf
            cookie client
          ≡ ok tt
        → validate_captcha_verified_cookie crypto captcha_codec verified_codec m now_exp now_nbf
            cookie other
          ≡ ok tt
        → verified_codec.as_bytes client ≡ verified_codec.as_bytes other
    validate_captcha_verified_cookie_unique cookie client other h h' =
        let v = validate-IsVerifiedClient cookie client h in
        let w = validate-IsVerifiedClient cookie other h' in
        let named : some v.key ≡ some w.key =
          sym ((key_of_token-NamesKey verified_codec m cookie v.key).1 v.named)
          ∙ (key_of_token-NamesKey verified_codec m cookie w.key).1 w.named in
        let p =
          (parse_and_verify-eq-ok_iff crypto verified_codec v.key cookie jwt_validation_options
              now_exp now_nbf v.jwt).1
            v.verified in
        let q =
          (parse_and_verify-eq-ok_iff crypto verified_codec w.key cookie jwt_validation_options
              now_exp now_nbf w.jwt).1
            w.verified in
        let same = parsed_unique cookie v.key w.key v.jwt w.jwt p q (ground arith) in
        v.client
        ∙ ap
            (λ (j : ParsedJwt CaptchaVerifiedCookieJwtClaims).
              verified_codec.as_bytes (unwrap_or j.claims.registered_claims.sub ""))
            same
        ∙ sym w.client

-- ===== src/Captcha/Works.antt =====
-- The cookie of a verified client that pingoo/captcha.rs issues, and its acceptance.
use pingoo.Prelude.{
  ℕ, ◌+◌, ◌/◌, ◌≤◌, String, List, ◌∷◌, Option, some, false, ◌≡◌, inl, inr, refl, sym, arith,
  Result-cases, ok, get, string_eq, length,
}
use pingoo.CryptoUtils.{constant_time_compare_iff}
use pingoo.Jwt.{
  Bytes, eddsa, ℤ, pos, ltb_int, signature_max_size, timestamp_before, timestamp_after,
}
use pingoo.Jwt.Key.{Crypto, Key, sign_message, verify_message}
use pingoo.Jwt.Token.{Codec, claim, sign}
use pingoo.Jwt.Claims.{ClaimsAccepted, ClaimsHold}
use pingoo.Jwt.RoundTrip.{CodecLaws, parse_header-sign, parse_and_verify-sign}
use pingoo.Captcha.{
  CaptchaCookieJwtClaims, CaptchaVerifiedCookieJwtClaims, SetCookie, captcha_jwt_issuer,
  jwt_validation_options, captcha_verified_jwt_expiration, generate_captcha_verified_cookies,
  header_for, secs, verified_claims,
}
use pingoo.Captcha.Manager.{CaptchaManager, key_of_token, validate_captcha_verified_cookie}

module _ (crypto : Crypto) (captcha_codec : Codec CaptchaCookieJwtClaims)
    (verified_codec : Codec CaptchaVerifiedCookieJwtClaims) where
  -- What is known of the way in which JSON writes the claims of a verified client: an object, whose
  -- registered claims are read under their names, and which is read back.
  pub record ReadsClaims (claims : CaptchaVerifiedCookieJwtClaims) (text : String) : Type 0 where
    pub value : verified_codec.Json
    pub members : String → Option verified_codec.Json
    pub parsed : verified_codec.value_from_slice (verified_codec.as_bytes text) ≡ some value
    pub object : verified_codec.as_object value ≡ some members
    pub exp :
        (t : ℤ)
        → claims.registered_claims.exp ≡ some t
        → claim crypto verified_codec verified_codec.as_i64 members "exp" ≡ ok t
    pub nbf :
        (t : ℤ)
        → claims.registered_claims.nbf ≡ some t
        → claim crypto verified_codec verified_codec.as_i64 members "nbf" ≡ ok t
    pub aud :
        (t : String)
        → claims.registered_claims.aud ≡ some t
        → claim crypto verified_codec verified_codec.as_str members "aud" ≡ ok t
    pub iss :
        (t : String)
        → claims.registered_claims.iss ≡ some t
        → claim crypto verified_codec verified_codec.as_str members "iss" ≡ ok t
    pub read : verified_codec.claims_from_value value ≡ some claims

  not_expired :
      (now now_exp : ℕ)
      → now_exp ≤ now + 86_405_000_000_000
      → ltb_int
          (pos ((now + captcha_verified_jwt_expiration) / secs))
          (timestamp_before now_exp 5_000_000_000)
        ≡ false
  not_expired now now_exp h = ground arith

  in_force :
      (now now_nbf : ℕ)
      → now ≤ now_nbf + 5_000_000_000
      → ltb_int (timestamp_after now_nbf 5_000_000_000) (pos (now / secs)) ≡ false
  in_force now now_nbf h = ground arith

  accepts :
      (now now_exp now_nbf : ℕ) (uuid client_id text : String)
      → ReadsClaims (verified_claims crypto now uuid client_id) text
      → now_exp ≤ now + 86_405_000_000_000
      → now ≤ now_nbf + 5_000_000_000
      → ClaimsAccepted crypto verified_codec jwt_validation_options now_exp now_nbf
          (verified_codec.as_bytes text)
          (verified_claims crypto now uuid client_id)
  accepts now now_exp now_nbf uuid client_id text r before after =
      let c = verified_claims crypto now uuid client_id in
      let held : ClaimsHold crypto verified_codec jwt_validation_options now_exp now_nbf r.members =
        record {
          exp = inr (
            pos ((now + captcha_verified_jwt_expiration) / secs),
            (
              r.exp (pos ((now + captcha_verified_jwt_expiration) / secs)) refl,
              not_expired now now_exp before,
            ),
          );
          nbf = inr (pos (now / secs), (r.nbf (pos (now / secs)) refl, in_force now now_nbf after));
          aud = inr (captcha_jwt_issuer, (r.aud captcha_jwt_issuer refl, inl refl));
          iss = inr (captcha_jwt_issuer, (r.iss captcha_jwt_issuer refl, inl refl));
        } in
      inr (refl, (r.value, (r.members, (r.parsed, r.object, held, r.read))))

  generate-sign :
      (key : Key crypto) (nonce : Bytes) (now : ℕ) (uuid client_id : String) (c : SetCookie)
      (rest : List SetCookie)
      → generate_captcha_verified_cookies crypto verified_codec key nonce now uuid client_id
        ≡ ok (c ∷ rest)
      → sign crypto verified_codec key nonce
          (header_for key.id)
          (verified_claims crypto now uuid client_id)
        ≡ ok c.value
  unfolding generate_captcha_verified_cookies
  generate-sign key nonce now uuid client_id c rest h =
      elim (Result-cases (
        sign crypto verified_codec key nonce (header_for key.id)
          (verified_claims crypto now uuid client_id))) [
            | inl (token, e) ↦ ground arith
            | inr (x, e) ↦ absurd (ground arith)
          ]

  -- The first of the cookies that the manager issues proves its client verified, from five seconds
  -- before it is issued until a day and five seconds after, where the manager has its EdDSA signing key
  -- under the key's id, the key verifies what it signs in at most 132 bytes, and base64 and JSON read
  -- what they write.
  pub generate-validate :
      (m : CaptchaManager crypto captcha_codec verified_codec) (nonce : Bytes)
      (now now_exp now_nbf : ℕ) (uuid client_id : String) (c : SetCookie) (rest : List SetCookie)
      → CodecLaws crypto verified_codec
      → ((text : String)
          → verified_codec.claims_to_string (verified_claims crypto now uuid client_id) ≡ some text
          → ReadsClaims (verified_claims crypto now uuid client_id) text)
      → ((message signature : Bytes)
          → sign_message crypto m.signing_key nonce message ≡ ok signature
          → (length signature ≤ signature_max_size)
            × (verify_message crypto m.signing_key message signature ≡ ok tt))
      → get m.verifying_keys m.signing_key.id ≡ some m.signing_key
      → m.signing_key.algorithm ≡ eddsa
      → now_exp ≤ now + 86_405_000_000_000
      → now ≤ now_nbf + 5_000_000_000
      → generate_captcha_verified_cookies crypto verified_codec m.signing_key nonce now uuid
          client_id
        ≡ ok (c ∷ rest)
      → validate_captcha_verified_cookie crypto captcha_codec verified_codec m now_exp now_nbf
          c.value client_id
        ≡ ok tt
  unfolding validate_captcha_verified_cookie key_of_token
  generate-validate m nonce now now_exp now_nbf uuid client_id c rest laws reads sound known alg
        before after h =
      let key = m.signing_key in
      let claims = verified_claims crypto now uuid client_id in
      let signed = generate-sign key nonce now uuid client_id c rest h in
      let header =
        parse_header-sign crypto verified_codec laws key nonce (header_for key.id) claims c.value
          signed in
      let parsed =
        parse_and_verify-sign crypto verified_codec laws key nonce (header_for key.id) claims
          c.value signed jwt_validation_options now_exp now_nbf (sym alg) sound
          (λ text e. accepts now now_exp now_nbf uuid client_id text (reads text e) before after) in
      let same =
        (constant_time_compare_iff (verified_codec.as_bytes client_id)
            (verified_codec.as_bytes client_id)).1
          refl in
      ground (arith, header, known, parsed, same)

-- ===== src/Captcha/Keys.antt =====
-- The keys that `CaptchaManager::new` of pingoo/captcha.rs gets from its file.
use pingoo.Prelude.{
  String, List, [], ◌∷◌, map, Option, none, some, ◌≡◌, inl, inr, refl, ap, sym, ◌∙◌, arith, All,
  subst, In, NoDup, get, insert, get-insert, HashMap, string_eq, Result, ok, ◌>>=◌, bind-eq-ok,
  ok-injective, Result-cases, collect,
}
use pingoo.Jwt.{Bytes, OkpCurve, eddsa}
use pingoo.Jwt.Key.{Crypto, Key}
use pingoo.Jwt.Jwk.{Jwk, JwkCrypto, okp, ec, oct, key_from_jwk, okp_key_from_jwk, match_key}
use pingoo.Jwt.Token.{Codec}
use pingoo.Captcha.Access.{jwt_error_or-eq-ok}
use pingoo.Captcha.{
  JwkProblem, CaptchaCookieJwtClaims, CaptchaVerifiedCookieJwtClaims, validate_jwk,
}
use pingoo.Captcha.Manager.{
  CaptchaManager, CaptchaError, by_id, jwt_error, jwt_error_or, load_key, from_keys, new_from_jwks,
  bad_jwk_or,
}

module _ (crypto : Crypto) (captcha_codec : Codec CaptchaCookieJwtClaims)
    (verified_codec : Codec CaptchaVerifiedCookieJwtClaims) where
  abbrev K : Type 0
  K = Key crypto

  abbrev ids : List K → List String
  ids keys = map (λ (k : K). k.id) keys

  abbrev index : HashMap String K → List K → HashMap String K
  index m keys = by_id crypto captcha_codec verified_codec m keys

  get-by_id :
      (m : HashMap String K) (keys : List K) (id : String)
      → ¬ (In id (ids keys))
      → get (index m keys) id ≡ get m id
  get-by_id m [] id h = refl
  get-by_id m (key ∷ keys) id h =
      get-by_id (insert m key.id key) keys id (λ i. h (inr i))
      ∙ ground (arith, get-insert m key.id key id, h, string_eq.same_iff key.id id)

  okp-eddsa :
      (kid : String) (curve : OkpCurve) (x : Bytes) (d : Option Bytes) (key : K)
      → okp_key_from_jwk crypto kid curve x d ≡ ok key
      → key.algorithm ≡ eddsa
  unfolding okp_key_from_jwk
  okp-eddsa kid curve x none key h = ground arith
  okp-eddsa kid curve x (some seed) key h = ground arith

  match_key-eddsa :
      (kid : String) (jwk : JwkCrypto) (key : K)
      → match_key crypto kid eddsa jwk ≡ ok key
      → key.algorithm ≡ eddsa
  match_key-eddsa kid (okp curve x d) key h = okp-eddsa kid curve x d key h
  match_key-eddsa kid (ec curve x y d) key h = ground arith
  match_key-eddsa kid (oct secret) key h = ground arith

  validate_jwk-eddsa : (jwk : Jwk) → validate_jwk jwk ≡ ok tt → jwk.algorithm ≡ eddsa
  unfolding validate_jwk
  validate_jwk-eddsa jwk h = ground arith

  load_key-eddsa :
      (jwk : Jwk) (key : K)
      → load_key crypto captcha_codec verified_codec jwk ≡ ok key
      → key.algorithm ≡ eddsa
  unfolding key_from_jwk
  load_key-eddsa jwk key h = elim (Result-cases (validate_jwk jwk)) [
    | inl (u, e) ↦
        let same = validate_jwk-eddsa jwk (ground arith) in
        let made = match_key crypto jwk.kid jwk.algorithm jwk.jwk_crypto in
        let second : jwt_error_or jwt_error made ≡ ok key =
          ap
            (λ (r : Result (Unit {0}) JwkProblem).
              bad_jwk_or r >>= λ _. jwt_error_or jwt_error made)
            (sym e)
          ∙ h in
        let converted =
          jwt_error_or-eq-ok crypto captcha_codec verified_codec jwt_error made second in
        match_key-eddsa jwk.kid jwk.jwk_crypto key
          (sym (ap (λ a. match_key crypto jwk.kid a jwk.jwk_crypto) same) ∙ converted)
    | inr (x, e) ↦ absurd (ground arith)
  ]

  load_keys-eddsa :
      (jwks : List Jwk) (keys : List K)
      → collect (load_key crypto captcha_codec verified_codec) jwks ≡ ok keys
      → All (λ (k : K). k.algorithm ≡ eddsa) keys
  unfolding collect
  load_keys-eddsa [] keys h =
      subst (λ ks. All (λ (k : K). k.algorithm ≡ eddsa) ks) (ok-injective CaptchaError h) tt
  load_keys-eddsa (jwk ∷ jwks) keys h =
      let load = load_key crypto captcha_codec verified_codec in
      let k2 : K → List K → Result (List K) CaptchaError = λ k ks. ok (k ∷ ks) in
      let k1 : K → Result (List K) CaptchaError = λ k. collect load jwks >>= k2 k in
      let (key, e1, r1) = bind-eq-ok (load jwk) k1 h in
      let (rest, e2, r2) = bind-eq-ok (collect load jwks) (k2 key) r1 in
      subst (λ ks. All (λ (k : K). k.algorithm ≡ eddsa) ks) (ok-injective CaptchaError r2)
        (load_key-eddsa jwk key e1, load_keys-eddsa jwks rest e2)

  from_keys-ready :
      (keys : List K) (m : CaptchaManager crypto captcha_codec verified_codec)
      → All (λ (k : K). k.algorithm ≡ eddsa) keys
      → NoDup (ids keys)
      → from_keys crypto captcha_codec verified_codec keys ≡ ok m
      → (m.signing_key.algorithm ≡ eddsa)
        × (get m.verifying_keys m.signing_key.id ≡ some m.signing_key)
  from_keys-ready [] m all once h = absurd (ground arith)
  from_keys-ready (key ∷ keys) m all once h =
      let P : CaptchaManager crypto captcha_codec verified_codec → Type 0 = λ m.
        (m.signing_key.algorithm ≡ eddsa)
        × (get m.verifying_keys m.signing_key.id ≡ some m.signing_key) in
      let start = get-by_id (insert [] key.id key) keys key.id once.0 in
      subst P (ok-injective CaptchaError h) (
        all.0,
        start ∙ ground (arith, get-insert [] key.id key key.id, string_eq.same_iff key.id key.id),
      )

  -- The manager that is made from a file of keys signs with an EdDSA key, and has that key under its id
  -- for verification if the ids of the keys are distinct.
  pub new_from_jwks-ready :
      (jwks : List Jwk) (keys : List K) (m : CaptchaManager crypto captcha_codec verified_codec)
      → collect (load_key crypto captcha_codec verified_codec) jwks ≡ ok keys
      → NoDup (ids keys)
      → new_from_jwks crypto captcha_codec verified_codec jwks ≡ ok m
      → (m.signing_key.algorithm ≡ eddsa)
        × (get m.verifying_keys m.signing_key.id ≡ some m.signing_key)
  unfolding new_from_jwks
  new_from_jwks-ready jwks keys m e once h =
      from_keys-ready keys m (load_keys-eddsa jwks keys e) once (
        ap
          (λ (r : Result (List K) CaptchaError).
            r >>= from_keys crypto captcha_codec verified_codec)
          (sym e)
        ∙ h)

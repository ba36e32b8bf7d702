-- ===== src/Captcha/Restart.antt =====
-- What a restart finds of the keys that `CaptchaManager::new` of pingoo/captcha.rs made.
use pingoo.Prelude.{
  String, List, [], ◌∷◌, collect, insert, some, Bool, true, false, Option, Option-cases, ◌≡◌, inl,
  inr, refl, ap, sym, ◌∙◌, subst, arith, Result, ok, ◌>>=◌, ok_or, bind-eq-ok, ok-injective,
  ok_or-eq-ok, trim, str_is_empty, string_eq, Result-cases,
}
use pingoo.Disk.{Disk, content, read, write, try_exists, read-write, write-exists}
use pingoo.Jwt.{eddsa, ed25519}
use pingoo.Jwt.Key.{Crypto, Key, eddsa_key}
use pingoo.Jwt.Jwk.{Jwk, jwk_from_key, key_from_jwk}
use pingoo.Jwt.Keys.{key_from_jwk-jwk_from_key}
use pingoo.Jwt.Token.{Codec}
use pingoo.Captcha.{CaptchaCookieJwtClaims, CaptchaVerifiedCookieJwtClaims, validate_jwk}
use pingoo.Captcha.Manager.{
  CaptchaManager, CaptchaError, new_from_jwks, new_from_key, load_key, bad_jwk_or, jwt_error_or,
  jwt_error, from_keys,
}
use pingoo.Captcha.File.{
  KeyFile, StartError, captcha_jwks_path, new, load_jwks, save_jwt_keys, save_key, keep,
  load_or_create, generate_ed25519, generated, jwks_not_serialized, jwks_not_written,
  jwks_unreadable,
}

module _ (crypto : Crypto) (captcha_codec : Codec CaptchaCookieJwtClaims)
    (verified_codec : Codec CaptchaVerifiedCookieJwtClaims) (key_file : KeyFile crypto) where
  open crypto use {EdKeypair, ed_public_key, ed_seed, ed_from_seed_and_public_key}
  open key_file use {from_slice, to_vec_pretty, generate}

  abbrev M : Type 0
  M = CaptchaManager crypto captcha_codec verified_codec

  abbrev made : String → EdKeypair → Key crypto
  made id keypair = record { id = id; algorithm = eddsa; crypto_key = eddsa_key ed25519 keypair }

  module _
      (own : (keypair : EdKeypair)
        → ed_from_seed_and_public_key (ed_seed keypair) (ed_public_key keypair) ≡ ok keypair) where
    load_key-made :
        (id : String) (keypair : EdKeypair)
        → str_is_empty (trim id) ≡ false
        → load_key crypto captcha_codec verified_codec (jwk_from_key crypto (made id keypair))
          ≡ ok (made id keypair)
    load_key-made id keypair named =
        let jwk = jwk_from_key crypto (made id keypair) in
        let back : key_from_jwk crypto jwk ≡ ok (made id keypair) =
          key_from_jwk-jwk_from_key crypto id eddsa (eddsa_key ed25519 keypair) own refl
            (λ c k e. ground (arith, e)) in
        let valid : validate_jwk jwk ≡ ok tt =
          unfold jwk_from_key in unfold validate_jwk in ground (arith, named) in
        ap (λ r. bad_jwk_or r >>= λ _. jwt_error_or jwt_error (key_from_jwk crypto jwk)) valid
        ∙ ap (jwt_error_or jwt_error) back

    new_from_jwks-made :
        (id : String) (keypair : EdKeypair)
        → str_is_empty (trim id) ≡ false
        → new_from_jwks crypto captcha_codec verified_codec
            (jwk_from_key crypto (made id keypair) ∷ [])
          ≡ ok (new_from_key crypto captcha_codec verified_codec (made id keypair))
    unfolding new_from_jwks new_from_key collect insert
    new_from_jwks-made id keypair named =
        ap
          (λ (r : Result (Key crypto) CaptchaError).
            (r >>= λ k. ok (k ∷ [])) >>= from_keys crypto captcha_codec verified_codec)
          (load_key-made id keypair named)

    generated-made :
        (id : String) (key : Key crypto)
        → generated crypto captcha_codec verified_codec key_file
            (generate_ed25519 crypto captcha_codec verified_codec key_file id)
          ≡ ok key
        → (keypair : EdKeypair) × (key ≡ made id keypair)
    unfolding generate_ed25519
    generated-made id key h = elim (Result-cases generate) [
      | inl (keypair, eq) ↦ (keypair, ground (arith, eq, h))
      | inr (e, eq) ↦ absurd (ground (arith, eq, h))
    ]

    module _
        (reads : (jwks : List Jwk) (text : String)
          → to_vec_pretty jwks ≡ some text
          → from_slice text ≡ some jwks) where
      -- the key that was saved is read again
      saved_again :
          (disk after : Disk) (id uuid : String) (keypair : EdKeypair) (m : M)
          → str_is_empty (trim id) ≡ false
          → save_key crypto captcha_codec verified_codec key_file disk (made id keypair)
            ≡ ok (after, m)
          → new crypto captcha_codec verified_codec key_file after uuid ≡ ok (after, m)
      unfolding new save_jwt_keys
      saved_again disk after id uuid keypair m named h =
          let jwks = jwk_from_key crypto (made id keypair) ∷ [] in
          let manager = new_from_key crypto captcha_codec verified_codec (made id keypair) in
          let finish : Disk → Result (Disk × M) StartError = λ d. ok (d, manager) in
          let (d, e, r) =
            bind-eq-ok
              (save_jwt_keys crypto captcha_codec verified_codec key_file disk
                (made id keypair ∷ []) captcha_jwks_path)
              finish h in
          let (text, e1, r1) =
            bind-eq-ok (ok_or (to_vec_pretty jwks) jwks_not_serialized)
              (λ t. ok_or (write disk captcha_jwks_path t) (jwks_not_written captcha_jwks_path))
              e in
          let wrote =
            ok_or-eq-ok (write disk captcha_jwks_path text) (jwks_not_written captcha_jwks_path)
              r1 in
          let parsed = reads jwks text (ok_or-eq-ok (to_vec_pretty jwks) jwks_not_serialized e1) in
          let there : read d captcha_jwks_path ≡ content text =
            read-write disk d captcha_jwks_path text captcha_jwks_path wrote in
          let loaded : load_jwks crypto captcha_codec verified_codec key_file d ≡ ok manager =
            rw (there, parsed, new_from_jwks-made id keypair named) refl in
          let again : new crypto captcha_codec verified_codec key_file d uuid ≡ ok (d, manager) =
            rw (write-exists disk d captcha_jwks_path text wrote, loaded) refl in
          subst (λ (x : Disk × M). new crypto captcha_codec verified_codec key_file x.0 uuid ≡ ok x)
            (ok-injective StartError r) again

      -- `new` from what `try_exists` gives
      abbrev run : Disk → String → Option Bool → Result (Disk × M) StartError
      run disk uuid exists =
          ok_or exists jwks_unreadable
          >>= load_or_create crypto captcha_codec verified_codec key_file disk uuid

      -- A manager of captchas whose start succeeds, from the file of keys or with a new key that it
      -- saves there, comes up the same at the next start, which leaves the disk as it is, where the new
      -- id is not blank, JSON reads what it writes, and a key pair of Ed25519 is accepted from its own
      -- seed and public key.
      pub new_twice :
          (disk after : Disk) (uuid uuid' : String) (m : M)
          → str_is_empty (trim uuid) ≡ false
          → new crypto captcha_codec verified_codec key_file disk uuid ≡ ok (after, m)
          → new crypto captcha_codec verified_codec key_file after uuid' ≡ ok (after, m)
      unfolding new
      new_twice disk after uuid uuid' m named h =
          elim (Option-cases (try_exists disk captcha_jwks_path)) [
            | inl failed ↦ absurd (ground (arith, failed, h))
            | inr (true, there) ↦
                let load = load_jwks crypto captcha_codec verified_codec key_file disk in
                let (m', e, r) =
                  bind-eq-ok load (keep crypto captcha_codec verified_codec key_file disk)
                    (ap (run disk uuid) (sym there) ∙ h) in
                let again : new crypto captcha_codec verified_codec key_file disk uuid'
                    ≡ ok (disk, m') =
                  ap (run disk uuid') there
                  ∙ ap
                      (λ (l : Result M StartError).
                        l >>= keep crypto captcha_codec verified_codec key_file disk)
                      e in
                subst
                  (λ (x : Disk × M).
                    new crypto captcha_codec verified_codec key_file x.0 uuid' ≡ ok x)
                  (ok-injective StartError r) again
            | inr (false, missing) ↦
                let (key, e, r) =
                  bind-eq-ok
                    (generated crypto captcha_codec verified_codec key_file
                      (generate_ed25519 crypto captcha_codec verified_codec key_file uuid))
                    (save_key crypto captcha_codec verified_codec key_file disk)
                    (ap (run disk uuid) (sym missing) ∙ h) in
                let (keypair, same) = generated-made uuid key e in
                saved_again disk after uuid uuid' keypair m named
                  (ap (save_key crypto captcha_codec verified_codec key_file disk) (sym same) ∙ r)
          ]

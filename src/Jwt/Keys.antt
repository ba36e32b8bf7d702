-- ===== src/Jwt/Keys.antt =====
-- Keys through `Jwk::from` and `Key::try_from` of jwt/jwk.rs and jwt/key.rs.
use pingoo.Prelude.{
  String, ◌∷◌, ◌++◌, some, ◌≡◌, ◌≢◌, ◌⊎◌, refl, ap, sym, ◌∙◌, subst, length, take, drop,
  take-append, drop-append, length-append, Result, ok, err, bind-eq-ok, arith,
}
use pingoo.Jwt.{Bytes, Algorithm, hs512, eddsa, es256, es512, ed25519, EcCurve, p256, p521, sha512}
use pingoo.Jwt.Key.{Crypto, Key, KeyCrypto, eddsa_key, ecdsa_key, hmac_key}
use pingoo.Jwt.Jwk.{
  jwk_from_key, key_from_jwk, split_public_key, join_public_key, ec_key_from_jwk, okp_key_from_jwk,
  coordinate_size, rejected,
}

split_public_key-append :
    (curve : EcCurve) (x y : Bytes)
    → length x ≡ coordinate_size curve
    → length y ≡ coordinate_size curve
    → split_public_key curve (4 ∷ (x ++ y)) ≡ (x, y)
unfolding split_public_key
split_public_key-append p256 x y hx hy =
    let full : length (4 ∷ (x ++ y)) ≡ 65 = omega (arith, length-append x y) in
    ground (arith, take-append x y, drop-append x y, full, hx)
split_public_key-append p521 x y hx hy =
    let full : length (4 ∷ (x ++ y)) ≡ 133 = omega (arith, length-append x y) in
    ground (arith, take-append x y, drop-append x y, full, hx)

module _ (crypto : Crypto) where
  open crypto use {
    EdKeypair, EcKeypair, ed_public_key, ec_public_key, ed_seed, ec_private_key,
    ed_from_seed_and_public_key, ec_from_private_key_and_public_key,
  }

  -- The algorithms that the conversion gives keys of each kind.
  abbrev pub HasKind : Key crypto → Type 0
  HasKind key = elim key.crypto_key [
    | eddsa_key curve keypair ↦ key.algorithm ≡ eddsa
    | ecdsa_key curve keypair ↦ (key.algorithm ≡ es256) ⊎ (key.algorithm ≡ es512)
    | hmac_key h secret ↦ (key.algorithm ≡ hs512) × (h ≡ sha512)
  ]

  -- A key that is no ECDSA key, with the algorithm of its kind, comes back from its JWK, where a key
  -- pair of Ed25519 is accepted from its own seed and public key.
  pub key_from_jwk-jwk_from_key :
      (id : String) (algorithm : Algorithm) (k : KeyCrypto crypto)
      → ((keypair : EdKeypair)
          → ed_from_seed_and_public_key (ed_seed keypair) (ed_public_key keypair) ≡ ok keypair)
      → HasKind (record { id = id; algorithm = algorithm; crypto_key = k })
      → ((curve : EcCurve) (keypair : EcKeypair) → k ≢ ecdsa_key curve keypair)
      → key_from_jwk crypto
          (jwk_from_key crypto (record { id = id; algorithm = algorithm; crypto_key = k }))
        ≡ ok (record { id = id; algorithm = algorithm; crypto_key = k })
  unfolding key_from_jwk jwk_from_key okp_key_from_jwk
  key_from_jwk-jwk_from_key id algorithm (eddsa_key ed25519 keypair) own kind other =
      ground (arith, own keypair)
  key_from_jwk-jwk_from_key id algorithm (ecdsa_key curve keypair) own kind other =
      absurd (other curve keypair refl)
  key_from_jwk-jwk_from_key id algorithm (hmac_key h secret) own kind other = ground arith

  rejected-eq-ok :
      {K : Type 0} (id : String) (r : Result K String) {k : K}
      → rejected crypto id r ≡ ok k
      → r ≡ ok k
  rejected-eq-ok id (ok k) h = ground arith
  rejected-eq-ok id (err e) h = ground arith

  ec_key_from_jwk-eq-ok :
      (id : String) (algorithm : Algorithm) (curve : EcCurve) (x y private_key : Bytes)
      {key : Key crypto}
      → ec_key_from_jwk crypto id algorithm curve x y (some private_key) ≡ ok key
      → (keypair : EcKeypair) × (ec_from_private_key_and_public_key curve private_key (4 ∷ (y ++ x))
          ≡ ok keypair)
  unfolding ec_key_from_jwk join_public_key
  ec_key_from_jwk-eq-ok id algorithm curve x y private_key h =
      let (keypair, e, _) =
        bind-eq-ok
          (rejected crypto id (ec_from_private_key_and_public_key curve private_key (4 ∷ (y ++ x))))
          (λ keypair.
            ok (record { id = id; algorithm = algorithm; crypto_key = ecdsa_key curve keypair }))
          h in
      (
        keypair,
        rejected-eq-ok id (ec_from_private_key_and_public_key curve private_key (4 ∷ (y ++ x))) e,
      )

  key_from_jwk-ec :
      (id : String) (algorithm : Algorithm) (curve : EcCurve) (keypair : EcKeypair)
      {key : Key crypto}
      → (algorithm ≡ es256) ⊎ (algorithm ≡ es512)
      → key_from_jwk crypto (
          jwk_from_key crypto
            (record { id = id; algorithm = algorithm; crypto_key = ecdsa_key curve keypair }))
        ≡ ok key
      → ec_key_from_jwk crypto id algorithm curve
          (split_public_key curve (ec_public_key keypair)).0
          (split_public_key curve (ec_public_key keypair)).1
          (some (ec_private_key keypair))
        ≡ ok key
  unfolding key_from_jwk jwk_from_key
  key_from_jwk-ec id es256 curve keypair kind h = h
  key_from_jwk-ec id es512 curve keypair kind h = h
  key_from_jwk-ec id hs512 curve keypair kind h = ground arith
  key_from_jwk-ec id eddsa curve keypair kind h = ground arith

  swap-eq : (x y : Bytes) → length x ≡ length y → (4 ∷ (y ++ x)) ≡ (4 ∷ (x ++ y)) → x ≡ y
  swap-eq x y h e =
      let tails : (y ++ x) ≡ (x ++ y) = ap (λ xs. drop 1 xs) e in
      sym (take-append x y)
      ∙ ap (λ xs. take (length x) xs) (sym tails)
      ∙ ap (λ n. take n (y ++ x)) h
      ∙ take-append y x

  -- An ECDSA key whose public key is 0x04, `x` and `y`, with `x` and `y` of the curve's size and not
  -- equal, never comes back from its JWK, under the condition that a private key is only accepted with
  -- the public key of its key pair: the conversion joins the coordinates in the other order.
  pub key_from_jwk-swaps :
      (id : String) (algorithm : Algorithm) (curve : EcCurve) (keypair : EcKeypair) (x y : Bytes)
      (key : Key crypto)
      → (algorithm ≡ es256) ⊎ (algorithm ≡ es512)
      → ec_public_key keypair ≡ (4 ∷ (x ++ y))
      → length x ≡ coordinate_size curve
      → length y ≡ coordinate_size curve
      → x ≢ y
      → ((p : Bytes) (k : EcKeypair)
          → ec_from_private_key_and_public_key curve (ec_private_key keypair) p ≡ ok k
          → p ≡ ec_public_key keypair)
      → key_from_jwk crypto (
          jwk_from_key crypto
            (record { id = id; algorithm = algorithm; crypto_key = ecdsa_key curve keypair }))
        ≢ ok key
  key_from_jwk-swaps id algorithm curve keypair x y key kind public hx hy differ consistent h =
      let split =
        ap (λ p. split_public_key curve p) public ∙ split_public_key-append curve x y hx hy in
      let private_key = ec_private_key keypair in
      let made = key_from_jwk-ec id algorithm curve keypair kind h in
      let made' =
        subst
          (λ (p : Bytes × Bytes).
            ec_key_from_jwk crypto id algorithm curve p.0 p.1 (some private_key) ≡ ok key)
          split made in
      let (k, e) = ec_key_from_jwk-eq-ok id algorithm curve x y private_key made' in
      differ (swap-eq x y (hx ∙ sym hy) (consistent (4 ∷ (y ++ x)) k e ∙ public))

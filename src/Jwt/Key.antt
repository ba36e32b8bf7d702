-- ===== src/Jwt/Key.antt =====
-- jwt/key.rs: signing and verifying with a key.
use pingoo.Prelude.{String, Option, none, some, Bool, true, false, Result, ok, err}
use pingoo.Jwt.{
  Bytes, Error, invalid_signature, unspecified, panicked, Algorithm, OkpCurve, EcCurve,
  HmacAlgorithm,
}

-- What is used of aws_lc_rs. A verification is `none` where the public key does not parse; signing with
-- ECDSA draws a nonce. A key pair gives its private part without an error.
pub record Crypto : Type 1 where
  pub EdKeypair : Type 0
  pub EcKeypair : Type 0
  pub ed_sign : EdKeypair → Bytes → Bytes
  pub ec_sign : EcKeypair → Bytes → Bytes → Result Bytes String
  pub hmac_sign : HmacAlgorithm → Bytes → Bytes → Bytes
  pub ed_public_key : EdKeypair → Bytes
  pub ec_public_key : EcKeypair → Bytes
  pub ed_verify : Bytes → Bytes → Bytes → Option Bool
  pub ec_verify : EcCurve → Bytes → Bytes → Bytes → Option Bool
  pub hmac_verify : HmacAlgorithm → Bytes → Bytes → Bytes → Bool
  pub ed_seed : EdKeypair → Bytes
  pub ec_private_key : EcKeypair → Bytes
  pub ed_from_seed_and_public_key : Bytes → Bytes → Result EdKeypair String
  pub ec_from_private_key_and_public_key : EcCurve → Bytes → Bytes → Result EcKeypair String

module _ (crypto : Crypto) where
  open crypto use {
    EdKeypair, EcKeypair, ed_sign, ec_sign, hmac_sign, ed_public_key, ec_public_key, ed_verify,
    ec_verify, hmac_verify,
  }

  pub data KeyCrypto : Type 0 where
    eddsa_key : OkpCurve → EdKeypair → KeyCrypto
    ecdsa_key : EcCurve → EcKeypair → KeyCrypto
    hmac_key : HmacAlgorithm → Bytes → KeyCrypto

  pub record Key : Type 0 where
    pub id : String
    pub algorithm : Algorithm
    pub crypto_key : KeyCrypto

  unfoldable pub sign_message : Key → Bytes → Bytes → Result Bytes Error
  sign_message key nonce message = elim key.crypto_key [
    | eddsa_key curve keypair ↦ ok (ed_sign keypair message)
    | ecdsa_key curve keypair ↦ elim (ec_sign keypair nonce message) [
      | ok signature ↦ ok signature
      | err e ↦ err (unspecified e)
    ]
    | hmac_key algorithm secret ↦ ok (hmac_sign algorithm secret message)
  ]

  abbrev check_signature : Option Bool → Result (Unit {0}) Error
  check_signature none = err (panicked "error getting public key")
  check_signature (some true) = ok tt
  check_signature (some false) = err invalid_signature

  unfoldable pub verify_message : Key → Bytes → Bytes → Result (Unit {0}) Error
  verify_message key message signature = check_signature (elim key.crypto_key [
    | eddsa_key curve keypair ↦ ed_verify (ed_public_key keypair) message signature
    | ecdsa_key curve keypair ↦ ec_verify curve (ec_public_key keypair) message signature
    | hmac_key algorithm secret ↦ some (hmac_verify algorithm secret message signature)
  ])

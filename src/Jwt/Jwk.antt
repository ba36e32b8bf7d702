-- ===== src/Jwt/Jwk.antt =====
-- jwt/jwk.rs and the conversion of jwt/key.rs: JSON Web Keys to and from keys.
use pingoo.Prelude.{
  ℕ, String, ◌∷◌, ◌++◌, Option, some, eqb, length, Result, ok, err, if◌then◌else◌, ok_or, ◌>>=◌,
  drop, take,
}
use pingoo.Jwt.{
  Bytes, Error, invalid_jwk, private_key_is_missing, jwk_is_not_valid, key_rejected, Algorithm,
  hs512, eddsa, es256, es512, OkpCurve, ed25519, EcCurve, p256, p521, sha512,
}
use pingoo.Jwt.Key.{Crypto, Key, eddsa_key, ecdsa_key, hmac_key}

pub data KeyUse : Type 0 where
  sig : KeyUse
  enc : KeyUse

pub data JwkCrypto : Type 0 where
  okp : OkpCurve → Bytes → Option Bytes → JwkCrypto
  ec : EcCurve → Bytes → Bytes → Option Bytes → JwkCrypto
  oct : Bytes → JwkCrypto

pub record Jwk : Type 0 where
  pub kid : String
  pub key_use : KeyUse
  pub algorithm : Algorithm
  pub jwk_crypto : JwkCrypto

abbrev pub coordinate_size : EcCurve → ℕ
coordinate_size p256 = 32
coordinate_size p521 = 66

abbrev pub public_key_size : EcCurve → ℕ
public_key_size p256 = 65
public_key_size p521 = 133

-- the coordinates of a public key: "skip the 0x04 byte if present"
unfoldable pub split_public_key : EcCurve → Bytes → Bytes × Bytes
split_public_key curve public_key =
    let p =
      if eqb (length public_key) (public_key_size curve) then drop 1 public_key else public_key in
    (take (coordinate_size curve) p, drop (coordinate_size curve) p)

module _ (crypto : Crypto) where
  open crypto use {
    ed_public_key, ec_public_key, ed_seed, ec_private_key, ed_from_seed_and_public_key,
    ec_from_private_key_and_public_key,
  }

  -- `From<&Key> for Jwk`
  unfoldable pub jwk_from_key : Key crypto → Jwk
  jwk_from_key key = record {
    kid = key.id;
    key_use = sig;
    algorithm = key.algorithm;
    jwk_crypto = elim key.crypto_key [
      | eddsa_key curve keypair ↦ okp curve (ed_public_key keypair) (some (ed_seed keypair))
      | ecdsa_key curve keypair ↦
          let (x, y) = split_public_key curve (ec_public_key keypair) in
          ec curve x y (some (ec_private_key keypair))
      | hmac_key _ secret ↦ oct secret
    ];
  }

  abbrev pub rejected : {K : Type 0} → String → Result K String → Result K Error
  rejected kid (ok keypair) = ok keypair
  rejected kid (err e) = err (invalid_jwk kid (key_rejected e))

  -- 0x04 and the coordinates, in the order of the source
  unfoldable pub join_public_key : Bytes → Bytes → Bytes
  join_public_key x y = 0x04 ∷ (y ++ x)

  unfoldable pub ec_key_from_jwk :
      String → Algorithm → EcCurve → Bytes → Bytes → Option Bytes → Result (Key crypto) Error
  ec_key_from_jwk kid algorithm curve x y d = do
    private_key ← ok_or d (invalid_jwk kid private_key_is_missing)
    keypair ←
        rejected kid (ec_from_private_key_and_public_key curve private_key (join_public_key x y))
    ok (record { id = kid; algorithm = algorithm; crypto_key = ecdsa_key curve keypair })

  unfoldable pub okp_key_from_jwk :
      String → OkpCurve → Bytes → Option Bytes → Result (Key crypto) Error
  okp_key_from_jwk kid curve x d = do
    seed ← ok_or d (invalid_jwk kid private_key_is_missing)
    keypair ← rejected kid (ed_from_seed_and_public_key seed x)
    ok (record { id = kid; algorithm = eddsa; crypto_key = eddsa_key ed25519 keypair })

  abbrev pub match_key : String → Algorithm → JwkCrypto → Result (Key crypto) Error
  match_key kid hs512 (oct secret) =
      ok (record { id = kid; algorithm = hs512; crypto_key = hmac_key sha512 secret })
  match_key kid eddsa (okp curve x d) = okp_key_from_jwk kid curve x d
  match_key kid es256 (ec curve x y d) = ec_key_from_jwk kid es256 curve x y d
  match_key kid es512 (ec curve x y d) = ec_key_from_jwk kid es512 curve x y d
  match_key kid _ _ = err (invalid_jwk kid jwk_is_not_valid)

  -- `TryFrom<Jwk> for Key`
  unfoldable pub key_from_jwk : Jwk → Result (Key crypto) Error
  key_from_jwk jwk = match_key jwk.kid jwk.algorithm jwk.jwk_crypto

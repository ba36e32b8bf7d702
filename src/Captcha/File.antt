-- ===== src/Captcha/File.antt =====
-- The file of keys that `CaptchaManager::new` of pingoo/captcha.rs reads or makes, and
-- `Key::generate_ed25519` of jwt/key.rs. JSON, the generator of keys and `Uuid::new_v7` are parameters.
use pingoo.Prelude.{
  String, List, [], ◌∷◌, map, Option, Bool, Result, ok, err, ◌>>=◌, ok_or, if◌then◌else◌,
}
use pingoo.Disk.{Disk, Access, content, not_found, failed, read, write, try_exists}
use pingoo.Jwt.{Error, unspecified, eddsa, ed25519}
use pingoo.Jwt.Key.{Crypto, Key, eddsa_key}
use pingoo.Jwt.Jwk.{Jwk, jwk_from_key}
use pingoo.Jwt.Token.{Codec}
use pingoo.Captcha.{CaptchaCookieJwtClaims, CaptchaVerifiedCookieJwtClaims}
use pingoo.Captcha.Manager.{CaptchaManager, CaptchaError, new_from_jwks, new_from_key}

abbrev pub captcha_jwks_path : String
captcha_jwks_path = "/etc/pingoo/captcha_jwks.json"

-- `Error` as `new` builds it
pub data StartError : Type 0 where
  jwks_unreadable jwks_invalid key_not_generated jwks_not_serialized : StartError
  jwks_not_written : String → StartError
  keys_rejected : CaptchaError → StartError

-- `serde_json` for the set of keys, and `Ed25519KeyPair::generate`
pub record KeyFile (crypto : Crypto) : Type 0 where
  pub from_slice : String → Option (List Jwk)
  pub to_vec_pretty : List Jwk → Option String
  pub generate : Result crypto.EdKeypair String

abbrev pub rejected_keys : {A : Type 0} → Result A CaptchaError → Result A StartError
rejected_keys (ok a) = ok a
rejected_keys (err e) = err (keys_rejected e)

abbrev pub text_of : Access → Result String StartError
text_of (content text) = ok text
text_of not_found = err jwks_unreadable
text_of failed = err jwks_unreadable

module _ (crypto : Crypto) (captcha_codec : Codec CaptchaCookieJwtClaims)
    (verified_codec : Codec CaptchaVerifiedCookieJwtClaims) (key_file : KeyFile crypto) where
  open key_file use {from_slice, to_vec_pretty, generate}

  abbrev Manager : Type 0
  Manager = CaptchaManager crypto captcha_codec verified_codec

  unfoldable pub generate_ed25519 : String → Result (Key crypto) Error
  generate_ed25519 id = elim generate [
    | err e ↦ err (unspecified e)
    | ok keypair ↦
        ok (record { id = id; algorithm = eddsa; crypto_key = eddsa_key ed25519 keypair })
  ]

  abbrev pub generated : Result (Key crypto) Error → Result (Key crypto) StartError
  generated (ok key) = ok key
  generated (err e) = err key_not_generated

  unfoldable pub save_jwt_keys : Disk → List (Key crypto) → String → Result Disk StartError
  save_jwt_keys disk keys path =
      ok_or (to_vec_pretty (map (jwk_from_key crypto) keys)) jwks_not_serialized >>= λ jwks_json.
      ok_or (write disk path jwks_json) (jwks_not_written path)

  abbrev pub load_jwks : Disk → Result Manager StartError
  load_jwks disk = text_of (read disk captcha_jwks_path) >>= λ jwks_file_content.
      ok_or (from_slice jwks_file_content) jwks_invalid >>= λ jwks.
      rejected_keys (new_from_jwks crypto captcha_codec verified_codec jwks)

  abbrev pub save_key : Disk → Key crypto → Result (Disk × Manager) StartError
  save_key disk signing_key = save_jwt_keys disk (signing_key ∷ []) captcha_jwks_path >>= λ after.
      ok (after, new_from_key crypto captcha_codec verified_codec signing_key)

  abbrev pub create_key : Disk → String → Result (Disk × Manager) StartError
  create_key disk key_id = generated (generate_ed25519 key_id) >>= save_key disk

  abbrev pub keep : Disk → Manager → Result (Disk × Manager) StartError
  keep disk m = ok (disk, m)

  abbrev pub load_or_create : Disk → String → Bool → Result (Disk × Manager) StartError
  load_or_create disk uuid exists =
      if exists then load_jwks disk >>= keep disk else create_key disk uuid

  -- with the text of the new id
  unfoldable pub new : Disk → String → Result (Disk × Manager) StartError
  new disk uuid =
      ok_or (try_exists disk captcha_jwks_path) jwks_unreadable >>= load_or_create disk uuid

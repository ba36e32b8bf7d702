-- ===== src/Captcha/RestartTests.antt =====
-- A restart of the captcha's manager with the small signature scheme.
use pingoo.Prelude.{
  String, List, [], ◌∷◌, Option, none, some, ◌&&◌, false, ◌≡◌, refl, ok, if◌then◌else◌, arith, ap,
  get, insert, string_eq,
}
use pingoo.Disk.{Disk, write, try_exists}
use pingoo.Jwt.{Bytes, Algorithm, eddsa, ed25519}
use pingoo.Jwt.Jwk.{Jwk, JwkCrypto, KeyUse, sig, okp, jwk_from_key}
use pingoo.Jwt.Small.{small, bytes_eq, bytes_eq_iff}
use pingoo.Captcha.Manager.{new_from_key}
use pingoo.Captcha.File.{KeyFile, captcha_jwks_path, new, save_jwt_keys, generate_ed25519}
use pingoo.Captcha.Restart.{new_twice}
use pingoo.Captcha.Small.{challenges, verified, manager}

abbrev five : Bytes
five = 5 ∷ []

-- only the set of one key pair, which is 5, is written, as its id
abbrev print_key : String → KeyUse → Algorithm → JwkCrypto → Option String
print_key kid sig eddsa (okp ed25519 x (some d)) =
    if bytes_eq x five && bytes_eq d five then some kid else none
print_key kid _ _ _ = none

abbrev print : List Jwk → Option String
print (jwk ∷ []) = print_key jwk.kid jwk.key_use jwk.algorithm jwk.jwk_crypto
print _ = none

abbrev jwk_of : String → Jwk
jwk_of kid = record {
  kid = kid;
  key_use = sig;
  algorithm = eddsa;
  jwk_crypto = okp ed25519 five (some five);
}

abbrev key_file : KeyFile small
key_file = record {
  from_slice = λ text. some (jwk_of text ∷ []);
  to_vec_pretty = print;
  generate = ok 5;
}

print_key-reads :
    (kid : String) (key_use : KeyUse) (algorithm : Algorithm) (key : JwkCrypto) (text : String)
    → print_key kid key_use algorithm key ≡ some text
    → jwk_of text ≡ record { kid = kid; key_use = key_use; algorithm = algorithm; jwk_crypto = key }
print_key-reads kid sig eddsa (okp ed25519 x (some d)) text h =
    ground (arith, bytes_eq_iff x five, bytes_eq_iff d five)
print_key-reads kid key_use algorithm key text h = ground arith

print-reads :
    (jwks : List Jwk) (text : String) → print jwks ≡ some text → some (jwk_of text ∷ []) ≡ some jwks
print-reads [] text h = ground arith
print-reads (jwk ∷ []) text h =
    ap (λ (j : Jwk). some (j ∷ []))
      (print_key-reads jwk.kid jwk.key_use jwk.algorithm jwk.jwk_crypto text h)
print-reads (a ∷ b ∷ jwks) text h = ground arith

abbrev empty_disk : Disk
empty_disk = record { files = []; fails = λ path. false }

abbrev after : Disk
after = record { files = (captcha_jwks_path, "k1") ∷ []; fails = λ path. false }

first_start : new small challenges verified key_file empty_disk "k1" ≡ ok (after, manager)
unfolding new try_exists get generate_ed25519 save_jwt_keys jwk_from_key write insert new_from_key
first_start = refl

new_twice_example : new small challenges verified key_file after "k2" ≡ ok (after, manager)
new_twice_example =
    new_twice small challenges verified key_file (λ keypair. refl) print-reads empty_disk after "k1"
      "k2" manager refl first_start

-- ===== src/Jwt/Tests.antt =====
-- Tokens and keys with a small signature scheme and a small codec in place of the real ones.
use pingoo.Prelude.{
  ℕ, ◌+◌, ◌≤◌, String, [], ◌∷◌, none, some, true, false, ◌≡◌, ◌≢◌, ◌↔◌, inl, inr, refl, unwrap_or,
  subst, ok, err, if◌then◌else◌, ◌==◌, string_eq, length, arith, append,
}
use pingoo.Jwt.{
  Bytes, eddsa, es256, ℤ, pos, ValidateOptions, ed25519, p256, signature_max_size, invalid_token,
}
use pingoo.Jwt.Key.{Key, eddsa_key, ecdsa_key, sign_message, verify_message}
use pingoo.Jwt.Jwk.{jwk_from_key, key_from_jwk}
use pingoo.Jwt.Keys.{key_from_jwk-swaps}
use pingoo.Jwt.Token.{Codec, sign, parse_and_verify, verify_parts, parse_claims, check_claims}
use pingoo.Jwt.Claims.{ClaimsAccepted}
use pingoo.Jwt.Verified.{IsVerified, parse_and_verify-eq-ok_iff}
use pingoo.Jwt.RoundTrip.{CodecLaws, parse_and_verify-sign}
use pingoo.Jwt.Small.{
  bytes_eq_iff, copies, small_public_key, small_ec_from, small, small_encode, small_decode_from,
  small_decode-encode, small_encode-Lacks, plain, read_plain, codes, plain-read, small_header,
}

abbrev small_key : Key small
small_key = record { id = "k1"; algorithm = eddsa; crypto_key = eddsa_key ed25519 5 }

small-consistent :
    (p : Bytes) (k : ℕ) → small_ec_from p256 (7 ∷ []) p ≡ ok k → p ≡ small_public_key 7
small-consistent p k h = ground (arith, bytes_eq_iff p (small_public_key 7))

small-differ : copies 32 7 ≢ copies 32 8
small-differ = ground arith

key_from_jwk-swaps_example :
    key_from_jwk small
      (jwk_from_key small (record { id = "k2"; algorithm = es256; crypto_key = ecdsa_key p256 7 }))
    ≢ ok (record { id = "k2"; algorithm = es256; crypto_key = ecdsa_key p256 7 })
key_from_jwk-swaps_example =
    key_from_jwk-swaps small "k2" es256 p256 7 (copies 32 7) (copies 32 8)
      (record { id = "k2"; algorithm = es256; crypto_key = ecdsa_key p256 7 }) (inl refl) refl refl
      refl small-differ small-consistent

-- the claims are the time of expiry
abbrev small_codec : Codec ℤ
small_codec = record {
  Json = ℤ;
  as_bytes = codes;
  encode = small_encode;
  decode = small_decode_from 0;
  decode_slice = λ s n. small_decode_from 0 s;
  header_to_string = λ h. plain h.alg h.cty h.jku h.kid h.x5u h.x5c h.x5t h.x5t_s256;
  header_from_slice = read_plain;
  claims_to_string = λ t. some "1999";
  claims_from_slice = λ bytes. some (pos (length bytes));
  value_from_slice = λ bytes. some (pos (length bytes));
  claims_from_value = λ t. some t;
  as_object = λ t. some (λ name. if name == "exp" then some t else none);
  as_i64 = λ t. some t;
  as_str = λ t. none;
}

small_codec-laws : CodecLaws small small_codec
small_codec-laws = record {
  decode_encode = small_decode-encode;
  decode_slice_encode = λ bytes n h. small_decode-encode bytes;
  encode_lacks = small_encode-Lacks;
  header_read = λ header text h.
      plain-read header.alg header.cty header.jku header.kid header.x5u header.x5t header.x5t_s256
        header.x5c text h;
}

abbrev options : ValidateOptions
options = record { allowed_time_drift = 1_000_000_000; nbf = false; exp = true; aud = []; iss = [] }

-- the claims expire at 4 s, and it is 5 s
small_claims-accepted :
    ClaimsAccepted small small_codec options 5_000_000_000 0 (codes "1999") (pos 4)
small_claims-accepted = inr (
  refl,
  (
    pos 4,
    (
      (λ name. if name == "exp" then some (pos 4) else none),
      (
        refl,
        refl,
        record { exp = inr (pos 4, (refl, refl)); nbf = inl refl; aud = inl refl; iss = inl refl },
        refl,
      ),
    ),
  ),
)

abbrev token : String
token =
    append (append (small_encode (codes "E")) (append "." (small_encode (codes "1999"))))
      (append "." (small_encode (300 ∷ [])))

signed_token : sign small small_codec small_key [] small_header (pos 4) ≡ ok token
unfolding sign sign_message
signed_token = refl

small_key_sound :
    (m signature : Bytes)
    → sign_message small small_key [] m ≡ ok signature
    → (length signature ≤ signature_max_size) × (verify_message small small_key m signature ≡ ok tt)
unfolding sign_message verify_message
small_key_sound m signature h = ground (arith, bytes_eq_iff signature ((5 + length m) ∷ []))

parse_and_verify-sign_example :
    parse_and_verify small small_codec small_key token options 5_000_000_000 0
    ≡ ok (record { header = small_header; claims = pos 4 })
parse_and_verify-sign_example =
    parse_and_verify-sign small small_codec small_codec-laws small_key [] small_header (pos 4) token
      signed_token options 5_000_000_000 0 refl small_key_sound
      (λ text h.
        subst
          (λ o.
            ClaimsAccepted small small_codec options 5_000_000_000 0 (codes (unwrap_or o ""))
              (pos 4))
          h small_claims-accepted)

parse_and_verify-eq-ok_iff_example :
    (parse_and_verify small small_codec small_key token options 5_000_000_000 0
      ≡ ok (record { header = small_header; claims = pos 4 }))
    ↔ IsVerified small small_codec small_key token options 5_000_000_000 0
        (record { header = small_header; claims = pos 4 })
parse_and_verify-eq-ok_iff_example =
    parse_and_verify-eq-ok_iff small small_codec small_key token options 5_000_000_000 0
      (record { header = small_header; claims = pos 4 })

-- at 7 s the token has expired
expired :
    parse_and_verify small small_codec small_key token options 7_000_000_000 0 ≡ err invalid_token
unfolding parse_and_verify verify_parts parse_claims check_claims verify_message
expired = refl

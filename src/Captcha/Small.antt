-- ===== src/Captcha/Small.antt =====
-- A small codec of claims and a manager of captchas over the small signature scheme, for tests.
use pingoo.Prelude.{String, [], ◌∷◌, Option, none, some, if◌then◌else◌, ◌==◌, string_eq}
use pingoo.Jwt.{eddsa, ℤ, ed25519}
use pingoo.Jwt.Key.{Key, eddsa_key}
use pingoo.Jwt.Token.{Codec}
use pingoo.Jwt.RoundTrip.{CodecLaws}
use pingoo.Jwt.Small.{
  small, small_encode, small_decode_from, small_decode-encode, small_encode-Lacks, plain,
  plain-read, read_plain, codes,
}
use pingoo.Captcha.{
  CaptchaCookieJwtClaims, CaptchaVerifiedCookieJwtClaims, RegisteredClaims, verified_claims,
  registered,
}
use pingoo.Captcha.Manager.{CaptchaManager}

pub data Atom : Type 0 where
  whole : Atom
  number : ℤ → Atom
  word : String → Atom

abbrev pub as_i64 : Atom → Option ℤ
as_i64 (number t) = some t
as_i64 _ = none

abbrev pub as_str : Atom → Option String
as_str (word s) = some s
as_str _ = none

abbrev pub members : RegisteredClaims → String → Option Atom
members r name =
    if name == "exp"
    then elim r.exp [ none ↦ none | some t ↦ some (number t) ]
    else if name == "nbf"
    then elim r.nbf [ none ↦ none | some t ↦ some (number t) ]
    else if name == "aud"
    then elim r.aud [ none ↦ none | some t ↦ some (word t) ]
    else if name == "iss"
    then elim r.iss [ none ↦ none | some t ↦ some (word t) ]
    else none

-- the codec of one value `c` with the registered claims `r`
abbrev pub codec_of : {C : Type 0} → C → RegisteredClaims → Codec C
codec_of c r = record {
  Json = Atom;
  as_bytes = codes;
  encode = small_encode;
  decode = small_decode_from 0;
  decode_slice = λ s n. small_decode_from 0 s;
  header_to_string = λ h. plain h.alg h.cty h.jku h.kid h.x5u h.x5c h.x5t h.x5t_s256;
  header_from_slice = read_plain;
  claims_to_string = λ x. some "C";
  claims_from_slice = λ bytes. none;
  value_from_slice = λ bytes. some whole;
  claims_from_value = λ x. some c;
  as_object = λ x. some (members r);
  as_i64 = as_i64;
  as_str = as_str;
}

pub codec_of-laws : {C : Type 0} (c : C) (r : RegisteredClaims) → CodecLaws small (codec_of c r)
codec_of-laws c r = record {
  decode_encode = small_decode-encode;
  decode_slice_encode = λ bytes n h. small_decode-encode bytes;
  encode_lacks = small_encode-Lacks;
  header_read = λ header text h.
      plain-read header.alg header.cty header.jku header.kid header.x5u header.x5t header.x5t_s256
        header.x5c text h;
}

-- issued at 100 s to the client "me"
abbrev pub me : CaptchaVerifiedCookieJwtClaims
me = verified_claims small 100_000_000_000 "id" "me"

abbrev pub verified : Codec CaptchaVerifiedCookieJwtClaims
verified = codec_of me me.registered_claims

abbrev pub challenge : CaptchaCookieJwtClaims
challenge = record {
  challenge = "x";
  difficulty = 1;
  registered_claims = registered 90_000_000_000 600_000_000_000 "me" "id";
}

abbrev pub challenges : Codec CaptchaCookieJwtClaims
challenges = codec_of challenge challenge.registered_claims

abbrev pub key : Key small
key = record { id = "k1"; algorithm = eddsa; crypto_key = eddsa_key ed25519 5 }

abbrev pub manager : CaptchaManager small challenges verified
manager = record { signing_key = key; verifying_keys = ("k1", key) ∷ [] }

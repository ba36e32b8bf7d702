-- ===== src/Jwt.antt =====
-- jwt/: JSON Web Tokens. This file has the types of jwt.rs and what the crate takes from elsewhere: the
-- signature schemes of aws_lc_rs, base64 and serde_json are records of functions. Bytes are lists of
-- numbers.
pub mod Key
pub mod Jwk
pub mod Keys
pub mod Token
pub mod Claims
pub mod Verified
pub mod RoundTrip
pub mod Small
mod Tests
use pingoo.Prelude.{
  ℕ, ◌+◌, ◌-◌, ◌/◌, String, List, Option, Bool, true, false, ltb, leb, if◌then◌else◌,
}

abbrev pub Bytes : Type 0
Bytes = List ℕ

abbrev pub signature_max_size : ℕ
signature_max_size = 132

pub data ErrorMessage : Type 0 where
  private_key_is_missing : ErrorMessage
  jwk_is_not_valid : ErrorMessage
  key_rejected : String → ErrorMessage

-- `Error`, less the variants that nothing of the crate builds; `panicked` stands for an `expect` that
-- fails
pub data Error : Type 0 where
  json : Error
  invalid_token : Error
  invalid_signature : Error
  invalid_jwk : String → ErrorMessage → Error
  unspecified : String → Error
  panicked : String → Error

pub data Algorithm : Type 0 where
  hs512 : Algorithm
  eddsa : Algorithm
  es256 : Algorithm
  es512 : Algorithm

abbrev pub algorithm_eq : Algorithm → Algorithm → Bool
algorithm_eq hs512 hs512 = true
algorithm_eq eddsa eddsa = true
algorithm_eq es256 es256 = true
algorithm_eq es512 es512 = true
algorithm_eq _ _ = false

unfoldable pub signature_size : Algorithm → ℕ
signature_size hs512 = 64
signature_size eddsa = 64
signature_size es256 = 64
signature_size es512 = 132

-- `typ` has one value, "JWT"
pub record Header : Type 0 where
  pub alg : Algorithm
  pub cty : Option String
  pub jku : Option String
  pub kid : Option String
  pub x5u : Option String
  pub x5c : Option (List String)
  pub x5t : Option String
  pub x5t_s256 : Option String

-- `i64`
pub data ℤ : Type 0 where
  pos : ℕ → ℤ
  negsuc : ℕ → ℤ

abbrev pub ltb_int : ℤ → ℤ → Bool
ltb_int (pos m) (pos n) = ltb m n
ltb_int (pos m) (negsuc n) = false
ltb_int (negsuc m) (pos n) = true
ltb_int (negsuc m) (negsuc n) = ltb n m

-- A time counts nanoseconds from 1970, a drift too.
pub record ValidateOptions : Type 0 where
  pub allowed_time_drift : ℕ
  pub nbf : Bool
  pub exp : Bool
  pub aud : List String
  pub iss : List String

abbrev nanos : ℕ
nanos = 1_000_000_000

-- `(Utc::now() - drift).timestamp()`, rounded down also before 1970
abbrev pub timestamp_before : ℕ → ℕ → ℤ
timestamp_before now drift =
    if leb drift now then pos ((now - drift) / nanos) else negsuc ((drift - now - 1) / nanos)

-- `(Utc::now() + drift).timestamp()`
abbrev pub timestamp_after : ℕ → ℕ → ℤ
timestamp_after now drift = pos ((now + drift) / nanos)

pub data OkpCurve : Type 0 where
  ed25519 : OkpCurve

pub data EcCurve : Type 0 where
  p256 : EcCurve
  p521 : EcCurve

pub data HmacAlgorithm : Type 0 where
  sha256 : HmacAlgorithm
  sha512 : HmacAlgorithm

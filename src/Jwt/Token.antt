-- ===== src/Jwt/Token.antt =====
-- `sign`, `parse_header` and `parse_and_verify` of jwt/jwt.rs.
use pingoo.Prelude.{
  ℕ, ◌+◌, String, List, [], ◌∷◌, Option, Bool, not, ◌||◌, Result, ok, err, ◌>>=◌, ensure, ok_or,
  if◌then◌else◌, str_len, contains, string_eq, is_empty, split, str_take, append, length, eqb,
}
use pingoo.Jwt.{
  Bytes, Error, json, invalid_token, invalid_signature, algorithm_eq, Header, ℤ, ltb_int,
  ValidateOptions, timestamp_before, timestamp_after, signature_max_size,
}
use pingoo.Jwt.Key.{Crypto, Key, sign_message, verify_message}

-- What is used of base64, serde_json and UTF-8 for tokens whose claims have the type `Claims`.
pub record Codec (Claims : Type 0) : Type 1 where
  pub Json : Type 0
  pub as_bytes : String → Bytes
  pub encode : Bytes → String
  pub decode : String → Option Bytes
  pub decode_slice : String → ℕ → Option Bytes
  pub header_to_string : Header → Option String
  pub header_from_slice : Bytes → Option Header
  pub claims_to_string : Claims → Option String
  pub claims_from_slice : Bytes → Option Claims
  pub value_from_slice : Bytes → Option Json
  pub claims_from_value : Json → Option Claims
  pub as_object : Json → Option (String → Option Json)
  pub as_i64 : Json → Option ℤ
  pub as_str : Json → Option String

pub record ParsedJwt (Claims : Type 0) : Type 0 where
  pub header : Header
  pub claims : Claims

module _ {Claims : Type 0} (crypto : Crypto) (codec : Codec Claims) where
  open codec use {
    Json, as_bytes, encode, decode, decode_slice, header_to_string, header_from_slice,
    claims_to_string, claims_from_slice, value_from_slice, claims_from_value, as_object, as_i64,
    as_str,
  }

  unfoldable pub sign : Key crypto → Bytes → Header → Claims → Result String Error
  sign key nonce header claims = do
    header_json ← ok_or (header_to_string header) json
    claims_json ← ok_or (claims_to_string claims) json
    let jwt = append (encode (as_bytes header_json)) (append "." (encode (as_bytes claims_json)))
    signature ← sign_message crypto key nonce (as_bytes jwt)
    ok (append jwt (append "." (encode signature)))

  abbrev pub decode_header : String → Result Header Error
  decode_header header_base64 = do
    header_json ← ok_or (decode header_base64) invalid_token
    ok_or (header_from_slice header_json) invalid_token

  -- `split` gives one part at least; what is left is counted
  abbrev header_of_parts : List String → Result Header Error
  header_of_parts [] = err invalid_token
  header_of_parts (header_base64 ∷ parts) =
      ensure (eqb (length parts) 2) invalid_token (decode_header header_base64)

  unfoldable pub parse_header : String → Result Header Error
  parse_header token = header_of_parts (split b'.' token)

  abbrev pub within : Bool → Result (Unit {0}) Error
  within b = ensure b invalid_token (ok tt)

  -- a claim that is there, as what `read` reads
  abbrev pub claim :
      {A : Type 0} → (Json → Option A) → (String → Option Json) → String → Result A Error
  claim read claims name = do
    value ← ok_or (claims name) invalid_token
    ok_or (read value) invalid_token

  abbrev pub check_exp : ValidateOptions → ℕ → (String → Option Json) → Result (Unit {0}) Error
  check_exp options now claims =
      if options.exp
      then (claim as_i64 claims "exp" >>= λ exp.
          within (not (ltb_int exp (timestamp_before now options.allowed_time_drift))))
      else ok tt

  abbrev pub check_nbf : ValidateOptions → ℕ → (String → Option Json) → Result (Unit {0}) Error
  check_nbf options now claims =
      if options.nbf
      then (claim as_i64 claims "nbf" >>= λ nbf.
          within (not (ltb_int (timestamp_after now options.allowed_time_drift) nbf)))
      else ok tt

  -- `aud` and `iss`
  abbrev pub check_one_of : List String → String → (String → Option Json) → Result (Unit {0}) Error
  check_one_of allowed name claims =
      if not (is_empty allowed)
      then (claim as_str claims name >>= λ value. within (contains allowed value))
      else ok tt

  -- Each look at the clock has its own time.
  unfoldable pub check_claims :
      ValidateOptions → ℕ → ℕ → (String → Option Json) → Result (Unit {0}) Error
  check_claims options now_exp now_nbf claims = do
    _ ← check_exp options now_exp claims
    _ ← check_nbf options now_nbf claims
    _ ← check_one_of options.aud "aud" claims
    check_one_of options.iss "iss" claims

  abbrev pub has_checks : ValidateOptions → Bool
  has_checks options =
      options.exp || options.nbf || not (is_empty options.aud) || not (is_empty options.iss)

  unfoldable pub parse_claims : ValidateOptions → ℕ → ℕ → Bytes → Result Claims Error
  parse_claims options now_exp now_nbf claims_json =
      if has_checks options
      then (do
        value ← ok_or (value_from_slice claims_json) invalid_token
        claims_object ← ok_or (as_object value) invalid_token
        _ ← check_claims options now_exp now_nbf claims_object
        ok_or (claims_from_value value) invalid_token)
      else ok_or (claims_from_slice claims_json) invalid_token

  -- `parse_and_verify` behind the split into three parts
  unfoldable pub verify_parts :
      Key crypto
      → String
      → ValidateOptions
      → ℕ
      → ℕ
      → String
      → String
      → String
      → Result (ParsedJwt Claims) Error
  verify_parts key token options now_exp now_nbf header_base64 claims_base64 signature_base64 = do
    raw_signature ← ok_or (decode_slice signature_base64 signature_max_size) invalid_signature
    let signed_message =
        as_bytes (str_take (str_len header_base64 + 1 + str_len claims_base64) token)
    _ ← verify_message crypto key signed_message raw_signature
    header ← decode_header header_base64
    _ ← within (algorithm_eq header.alg key.algorithm)
    claims_json ← ok_or (decode claims_base64) invalid_token
    claims ← parse_claims options now_exp now_nbf claims_json
    ok (record { header = header; claims = claims })

  abbrev pub of_parts :
      Key crypto → String → ValidateOptions → ℕ → ℕ → List String → Result (ParsedJwt Claims) Error
  of_parts key token options now_exp now_nbf (h ∷ c ∷ s ∷ []) =
      verify_parts key token options now_exp now_nbf h c s
  of_parts key token options now_exp now_nbf _ = err invalid_token

  unfoldable pub parse_and_verify :
      Key crypto → String → ValidateOptions → ℕ → ℕ → Result (ParsedJwt Claims) Error
  parse_and_verify key token options now_exp now_nbf =
      of_parts key token options now_exp now_nbf (split b'.' token)

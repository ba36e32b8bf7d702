-- ===== src/Jwt/Verified.antt =====
-- What `parse_and_verify` of jwt/jwt.rs has checked of the tokens that it accepts.
use pingoo.Prelude.{
  ok_or-eq-ok, ℕ, ◌+◌, String, List, [], ◌∷◌, some, true, ◌≡◌, ◌↔◌, refl, arith, Result, ok, ◌>>=◌,
  ok_or, bind-eq-ok, ok-injective, string_eq, split, str_take, str_len, ap, ◌∙◌, subst,
}
use pingoo.Jwt.{
  Bytes, Error, invalid_token, invalid_signature, Algorithm, algorithm_eq, Header, ValidateOptions,
  signature_max_size,
}
use pingoo.Jwt.Key.{Crypto, Key, verify_message}
use pingoo.Jwt.Token.{
  of_parts, within, Codec, ParsedJwt, decode_header, parse_claims, verify_parts, parse_and_verify,
}
use pingoo.Jwt.Claims.{
  ClaimsAccepted, then-eq-ok, parse_claims-ClaimsAccepted, ClaimsAccepted-parse_claims,
}

algorithm_eq_iff : (a b : Algorithm) → (algorithm_eq a b ≡ true) ↔ (a ≡ b)
algorithm_eq_iff a b = ground arith

module _ {Claims : Type 0} (crypto : Crypto) (codec : Codec Claims) where
  open codec use {
    Json, as_bytes, decode, decode_slice, claims_from_slice, value_from_slice, claims_from_value,
    as_object, as_i64, as_str,
  }

  -- What is asked of a token.
  pub record IsVerified (key : Key crypto) (token : String) (options : ValidateOptions)
      (now_exp now_nbf : ℕ) (jwt : ParsedJwt Claims) : Type 0 where
    pub header_base64 : String
    pub claims_base64 : String
    pub signature_base64 : String
    pub signature : Bytes
    pub claims_json : Bytes
    pub parts : split b'.' token ≡ header_base64 ∷ claims_base64 ∷ signature_base64 ∷ []
    pub decoded : decode_slice signature_base64 signature_max_size ≡ some signature
    pub signed :
        verify_message crypto key
          (as_bytes (str_take (str_len header_base64 + 1 + str_len claims_base64) token))
          signature
        ≡ ok tt
    pub header : decode_header crypto codec header_base64 ≡ ok jwt.header
    pub alg : jwt.header.alg ≡ key.algorithm
    pub payload : decode claims_base64 ≡ some claims_json
    pub claims : ClaimsAccepted crypto codec options now_exp now_nbf claims_json jwt.claims

  module _ (key : Key crypto) (token : String) (options : ValidateOptions)
      (now_exp now_nbf : ℕ) where
    abbrev message : String → String → Bytes
    message h c = as_bytes (str_take (str_len h + 1 + str_len c) token)

    verify_parts-IsVerified :
        (h c s : String) (jwt : ParsedJwt Claims)
        → split b'.' token ≡ h ∷ c ∷ s ∷ []
        → verify_parts crypto codec key token options now_exp now_nbf h c s ≡ ok jwt
        → IsVerified key token options now_exp now_nbf jwt
    unfolding verify_parts
    verify_parts-IsVerified h c s jwt parts run =
        let finish : Header → Claims → Result (ParsedJwt Claims) Error =
          λ header claims. ok (record { header = header; claims = claims }) in
        let k5 : Header → Bytes → Result (ParsedJwt Claims) Error = λ header claims_json.
          parse_claims crypto codec options now_exp now_nbf claims_json >>= finish header in
        let k4 : Header → Result (ParsedJwt Claims) Error =
          λ header. ok_or (decode c) invalid_token >>= k5 header in
        let k3 : Header → Result (ParsedJwt Claims) Error = λ header.
          within crypto codec (algorithm_eq header.alg key.algorithm) >>= λ _. k4 header in
        let k2 = decode_header crypto codec h >>= k3 in
        let k1 : Bytes → Result (ParsedJwt Claims) Error =
          λ signature. verify_message crypto key (message h c) signature >>= λ _. k2 in
        let (signature, e1, r1) =
          bind-eq-ok (ok_or (decode_slice s signature_max_size) invalid_signature) k1 run in
        let (signed, r2) =
          (then-eq-ok crypto codec (verify_message crypto key (message h c) signature) k2 jwt).0
            r1 in
        let (header, e3, r3) = bind-eq-ok (decode_header crypto codec h) k3 r2 in
        let (alg, r4) =
          (then-eq-ok crypto codec (within crypto codec (algorithm_eq header.alg key.algorithm))
              (k4 header) jwt).0
            r3 in
        let (claims_json, e5, r5) = bind-eq-ok (ok_or (decode c) invalid_token) (k5 header) r4 in
        let (claims, e6, r6) =
          bind-eq-ok (parse_claims crypto codec options now_exp now_nbf claims_json) (finish header)
            r5 in
        let same = ok-injective Error r6 in
        let same_alg = (algorithm_eq_iff header.alg key.algorithm).0 (ground arith) in
        let found : IsVerified key token options now_exp now_nbf
            (record { header = header; claims = claims }) =
          record {
            header_base64 = h;
            claims_base64 = c;
            signature_base64 = s;
            signature = signature;
            claims_json = claims_json;
            parts = parts;
            decoded = ok_or-eq-ok (decode_slice s signature_max_size) invalid_signature e1;
            signed = signed;
            header = e3;
            alg = same_alg;
            payload = ok_or-eq-ok (decode c) invalid_token e5;
            claims =
                parse_claims-ClaimsAccepted crypto codec options now_exp now_nbf claims_json claims
                  e6;
          } in
        subst (λ j. IsVerified key token options now_exp now_nbf j) same found

    of_parts-IsVerified :
        (xs : List String) (jwt : ParsedJwt Claims)
        → split b'.' token ≡ xs
        → of_parts crypto codec key token options now_exp now_nbf xs ≡ ok jwt
        → IsVerified key token options now_exp now_nbf jwt
    of_parts-IsVerified [] jwt parts run = ground arith
    of_parts-IsVerified (h ∷ []) jwt parts run = ground arith
    of_parts-IsVerified (h ∷ c ∷ []) jwt parts run = ground arith
    of_parts-IsVerified (h ∷ c ∷ s ∷ []) jwt parts run = verify_parts-IsVerified h c s jwt parts run
    of_parts-IsVerified (h ∷ c ∷ s ∷ x ∷ xs) jwt parts run = ground arith

    IsVerified-verify_parts :
        (jwt : ParsedJwt Claims) (v : IsVerified key token options now_exp now_nbf jwt)
        → verify_parts crypto codec key token options now_exp now_nbf v.header_base64
            v.claims_base64 v.signature_base64
          ≡ ok jwt
    unfolding verify_parts
    IsVerified-verify_parts jwt v =
        let read =
          ClaimsAccepted-parse_claims crypto codec options now_exp now_nbf v.claims_json jwt.claims
            v.claims in
        let same_alg = (algorithm_eq_iff jwt.header.alg key.algorithm).1 v.alg in
        ground (arith, v.decoded, v.signed, v.header, v.payload, read, same_alg)

    IsVerified-parse_and_verify :
        (jwt : ParsedJwt Claims)
        → IsVerified key token options now_exp now_nbf jwt
        → parse_and_verify crypto codec key token options now_exp now_nbf ≡ ok jwt
    unfolding parse_and_verify
    IsVerified-parse_and_verify jwt v =
        ap (λ xs. of_parts crypto codec key token options now_exp now_nbf xs) v.parts
        ∙ IsVerified-verify_parts jwt v

    -- A token is accepted with a result just if it has three parts, the third decodes to a signature
    -- that the key verifies over the first two and the dot between them, the first decodes to the
    -- result's header with the key's algorithm, and the second decodes to the result's claims, where
    -- each claim that the options ask for is there and passes: `exp` is not before the time less the
    -- drift, `nbf` is not after the time and the drift, `aud` and `iss` are in the lists allowed.
    pub parse_and_verify-eq-ok_iff :
        (jwt : ParsedJwt Claims)
        → (parse_and_verify crypto codec key token options now_exp now_nbf ≡ ok jwt)
          ↔ IsVerified key token options now_exp now_nbf jwt
    unfolding parse_and_verify
    parse_and_verify-eq-ok_iff jwt =
        (of_parts-IsVerified (split b'.' token) jwt refl, IsVerified-parse_and_verify jwt)

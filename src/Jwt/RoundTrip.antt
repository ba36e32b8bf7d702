-- ===== src/Jwt/RoundTrip.antt =====
-- A token that `sign` of jwt/jwt.rs makes goes through `parse_and_verify` and `parse_header`.
use pingoo.Prelude.{
  ok_or-eq-ok, ℕ, ◌+◌, ◌≤◌, String, [], ◌∷◌, some, ◌≡◌, refl, ap, sym, ◌∙◌, subst, Result, ok,
  ok_or, ◌>>=◌, bind-eq-ok, ok-injective, split, split-append, split-Lacks, append, append_assoc,
  str_len, str_len-append, str_take, str_take-append, Lacks, length, arith,
}
use pingoo.Jwt.{Bytes, Error, json, Header, ValidateOptions, signature_max_size}
use pingoo.Jwt.Key.{Crypto, Key, sign_message, verify_message}
use pingoo.Jwt.Token.{Codec, sign, parse_header, parse_and_verify, decode_header}
use pingoo.Jwt.Claims.{ClaimsAccepted}
use pingoo.Jwt.Verified.{parse_and_verify-eq-ok_iff}

module _ {Claims : Type 0} (crypto : Crypto) (codec : Codec Claims) where
  open codec use {
    as_bytes, encode, decode, decode_slice, header_to_string, header_from_slice, claims_to_string,
  }

  -- What is known of base64 without padding and of JSON: they read what they write, and base64 has no
  -- dot.
  pub record CodecLaws : Type 0 where
    pub decode_encode : (bytes : Bytes) → decode (encode bytes) ≡ some bytes
    pub decode_slice_encode :
        (bytes : Bytes) (n : ℕ) → length bytes ≤ n → decode_slice (encode bytes) n ≡ some bytes
    pub encode_lacks : (bytes : Bytes) → Lacks b'.' (encode bytes)
    pub header_read :
        (header : Header) (text : String)
        → header_to_string header ≡ some text
        → header_from_slice (as_bytes text) ≡ some header

  split-three :
      (a b c : String)
      → Lacks b'.' a
      → Lacks b'.' b
      → Lacks b'.' c
      → split b'.' (append (append a (append "." b)) (append "." c)) ≡ a ∷ b ∷ c ∷ []
  split-three a b c ha hb hc =
      ap (λ s. split b'.' s) (append_assoc a (append "." b) (append "." c))
      ∙ split-append b'.' _ a (append b (append "." c)) ha refl
      ∙ ap (λ xs. a ∷ xs)
          (split-append b'.' _ b c hb refl ∙ ap (λ xs. b ∷ xs) (split-Lacks b'.' c hc))

  take-two :
      (a b c : String)
      → str_take (str_len a + 1 + str_len b) (append (append a (append "." b)) (append "." c))
        ≡ append a (append "." b)
  take-two a b c =
      let n : str_len a + 1 + str_len b ≡ str_len (append a (append "." b)) =
        omega (arith, str_len-append a (append "." b)) in
      ap (λ k. str_take k (append (append a (append "." b)) (append "." c))) n
      ∙ str_take-append (append a (append "." b)) (append "." c)

  -- the parts of a token that is signed
  pub record Signed (key : Key crypto) (nonce : Bytes) (header : Header) (claims : Claims)
      (token : String) : Type 0 where
    header_json : String
    claims_json : String
    signature : Bytes
    header_text : header_to_string header ≡ some header_json
    claims_text : claims_to_string claims ≡ some claims_json
    signs :
        sign_message crypto key nonce (
          as_bytes
            (append (encode (as_bytes header_json)) (append "." (encode (as_bytes claims_json)))))
        ≡ ok signature
    joined :
        append
          (append (encode (as_bytes header_json)) (append "." (encode (as_bytes claims_json))))
          (append "." (encode signature))
        ≡ token

  sign-Signed :
      (key : Key crypto) (nonce : Bytes) (header : Header) (claims : Claims) (token : String)
      → sign crypto codec key nonce header claims ≡ ok token
      → Signed key nonce header claims token
  unfolding sign
  sign-Signed key nonce header claims token h =
      let jwt : String → String → String =
        λ x y. append (encode (as_bytes x)) (append "." (encode (as_bytes y))) in
      let k3 : String → Bytes → Result String Error =
        λ m s. ok (append m (append "." (encode s))) in
      let k2 : String → String → Result String Error =
        λ x y. sign_message crypto key nonce (as_bytes (jwt x y)) >>= k3 (jwt x y) in
      let k1 : String → Result String Error = λ x. ok_or (claims_to_string claims) json >>= k2 x in
      let (x, e1, r1) = bind-eq-ok (ok_or (header_to_string header) json) k1 h in
      let (y, e2, r2) = bind-eq-ok (ok_or (claims_to_string claims) json) (k2 x) r1 in
      let (s, e3, r3) =
        bind-eq-ok (sign_message crypto key nonce (as_bytes (jwt x y))) (k3 (jwt x y)) r2 in
      record {
        header_json = x;
        claims_json = y;
        signature = s;
        header_text = ok_or-eq-ok (header_to_string header) json e1;
        claims_text = ok_or-eq-ok (claims_to_string claims) json e2;
        signs = e3;
        joined = ok-injective Error r3;
      }

  module _ (laws : CodecLaws) (key : Key crypto) (nonce : Bytes) (header : Header) (claims : Claims)
      (token : String) (h : sign crypto codec key nonce header claims ≡ ok token) where
    abbrev s : Signed key nonce header claims token
    s = sign-Signed key nonce header claims token h

    token-parts :
        split b'.' token
        ≡ encode (as_bytes s.header_json)
          ∷ encode (as_bytes s.claims_json)
          ∷ encode s.signature
          ∷ []
    token-parts =
        ap (λ t. split b'.' t) (sym s.joined)
        ∙ split-three (encode (as_bytes s.header_json)) (encode (as_bytes s.claims_json))
            (encode s.signature) (laws.encode_lacks (as_bytes s.header_json))
            (laws.encode_lacks (as_bytes s.claims_json)) (laws.encode_lacks s.signature)

    decode_header-read : decode_header crypto codec (encode (as_bytes s.header_json)) ≡ ok header
    decode_header-read = ground (
      arith,
      laws.decode_encode (as_bytes s.header_json),
      laws.header_read header s.header_json s.header_text,
    )

    -- The header of a token that was signed is read back.
    pub parse_header-sign : parse_header crypto codec token ≡ ok header
    unfolding parse_header
    parse_header-sign = ground (arith, token-parts, decode_header-read)

    -- A token that a key has signed is accepted by the same key with the same header and claims, where
    -- the header names the key's algorithm, the key verifies what it signs in at most 132 bytes, base64
    -- and JSON read what they write, and the claims as they are written hold under the options.
    pub parse_and_verify-sign :
        (options : ValidateOptions) (now_exp now_nbf : ℕ)
        → header.alg ≡ key.algorithm
        → ((m signature : Bytes)
            → sign_message crypto key nonce m ≡ ok signature
            → (length signature ≤ signature_max_size)
              × (verify_message crypto key m signature ≡ ok tt))
        → ((text : String)
            → claims_to_string claims ≡ some text
            → ClaimsAccepted crypto codec options now_exp now_nbf (as_bytes text) claims)
        → parse_and_verify crypto codec key token options now_exp now_nbf
          ≡ ok (record { header = header; claims = claims })
    parse_and_verify-sign options now_exp now_nbf alg sound held =
        let x = encode (as_bytes s.header_json) in
        let y = encode (as_bytes s.claims_json) in
        let (short, verifies) = sound (as_bytes (append x (append "." y))) s.signature s.signs in
        let two : append x (append "." y) ≡ str_take (str_len x + 1 + str_len y) token = sym (
          ap (λ t. str_take (str_len x + 1 + str_len y) t) (sym s.joined)
          ∙ take-two x y (encode s.signature)) in
        (parse_and_verify-eq-ok_iff crypto codec key token options now_exp now_nbf
            (record { header = header; claims = claims })).1
          (record {
            header_base64 = x;
            claims_base64 = y;
            signature_base64 = encode s.signature;
            signature = s.signature;
            claims_json = as_bytes s.claims_json;
            parts = token-parts;
            decoded = laws.decode_slice_encode s.signature signature_max_size short;
            signed =
                subst (λ t. verify_message crypto key (as_bytes t) s.signature ≡ ok tt) two
                  verifies;
            header = decode_header-read;
            alg = alg;
            payload = laws.decode_encode (as_bytes s.claims_json);
            claims = held s.claims_json s.claims_text;
          })

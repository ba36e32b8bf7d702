-- ===== src/Jwt/Claims.antt =====
-- What `parse_and_verify` of jwt/jwt.rs has checked of the claims that it accepts.
use pingoo.Prelude.{
  ok_or-eq-ok, ℕ, String, Option, some, Bool, true, false, not, ◌≡◌, ◌↔◌, ◌⊎◌, inl, inr, refl, In,
  arith, Bool-cases, Result, ok, err, ◌>>=◌, ok_or, bind-eq-ok, ok-injective, contains_iff,
  string_eq, is_empty, contains, if◌then◌else◌, sym, subst,
}
use pingoo.Jwt.{
  Bytes, Error, invalid_token, ltb_int, ValidateOptions, timestamp_before, timestamp_after,
}
use pingoo.Jwt.Key.{Crypto}
use pingoo.Jwt.Token.{
  within, Codec, claim, check_exp, check_nbf, check_one_of, check_claims, has_checks, parse_claims,
}

module _ {Claims : Type 0} (crypto : Crypto) (codec : Codec Claims) where
  open codec use {
    Json, as_bytes, decode, decode_slice, claims_from_slice, value_from_slice, claims_from_value,
    as_object, as_i64, as_str,
  }

  -- A claim that options ask for is there and passes; the others are not looked at.
  abbrev pub Asked :
      {A : Type 0}
      → Bool
      → (Json → Option A)
      → (String → Option Json)
      → String
      → (A → Type 0)
      → Type 0
  Asked asked read claims name P =
      (asked ≡ false) ⊎ ((a : _) × ((claim crypto codec read claims name ≡ ok a) × P a))

  pub record ClaimsHold (options : ValidateOptions) (now_exp now_nbf : ℕ)
      (claims : String → Option Json) : Type 0 where
    pub exp :
        Asked options.exp as_i64 claims "exp"
          (λ exp. ltb_int exp (timestamp_before now_exp options.allowed_time_drift) ≡ false)
    pub nbf :
        Asked options.nbf as_i64 claims "nbf"
          (λ nbf. ltb_int (timestamp_after now_nbf options.allowed_time_drift) nbf ≡ false)
    pub aud : Asked (not (is_empty options.aud)) as_str claims "aud" (λ aud. In aud options.aud)
    pub iss : Asked (not (is_empty options.iss)) as_str claims "iss" (λ iss. In iss options.iss)

  gate :
      {A : Type 0} (asked : Bool) (r : Result A Error) (test : A → Bool) (P : A → Type 0)
      → ((a : A) → (test a ≡ true) ↔ P a)
      → ((if asked then (r >>= λ a. within crypto codec (test a)) else ok tt) ≡ ok tt)
        ↔ ((asked ≡ false) ⊎ ((a : A) × ((r ≡ ok a) × P a)))
  gate false r test P each = (λ h. inl refl, λ h. refl)
  gate true (err e) test P each = (λ h. ground arith, λ h. ground arith)
  gate true (ok a) test P each =
      let at_a : (test a ≡ true) ⊎ (test a ≡ false) = Bool-cases (test a) in
      (
        λ h. elim at_a [ inl e ↦ inr (a, (refl, (each a).0 e)) | inr e ↦ ground arith ],
        λ h. elim h [
          | inl e ↦ ground arith
          | inr (b, (e, p)) ↦
              let p' = subst P (ok-injective Error (sym e)) p in
              let t = (each a).1 p' in ground arith
        ],
      )

  pub then-eq-ok :
      {A : Type 0} (r : Result (Unit {0}) Error) (k : Result A Error) (a : A)
      → ((r >>= λ _. k) ≡ ok a) ↔ ((r ≡ ok tt) × (k ≡ ok a))
  then-eq-ok (ok tt) k a = ground arith
  then-eq-ok (err e) k a = ground arith

  check_claims-eq-ok_iff :
      (options : ValidateOptions) (now_exp now_nbf : ℕ) (claims : String → Option Json)
      → (check_claims crypto codec options now_exp now_nbf claims ≡ ok tt)
        ↔ ClaimsHold options now_exp now_nbf claims
  unfolding check_claims
  check_claims-eq-ok_iff options now_exp now_nbf claims =
      let drift = options.allowed_time_drift in
      let exp = check_exp crypto codec options now_exp claims in
      let nbf = check_nbf crypto codec options now_nbf claims in
      let aud = check_one_of crypto codec options.aud "aud" claims in
      let iss = check_one_of crypto codec options.iss "iss" claims in
      let exp_iff =
        gate options.exp (claim crypto codec as_i64 claims "exp")
          (λ t. not (ltb_int t (timestamp_before now_exp drift)))
          (λ t. ltb_int t (timestamp_before now_exp drift) ≡ false) (λ t. ground arith) in
      let nbf_iff =
        gate options.nbf (claim crypto codec as_i64 claims "nbf")
          (λ t. not (ltb_int (timestamp_after now_nbf drift) t))
          (λ t. ltb_int (timestamp_after now_nbf drift) t ≡ false) (λ t. ground arith) in
      let aud_iff =
        gate (not (is_empty options.aud)) (claim crypto codec as_str claims "aud")
          (contains options.aud) (λ x. In x options.aud) (contains_iff options.aud) in
      let iss_iff =
        gate (not (is_empty options.iss)) (claim crypto codec as_str claims "iss")
          (contains options.iss) (λ x. In x options.iss) (contains_iff options.iss) in
      let first = then-eq-ok exp (nbf >>= λ _. aud >>= λ _. iss) tt in
      let second = then-eq-ok nbf (aud >>= λ _. iss) tt in
      let third = then-eq-ok aud iss tt in
      (
        λ h.
            let (e, rest) = first.0 h in
            let (n, rest') = second.0 rest in
            let (a, i) = third.0 rest' in
            record { exp = exp_iff.0 e; nbf = nbf_iff.0 n; aud = aud_iff.0 a; iss = iss_iff.0 i },
        λ h. first.1 (
          exp_iff.1 h.exp,
          second.1 (nbf_iff.1 h.nbf, third.1 (aud_iff.1 h.aud, iss_iff.1 h.iss)),
        ),
      )

  -- What the bytes of accepted claims are read as: where options ask for anything, an object whose
  -- claims hold, converted.
  abbrev pub ClaimsAccepted : ValidateOptions → ℕ → ℕ → Bytes → Claims → Type 0
  ClaimsAccepted options now_exp now_nbf bytes claims =
      ((has_checks crypto codec options ≡ false) × (claims_from_slice bytes ≡ some claims))
      ⊎ ((has_checks crypto codec options ≡ true)
          × ((value : Json) × ((members : (String → Option Json)) × ((value_from_slice bytes
                    ≡ some value)
                  × (as_object value ≡ some members)
                  × ClaimsHold options now_exp now_nbf members
                  × (claims_from_value value ≡ some claims)))))

  pub parse_claims-ClaimsAccepted :
      (options : ValidateOptions) (now_exp now_nbf : ℕ) (bytes : Bytes) (claims : Claims)
      → parse_claims crypto codec options now_exp now_nbf bytes ≡ ok claims
      → ClaimsAccepted options now_exp now_nbf bytes claims
  unfolding parse_claims
  parse_claims-ClaimsAccepted options now_exp now_nbf bytes claims h =
      elim (Bool-cases (has_checks crypto codec options)) [
        | inr off ↦ inl (off, ok_or-eq-ok (claims_from_slice bytes) invalid_token (ground arith))
        | inl on ↦
            let checked : Json → (String → Option Json) → Result Claims Error = λ value members.
              check_claims crypto codec options now_exp now_nbf members >>= λ _.
              ok_or (claims_from_value value) invalid_token in
            let read : Json → Result Claims Error =
              λ value. ok_or (as_object value) invalid_token >>= checked value in
            let run : (ok_or (value_from_slice bytes) invalid_token >>= read) ≡ ok claims =
              ground arith in
            let (value, e, rest) =
              bind-eq-ok (ok_or (value_from_slice bytes) invalid_token) read run in
            let (members, e', rest') =
              bind-eq-ok (ok_or (as_object value) invalid_token) (checked value) rest in
            let (held, last) =
              (then-eq-ok (check_claims crypto codec options now_exp now_nbf members)
                  (ok_or (claims_from_value value) invalid_token) claims).0
                rest' in
            inr (
              on,
              (
                value,
                (
                  members,
                  (
                    ok_or-eq-ok (value_from_slice bytes) invalid_token e,
                    ok_or-eq-ok (as_object value) invalid_token e',
                    (check_claims-eq-ok_iff options now_exp now_nbf members).0 held,
                    ok_or-eq-ok (claims_from_value value) invalid_token last,
                  ),
                ),
              ),
            )
      ]

  pub ClaimsAccepted-parse_claims :
      (options : ValidateOptions) (now_exp now_nbf : ℕ) (bytes : Bytes) (claims : Claims)
      → ClaimsAccepted options now_exp now_nbf bytes claims
      → parse_claims crypto codec options now_exp now_nbf bytes ≡ ok claims
  unfolding parse_claims
  ClaimsAccepted-parse_claims options now_exp now_nbf bytes claims (inl (off, e)) = ground arith
  ClaimsAccepted-parse_claims options now_exp now_nbf bytes claims
        (inr (on, (value, (members, (e, o, held, last))))) =
      let checked = (check_claims-eq-ok_iff options now_exp now_nbf members).1 held in ground arith

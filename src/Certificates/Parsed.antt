-- ===== src/Certificates/Parsed.antt =====
-- What `parse_certificate_and_private_key` of pingoo/tls/certificate.rs has found in a certificate.
use pingoo.Prelude.{
  ℕ, String, List, [], ◌∷◌, Option, some, Bool, true, false, not, ◌&&◌, ◌≡◌, ◌⊎◌, inl, inr, refl,
  sym, ap, ◌∙◌, subst, arith, filter, is_empty, if◌then◌else◌, In, Bool-cases, Result, ok, ◌>>=◌,
  ok_or, collect, ok_or-eq-ok, ensure-eq-ok, bind-eq-ok, ok-injective, ◌↔◌,
}
use pingoo.Certificates.{
  Crates, Certificate, CertificateMetadata, CertificateError, wildcard_invalid,
  private_key_unreadable, private_key_missing, certs_unreadable, chain_is_empty, x509_invalid,
  no_hostnames, key_does_not_fit, not_before_invalid, not_after_invalid, metadata_of,
  checked_metadata, with_key, with_chain, X509, is_wildcard, build_matcher,
  get_certificate_metadata, parse_certificate_and_private_key, subject_alternative_names, first_of,
}

collect_same :
    {A E : Type 0} (f : A → Result A E) (xs ys : List A)
    → ((a b : A) → f a ≡ ok b → a ≡ b)
    → collect f xs ≡ ok ys
    → xs ≡ ys
unfolding collect
collect_same f [] ys same h = ground arith
collect_same f (x ∷ xs) ys same h =
    let (y, e, r) = bind-eq-ok (f x) (λ y. collect f xs >>= λ ys. ok (y ∷ ys)) h in
    let (zs, e', r') = bind-eq-ok (collect f xs) (λ ys. ok (y ∷ ys)) r in
    let here = same x y e in let there = collect_same f xs zs same e' in cc

In-filter_iff :
    {A : Type 0} (p : A → Bool) (xs : List A) (a : A)
    → In a (filter p xs) ↔ (In a xs × (p a ≡ true))
In-filter_iff p [] a = (λ h. absurd h, λ h. h.0)
In-filter_iff {A} p (x ∷ xs) a =
    let (from, to) = In-filter_iff p xs a in
    elim (Bool-cases (p x)) [
      | inl e ↦
          subst
            (λ b.
              In a (if b then x ∷ filter p xs else filter p xs) ↔ (In a (x ∷ xs) × (p a ≡ true)))
            (sym e)
            (
              λ h. elim h [
                | inl here ↦ (inl here, subst (λ y. p y ≡ true) here e)
                | inr there ↦ (inr (from there).0, (from there).1)
              ],
              λ h. elim h.0 [ inl here ↦ inl here | inr there ↦ inr (to (there, h.1)) ],
            )
      | inr e ↦
          subst
            (λ b.
              In a (if b then x ∷ filter p xs else filter p xs) ↔ (In a (x ∷ xs) × (p a ≡ true)))
            (sym e)
            (
              λ h. (inr (from h).0, (from h).1),
              λ h. elim h.0 [
                | inl here ↦
                    let hit = subst (λ y. p y ≡ false) here e in absurd (ground (arith, h.1))
                | inr there ↦ to (there, h.1)
              ],
            )
    ]

some_name :
    (xs ys : List String)
    → not (is_empty xs && is_empty ys) ≡ true
    → (n : String) × (In n xs ⊎ In n ys)
some_name [] [] h = absurd (ground arith)
some_name [] (y ∷ ys) h = (y, inr (inl refl))
some_name (x ∷ xs) ys h = (x, inl (inl refl))

module _ {Der PrivateKey : Type 0} (crates : Crates Der PrivateKey) where
  open crates use {private_key, certs, secret_der, x509, is_timestamp, is_pattern, certified_key}

  abbrev names_of : X509 → List String
  names_of x = subject_alternative_names crates x.extensions

  -- The metadata of a certificate: its names, with and without a star, and its times.
  pub record Describes (x : X509) (metadata : CertificateMetadata) : Type 0 where
    pub hostnames :
        (n : String)
        → In n metadata.hostnames ↔ (In n (names_of x) × (is_wildcard crates n ≡ false))
    pub wildcard_matchers :
        (n : String)
        → In n metadata.wildcard_matchers ↔ (In n (names_of x) × (is_wildcard crates n ≡ true))
    pub not_before : (metadata.not_before ≡ x.not_before) × (is_timestamp x.not_before ≡ true)
    pub not_after : (metadata.not_after ≡ x.not_after) × (is_timestamp x.not_after ≡ true)

  pub record IsCertificate (certs_pem private_key_pem : String) (certificate : Certificate)
      : Type 0 where
    pub secret : PrivateKey
    pub chain : List Der
    pub first : Der
    pub x : X509
    pub key_read : private_key private_key_pem ≡ some (some secret)
    pub chain_read : certs certs_pem ≡ some chain
    pub is_first : first_of crates chain ≡ some first
    pub first_read : x509 first ≡ some x
    pub described : Describes x certificate.metadata
    pub named :
        (n : String) × (In n certificate.metadata.hostnames
          ⊎ In n certificate.metadata.wildcard_matchers)
    pub fits : certified_key chain secret ≡ some certificate.key

  built_matcher : (a b : String) → build_matcher crates a ≡ ok b → a ≡ b
  built_matcher a b h =
      ok-injective CertificateError (ensure-eq-ok (is_pattern a) (wildcard_invalid a) h).1

  not_iff : (n : String) → (not (is_wildcard crates n) ≡ true) ↔ (is_wildcard crates n ≡ false)
  not_iff n = ground arith

  get_certificate_metadata-Describes :
      (cert_der private_key_der : Der) (metadata : CertificateMetadata)
      → get_certificate_metadata crates cert_der private_key_der ≡ ok metadata
      → (x : X509) × ((x509 cert_der ≡ some x) × Describes x metadata)
  unfolding get_certificate_metadata
  get_certificate_metadata-Describes cert_der private_key_der metadata h =
      let (x, read, r) =
        bind-eq-ok (ok_or (x509 cert_der) x509_invalid)
          (checked_metadata crates cert_der private_key_der) h in
      let (before, r') =
        ensure-eq-ok (is_timestamp x.not_before) (not_before_invalid x.not_before) r in
      let (after, r'') =
        ensure-eq-ok (is_timestamp x.not_after) (not_after_invalid x.not_after) r' in
      let stars = filter (is_wildcard crates) (names_of x) in
      let (matchers, built, done) =
        bind-eq-ok (collect (build_matcher crates) stars)
          (λ matchers. ok (metadata_of crates cert_der private_key_der x matchers)) r'' in
      let same = collect_same (build_matcher crates) stars matchers built_matcher built in
      let described : Describes x (metadata_of crates cert_der private_key_der x stars) = record {
        hostnames = λ n.
            let (from, to) = In-filter_iff (λ san. not (is_wildcard crates san)) (names_of x) n in
            (λ i. ((from i).0, (not_iff n).0 (from i).1), λ i. to (i.0, (not_iff n).1 i.1));
        wildcard_matchers = In-filter_iff (is_wildcard crates) (names_of x);
        not_before = (refl, before);
        not_after = (refl, after);
      } in
      let result =
        ap (λ ms. metadata_of crates cert_der private_key_der x ms) same
        ∙ ok-injective CertificateError done in
      (x, (ok_or-eq-ok (x509 cert_der) x509_invalid read, subst (Describes x) result described))

  -- A certificate is parsed only if the key's file has a private key that fits the chain of the other
  -- file, whose first certificate can be read; its hostnames are the names of that certificate without a
  -- star, its matchers those with one, there is at least one name, and its times are that certificate's.
  pub parse_certificate-IsCertificate :
      (certs_pem private_key_pem : String) (certificate : Certificate)
      → parse_certificate_and_private_key crates certs_pem private_key_pem ≡ ok certificate
      → IsCertificate certs_pem private_key_pem certificate
  unfolding parse_certificate_and_private_key
  parse_certificate-IsCertificate certs_pem private_key_pem certificate h =
      let with_secret : PrivateKey → Result Certificate CertificateError =
        λ secret. ok_or (certs certs_pem) certs_unreadable >>= with_chain crates secret in
      let with_found : Option PrivateKey → Result Certificate CertificateError =
        λ found. ok_or found private_key_missing >>= with_secret in
      let (found, e1, r1) =
        bind-eq-ok (ok_or (private_key private_key_pem) private_key_unreadable) with_found h in
      let (secret, e2, r2) = bind-eq-ok (ok_or found private_key_missing) with_secret r1 in
      let (chain, e3, r3) =
        bind-eq-ok (ok_or (certs certs_pem) certs_unreadable) (with_chain crates secret) r2 in
      let with_first : Der → Result Certificate CertificateError = λ first.
        get_certificate_metadata crates first (secret_der secret)
        >>= with_key crates chain secret in
      let (first, e4, r4) =
        bind-eq-ok (ok_or (first_of crates chain) chain_is_empty) with_first r3 in
      let (metadata, e5, r5) =
        bind-eq-ok (get_certificate_metadata crates first (secret_der secret))
          (with_key crates chain secret) r4 in
      let (x, (first_read, described)) =
        get_certificate_metadata-Describes first (secret_der secret) metadata e5 in
      let (not_empty, r6) =
        ensure-eq-ok (not (is_empty metadata.hostnames && is_empty metadata.wildcard_matchers))
          no_hostnames r5 in
      let finish : ℕ → Result Certificate CertificateError =
        λ key. ok (record { key = key; metadata = metadata }) in
      let (key, e7, r7) =
        bind-eq-ok (ok_or (certified_key chain secret) key_does_not_fit) finish r6 in
      let found_certificate : IsCertificate certs_pem private_key_pem
          (record { key = key; metadata = metadata }) =
        record {
          secret = secret;
          chain = chain;
          first = first;
          x = x;
          key_read =
              ok_or-eq-ok (private_key private_key_pem) private_key_unreadable e1
              ∙ ap some (ok_or-eq-ok found private_key_missing e2);
          chain_read = ok_or-eq-ok (certs certs_pem) certs_unreadable e3;
          is_first = ok_or-eq-ok (first_of crates chain) chain_is_empty e4;
          first_read = first_read;
          described = described;
          named = some_name metadata.hostnames metadata.wildcard_matchers not_empty;
          fits = ok_or-eq-ok (certified_key chain secret) key_does_not_fit e7;
        } in
      subst (IsCertificate certs_pem private_key_pem) (ok-injective CertificateError r7)
        found_certificate

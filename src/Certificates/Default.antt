-- ===== src/Certificates/Default.antt =====
-- What `load_or_create_default_certificate` of pingoo/tls/tls_manager.rs leaves on the disk.
use pingoo.Prelude.{
  ℕ, some, collect, String, [], ◌∷◌, List, true, false, ◌≡◌, ◌≢◌, refl, ap, ◌∙◌, subst, arith,
  string_eq, ◌==◌, append, path_push, Bool-cases, inl, inr, Result, ok, ◌>>=◌, ensure, ok_or,
  ok_or-eq-ok, ensure-eq-ok, bind-eq-ok, ok-injective,
}
use pingoo.Disk.{Disk, Access, content, not_found, failed, read, write, read-write}
use pingoo.Tls.{default_is_valid}
use pingoo.Certificates.{
  Crates, Certificate, PrivateKeyAndCertPem, CertificateError, write_failed, default_invalid,
  parse_certificate_and_private_key, generate_self_signed_certificates, load_certificate, pem_path,
  key_path, create_default_certificate, found_default, load_or_create_default_certificate,
  served_as, Loaded, check_san,
}

pem-ne-key : (path : String) → append path ".key" ≢ append path ".pem"
pem-ne-key String.[] h = let same = (string_eq.same_iff ".key" ".pem").1 h in cc
pem-ne-key (String.◌∷◌ c path) h = pem-ne-key path (cc)

pub pem_is_not_key : (path : String) → (key_path path == pem_path path) ≡ false
pem_is_not_key path = elim (Bool-cases (key_path path == pem_path path)) [
  | inl e ↦ absurd (pem-ne-key path ((string_eq.same_iff (key_path path) (pem_path path)).0 e))
  | inr e ↦ e
]

pub self : (path : String) → (path == path) ≡ true
self path = (string_eq.same_iff path path).1 refl

-- both files, read back
read-written :
    (disk disk' disk'' : Disk) (path pem key : String)
    → write disk (pem_path path) pem ≡ some disk'
    → write disk' (key_path path) key ≡ some disk''
    → (read disk'' (pem_path path) ≡ content pem) × (read disk'' (key_path path) ≡ content key)
read-written disk disk' disk'' path pem key w w' = (
  ground (
    arith,
    read-write disk' disk'' (key_path path) key (pem_path path) w',
    read-write disk disk' (pem_path path) pem (pem_path path) w,
    pem_is_not_key path,
    self (pem_path path),
  ),
  ground
      (arith, read-write disk' disk'' (key_path path) key (key_path path) w', self (key_path path)),
)

default_names :
    (key : ℕ) (hostnames matchers : List String)
    → default_is_valid (record { key = key; hostnames = hostnames; wildcard_matchers = matchers })
      ≡ true
    → (hostnames ≡ []) × (matchers ≡ "*" ∷ [])
unfolding default_is_valid
default_names key hostnames [] h = absurd (ground arith)
default_names key [] (m ∷ []) h = (refl, ap (λ s. s ∷ []) ((string_eq.same_iff m "*").0 h))
default_names key (x ∷ hostnames) (m ∷ []) h = absurd (ground arith)
default_names key [] (m ∷ n ∷ matchers) h = absurd (ground arith)
default_names key (x ∷ hostnames) (m ∷ n ∷ matchers) h = absurd (ground arith)

module _ {Der PrivateKey : Type 0} (crates : Crates Der PrivateKey) where
  generate-parse :
      (hostnames : List String) (certificate : Certificate) (pem : PrivateKeyAndCertPem)
      → generate_self_signed_certificates crates hostnames ≡ ok (certificate, pem)
      → parse_certificate_and_private_key crates pem.cert pem.key ≡ ok certificate
  unfolding generate_self_signed_certificates
  generate-parse hostnames certificate pem h =
      let finish : PrivateKeyAndCertPem
          → Certificate
          → Result (Certificate × PrivateKeyAndCertPem) CertificateError =
        λ made c. ok (c, made) in
      let parsed : PrivateKeyAndCertPem
          → Result (Certificate × PrivateKeyAndCertPem) CertificateError =
        λ made. parse_certificate_and_private_key crates made.cert made.key >>= finish made in
      let signed : List String → Result (Certificate × PrivateKeyAndCertPem) CertificateError =
        λ names. crates.self_signed names >>= parsed in
      let (names, e1, r1) = bind-eq-ok (collect (check_san crates) hostnames) signed h in
      let (made, e2, r2) = bind-eq-ok (crates.self_signed names) parsed r1 in
      let (c, e3, r3) =
        bind-eq-ok (parse_certificate_and_private_key crates made.cert made.key) (finish made) r2 in
      let same = ok-injective CertificateError r3 in
      subst
        (λ (x : Certificate × PrivateKeyAndCertPem).
          parse_certificate_and_private_key crates x.1.cert x.1.key ≡ ok x.0)
        same e3

  create-load :
      (disk after : Disk) (path : String) (certificate : Certificate)
      → create_default_certificate crates disk path ≡ ok (after, certificate)
      → ((text : String) × (read after (pem_path path) ≡ content text))
        × (load_certificate crates after path ≡ ok certificate)
  unfolding create_default_certificate load_certificate
  create-load disk after path certificate h =
      let last : Certificate → Disk → Loaded crates = λ c disk''. ok (disk'', c) in
      let second : Certificate → PrivateKeyAndCertPem → Disk → Loaded crates = λ c pem disk'.
        ok_or (write disk' (key_path path) pem.key) (write_failed (key_path path)) >>= last c in
      let made : Certificate × PrivateKeyAndCertPem → Loaded crates = λ x.
        ok_or (write disk (pem_path path) x.1.cert) (write_failed (pem_path path))
        >>= second x.0 x.1 in
      let (x, e1, r1) = bind-eq-ok (generate_self_signed_certificates crates ("*" ∷ [])) made h in
      let (disk', e2, r2) =
        bind-eq-ok (ok_or (write disk (pem_path path) x.1.cert) (write_failed (pem_path path)))
          (second x.0 x.1) r1 in
      let (disk'', e3, r3) =
        bind-eq-ok (ok_or (write disk' (key_path path) x.1.key) (write_failed (key_path path)))
          (last x.0) r2 in
      let parsed = generate-parse ("*" ∷ []) x.0 x.1 e1 in
      let (pem_read, key_read) =
        read-written disk disk' disk'' path x.1.cert x.1.key
          (ok_or-eq-ok (write disk (pem_path path) x.1.cert) (write_failed (pem_path path)) e2)
          (ok_or-eq-ok (write disk' (key_path path) x.1.key) (write_failed (key_path path)) e3) in
      let here : load_certificate crates disk'' path ≡ ok x.0 =
        ground (arith, pem_read, key_read, parsed) in
      subst
        (λ (y : Disk × Certificate).
          ((text : String) × (read y.0 (pem_path path) ≡ content text))
          × (load_certificate crates y.0 path ≡ ok y.1))
        (ok-injective CertificateError r3) ((x.1.cert, pem_read), here)

  found_again :
      (access : Access) (disk after : Disk) (path : String) (certificate : Certificate)
      → read disk (pem_path path) ≡ access
      → found_default crates disk path access ≡ ok (after, certificate)
      → ((text : String) × (read after (pem_path path) ≡ content text))
        × (load_certificate crates after path ≡ ok certificate)
  found_again not_found disk after path certificate e h = create-load disk after path certificate h
  found_again failed disk after path certificate e h = absurd (ground arith)
  found_again (content text) disk after path certificate e h =
      let finish : Certificate → Loaded crates = λ c. ok (disk, c) in
      let (c, loaded, r) = bind-eq-ok (load_certificate crates disk path) finish h in
      subst
        (λ (y : Disk × Certificate).
          ((text : String) × (read y.0 (pem_path path) ≡ content text))
          × (load_certificate crates y.0 path ≡ ok y.1))
        (ok-injective CertificateError r) ((text, e), loaded)

  -- When the default certificate has been loaded or created, it is loaded again from the files, as the
  -- same certificate and without a change to them; it has no host name and the one pattern "*".
  pub load_or_create_twice :
      (disk after : Disk) (certs_dir : String) (certificate : Certificate)
      → load_or_create_default_certificate crates disk certs_dir ≡ ok (after, certificate)
      → (load_or_create_default_certificate crates after certs_dir ≡ ok (after, certificate))
        × (certificate.metadata.hostnames ≡ [])
        × (certificate.metadata.wildcard_matchers ≡ "*" ∷ [])
  unfolding load_or_create_default_certificate
  load_or_create_twice disk after certs_dir certificate h =
      let path = path_push certs_dir "default" in
      let check : Disk × Certificate → Loaded crates =
        λ result. ensure (default_is_valid (served_as result.1)) default_invalid (ok result) in
      let (result, found, r) =
        bind-eq-ok (found_default crates disk path (read disk (pem_path path))) check h in
      let (valid, r') = ensure-eq-ok (default_is_valid (served_as result.1)) default_invalid r in
      let same = ok-injective CertificateError r' in
      let valid' : default_is_valid (served_as certificate) ≡ true =
        subst (λ (y : Disk × Certificate). default_is_valid (served_as y.1) ≡ true) same valid in
      let ((text, there), loaded) =
        found_again (read disk (pem_path path)) disk after path certificate refl
          (found ∙ ap ok same) in
      let finish : Certificate → Loaded crates = λ c. ok (after, c) in
      let again : load_or_create_default_certificate crates after certs_dir
          ≡ ok (after, certificate) =
        ap (λ access. found_default crates after path access >>= check) there
        ∙ ap (λ (r : Result Certificate CertificateError). (r >>= finish) >>= check) loaded
        ∙ ap (λ b. ensure b default_invalid (ok (after, certificate))) valid' in
      let (no_hostname, star) =
        default_names certificate.key certificate.metadata.hostnames
          certificate.metadata.wildcard_matchers valid' in
      (again, no_hostname, star)

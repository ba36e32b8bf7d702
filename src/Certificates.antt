-- ===== src/Certificates.antt =====
-- pingoo/tls/certificate.rs and the files of certificates in pingoo/tls/tls_manager.rs. PEM, X.509,
-- the keys of rustls and the making of certificates are parameters. A chain with its key is known by a
-- number, a wildcard matcher by its pattern.
pub mod Parsed
pub mod Default
pub mod Small
mod Tests
use pingoo.Prelude.{
  ℕ, ◌+◌, ◌*◌, String, List, [], ◌∷◌, ◌++◌, Option, none, some, Bool, true, false, not, ◌&&◌, eqb,
  length, filter, is_empty, str_contains, append, path_push, if◌then◌else◌, Result, ok, err, ◌>>=◌,
  ensure, ok_or, collect,
}
use pingoo.Net.{IpAddr, v4, v6}
use pingoo.Jwt.{ℤ}
use pingoo.Disk.{Disk, Access, content, not_found, failed, read, write}
use pingoo.Tls.{default_is_valid}
use pingoo.Tls

pub data GeneralName : Type 0 where
  dns_name : String → GeneralName
  ip_address : List ℕ → GeneralName
  other_name : GeneralName

pub data Extension : Type 0 where
  subject_alternative_name : List GeneralName → Extension
  other_extension : Extension

-- what `X509Certificate` tells
pub record X509 : Type 0 where
  pub not_before : ℤ
  pub not_after : ℤ
  pub extensions : List Extension

pub record CertificateMetadata : Type 0 where
  pub hash : String
  pub private_key_hash : String
  pub hostnames : List String
  pub wildcard_matchers : List String
  pub not_after : ℤ
  pub not_before : ℤ

pub record Certificate : Type 0 where
  pub key : ℕ
  pub metadata : CertificateMetadata

-- what the TLS manager looks at
abbrev pub served_as : Certificate → Tls.Certificate
served_as cert = record {
  key = cert.key;
  hostnames = cert.metadata.hostnames;
  wildcard_matchers = cert.metadata.wildcard_matchers;
}

pub record PrivateKeyAndCertPem : Type 0 where
  pub key : String
  pub cert : String

pub data CertificateError : Type 0 where
  private_key_unreadable private_key_missing certs_unreadable chain_is_empty x509_invalid
        no_hostnames key_does_not_fit :
      CertificateError
  not_before_invalid : ℤ → CertificateError
  not_after_invalid : ℤ → CertificateError
  wildcard_invalid : String → CertificateError
  san_invalid : String → CertificateError
  keypair_failed signing_failed : CertificateError
  certificate_unreadable : String → CertificateError
  key_unreadable : String → CertificateError
  default_unreadable : String → CertificateError
  write_failed : String → CertificateError
  default_invalid : CertificateError

-- The crates: `rustls_pemfile`, `x509_parser`, `chrono`, `wildcard`, `aws_lc_rs`, `rustls` and `rcgen`.
pub record Crates (Der PrivateKey : Type 0) : Type 0 where
  pub private_key : String → Option (Option PrivateKey)
  pub certs : String → Option (List Der)
  pub secret_der : PrivateKey → Der
  pub x509 : Der → Option X509
  pub is_timestamp : ℤ → Bool
  pub ip_text : IpAddr → String
  pub is_pattern : String → Bool
  pub sha256 : Der → String
  pub certified_key : List Der → PrivateKey → Option ℕ
  pub is_san : String → Bool
  -- the PEM of the private key and of its certificate for these names, or the step that fails
  pub self_signed : List String → Result PrivateKeyAndCertPem CertificateError

-- a certificate's file and that of its key, by the path without the extension
abbrev pub pem_path : String → String
pem_path path = append path ".pem"

abbrev pub key_path : String → String
key_path path = append path ".key"

module _ {Der PrivateKey : Type 0} (crates : Crates Der PrivateKey) where
  open crates use {
    private_key, certs, secret_der, x509, is_timestamp, ip_text, is_pattern, sha256, certified_key,
    is_san, self_signed,
  }

  -- the address of four or sixteen bytes, the most significant first
  abbrev pub number_of : ℕ → List ℕ → ℕ
  number_of acc [] = acc
  number_of acc (b ∷ bytes) = number_of (acc * 256 + b) bytes

  unfoldable pub san_of : GeneralName → List String
  san_of (dns_name d) = d ∷ []
  san_of (ip_address bytes) =
      if eqb (length bytes) 4
      then ip_text (v4 (number_of 0 bytes)) ∷ []
      else if eqb (length bytes) 16
      then ip_text (v6 (number_of 0 bytes)) ∷ []
      else []
  san_of other_name = []

  unfoldable pub sans_of_names : List GeneralName → List String
  sans_of_names [] = []
  sans_of_names (name ∷ names) = san_of name ++ sans_of_names names

  unfoldable pub subject_alternative_names : List Extension → List String
  subject_alternative_names [] = []
  subject_alternative_names (subject_alternative_name names ∷ exts) =
      sans_of_names names ++ subject_alternative_names exts
  subject_alternative_names (other_extension ∷ exts) = subject_alternative_names exts

  abbrev pub is_wildcard : String → Bool
  is_wildcard hostname = str_contains hostname "*"

  abbrev pub build_matcher : String → Result String CertificateError
  build_matcher hostname = ensure (is_pattern hostname) (wildcard_invalid hostname) (ok hostname)

  abbrev pub metadata_of : Der → Der → X509 → List String → CertificateMetadata
  metadata_of cert_der private_key_der cert matchers = record {
    hash = sha256 cert_der;
    private_key_hash = sha256 private_key_der;
    hostnames = filter (λ san. not (is_wildcard san)) (subject_alternative_names cert.extensions);
    wildcard_matchers = matchers;
    not_after = cert.not_after;
    not_before = cert.not_before;
  }

  -- behind the reading of the certificate
  abbrev pub checked_metadata : Der → Der → X509 → Result CertificateMetadata CertificateError
  checked_metadata cert_der private_key_der cert =
      ensure (is_timestamp cert.not_before) (not_before_invalid cert.not_before) (
        ensure (is_timestamp cert.not_after) (not_after_invalid cert.not_after) (
          collect build_matcher (filter is_wildcard (subject_alternative_names cert.extensions))
          >>= λ matchers. ok (metadata_of cert_der private_key_der cert matchers)))

  unfoldable pub get_certificate_metadata : Der → Der → Result CertificateMetadata CertificateError
  get_certificate_metadata cert_der private_key_der =
      ok_or (x509 cert_der) x509_invalid >>= checked_metadata cert_der private_key_der

  abbrev pub first_of : List Der → Option Der
  first_of [] = none
  first_of (d ∷ ds) = some d

  abbrev pub with_key :
      List Der → PrivateKey → CertificateMetadata → Result Certificate CertificateError
  with_key chain secret metadata =
      ensure (not (is_empty metadata.hostnames && is_empty metadata.wildcard_matchers)) no_hostnames
        (ok_or (certified_key chain secret) key_does_not_fit >>= λ key.
          ok (record { key = key; metadata = metadata }))

  abbrev pub with_chain : PrivateKey → List Der → Result Certificate CertificateError
  with_chain secret chain = ok_or (first_of chain) chain_is_empty >>= λ first.
      get_certificate_metadata first (secret_der secret) >>= with_key chain secret

  unfoldable pub parse_certificate_and_private_key :
      String → String → Result Certificate CertificateError
  parse_certificate_and_private_key certs_pem private_key_pem =
      ok_or (private_key private_key_pem) private_key_unreadable >>= λ found.
      ok_or found private_key_missing >>= λ secret.
      ok_or (certs certs_pem) certs_unreadable >>= with_chain secret

  abbrev pub check_san : String → Result String CertificateError
  check_san hostname = ensure (is_san hostname) (san_invalid hostname) (ok hostname)

  unfoldable pub generate_self_signed_certificates :
      List String → Result (Certificate × PrivateKeyAndCertPem) CertificateError
  generate_self_signed_certificates hostnames = do
    names ← collect check_san hostnames
    pem ← self_signed names
    certificate ← parse_certificate_and_private_key pem.cert pem.key
    ok (certificate, pem)

  abbrev pub text_of : Access → CertificateError → Result String CertificateError
  text_of (content text) e = ok text
  text_of not_found e = err e
  text_of failed e = err e

  unfoldable pub load_certificate : Disk → String → Result Certificate CertificateError
  load_certificate disk path = do
    certs_pem ← text_of (read disk (pem_path path)) (certificate_unreadable (pem_path path))
    private_key_pem ← text_of (read disk (key_path path)) (key_unreadable (key_path path))
    parse_certificate_and_private_key certs_pem private_key_pem

  abbrev pub Loaded : Type 0
  Loaded = Result (Disk × Certificate) CertificateError

  unfoldable pub create_default_certificate : Disk → String → Loaded
  create_default_certificate disk path = do
    (certificate, pem) ← generate_self_signed_certificates ("*" ∷ [])
    disk' ← ok_or (write disk (pem_path path) pem.cert) (write_failed (pem_path path))
    disk'' ← ok_or (write disk' (key_path path) pem.key) (write_failed (key_path path))
    ok (disk'', certificate)

  abbrev pub found_default : Disk → String → Access → Loaded
  found_default disk path (content text) =
      load_certificate disk path >>= λ certificate. ok (disk, certificate)
  found_default disk path not_found = create_default_certificate disk path
  found_default disk path failed = err (default_unreadable (pem_path path))

  unfoldable pub load_or_create_default_certificate : Disk → String → Loaded
  load_or_create_default_certificate disk certs_dir =
      let path = path_push certs_dir "default" in
      found_default disk path (read disk (pem_path path)) >>= λ result.
      ensure (default_is_valid (served_as result.1)) default_invalid (ok result)

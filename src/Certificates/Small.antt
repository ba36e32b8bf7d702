-- ===== src/Certificates/Small.antt =====
-- PEM texts that are names separated from nothing else, for tests: the text of a certificate is its one
-- name.
use pingoo.Prelude.{String, [], ◌∷◌, none, some, true, string_eq, ◌==◌, if◌then◌else◌, ok}
use pingoo.Jwt.{pos}
use pingoo.Certificates.{Crates, dns_name, other_name, other_extension, subject_alternative_name}

-- a certificate is its name and its private key is "key"
abbrev pub crates : Crates String String
crates = record {
  private_key = λ text. some (if text == "key" then some "key" else none);
  certs = λ text. some (text ∷ []);
  secret_der = λ key. key;
  x509 = λ der. some (record {
    not_before = pos 1;
    not_after = pos 2;
    extensions = other_extension ∷ subject_alternative_name (dns_name der ∷ other_name ∷ []) ∷ [];
  });
  is_timestamp = λ t. true;
  ip_text = λ ip. "ip";
  is_pattern = λ pattern. true;
  sha256 = λ der. der;
  certified_key = λ chain key. some 1;
  is_san = λ name. true;
  self_signed = λ names. ok (record { key = "key"; cert = "*" });
}

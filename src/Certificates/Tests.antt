-- ===== src/Certificates/Tests.antt =====
-- Certificates with the small crates: parsing, and the default certificate.
use pingoo.Prelude.{
  String, [], ◌∷◌, List, false, ◌≡◌, refl, string_eq, ok, get, insert, path_push, collect,
}
use pingoo.Jwt.{pos}
use pingoo.Disk.{Disk, read, write}
use pingoo.Tls.{default_is_valid}
use pingoo.Certificates.{
  Certificate, ip_address, parse_certificate_and_private_key, get_certificate_metadata,
  subject_alternative_names, sans_of_names, san_of, load_or_create_default_certificate,
  create_default_certificate, generate_self_signed_certificates,
}
use pingoo.Certificates.Parsed.{IsCertificate, parse_certificate-IsCertificate}
use pingoo.Certificates.Default.{load_or_create_twice}
use pingoo.Certificates.Small.{crates}

abbrev star : Certificate
star = record {
  key = 1;
  metadata = record {
    hash = "*";
    private_key_hash = "key";
    hostnames = [];
    wildcard_matchers = "*" ∷ [];
    not_after = pos 2;
    not_before = pos 1;
  };
}

parsed : parse_certificate_and_private_key crates "*" "key" ≡ ok star
unfolding parse_certificate_and_private_key get_certificate_metadata collect
    subject_alternative_names sans_of_names san_of
parsed = refl

parse_certificate-IsCertificate_example : IsCertificate crates "*" "key" star
parse_certificate-IsCertificate_example =
    parse_certificate-IsCertificate crates "*" "key" star parsed

v4_bytes : san_of crates (ip_address (1 ∷ 2 ∷ 3 ∷ 4 ∷ [])) ≡ "ip" ∷ []
unfolding san_of
v4_bytes = refl

abbrev empty : Disk
empty = record { files = []; fails = λ path. false }

abbrev filled : Disk
filled = record {
  files = ("/etc/pingoo/tls/default.pem", "*") ∷ ("/etc/pingoo/tls/default.key", "key") ∷ [];
  fails = λ path. false;
}

creates : load_or_create_default_certificate crates empty "/etc/pingoo/tls" ≡ ok (filled, star)
unfolding load_or_create_default_certificate read get create_default_certificate
    generate_self_signed_certificates collect parse_certificate_and_private_key
    get_certificate_metadata subject_alternative_names sans_of_names san_of write default_is_valid
    insert path_push
creates = refl

load_or_create_twice_example :
    (load_or_create_default_certificate crates filled "/etc/pingoo/tls" ≡ ok (filled, star))
    × (◌≡◌ {A = List String} [] [])
    × (◌≡◌ {A = List String} ("*" ∷ []) ("*" ∷ []))
load_or_create_twice_example =
    load_or_create_twice crates empty filled "/etc/pingoo/tls" star creates

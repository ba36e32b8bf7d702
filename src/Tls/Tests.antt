-- ===== src/Tls/Tests.antt =====
-- A directory with the default certificate and one for the subdomains of example.com.
use pingoo.Prelude.{
  String, [], ◌∷◌, none, some, Bool, true, false, ◌≡◌, ◌⊎◌, refl, ◌==◌, string_eq, if◌then◌else◌,
  insert, ◌||◌, Result, ok, get, In, All,
}
use pingoo.Tls.{
  Certificate, TlsManager, Loaded, Entry, resolve, matches_any, load_certificates, load_from,
  certificate_paths, is_certificate_path, add_certificate, insert_hostnames,
}
use pingoo.Tls.Resolve.{resolve-cases, resolve-default_pem, default_pem}

abbrev default_certificate : Certificate
default_certificate = record { key = 0; hostnames = []; wildcard_matchers = "*" ∷ [] }

abbrev example : Certificate
example = record {
  key = 1;
  hostnames = "example.com" ∷ [];
  wildcard_matchers = "*.example.com" ∷ [];
}

abbrev example_pem : Entry
example_pem = record { is_file = true; extension = "pem"; file_name = "example.pem" }

abbrev load_certificate : Entry → Result Certificate String
load_certificate e = ok (if e.file_name == "default.pem" then default_certificate else example)

-- the two patterns and the one name of this test
abbrev is_match : String → String → Bool
is_match pattern name = pattern == "*" || name == "www.example.com"

abbrev loaded : Loaded
loaded = (("example.com", example) ∷ [], default_certificate ∷ example ∷ [])

run : load_certificates load_certificate (default_pem ∷ example_pem ∷ []) ≡ ok loaded
unfolding load_certificates load_from certificate_paths is_certificate_path add_certificate
    insert_hostnames insert
run = refl

abbrev manager : TlsManager
manager = record {
  default_certificate = default_certificate;
  certificates = loaded.0;
  wildcard_certificates = loaded.1;
}

resolve-cases_example :
    (cert : Certificate) × ((resolve is_match manager "example.com" ≡ cert.key)
      × (((get loaded.0 "example.com" ≡ some cert) × In "example.com" cert.hostnames)
          ⊎ ((get loaded.0 "example.com" ≡ none)
              × In cert loaded.1
              × (matches_any is_match "example.com" cert ≡ true))
          ⊎ ((get loaded.0 "example.com" ≡ none)
              × (All (λ c. matches_any is_match "example.com" c ≡ false) loaded.1)
              × (cert ≡ default_certificate))))
resolve-cases_example =
    resolve-cases load_certificate is_match (default_pem ∷ example_pem ∷ []) loaded
      default_certificate run "example.com"

resolve-default_pem_example : resolve is_match manager "www.example.com" ≡ 0
unfolding get
resolve-default_pem_example =
    resolve-default_pem load_certificate is_match (example_pem ∷ []) loaded default_certificate
      default_certificate "www.example.com" run refl refl refl refl

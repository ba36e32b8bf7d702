-- ===== src/Tls.antt =====
-- pingoo/tls/tls_manager.rs: which certificate a TLS connection gets. A certificate is known by its key,
-- the host names of its subject and the patterns with a wildcard; the matcher of patterns, a crate, is a
-- parameter, as is what reading and parsing a certificate's file gives.
pub mod Loading
pub mod Resolve
pub mod Start
mod Tests
use pingoo.Prelude.{
  ℕ, String, List, [], ◌∷◌, ◌++◌, Option, none, some, Bool, true, false, not, ◌&&◌, HashMap, get,
  insert, string_eq, ◌==◌, if◌then◌else◌, find, any, filter, is_empty, Result, ok, err, ◌>>=◌,
  ensure, eqb, length,
}

pub record Certificate : Type 0 where
  pub key : ℕ
  pub hostnames : List String
  pub wildcard_matchers : List String

pub record TlsManager : Type 0 where
  pub default_certificate : Certificate
  pub certificates : HashMap String Certificate
  pub wildcard_certificates : List Certificate

abbrev pub matches_any : (String → String → Bool) → String → Certificate → Bool
matches_any is_match sni cert = any (λ pattern. is_match pattern sni) cert.wildcard_matchers

-- an absent server name is the empty text
unfoldable pub resolve : (String → String → Bool) → TlsManager → String → ℕ
resolve is_match m sni = elim (get m.certificates sni) [
  | some cert ↦ cert.key
  | none ↦ elim (find (matches_any is_match sni) m.wildcard_certificates) [
    | some cert ↦ cert.key
    | none ↦ m.default_certificate.key
  ]
]

-- An entry of the directory: whether it is a file, its path's extension and its file name.
pub record Entry : Type 0 where
  pub is_file : Bool
  pub extension : String
  pub file_name : String

-- "we expect that all .pem files are certificates"
unfoldable pub is_certificate_path : Entry → Bool
is_certificate_path entry =
    entry.is_file && entry.extension == "pem" && not (entry.file_name == "default")

unfoldable pub certificate_paths : List Entry → List Entry
certificate_paths [] = []
certificate_paths (entry ∷ entries) =
    let rest = certificate_paths entries in if is_certificate_path entry then entry ∷ rest else rest

unfoldable pub insert_hostnames :
    HashMap String Certificate → Certificate → List String → HashMap String Certificate
insert_hostnames m cert [] = m
insert_hostnames m cert (hostname ∷ hostnames) =
    insert_hostnames (insert m hostname cert) cert hostnames

abbrev pub Loaded : Type 0
Loaded = HashMap String Certificate × List Certificate

unfoldable pub add_certificate : Loaded → Certificate → Loaded
add_certificate (certificates, wildcards) cert = (
  insert_hostnames certificates cert cert.hostnames,
  if is_empty cert.wildcard_matchers then wildcards else wildcards ++ (cert ∷ []),
)

module _ {E : Type 0} (load_certificate : Entry → Result Certificate E) where
  unfoldable pub load_from : Loaded → List Entry → Result Loaded E
  load_from loaded [] = ok loaded
  load_from loaded (path ∷ paths) =
      load_certificate path >>= λ cert. load_from (add_certificate loaded cert) paths

  unfoldable pub load_certificates : List Entry → Result Loaded E
  load_certificates entries = load_from ([], []) (certificate_paths entries)

-- the check at the end of `load_or_create_default_certificate`
unfoldable pub default_is_valid : Certificate → Bool
default_is_valid cert = elim cert.wildcard_matchers [
  | [] ↦ false
  | pattern ∷ patterns ↦ is_empty cert.hostnames && is_empty patterns && pattern == "*"
]

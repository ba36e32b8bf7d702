-- ===== src/Acme/Challenge.antt =====
-- The tls-alpn-01 part of pingoo/tls/acme.rs and the server configurations of pingoo/tls/tls_manager.rs.
-- The makers of keys and certificates, crates, are parameters.
use pingoo.Prelude.{
  String, List, [], ◌∷◌, Option, none, some, Bool, true, false, ◌&&◌, get, string_eq, ◌==◌,
  unwrap_or, is_empty, Result, ok, err, ◌>>=◌, ok_or,
}
use pingoo.Acme.{Challenges}

abbrev pub tls_alpn_acme : String
tls_alpn_acme = "acme-tls/1"

-- what `rustls::server::ClientHello` tells
pub record ClientHello : Type 0 where
  pub server_name : Option String
  pub alpn : Option (List String)

unfoldable pub is_tls_alpn_challenge : ClientHello → Bool
is_tls_alpn_challenge client_hello = elim (unwrap_or client_hello.alpn []) [
  | [] ↦ false
  | p ∷ ps ↦ p == tls_alpn_acme && is_empty ps
]

-- The certificate of a connection is the TLS manager's choice or the only one.
pub data CertResolver (Key : Type 0) : Type 0 where
  tls_manager : CertResolver Key
  single : Key → CertResolver Key

pub record ServerConfig (Key : Type 0) : Type 0 where
  pub only_tls13 : Bool
  pub cert_resolver : CertResolver Key
  pub alpn_protocols : List String

unfoldable pub get_tls_server_config : {Key : Type 0} → List String → ServerConfig Key
get_tls_server_config alpn_protocols = record {
  only_tls13 = true;
  cert_resolver = tls_manager;
  alpn_protocols = alpn_protocols;
}

-- `rcgen` and the signing keys of `rustls`; `none` stands for an error
pub record Rcgen (Params KeyPair Cert SigningKey : Type 0) : Type 0 where
  pub certificate_params : String → Option Params
  pub with_acme_identifier : Params → String → Params
  pub generate_for_p256 : Option KeyPair
  pub self_signed : Params → KeyPair → Option Cert
  pub any_ecdsa_type : KeyPair → Option SigningKey

pub data ChallengeError : Type 0 where
  challenge_not_found : String → ChallengeError
  params_failed : String → ChallengeError
  keypair_failed : String → ChallengeError
  certificate_failed : String → ChallengeError
  signing_key_failed : String → ChallengeError

module _ {Params KeyPair Cert SigningKey : Type 0} (rcgen : Rcgen Params KeyPair Cert SigningKey)
    (digest : String → String) where
  open rcgen use {
    certificate_params, with_acme_identifier, generate_for_p256, self_signed, any_ecdsa_type,
  }

  -- `CertifiedKey`: the chain of one certificate, and its key
  unfoldable pub get_tls_alpn_01_cert :
      Challenges → ClientHello → Result (Cert × SigningKey) ChallengeError
  get_tls_alpn_01_cert challenges_store client_hello =
      let domain = unwrap_or client_hello.server_name "" in
      do
        key_authorization ← ok_or (get challenges_store domain) (challenge_not_found domain)
        params ← ok_or (certificate_params domain) (params_failed domain)
        key_pair ← ok_or generate_for_p256 (keypair_failed domain)
        cert ←
            ok_or (self_signed (with_acme_identifier params (digest key_authorization)) key_pair)
              (certificate_failed domain)
        signing_key ← ok_or (any_ecdsa_type key_pair) (signing_key_failed domain)
        ok (cert, signing_key)

  abbrev pub challenge_config :
      Result (Cert × SigningKey) ChallengeError → ServerConfig (Cert × SigningKey)
  challenge_config (ok certified_key) = record {
    only_tls13 = false;
    cert_resolver = single certified_key;
    alpn_protocols = tls_alpn_acme ∷ [];
  }
  challenge_config (err e) = get_tls_server_config []

  -- `none`: there is no ACME configuration
  unfoldable pub get_tls_alpn_01_server_config :
      Option Challenges → ClientHello → ServerConfig (Cert × SigningKey)
  get_tls_alpn_01_server_config none client_hello = get_tls_server_config []
  get_tls_alpn_01_server_config (some challenges) client_hello =
      challenge_config (get_tls_alpn_01_cert challenges client_hello)

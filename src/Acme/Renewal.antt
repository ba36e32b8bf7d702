-- ===== src/Acme/Renewal.antt =====
-- The background tasks of pingoo/tls/acme.rs: which domains they order, and the task of one domain. A
-- round's tasks share the challenges and the certificates, and each step of a task on them is one
-- change of theirs; attempts at saving find the disk as the system has it then.
use pingoo.Prelude.{
  ℕ, String, List, [], Option, none, some, HashMap, insert, string_eq, append, path_push, Result,
  ok, err, ◌>>=◌, ok_or,
}
use pingoo.Disk.{Disk, write}
use pingoo.Services.TcpProxy.{retry}
use pingoo.Certificates.{Crates, Certificate, CertificateError, parse_certificate_and_private_key}
use pingoo.Acme.{Account, Challenges, OrderError, order_certificate}
use pingoo.Tls.Start.{AcmeConfig, default_tls_folder}

-- the domains that the background task cares for, which ends at once if there are none
unfoldable pub domains_of : {A : Type 0} → Option (AcmeConfig A) → List String
domains_of none = []
domains_of (some config) = config.domains

-- how the task of a domain ends; without `none`, the fuel of `retry` is enough
pub data Renewal : Type 0 where
  order_failed : OrderError → Renewal
  not_parsed : CertificateError → Renewal
  not_saved : String → Renewal
  saved : Disk → Renewal
  out_of_fuel : Renewal

-- the private key, then the chain
unfoldable pub save_certificate : String → String → String → Disk → Result Disk String
save_certificate domain private_key_pem cert_chain_pem disk =
    ok_or (write disk (path_push default_tls_folder (append domain ".key")) private_key_pem)
      "error writing private key"
    >>= λ disk'.
        ok_or (write disk' (path_push default_tls_folder (append domain ".pem")) cert_chain_pem)
          "error writing ACME certificate"

abbrev pub Certificates : Type 0
Certificates = HashMap String Certificate

abbrev pub saving : Option (ℕ × Result Disk String) → Renewal
saving none = out_of_fuel
saving (some (n, ok disk)) = saved disk
saving (some (n, err e)) = not_saved e

module _ {Der PrivateKey Order Authorization Challenge : Type 0} (crates : Crates Der PrivateKey)
    (account : Account Order Authorization Challenge) (disks : ℕ → Disk) where
  -- up to five attempts, 5 seconds apart
  unfoldable pub save : String → String × String → Renewal
  unfolding retry
  save domain (private_key_pem, cert_chain_pem) =
      saving (retry (λ n. save_certificate domain private_key_pem cert_chain_pem (disks n)) 5)

  abbrev pub keep :
      Certificates
      → String
      → String × String
      → Result Certificate CertificateError
      → Certificates × Renewal
  keep certificates domain pems (err e) = (certificates, not_parsed e)
  keep certificates domain pems (ok certificate) =
      (insert certificates domain certificate, save domain pems)

  abbrev pub after_order :
      Certificates → String → Result (String × String) OrderError → Certificates × Renewal
  after_order certificates domain (err e) = (certificates, order_failed e)
  after_order certificates domain (ok (private_key_pem, cert_chain_pem)) =
      keep certificates domain (private_key_pem, cert_chain_pem)
        (parse_certificate_and_private_key crates cert_chain_pem private_key_pem)

  unfoldable pub renew : Challenges → Certificates → String → Challenges × Certificates × Renewal
  renew challenges certificates domain =
      let (challenges', ordered) = order_certificate account challenges domain in
      let (certificates', renewal) = after_order certificates domain ordered in
      (challenges', certificates', renewal)

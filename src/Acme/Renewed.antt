-- ===== src/Acme/Renewed.antt =====
-- What a renewal of pingoo/tls/acme.rs that saves its certificate leaves on the disk.
use pingoo.Prelude.{
  ℕ, some, String, ◌≡◌, refl, sym, ap, ◌∙◌, arith, string_eq, append, path_push, path_push-append,
  insert, Result, ok, err, ok_or, ok_or-eq-ok, bind-eq-ok,
}
use pingoo.Disk.{Disk, content, read, write, read-write}
use pingoo.Services.TcpProxy.{retry-EndsAt}
use pingoo.Certificates.{
  Crates, Certificate, CertificateError, parse_certificate_and_private_key, load_certificate,
  pem_path, key_path,
}
use pingoo.Certificates.Default.{self, pem_is_not_key}
use pingoo.Acme.{Account, Challenges, OrderError, order_certificate}
use pingoo.Tls.Start.{default_tls_folder}
use pingoo.Acme.Renewal.{
  Renewal, saved, save_certificate, Certificates, saving, save, keep, after_order, renew,
}

abbrev path_of : String → String
path_of domain = path_push default_tls_folder domain

key_path_of :
    (domain : String)
    → path_push default_tls_folder (append domain ".key") ≡ key_path (path_of domain)
key_path_of domain = path_push-append default_tls_folder domain ".key" refl

pem_path_of :
    (domain : String)
    → path_push default_tls_folder (append domain ".pem") ≡ pem_path (path_of domain)
pem_path_of domain = path_push-append default_tls_folder domain ".pem" refl

save_certificate-read :
    (domain key chain : String) (disk after : Disk)
    → save_certificate domain key chain disk ≡ ok after
    → (read after (pem_path (path_of domain)) ≡ content chain)
      × (read after (key_path (path_of domain)) ≡ content key)
unfolding save_certificate
save_certificate-read domain key chain disk after h =
    let last : Disk → Result Disk String = λ disk'.
      ok_or (write disk' (path_push default_tls_folder (append domain ".pem")) chain)
        "error writing ACME certificate" in
    let (disk', e, r) =
      bind-eq-ok
        (ok_or (write disk (path_push default_tls_folder (append domain ".key")) key)
          "error writing private key")
        last h in
    let path = path_of domain in
    let wrote_key : write disk (key_path path) key ≡ some disk' =
      ap (λ p. write disk p key) (sym (key_path_of domain))
      ∙ ok_or-eq-ok (write disk (path_push default_tls_folder (append domain ".key")) key)
          "error writing private key" e in
    let wrote_pem : write disk' (pem_path path) chain ≡ some after =
      ap (λ p. write disk' p chain) (sym (pem_path_of domain))
      ∙ ok_or-eq-ok (write disk' (path_push default_tls_folder (append domain ".pem")) chain)
          "error writing ACME certificate" r in
    (
      ground (
        arith,
        read-write disk' after (pem_path path) chain (pem_path path) wrote_pem,
        self (pem_path path),
      ),
      ground (
        arith,
        read-write disk' after (pem_path path) chain (key_path path) wrote_pem,
        read-write disk disk' (key_path path) key (key_path path) wrote_key,
        self (key_path path),
        pem_is_not_key path,
        string_eq.same_iff (pem_path path) (key_path path),
        string_eq.same_iff (key_path path) (pem_path path),
      ),
    )

saving-eq :
    (n : ℕ) (r : Result Disk String) (after : Disk)
    → saving (some (n, r)) ≡ saved after
    → r ≡ ok after
saving-eq n (ok disk) after h = ground arith
saving-eq n (err e) after h = ground arith

module _ {Der PrivateKey Order Authorization Challenge : Type 0} (crates : Crates Der PrivateKey)
    (account : Account Order Authorization Challenge) (disks : ℕ → Disk) where
  saving-saved :
      (domain key chain : String) (after : Disk)
      → save crates account disks domain (key, chain) ≡ saved after
      → (n : ℕ) × (save_certificate domain key chain (disks n) ≡ ok after)
  unfolding save
  saving-saved domain key chain after h =
      let attempt : ℕ → Result Disk String = λ n. save_certificate domain key chain (disks n) in
      let (n, (r, (run, bound, (low, at, before, last)))) = retry-EndsAt attempt 5 in
      (n, at ∙ saving-eq n r after (ap saving (sym run) ∙ h))

  keep-saved :
      (certificates certs : Certificates) (domain key chain : String) (after : Disk)
      (parsed : Result Certificate CertificateError)
      → parse_certificate_and_private_key crates chain key ≡ parsed
      → keep crates account disks certificates domain (key, chain) parsed ≡ (certs, saved after)
      → (certificate : Certificate) × ((certs ≡ insert certificates domain certificate)
          × (load_certificate crates after (path_of domain) ≡ ok certificate))
  unfolding load_certificate
  keep-saved certificates certs domain key chain after (err e) p h =
      absurd (ground (arith, ap (λ (x : Certificates × Renewal). x.1) h))
  keep-saved certificates certs domain key chain after (ok certificate) p h =
      let (n, written) =
        saving-saved domain key chain after (ap (λ (x : Certificates × Renewal). x.1) h) in
      let (chain_read, key_read) = save_certificate-read domain key chain (disks n) after written in
      (
        certificate,
        (sym (ap (λ (x : Certificates × Renewal). x.0) h), ground (arith, chain_read, key_read, p)),
      )

  after_order-saved :
      (certificates certs : Certificates) (domain : String) (after : Disk)
      (ordered : Result (String × String) OrderError)
      → after_order crates account disks certificates domain ordered ≡ (certs, saved after)
      → (certificate : Certificate) × ((certs ≡ insert certificates domain certificate)
          × (load_certificate crates after (path_of domain) ≡ ok certificate))
  after_order-saved certificates certs domain after (err e) h =
      absurd (ground (arith, ap (λ (x : Certificates × Renewal). x.1) h))
  after_order-saved certificates certs domain after (ok (key, chain)) h =
      keep-saved certificates certs domain key chain after
        (parse_certificate_and_private_key crates chain key) refl h

  -- A renewal that has saved its certificate has put it into the map of certificates under the
  -- domain, with the other names as they were, and the files that it leaves under the domain's name
  -- load as that certificate.
  pub renew-saved :
      (challenges challenges' : Challenges) (certificates certs : Certificates) (domain : String)
      (after : Disk)
      → renew crates account disks challenges certificates domain
        ≡ (challenges', certs, saved after)
      → (certificate : Certificate) × ((certs ≡ insert certificates domain certificate)
          × (load_certificate crates after (path_push default_tls_folder domain) ≡ ok certificate))
  unfolding renew
  renew-saved challenges challenges' certificates certs domain after h =
      let ordered = (order_certificate account challenges domain).1 in
      let task : after_order crates account disks certificates domain ordered
          ≡ (certs, saved after) =
        ap (λ (x : Challenges × Certificates × Renewal). (x.1, x.2)) h in
      after_order-saved certificates certs domain after ordered task

-- ===== src/Tls/Start.antt =====
-- `TlsManager::new` of pingoo/tls/tls_manager.rs: the folder of certificates, the default certificate
-- and the ACME account. The system's calls on the folder are a parameter.
use pingoo.Prelude.{
  ℕ, String, List, Option, none, some, Bool, Result, ok, err, ◌>>=◌, ensure, ok_or, collect,
}
use pingoo.Disk.{Disk}
use pingoo.Config.{TlsConfig, TlsAcmeConfig}
use pingoo.Certificates.{
  Crates, CertificateError, served_as, load_certificate, load_or_create_default_certificate,
}
use pingoo.Acme.Registration.{Client, AccountError, load_or_create_acme_account}
use pingoo.Tls.{Certificate, TlsManager, Entry, Loaded, load_certificates}

abbrev pub default_tls_folder : String
default_tls_folder = "/etc/pingoo/tls"

-- 0o750
abbrev pub folder_mode : ℕ
folder_mode = 488

pub data TlsError : Type 0 where
  folder_not_created folder_without_metadata folder_without_permissions folder_unreadable
        file_type_failed :
      TlsError
  certificate_failed : CertificateError → TlsError
  account_failed : AccountError → TlsError

-- `create_dir_all`, `metadata`, `set_permissions` and `read_dir`. An entry is `none` where its type
-- cannot be read; `without_extension` is its path up to the extension.
pub record Folder : Type 0 where
  pub create_dir_all : Disk → String → Option Disk
  pub has_metadata : Disk → String → Bool
  pub set_permissions : Disk → String → ℕ → Bool
  pub read_dir : Disk → String → Option (List (Option Entry))
  pub without_extension : Entry → String

pub record AcmeConfig (Account : Type 0) : Type 0 where
  pub account : Account
  pub domains : List String

pub record StartedTls (Account : Type 0) : Type 0 where
  pub manager : TlsManager
  pub acme : Option (AcmeConfig Account)

abbrev pub failed_certificate : {A : Type 0} → Result A CertificateError → Result A TlsError
failed_certificate (ok a) = ok a
failed_certificate (err e) = err (certificate_failed e)

abbrev pub failed_account : {A : Type 0} → Result A AccountError → Result A TlsError
failed_account (ok a) = ok a
failed_account (err e) = err (account_failed e)

module _ {Der PrivateKey Account : Type 0} (crates : Crates Der PrivateKey)
    (client : Client Account) (folder : Folder) where
  open folder use {create_dir_all, has_metadata, set_permissions, read_dir, without_extension}

  abbrev pub file_type : Option Entry → Result Entry TlsError
  file_type entry = ok_or entry file_type_failed

  abbrev pub load_entry : Disk → Entry → Result Certificate CertificateError
  load_entry disk entry =
      load_certificate crates disk (without_extension entry) >>= λ cert. ok (served_as cert)

  unfoldable pub load_folder : Disk → String → Result Loaded TlsError
  load_folder disk path = do
    directory ← ok_or (read_dir disk path) folder_unreadable
    entries ← collect file_type directory
    failed_certificate (load_certificates (load_entry disk) entries)

  abbrev pub LoadedAcme : Type 0
  LoadedAcme = Result (Disk × Option (AcmeConfig Account)) TlsError

  unfoldable pub load_acme : Disk → Option TlsAcmeConfig → LoadedAcme
  load_acme disk none = ok (disk, none)
  load_acme disk (some config) = do
    (after, account) ←
        failed_account
          (load_or_create_acme_account client disk default_tls_folder config.directory_url)
    ok (after, some (record { account = account; domains = config.domains }))

  unfoldable pub prepare_folder : Disk → String → Result Disk TlsError
  prepare_folder disk path = ok_or (create_dir_all disk path) folder_not_created >>= λ created.
      ensure (has_metadata created path) folder_without_metadata
        (ensure (set_permissions created path folder_mode) folder_without_permissions (ok created))

  unfoldable pub new : Disk → TlsConfig → Result (Disk × StartedTls Account) TlsError
  new disk tls_config = do
    created ← prepare_folder disk default_tls_folder
    (certificates, wildcard_certificates) ← load_folder created default_tls_folder
    (with_default, default_certificate) ←
        failed_certificate (load_or_create_default_certificate crates created default_tls_folder)
    (after, acme) ← load_acme with_default tls_config.acme
    ok (
      after,
      record {
        manager = record {
          default_certificate = served_as default_certificate;
          certificates = certificates;
          wildcard_certificates = wildcard_certificates;
        };
        acme = acme;
      },
    )

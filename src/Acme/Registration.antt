-- ===== src/Acme/Registration.antt =====
-- `load_or_create_acme_account` of pingoo/tls/acme.rs: the accounts by the URL of their directory in
-- the file acme.json. The ACME client and JSON are parameters.
use pingoo.Prelude.{
  String, [], Option, none, some, Bool, HashMap, get, insert, string_eq, path_push, Result, ok, err,
  ◌>>=◌, ensure, ok_or,
}
use pingoo.Disk.{Disk, Access, content, not_found, failed, read, write}

pub record AcmeAccount : Type 0 where
  pub id : String
  pub key : String

-- `AcmeConfigV1`
abbrev pub Accounts : Type 0
Accounts = HashMap String AcmeAccount

pub data AccountError : Type 0 where
  config_invalid config_unreadable builder_failed loading_failed creating_failed serializing_failed
        saving_failed :
      AccountError

-- `instant_acme::Account` and `serde_json`
pub record Client (Account : Type 0) : Type 0 where
  pub has_builder : Bool
  pub from_parts : AcmeAccount → String → Option Account
  pub create : String → Option (Account × AcmeAccount)
  pub from_slice : String → Option Accounts
  pub to_vec_pretty : Accounts → Option String

module _ {Account : Type 0} (client : Client Account) where
  open client use {has_builder, from_parts, create, from_slice, to_vec_pretty}

  abbrev pub config_path : String → String
  config_path tls_folder_path = path_push tls_folder_path "acme.json"

  abbrev pub accounts_of : Access → Result Accounts AccountError
  accounts_of (content text) = ok_or (from_slice text) config_invalid
  accounts_of not_found = ok []
  accounts_of failed = err config_unreadable

  abbrev pub load_account : Disk → String → AcmeAccount → Result (Disk × Account) AccountError
  load_account disk directory_url account =
      ensure has_builder builder_failed
        (ok_or (from_parts account directory_url) loading_failed >>= λ loaded. ok (disk, loaded))

  abbrev pub save_account :
      Disk
      → String
      → String
      → Accounts
      → Account × AcmeAccount
      → Result (Disk × Account) AccountError
  save_account disk path directory_url accounts (acme_account, account) =
      ok_or (to_vec_pretty (insert accounts directory_url account)) serializing_failed >>= λ text.
      ok_or (write disk path text) saving_failed >>= λ after. ok (after, acme_account)

  abbrev pub create_account :
      Disk → String → String → Accounts → Result (Disk × Account) AccountError
  create_account disk path directory_url accounts = ensure has_builder builder_failed (
      ok_or (create directory_url) creating_failed
      >>= save_account disk path directory_url accounts)

  abbrev pub account_among :
      Disk → String → String → Accounts → Result (Disk × Account) AccountError
  account_among disk path directory_url accounts = elim (get accounts directory_url) [
    | some account ↦ load_account disk directory_url account
    | none ↦ create_account disk path directory_url accounts
  ]

  unfoldable pub load_or_create_acme_account :
      Disk → String → String → Result (Disk × Account) AccountError
  load_or_create_acme_account disk tls_folder_path acme_directory_url =
      let path = config_path tls_folder_path in
      accounts_of (read disk path) >>= account_among disk path acme_directory_url

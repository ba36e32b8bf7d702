-- ===== src/Acme/Kept.antt =====
-- What `load_or_create_acme_account` of pingoo/tls/acme.rs leaves in acme.json.
use pingoo.Prelude.{
  String, some, ◌≡◌, refl, sym, ap, ◌∙◌, subst, arith, get, insert, get-insert, string_eq, ◌==◌,
  if◌then◌else◌, Option-cases, Bool-cases, inl, inr, Result, ok, ◌>>=◌, ok_or, ok_or-eq-ok,
  ensure-eq-ok, bind-eq-ok, ok-injective,
}
use pingoo.Disk.{Disk, content, read, write, read-write}
use pingoo.Acme.Registration.{
  AcmeAccount, Accounts, AccountError, config_invalid, builder_failed, loading_failed,
  creating_failed, serializing_failed, saving_failed, Client, config_path, accounts_of,
  load_account, save_account, create_account, account_among, load_or_create_acme_account,
}

module _ {Account : Type 0} (client : Client Account) where
  open client use {has_builder, from_parts, create, from_slice, to_vec_pretty}

  -- The account of a directory is kept in the file: the next call takes it from there.
  pub record IsKept (after : Disk) (folder url : String) (accounts : Accounts) : Type 0 where
    pub account : AcmeAccount
    pub kept : Accounts
    pub stored : accounts_of client (read after (config_path client folder)) ≡ ok kept
    pub others : (j : String) → get kept j ≡ (if url == j then some account else get accounts j)
    pub next :
        load_or_create_acme_account client after folder url ≡ load_account client after url account

  module _ (folder url : String) (accounts : Accounts) where
    -- the account that the file has, after which the file is as it was
    found-IsKept :
        (disk : Disk) (account : AcmeAccount)
        → accounts_of client (read disk (config_path client folder)) ≡ ok accounts
        → get accounts url ≡ some account
        → IsKept disk folder url accounts
    unfolding load_or_create_acme_account
    found-IsKept disk account stored there = record {
      account = account;
      kept = accounts;
      stored = stored;
      others = λ j. elim (Bool-cases (url == j)) [
        | inl e ↦
            let same = (string_eq.same_iff url j).0 e in
            ground (arith, there, ap (get accounts) same)
        | inr e ↦ ground arith
      ];
      next =
          ap (λ r. r >>= account_among client disk (config_path client folder) url) stored
          ∙ ground (arith, there);
    }

    load_account_disk :
        (disk after : Disk) (stored : AcmeAccount) (account : Account)
        → load_account client disk url stored ≡ ok (after, account)
        → disk ≡ after
    load_account_disk disk after stored account h =
        let finish : Account → Result (Disk × Account) AccountError = λ loaded. ok (disk, loaded) in
        let (built, r) = ensure-eq-ok has_builder builder_failed h in
        let (loaded, e, r') = bind-eq-ok (ok_or (from_parts stored url) loading_failed) finish r in
        ap (λ (x : Disk × Account). x.0) (ok-injective AccountError r')

    -- a new account is written with those that the file had
    created-IsKept :
        ((kept : Accounts) (text : String)
          → to_vec_pretty kept ≡ some text
          → from_slice text ≡ some kept)
        → (disk after : Disk) (account : Account)
        → create_account client disk (config_path client folder) url accounts ≡ ok (after, account)
        → IsKept after folder url accounts
    unfolding load_or_create_acme_account
    created-IsKept reads disk after account h =
        let path = config_path client folder in
        let (built, r) = ensure-eq-ok has_builder builder_failed h in
        let ((acme_account, stored), e1, r1) =
          bind-eq-ok (ok_or (create url) creating_failed)
            (save_account client disk path url accounts) r in
        let kept = insert accounts url stored in
        let last : Disk → Result (Disk × Account) AccountError = λ d. ok (d, acme_account) in
        let saved : String → Result (Disk × Account) AccountError =
          λ text. ok_or (write disk path text) saving_failed >>= last in
        let (text, e2, r2) = bind-eq-ok (ok_or (to_vec_pretty kept) serializing_failed) saved r1 in
        let (d, e3, r3) = bind-eq-ok (ok_or (write disk path text) saving_failed) last r2 in
        let same = ap (λ (x : Disk × Account). x.0) (ok-injective AccountError r3) in
        let wrote = ok_or-eq-ok (write disk path text) saving_failed e3 in
        let there : read d path ≡ content text =
          read-write disk d path text path wrote
          ∙ ap (λ b. if b then content text else read disk path)
              ((string_eq.same_iff path path).1 refl) in
        let parsed : accounts_of client (read d path) ≡ ok kept =
          ap (accounts_of client) there
          ∙ ap (λ o. ok_or o config_invalid)
              (reads kept text (ok_or-eq-ok (to_vec_pretty kept) serializing_failed e2)) in
        let found : get kept url ≡ some stored =
          get-insert accounts url stored url
          ∙ ap (λ b. if b then some stored else get accounts url)
              ((string_eq.same_iff url url).1 refl) in
        let result : IsKept d folder url accounts = record {
          account = stored;
          kept = kept;
          stored = parsed;
          others = get-insert accounts url stored;
          next = ap (λ r. r >>= account_among client d path url) parsed ∙ ground (arith, found);
        } in
        subst (λ x. IsKept x folder url accounts) same result

    -- The account that is loaded or created for a directory's URL stands in the file afterwards, with
    -- the accounts that the file had for other URLs, and the next call loads it from there and does not
    -- ask the server for a new one, where JSON reads what it writes.
    pub load_or_create-IsKept :
        ((kept : Accounts) (text : String)
          → to_vec_pretty kept ≡ some text
          → from_slice text ≡ some kept)
        → (disk after : Disk) (account : Account)
        → accounts_of client (read disk (config_path client folder)) ≡ ok accounts
        → load_or_create_acme_account client disk folder url ≡ ok (after, account)
        → IsKept after folder url accounts
    unfolding load_or_create_acme_account
    load_or_create-IsKept reads disk after account stored h =
        let path = config_path client folder in
        let run : account_among client disk path url accounts ≡ ok (after, account) =
          ap (λ r. r >>= account_among client disk path url) (sym stored) ∙ h in
        elim (Option-cases (get accounts url)) [
          | inl missing ↦ created-IsKept reads disk after account (ground (arith, missing, run))
          | inr (a, there) ↦
              subst (λ d. IsKept d folder url accounts)
                (load_account_disk disk after a account (ground (arith, there, run)))
                (found-IsKept disk a stored there)
        ]

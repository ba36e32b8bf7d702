-- ===== src/Acme/Tests.antt =====
-- A server that accepts the challenge of example.com if it finds it in the map.
use pingoo.Prelude.{
  String, [], ◌∷◌, none, some, Bool, true, false, ◌≡◌, ◌↔◌, refl, sym, ap, ◌&&◌, path_push, Option,
  arith, ◌==◌, string_eq, get, insert, if◌then◌else◌, ok,
}
use pingoo.Acme.{
  Account, Challenges, pending_authorization, ready_order, invalid_order, order_certificate,
  place_order, complete_order, domains_to_order,
}
use pingoo.Disk.{Disk, read, write}
use pingoo.Acme.Registration.{
  AcmeAccount, Accounts, Client, accounts_of, config_path, load_or_create_acme_account,
}
use pingoo.Acme.Kept.{IsKept, load_or_create-IsKept}
use pingoo.Acme.Order.{IsIssued, order_certificate-IsIssued_iff}
use pingoo.Prelude.{ltb, remove, collect, ℕ}
use pingoo.Jwt.{pos}
use pingoo.Services.TcpProxy.{retry_from}
use pingoo.Certificates.{
  Certificate, load_certificate, parse_certificate_and_private_key, get_certificate_metadata,
  subject_alternative_names, sans_of_names, san_of,
}
use pingoo.Certificates.Small.{crates}
use pingoo.Tls.Start.{default_tls_folder}
use pingoo.Acme.Renewal.{Certificates, renew, save, save_certificate, saved}
use pingoo.Acme.Renewed.{renew-saved}

abbrev found : Challenges → Bool
found challenges = elim (get challenges "example.com") [ some k ↦ k == "token.key" | none ↦ false ]

abbrev server : Account String String String
server = record {
  new_order = λ domain. some domain;
  next_authorization = λ order. some (some order);
  status = λ a. pending_authorization;
  tls_alpn_01 = λ a. some "token";
  key_authorization = λ c. "token.key";
  set_ready = λ challenges c. true;
  poll_ready =
      λ challenges order. if found challenges then some ready_order else some invalid_order;
  finalize = λ order. some "key";
  poll_certificate = λ order. some "chain";
}

order_certificate-IsIssued_iff_example :
    (((order_certificate server (("example.com", "old") ∷ []) "example.com").1
        ≡ ok ("key", "chain"))
      ↔ IsIssued server (("example.com", "old") ∷ []) "example.com" "key" "chain")
    × (get (order_certificate server (("example.com", "old") ∷ []) "example.com").0 "example.com"
        ≡ none)
unfolding order_certificate place_order complete_order get insert
order_certificate-IsIssued_iff_example =
    order_certificate-IsIssued_iff server (("example.com", "old") ∷ []) "example.com" "key" "chain"
      "example.com"

issues : (order_certificate server [] "example.com").1 ≡ ok ("key", "chain")
unfolding order_certificate place_order complete_order get insert
issues = refl

orders_missing_and_old :
    domains_to_order (("a.com", 10) ∷ ("b.com", 50) ∷ []) 30 ("a.com" ∷ "b.com" ∷ "c.com" ∷ [])
    ≡ "a.com" ∷ "c.com" ∷ []
unfolding domains_to_order get
orders_missing_and_old = refl

-- JSON of the empty map, and of maps of one account whose parts are all its URL
abbrev encode : Accounts → Option String
encode [] = some "{}"
encode ((url, account) ∷ []) =
    if url == "{}" then none else if account.id == url && account.key == url then some url else none
encode (a ∷ b ∷ m) = none

abbrev account_of : String → AcmeAccount
account_of url = record { id = url; key = url }

abbrev decode : String → Option Accounts
decode text = if text == "{}" then some [] else some ((text, account_of text) ∷ [])

decode-encode :
    (kept : Accounts) (text : String) → encode kept ≡ some text → decode text ≡ some kept
decode-encode [] text h =
    let same : "{}" ≡ text = ground arith in
    ap (λ b. if b then some [] else some ((text, account_of text) ∷ []))
      ((string_eq.same_iff text "{}").1 (sym same))
decode-encode ((url, account) ∷ []) text h = ground (
  arith,
  string_eq.same_iff url "{}",
  string_eq.same_iff account.id url,
  string_eq.same_iff account.key url,
  string_eq.same_iff text "{}",
)
decode-encode (a ∷ b ∷ m) text h = ground arith

abbrev acme_client : Client String
acme_client = record {
  has_builder = true;
  from_parts = λ account url. some account.id;
  create = λ url. some (url, account_of url);
  from_slice = decode;
  to_vec_pretty = encode;
}

abbrev no_files : Disk
no_files = record { files = []; fails = λ path. false }

abbrev one_file : Disk
one_file = record { files = ("/etc/pingoo/tls/acme.json", "url") ∷ []; fails = λ path. false }

no_accounts :
    accounts_of acme_client (read no_files (config_path acme_client "/etc/pingoo/tls")) ≡ ok []
unfolding read get path_push
no_accounts = refl

creates_account :
    load_or_create_acme_account acme_client no_files "/etc/pingoo/tls" "url" ≡ ok (one_file, "url")
unfolding load_or_create_acme_account read write get insert path_push
creates_account = refl

load_or_create-IsKept_example : IsKept acme_client one_file "/etc/pingoo/tls" "url" []
load_or_create-IsKept_example =
    load_or_create-IsKept acme_client "/etc/pingoo/tls" "url" [] decode-encode no_files one_file
      "url" no_accounts creates_account

abbrev example_cert : Certificate
example_cert = record {
  key = 1;
  metadata = record {
    hash = "chain";
    private_key_hash = "key";
    hostnames = "chain" ∷ [];
    wildcard_matchers = [];
    not_after = pos 2;
    not_before = pos 1;
  };
}

-- the first two attempts at saving find the chain's path broken
abbrev broken_twice : ℕ → Disk
broken_twice n = record {
  files = [];
  fails = λ path. ltb n 3 && path == "/etc/pingoo/tls/example.com.pem";
}

abbrev with_files : Disk
with_files = record {
  files =
      ("/etc/pingoo/tls/example.com.key", "key")
      ∷ ("/etc/pingoo/tls/example.com.pem", "chain")
      ∷ [];
  fails = λ path. ltb 3 3 && path == "/etc/pingoo/tls/example.com.pem";
}

renewed :
    renew crates server broken_twice [] [] "example.com"
    ≡ ([], ("example.com", example_cert) ∷ [], saved with_files)
unfolding renew save save_certificate retry_from order_certificate place_order complete_order get
    insert remove parse_certificate_and_private_key get_certificate_metadata collect
    subject_alternative_names sans_of_names san_of write path_push
renewed = refl

renew-saved_example :
    (certificate : Certificate) × ((◌≡◌ {A = Certificates}
        (("example.com", example_cert) ∷ [])
        (insert [] "example.com" certificate))
      × (load_certificate crates with_files (path_push default_tls_folder "example.com")
          ≡ ok certificate))
renew-saved_example =
    renew-saved crates server broken_twice [] [] [] (("example.com", example_cert) ∷ [])
      "example.com" with_files renewed

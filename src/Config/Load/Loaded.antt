-- ===== src/Config/Load/Loaded.antt =====
-- What `load_and_validate` of pingoo/config/config.rs hands to the server.
use pingoo.Prelude.{
  ◌≡◌, ◌↔◌, String, List, [], ◌∷◌, map, Option, none, some, true, false, HashMap, keys, Result, ok,
  bind-eq-ok, ok-injective, ap, ◌∙◌, refl, NoDup, All, arith, str_contains, any_char, transpose,
  unwrap_or, collect, sym, subst, string_eq,
}
use pingoo.Config.{
  ListenerConfig, ServiceConfig, TlsAcmeConfig, ConfigError, default_tls_config, acme_duplicate,
  duplicate_rule,
}
use pingoo.Config.Duplicates.{find_duplicate, find_duplicate2, find_duplicate-eq-none_iff}
use pingoo.Config.File.{ConfigFile, Parsers, is_ascii}
use pingoo.Config.Listeners.{validate_listeners_config}
use pingoo.Config.Listeners.Valid.{port_of, IsServed, validate_listeners_config_iff}
use pingoo.Config.Load.{
  Config, RuleDir, extend, values, is_upper, check_domains, check_acme, no_duplicate, load_rules,
  load_services, new_listener, load_and_validate, compile_rule,
}

-- A domain that a certificate can be ordered for: no wildcard, ASCII, lower case.
abbrev pub IsAcmeDomain : String → Type 0
IsAcmeDomain d = (str_contains d "*" ≡ false) × (is_ascii d ≡ true) × (any_char is_upper d ≡ false)

check_domains_iff : (ds : List String) → (check_domains ds ≡ ok tt) ↔ All IsAcmeDomain ds
unfolding check_domains
check_domains_iff [] = ground arith
check_domains_iff (d ∷ ds) = ground (arith, check_domains_iff ds)

no_duplicate-eq-ok :
    (o : Option String) (e : String → ConfigError) {u : Unit {0}}
    → no_duplicate o e ≡ ok u
    → o ≡ none
no_duplicate-eq-ok none e h = refl
no_duplicate-eq-ok (some d) e h = cc

pub record IsAcme (a : TlsAcmeConfig) : Type 0 where
  pub distinct : NoDup a.domains
  pub domains : All IsAcmeDomain a.domains

check_acme-IsAcme : (a b : TlsAcmeConfig) → check_acme a ≡ ok b → IsAcme b
unfolding check_acme
check_acme-IsAcme a b h =
    let (u, e0, h0) = bind-eq-ok (no_duplicate (find_duplicate a.domains) acme_duplicate) _ h in
    let (w, e1, h1) = bind-eq-ok (check_domains a.domains) _ h0 in
    record {
      distinct = ground (
        arith,
        find_duplicate-eq-none_iff a.domains,
        no_duplicate-eq-ok (find_duplicate a.domains) acme_duplicate e0,
      );
      domains = ground (arith, check_domains_iff a.domains);
    }

transpose-IsAcme :
    (o r : Option TlsAcmeConfig) (a : TlsAcmeConfig)
    → transpose check_acme o ≡ ok r
    → r ≡ some a
    → IsAcme a
transpose-IsAcme none r a h e = cc
transpose-IsAcme (some b) r a h e =
    let (b', checked, same) = bind-eq-ok (check_acme b) _ h in check_acme-IsAcme b a (ground arith)

module _ {Expr : Type 0} (parsers : Parsers Expr) where
  pub record IsLoaded (config_file : Result ConfigFile ConfigError) (c : Config Expr) : Type 0 where
    pub file : ConfigFile
    pub read : config_file ≡ ok file
    pub services : HashMap String (ServiceConfig Expr)
    pub parsed : load_services parsers file.services ≡ ok services
    pub kept : c.services ≡ values services
    pub listed : c.listeners ≡ map (new_listener services) file.listeners
    pub ports : NoDup (map port_of c.listeners)
    pub served : All (IsServed services) c.listeners
    pub acme : (a : TlsAcmeConfig) → c.tls.acme ≡ some a → IsAcme a

  pub load_and_validate-IsLoaded :
      (config_file : Result ConfigFile ConfigError) (dir : RuleDir) (c : Config Expr)
      → load_and_validate parsers config_file dir ≡ ok c
      → IsLoaded config_file c
  unfolding load_and_validate
  load_and_validate-IsLoaded config_file dir c h =
      let (file, e0, h0) = bind-eq-ok config_file _ h in
      let (folder, e1, h1) = bind-eq-ok (load_rules dir) _ h0 in
      let (_, e2, h2) =
        bind-eq-ok (no_duplicate (find_duplicate2 (keys folder) (keys file.rules)) duplicate_rule) _
          h1 in
      let (services, e3, h3) = bind-eq-ok (load_services parsers file.services) _ h2 in
      let listeners = map (new_listener services) file.listeners in
      let (u, e4, h4) = bind-eq-ok (validate_listeners_config listeners services) _ h3 in
      let (rules, e5, h5) =
        bind-eq-ok (collect (compile_rule parsers) (extend file.rules folder)) _ h4 in
      let (acme, e6, h6) =
        bind-eq-ok (transpose check_acme (unwrap_or file.tls default_tls_config).acme) _ h5 in
      let valid = (validate_listeners_config_iff services listeners).0 e4 in
      let same = ok-injective ConfigError h6 in
      let listed : c.listeners ≡ listeners = sym (ap (λ x. x.listeners) same) in
      record {
        file = file;
        read = e0;
        services = services;
        parsed = e3;
        kept = sym (ap (λ x. x.services) same);
        listed = listed;
        ports =
            subst (λ (ls : List ListenerConfig). NoDup (map port_of ls))
              (ap (λ (x : Config Expr). x.listeners) same) valid.0;
        served =
            subst (λ (ls : List ListenerConfig). All (IsServed services) ls)
              (ap (λ (x : Config Expr). x.listeners) same) valid.1;
        acme = λ a e.
            transpose-IsAcme (unwrap_or file.tls default_tls_config).acme acme a e6
              (ap (λ x. x.tls.acme) same ∙ e);
      }

-- ===== src/Config/Load.antt =====
-- `load_rules` and `load_and_validate` of pingoo/config/config.rs. What the file system and the YAML
-- parser give is an argument. A rule keeps the configuration of the limiter worker that its channel
-- leads to.
pub mod Sources
pub mod Configured
pub mod Loaded
pub mod Named
use pingoo.Prelude.{
  ℕ, String, List, [], ◌∷◌, ◌++◌, map, Option, none, some, Bool, true, false, not, ◌||◌, ◌&&◌,
  HashMap, keys, insert, Result, ok, err, ◌>>=◌, ensure, ok_or, collect, transpose, unwrap_or,
  is_some, filter, ◌==◌, string_eq, if◌then◌else◌, str_contains, any_char, leb, trim,
  trim_end_matches,
}
use pingoo.RateLimiter.{RateLimit}
use pingoo.Config.{
  ListenerProtocol, tcp, tcp_and_tls, http, https, ListenerConfig, ServiceConfig, TlsConfig,
  TlsAcmeConfig, ListConfig, ChildProcess, ServiceDiscoveryConfig, default_service_discovery_config,
  default_tls_config, ConfigError, duplicate_rule, rules_folder, rules_read, rules_parse,
  rule_expression, acme_duplicate, acme_wildcard, acme_invalid,
}
use pingoo.Config.Duplicates.{find_duplicate, find_duplicate2}
use pingoo.Config.File.{
  Action, RuleConfigFile, ListenerConfigFile, ConfigFile, ServiceConfigFile, Parsers, parse_service,
  is_ascii,
}
use pingoo.Config.Listeners.{Checked, validate_listeners_config}

-- pingoo/rules.rs
pub record Rule (Expr : Type 0) : Type 0 where
  pub name : String
  pub expression : Option Expr
  pub actions : List Action
  pub limiter_tx : Option RateLimit

pub record Config (Expr : Type 0) : Type 0 where
  pub listeners : List ListenerConfig
  pub services : List (ServiceConfig Expr)
  pub rules : List (Rule Expr)
  pub tls : TlsConfig
  pub service_discovery : ServiceDiscoveryConfig
  pub lists : HashMap String ListConfig
  pub child_process : Option ChildProcess
  pub limiter_workers : List RateLimit

abbrev pub RuleMap : Type 0
RuleMap = HashMap String RuleConfigFile

-- `ret.extend(rules)`
unfoldable pub extend {ℓ} : {V : Type ℓ} → HashMap String V → HashMap String V → HashMap String V
extend m [] = m
extend m ((k, v) ∷ rest) = extend (insert m k v) rest

abbrev pub values {ℓ κ} : {K : Type ℓ} {V : Type κ} → HashMap K V → List V
values [] = []
values ((k, v) ∷ m) = v ∷ values m

-- an entry of the rules folder, with what reading and parsing it give
pub record RuleFile : Type 0 where
  pub path : String
  pub extension : String
  pub content : Option (Option RuleMap)

pub data RuleDir : Type 0 where
  not_found : RuleDir
  failed : RuleDir
  entries : List RuleFile → RuleDir

abbrev read_rule_file : RuleFile → Result RuleMap ConfigError
read_rule_file f =
    ok_or f.content (rules_read f.path) >>= λ parsed. ok_or parsed (rules_parse f.path)

-- `if let Some(name) = duplicate { return Err(..) }`
abbrev pub no_duplicate : Option String → (String → ConfigError) → Checked
no_duplicate none e = ok tt
no_duplicate (some d) e = err (e d)

unfoldable pub load_rules_from : RuleMap → List RuleFile → Result RuleMap ConfigError
load_rules_from ret [] = ok ret
load_rules_from ret (f ∷ fs) =
    let skip = load_rules_from ret fs in
    if f.extension == "yml"
    then (do
      rules ← read_rule_file f
      _ ← no_duplicate (find_duplicate2 (keys rules) (keys ret)) duplicate_rule
      load_rules_from (extend ret rules) fs)
    else skip

unfoldable pub load_rules : RuleDir → Result RuleMap ConfigError
load_rules not_found = ok []
load_rules failed = err (rules_folder "rules")
load_rules (entries fs) = load_rules_from [] fs

-- `char::to_ascii_lowercase` leaves the text unchanged
abbrev is_upper : ℕ → Bool
is_upper c = leb b'A' c && leb c b'Z'

-- `domain.contains('*')`, and an ASCII domain that is its own lower case
unfoldable pub check_domains : List String → Checked
check_domains [] = ok tt
check_domains (d ∷ ds) =
    ensure (not (str_contains d "*")) (acme_wildcard d)
      (ensure (is_ascii d && not (any_char is_upper d)) (acme_invalid d) (check_domains ds))

unfoldable pub check_acme : TlsAcmeConfig → Result TlsAcmeConfig ConfigError
check_acme acme = do
  let acme' = record acme { directory_url = trim_end_matches b'/' (trim acme.directory_url) }
  _ ← no_duplicate (find_duplicate acme'.domains) acme_duplicate
  _ ← check_domains acme'.domains
  ok acme'

module _ {Expr : Type 0} where
  abbrev pub is_http_service : ServiceConfig Expr → Bool
  is_http_service s = is_some s.http_proxy || is_some s.static

  abbrev pub is_tcp_service : ServiceConfig Expr → Bool
  is_tcp_service s = is_some s.tcp_proxy

  -- `all_http_services` and `all_tcp_services`
  unfoldable pub service_names :
      (ServiceConfig Expr → Bool) → HashMap String (ServiceConfig Expr) → List String
  service_names p services = keys (filter (λ s. p s.1) services)

  abbrev pub default_services_for_listener :
      HashMap String (ServiceConfig Expr) → ListenerProtocol → List String
  default_services_for_listener services tcp = service_names is_tcp_service services
  default_services_for_listener services tcp_and_tls = service_names is_tcp_service services
  default_services_for_listener services http = service_names is_http_service services
  default_services_for_listener services https = service_names is_http_service services

  unfoldable pub new_listener :
      HashMap String (ServiceConfig Expr) → String × ListenerConfigFile → ListenerConfig
  new_listener services (name, l) = record {
    name = name;
    address = l.address.socket_address;
    protocol = l.address.protocol;
    services = unwrap_or l.services (default_services_for_listener services l.address.protocol);
  }

module _ {Expr : Type 0} (parsers : Parsers Expr) where
  open parsers use {compile_expression}

  abbrev pub parse_named :
      String × ServiceConfigFile → Result (String × ServiceConfig Expr) ConfigError
  parse_named (name, service) = parse_service parsers name service >>= λ s. ok (name, s)

  unfoldable pub load_services :
      HashMap String ServiceConfigFile → Result (HashMap String (ServiceConfig Expr)) ConfigError
  load_services services = collect parse_named services >>= λ parsed. ok (extend [] parsed)

  abbrev compile_rule : String × RuleConfigFile → Result (Rule Expr) ConfigError
  compile_rule (name, r) =
      transpose (λ e. ok_or (compile_expression e) (rule_expression name)) r.expression
      >>= λ expression. ok (record {
        name = name;
        expression = expression;
        actions = r.actions;
        limiter_tx = r.limit;
      })

  abbrev workers : RuleMap → List RateLimit
  workers [] = []
  workers ((name, r) ∷ rs) = elim r.limit [ none ↦ workers rs | some cfg ↦ cfg ∷ workers rs ]

  unfoldable pub load_and_validate :
      Result ConfigFile ConfigError → RuleDir → Result (Config Expr) ConfigError
  load_and_validate config_file dir = do
    file ← config_file
    rules_from_folder ← load_rules dir
    _ ← no_duplicate (find_duplicate2 (keys rules_from_folder) (keys file.rules)) duplicate_rule
    let all_rules = extend file.rules rules_from_folder
    services ← load_services file.services
    let listeners = map (new_listener services) file.listeners
    _ ← validate_listeners_config listeners services
    rules ← collect compile_rule all_rules
    let tls = unwrap_or file.tls default_tls_config
    acme ← transpose check_acme tls.acme
    ok (record {
      listeners = listeners;
      services = values services;
      rules = rules;
      tls = record { acme = acme };
      service_discovery = unwrap_or file.service_discovery default_service_discovery_config;
      lists = unwrap_or file.lists [];
      child_process = file.child_process;
      limiter_workers = workers all_rules;
    })

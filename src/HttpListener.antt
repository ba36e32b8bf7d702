-- ===== src/HttpListener.antt =====
-- pingoo/listeners/http_listener.rs: the handler of one HTTP request. The rate limiter's workers and
-- all else that other requests may change are a state `S` of which only the channel is known: `send`
-- delivers a probe for a rule and says what came back. The GeoIP database, the cookie parser, the hash of
-- the client's identity, the captcha's cookie check and the services are parameters.
pub mod Rules
pub mod Handler
mod Tests
use pingoo.Prelude.{
  ℕ, String, List, [], ◌∷◌, Option, none, some, Bool, true, false, not, ◌||◌, ◌==◌, string_eq,
  if◌then◌else◌, leb, str_len, str_is_empty, trim, str_starts_with, find, unwrap_or, is_some,
}
use pingoo.Net.{IpAddr, SocketAddr}
use pingoo.Http.{
  Response, get_path, new_blocked_response, new_not_found_error, user_agent_max_length,
  hostname_max_length,
}
use pingoo.RateLimiter.{Delivery, limit_http_request}
use pingoo.Config.File.{Action, block, captcha, limit}
use pingoo.Config.Load.{Rule}
use pingoo.Rules.{Evaluator, match_request}

-- A header value is `none` where `to_str` fails on it.
pub record Request : Type 0 where
  pub method : String
  pub uri_host : Option String
  pub uri : String
  pub uri_path : String
  pub headers : List (String × Option String)

-- `headers().get(name)`, then `to_str().unwrap_or_default()`
abbrev pub header_text : Request → String → Option String
header_text req name = elim (find (λ (h : String × Option String). h.0 == name) req.headers) [
  | none ↦ none
  | some h ↦ some (unwrap_or h.1 "")
]

-- `heapless::String::<n>::from_str(s).unwrap_or_default()`
abbrev pub bounded : ℕ → String → String
bounded n s = if leb (str_len s) n then s else ""

unfoldable pub get_host : Request → String
get_host req = elim req.uri_host [
  | some host ↦ bounded hostname_max_length (trim host)
  | none ↦ elim (header_text req "host") [
    | some host ↦ bounded hostname_max_length (trim host)
    | none ↦ ""
  ]
]

unfoldable pub get_user_agent : Request → String
get_user_agent req =
    bounded user_agent_max_length (trim (unwrap_or (header_text req "user-agent") ""))

pub record GeoipRecord : Type 0 where
  pub asn : ℕ
  pub country : String

abbrev pub default_geoip_record : GeoipRecord
default_geoip_record = record { asn = 0; country = "XX" }

pub record Cookie : Type 0 where
  pub name : String
  pub value : String

pub record RequestContext : Type 0 where
  pub client_address : SocketAddr
  pub server_address : SocketAddr
  pub asn : ℕ
  pub country : String
  pub geoip_enabled : Bool
  pub tls : Bool
  pub host : String

-- the variables of rules and routes: `RequestData` and `ClientData`
pub record RequestData : Type 0 where
  pub host : String
  pub path : String
  pub url : String
  pub method : String
  pub user_agent : String

pub record ClientData : Type 0 where
  pub ip : IpAddr
  pub remote_port : ℕ
  pub asn : ℕ
  pub country : String

abbrev pub captcha_verified_cookie : String
captcha_verified_cookie = "__pingoo_captcha_verified"

abbrev pub captcha_path : String
captcha_path = "/__pingoo/captcha"

abbrev pub bad_user_agent : String → Bool
bad_user_agent ua = str_is_empty ua || leb user_agent_max_length (str_len ua)

-- Who answers: pingoo itself, the captcha's page or its API, or a service by its position.
pub data Reply : Type 0 where
  canned : Response → Reply
  captcha_page : Reply
  captcha_request : Reply
  served_by : String → RequestContext → Reply

-- `respond` is an early return
pub data Flow : Type 0 where
  respond : Reply → Flow
  next : Flow

module _ {Expr S : Type 0} (bel : Evaluator Expr) (send : S → String → IpAddr → S × Delivery) where
  open bel use {Context}

  -- one arm of the `match` on an action
  unfoldable pub apply_action : Rule Expr → Bool → IpAddr → Action → S → S × Flow
  unfolding limit_http_request
  apply_action rule verified ip block s = (s, respond (canned new_blocked_response))
  apply_action rule verified ip captcha s =
      if not verified then (s, respond captcha_page) else (s, next)
  apply_action rule verified ip limit s = elim rule.limiter_tx [
    | none ↦ (s, next)
    | some tx ↦
        let (s', delivery) = send s rule.name ip in
        (s', elim (limit_http_request delivery) [ none ↦ next | some res ↦ respond (canned res) ])
  ]

  abbrev pub and_then : S × Flow → (S → S × Flow) → S × Flow
  and_then (s, respond r) k = (s, respond r)
  and_then (s, next) k = k s

  unfoldable pub apply_actions : Rule Expr → Bool → IpAddr → List Action → S → S × Flow
  apply_actions rule verified ip [] s = (s, next)
  apply_actions rule verified ip (a ∷ actions) s =
      and_then (apply_action rule verified ip a s) (apply_actions rule verified ip actions)

  unfoldable pub apply_rules : Context → Bool → IpAddr → List (Rule Expr) → S → S × Flow
  apply_rules ctx verified ip [] s = (s, next)
  apply_rules ctx verified ip (rule ∷ rules) s =
      and_then
        (if match_request bel rule ctx
          then apply_actions rule verified ip rule.actions s
          else (s, next))
        (apply_rules ctx verified ip rules)

  -- A service, as the trait object is used here.
  pub record HttpService : Type 0 where
    pub name : String
    pub matches : Context → Bool

  unfoldable pub route : Context → RequestContext → List HttpService → Reply
  route ctx context services = elim (find (λ (s : HttpService). s.matches ctx) services) [
    | some service ↦ served_by service.name context
    | none ↦ canned new_not_found_error
  ]

  pub record Listener : Type 0 where
    pub address : SocketAddr
    pub tls : Bool
    pub services : List HttpService
    pub rules : List (Rule Expr)
    pub geoip : Option (IpAddr → Option GeoipRecord)
    pub parse_cookies : String → List Cookie
    pub client_id : IpAddr → String → String → String
    pub cookie_is_valid : String → String → Bool
    pub new_context : RequestData → ClientData → Context

  abbrev pub geoip_record_of : Listener → IpAddr → GeoipRecord
  geoip_record_of l ip = elim l.geoip [
    | none ↦ default_geoip_record
    | some lookup ↦ unwrap_or (lookup ip) default_geoip_record
  ]

  -- the cookies of the first `cookie` header, if it is text
  abbrev pub cookies_of : Listener → Request → List Cookie
  cookies_of l req = elim (find (λ (h : String × Option String). h.0 == "cookie") req.headers) [
    | none ↦ []
    | some h ↦ elim h.1 [ none ↦ [] | some text ↦ l.parse_cookies text ]
  ]

  -- `none` stands for the early return of the captcha page: the cookie is there and is not valid
  abbrev pub captcha_state : Listener → List Cookie → String → Option Bool
  captcha_state l cookies client_id =
      elim (find (λ (c : Cookie). c.name == captcha_verified_cookie) cookies) [
        | none ↦ some false
        | some c ↦ if l.cookie_is_valid c.value client_id then some true else none
      ]

  abbrev pub finish : (S → Reply) → S × Flow → S × Reply
  finish k (s, respond r) = (s, r)
  finish k (s, next) = (s, k s)

  abbrev pub request_context_of : Listener → Request → SocketAddr → RequestContext
  request_context_of l req client =
      let geo = geoip_record_of l client.ip in
      record {
        client_address = client;
        server_address = l.address;
        asn = geo.asn;
        country = geo.country;
        geoip_enabled = is_some l.geoip;
        tls = l.tls;
        host = get_host req;
      }

  abbrev pub rules_context_of : Listener → Request → SocketAddr → Context
  rules_context_of l req client =
      let geo = geoip_record_of l client.ip in
      l.new_context
        (record {
          host = get_host req;
          path = get_path req.uri_path;
          url = req.uri;
          method = req.method;
          user_agent = get_user_agent req;
        })
        (record { ip = client.ip; remote_port = client.port; asn = geo.asn; country = geo.country })

  abbrev pub client_id_of : Listener → Request → SocketAddr → String
  client_id_of l req client = l.client_id client.ip (get_user_agent req) (get_host req)

  -- behind the two checks on the user agent and the path
  unfoldable pub filter_and_route : Listener → Request → SocketAddr → S → S × Reply
  filter_and_route l req client s =
      let ctx = rules_context_of l req client in
      elim (captcha_state l (cookies_of l req) (client_id_of l req client)) [
        | none ↦ (s, captcha_page)
        | some verified ↦
            finish (λ _. route ctx (request_context_of l req client) l.services)
              (apply_rules ctx verified client.ip l.rules s)
      ]

  unfoldable pub handle_request : Listener → Request → SocketAddr → S → S × Reply
  handle_request l req client s =
      if bad_user_agent (get_user_agent req)
      then (s, canned new_blocked_response)
      else if str_starts_with (get_path req.uri_path) captcha_path
      then (s, captcha_request)
      else filter_and_route l req client s

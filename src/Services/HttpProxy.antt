-- ===== src/Services/HttpProxy.antt =====
-- pingoo/services/http_proxy_service.rs: a request on its way to an upstream and the response on its
-- way back. Names of headers are in lower case, as `HeaderMap` has them; a value is `none` where
-- `to_str` fails on it. What `HeaderValue::from_str` takes, the texts of addresses and numbers, the
-- choice among the upstreams and the HTTP client are parameters. The URI that is made of a host, or an
-- address, and a path that were parsed is taken to parse again.
use pingoo.Prelude.{
  ℕ, String, List, [], ◌∷◌, map, Option, none, some, Bool, ◌==◌, string_eq, if◌then◌else◌, append,
  unwrap_or, is_empty,
}
use pingoo.Net.{IpAddr, SocketAddr, Upstream}
use pingoo.HttpListener.{RequestContext}

abbrev pub Headers : Type 0
Headers = List (String × Option String)

-- `HeaderMap::remove`, `insert` and `get_all`
unfoldable pub remove_header : String → Headers → Headers
remove_header name [] = []
remove_header name ((k, v) ∷ headers) =
    let rest = remove_header name headers in if k == name then rest else (k, v) ∷ rest

unfoldable pub insert_header : String → Option String → Headers → Headers
insert_header name value headers = (name, value) ∷ remove_header name headers

unfoldable pub get_all : String → Headers → List (Option String)
get_all name [] = []
get_all name ((k, v) ∷ headers) =
    let rest = get_all name headers in if k == name then v ∷ rest else rest

unfoldable pub remove_headers : List String → Headers → Headers
remove_headers [] headers = headers
remove_headers (name ∷ names) headers = remove_headers names (remove_header name headers)

abbrev pub hop_headers : List String
hop_headers =
    "connection" ∷ "proxy-connection" ∷ "keep-alive" ∷ "proxy-authenticate" ∷ "proxy-authorization"
    ∷ "te" ∷ "trailer" ∷ "transfer-encoding" ∷ "upgrade" ∷ []

abbrev pub response_headers_to_remove : List String
response_headers_to_remove =
    "x-accel-buffering" ∷ "x-accel-charset" ∷ "x-accel-limit-rate" ∷ "x-accel-redirect" ∷ "alt-svc"
    ∷ []

-- `slice::join(", ")`
abbrev pub join : List String → String
join [] = ""
join (x ∷ []) = x
join (x ∷ y ∷ xs) = append x (append ", " (join (y ∷ xs)))

-- The texts that Rust's `to_string` gives, and the test of `HeaderValue::from_str`.
pub record Texts : Type 0 where
  pub is_value : String → Bool
  pub ip_text : IpAddr → String
  pub address_text : SocketAddr → String
  pub number_text : ℕ → String

module _ (texts : Texts) where
  open texts use {is_value, ip_text, address_text, number_text}

  -- `if let Ok(value) = HeaderValue::from_str(text) { insert }`
  abbrev pub insert_text : String → String → Headers → Headers
  insert_text name text headers =
      if is_value text then insert_header name (some text) headers else headers

  unfoldable pub forwarded_for : IpAddr → List (Option String) → String
  forwarded_for ip from_client =
      if is_empty from_client
      then ip_text ip
      else append (join (map (λ v. unwrap_or v "") from_client)) (append ", " (ip_text ip))

  abbrev pub proto : Bool → String
  proto tls = if tls then "https" else "http"

  -- the host goes into both headers or neither
  unfoldable pub forward_host : RequestContext → Headers → Headers
  forward_host context headers =
      insert_text "x-forwarded-host" context.host (insert_text "host" context.host headers)

  unfoldable pub forward_client : RequestContext → Headers → Headers
  forward_client context headers =
      let ip = context.client_address.ip in
      let chain = forwarded_for ip (get_all "x-forwarded-for" headers) in
      insert_text "pingoo-client-ip" (ip_text ip) (
        insert_header "x-forwarded-proto" (some (proto context.tls))
          (insert_text "x-forwarded-for" chain headers))

  unfoldable pub forward_geoip : RequestContext → Headers → Headers
  forward_geoip context headers =
      if context.geoip_enabled
      then insert_text "pingoo-client-asn" (number_text context.asn)
          (insert_text "pingoo-client-country" context.country headers)
      else headers

  unfoldable pub request_headers : RequestContext → Headers → Headers
  request_headers context headers =
      forward_geoip context
        (forward_client context (forward_host context (remove_headers hop_headers headers)))

  unfoldable pub upstream_uri : Upstream → String → String
  upstream_uri upstream path_and_query =
      if upstream.tls
      then append "https://" (append upstream.hostname path_and_query)
      else append "http://" (append (address_text upstream.socket_address) path_and_query)

  pub record ProxyRequest : Type 0 where
    pub uri : String
    pub http2 : Bool
    pub headers : Headers

  -- a response as the client gives it
  pub record ProxyResponse : Type 0 where
    pub status : ℕ
    pub headers : Headers

  pub data ProxyReply : Type 0 where
    bad_gateway : ProxyReply
    passed_on : ProxyResponse → ProxyReply

  unfoldable pub response_from : ProxyResponse → ProxyResponse
  response_from res = record res {
    headers =
        insert_header "server" (some "pingoo")
          (remove_headers response_headers_to_remove res.headers);
  }

  -- `choose` on a list that is not empty is `pick`; `path_and_query` is "/" where the URI has none
  unfoldable pub handle_http_request :
      (Upstream → List Upstream → Upstream)
      → (ProxyRequest → Option ProxyResponse)
      → List Upstream
      → RequestContext
      → String
      → Headers
      → ProxyReply
  handle_http_request pick send [] context path_and_query headers = bad_gateway
  handle_http_request pick send (u ∷ us) context path_and_query headers =
      let upstream = pick u us in
      elim (send (record {
        uri = upstream_uri upstream path_and_query;
        http2 = upstream.tls;
        headers = request_headers context headers;
      })) [ none ↦ bad_gateway | some res ↦ passed_on (response_from res) ]

-- ===== src/Services/Tests.antt =====
-- Requests through the proxies.
use pingoo.Prelude.{
  ℕ, ◌≤◌, max, String, List, [], ◌∷◌, Option, none, some, true, false, ◌≡◌, refl, ◌==◌, string_eq,
  if◌then◌else◌, Result, ok, err, ltb, get, path_push, arith, In, inl,
}
use pingoo.Net.{IpAddr, Upstream, ipv4}
use pingoo.HttpListener.{RequestContext}
use pingoo.Services.HttpProxy.{
  Headers, get_all, Texts, forwarded_for, request_headers, ProxyRequest, ProxyResponse,
  handle_http_request, upstream_uri,
}
use pingoo.Discovery.Dns.{UpstreamHost, host_upstreams, address_of, dedup}
use pingoo.Services.Forwarded.{expected, TextsAreValues, get_all-request_headers}
use pingoo.Services.Answered.{IsUri, IsReply, handle_http_request-sends}
use pingoo.Services.StaticSite.{
  FileSystem, directory, regular, not_found, file, whole, find_file, try_metadata, serve_found,
  serve_dated, serve_small, read_and_cache, is_attack, url_path_of,
  handle_http_request as handle_static,
}
use pingoo.Services.Cached.{IsVersioned, IsServed, handle_http_request-IsFresh}
use pingoo.Services.Fresh.{IsFresh}
use pingoo.Services.TcpProxy.{Error, no_upstream_available, retry, retry_from, EndsAt, retry-EndsAt}

abbrev texts : Texts
texts = record {
  is_value = λ s. true;
  ip_text = λ ip. "1.1.1.1";
  address_text = λ a. "10.0.0.1:80";
  number_text = λ n. "13335";
}

abbrev context : RequestContext
context = record {
  client_address = record { ip = ipv4 1 1 1 1; port = 40000 };
  server_address = record { ip = ipv4 0 0 0 0; port = 443 };
  asn = 13335;
  country = "FR";
  geoip_enabled = false;
  tls = true;
  host = "example.com";
}

-- a client that claims a country, an address and a chain of proxies
abbrev headers : Headers
headers =
    ("host", some "example.com")
    ∷ ("upgrade", some "websocket")
    ∷ ("pingoo-client-country", some "US")
    ∷ ("pingoo-client-ip", some "9.9.9.9")
    ∷ ("x-forwarded-for", some "8.8.8.8")
    ∷ []

values : TextsAreValues texts context headers
values = record { host = refl; chain = refl; ip = refl; country = refl; asn = refl }

-- without GeoIP the country that the client claims reaches the upstream
get_all-request_headers_example :
    get_all "pingoo-client-country" (request_headers texts context headers)
    ≡ expected texts context headers "pingoo-client-country"
get_all-request_headers_example =
    get_all-request_headers texts context headers values "pingoo-client-country"

claimed : expected texts context headers "pingoo-client-country" ≡ some "US" ∷ []
unfolding get_all
claimed = refl

chained : expected texts context headers "x-forwarded-for" ≡ some "8.8.8.8, 1.1.1.1" ∷ []
unfolding get_all forwarded_for
chained = refl

abbrev first : Upstream → List Upstream → Upstream
first u us = u

abbrev answer : ProxyRequest texts → Option (ProxyResponse texts)
answer req = some (record { status = 200; headers = ("server", some "nginx") ∷ [] })

-- an upstream with TLS at a port of its own
abbrev secure : UpstreamHost
secure = record { hostname = "api.internal"; tls = true; port = 8443 }

abbrev lookup_ip : String → Option (List IpAddr)
lookup_ip name = some (ipv4 10 0 0 1 ∷ [])

abbrev secure_upstream : Upstream
secure_upstream = record {
  socket_address = record { ip = ipv4 10 0 0 1; port = 8443 };
  hostname = "api.internal";
  tls = true;
}

is_found : In secure_upstream (host_upstreams lookup_ip secure)
unfolding host_upstreams dedup address_of
is_found = inl refl

handle_http_request-sends_example :
    (found : List IpAddr) × ((req : ProxyRequest texts) × ((lookup_ip "api.internal" ≡ some found)
        × IsUri texts lookup_ip found secure "/" req.uri req.http2
        × (req.headers ≡ request_headers texts context headers)
        × IsReply texts lookup_ip
            (answer req)
            (handle_http_request texts first answer (secure_upstream ∷ []) context "/" headers)))
handle_http_request-sends_example =
    handle_http_request-sends texts lookup_ip first answer secure_upstream [] secure context "/"
      headers is_found

-- the port 8443 is not in the request
port_lost : upstream_uri texts secure_upstream "/" ≡ "https://api.internal/"
unfolding upstream_uri
port_lost = refl

-- the second attempt connects
abbrev second : ℕ → Result ℕ Error
second n = if ltb n 2 then err no_upstream_available else ok n

retry-EndsAt_example :
    (n : ℕ) × ((r : Result ℕ Error) × ((retry second 3 ≡ some (n, r))
        × (n ≤ max 1 3)
        × EndsAt second 3 1 n r))
retry-EndsAt_example = retry-EndsAt second 3

two_attempts : retry second 3 ≡ some (2, ok 2)
unfolding retry retry_from
two_attempts = refl

-- a site with an index and a page
abbrev site : FileSystem
site = record {
  metadata = λ path.
      if path == "/var/www/"
      then directory
      else if path == "/var/www/index.html"
      then regular 5 (some 7)
      else if path == "/var/www/page.html"
      then regular 4 (some 7)
      else not_found;
  read = λ path. if path == "/var/www/index.html" then some "index" else some "page";
  open_file = λ path. none;
}

abbrev history : String → ℕ → ℕ → String
history path size time = if path == "/var/www/index.html" then "index" else "page"

site-IsVersioned : IsVersioned site history
site-IsVersioned path size time content m r = ground arith

handle_http_request-IsFresh_example :
    IsFresh history (handle_static site (λ p n t. "e") "/var/www" [] "GET" "/page/" none).0
    × IsServed site history (handle_static site (λ p n t. "e") "/var/www" [] "GET" "/page/" none).1
unfolding get
handle_http_request-IsFresh_example =
    handle_http_request-IsFresh site history site-IsVersioned (λ p n t. "e") "/var/www" [] "GET"
      "/page/" none (λ path f h. absurd (ground arith))

page :
    (handle_static site (λ p n t. "e") "/var/www" [] "GET" "/page/" none).1
    ≡ file 200 "/var/www/page.html" 4 (some "e") (whole "page")
unfolding handle_static find_file try_metadata serve_found serve_dated serve_small read_and_cache
    path_push get
page = refl

-- two dots alone are no attack, and lead to the index of the directory above the root
outside :
    (is_attack (url_path_of "/..") ≡ false)
    × (path_push "/var/www" (url_path_of "/..") ≡ "/var/www/..")
unfolding path_push
outside = (refl, refl)

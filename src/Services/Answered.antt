-- ===== src/Services/Answered.antt =====
-- What clients get back through pingoo/services/http_proxy_service.rs.
use pingoo.Prelude.{
  String, List, [], ◌∷◌, Option, none, some, ◌≡◌, ap, refl, append, arith, Bool, true, false,
  Bool-cases, In, ◌∙◌, ◌==◌, string_eq, if◌then◌else◌, contains, ◌⊎◌, inl, inr,
}
use pingoo.Net.{IpAddr, Upstream}
use pingoo.Discovery.Dns.{UpstreamHost, host_upstreams}
use pingoo.Discovery.Hosts.{IsUpstreamAt, host_upstreams_iff}
use pingoo.HttpListener.{RequestContext}
use pingoo.Services.HttpProxy.{
  Headers, get_all, remove_headers, response_headers_to_remove, Texts, request_headers,
  ProxyRequest, ProxyResponse, ProxyReply, bad_gateway, passed_on, response_from,
  handle_http_request, upstream_uri,
}
use pingoo.Services.HeaderMap.{get_all-insert, get_all-remove_headers}

module _ (texts : Texts) (lookup_ip : String → Option (List IpAddr)) where
  open texts use {address_text, is_value, ip_text, number_text}

  get_all-response_from :
      (res : ProxyResponse texts) (name : String)
      → get_all name (response_from texts res).headers ≡ (
          if "server" == name
          then some "pingoo" ∷ []
          else if contains response_headers_to_remove name
          then []
          else get_all name res.headers)
  unfolding response_from
  get_all-response_from res name =
      get_all-insert "server" (some "pingoo") name
        (remove_headers response_headers_to_remove res.headers)
      ∙ ap (λ r. if "server" == name then some "pingoo" ∷ [] else r)
          (get_all-remove_headers response_headers_to_remove name res.headers)

  -- The client gets 502 where there is no response, and else the response with its status and, under
  -- each name, its values, but the one "pingoo" for `server` and none for the headers to remove.
  abbrev pub IsReply : Option (ProxyResponse texts) → ProxyReply texts → Type 0
  IsReply none reply = reply ≡ bad_gateway
  IsReply (some res) reply =
      (out : ProxyResponse texts) × ((reply ≡ passed_on out)
        × (out.status ≡ res.status)
        × ((name : String)
            → get_all name out.headers ≡ (
                if "server" == name
                then some "pingoo" ∷ []
                else if contains response_headers_to_remove name
                then []
                else get_all name res.headers)))

  answer_of-IsReply :
      (o : Option (ProxyResponse texts))
      → IsReply o (elim o [ none ↦ bad_gateway | some res ↦ passed_on (response_from texts res) ])
  unfolding response_from
  answer_of-IsReply none = refl
  answer_of-IsReply (some res) = (response_from texts res, (refl, refl, get_all-response_from res))

  -- With TLS, the request goes to the host's name over HTTP/2 and the port is lost; without, it goes to
  -- an address of the host, ::1 as 127.0.0.1, at the port configured, over HTTP/1.1.
  abbrev pub IsUri : List IpAddr → UpstreamHost → String → String → Bool → Type 0
  IsUri found host pq uri http2 =
      ((host.tls ≡ true) × (uri ≡ append "https://" (append host.hostname pq)) × (http2 ≡ true))
      ⊎ ((host.tls ≡ false)
          × ((ip : IpAddr) × ((u : Upstream) × (In ip found
                  × IsUpstreamAt lookup_ip host ip u
                  × (uri
                      ≡ append "http://" (
                          append
                            (address_text (record { ip = u.socket_address.ip; port = host.port }))
                            pq)))))
          × (http2 ≡ false))

  upstream_uri-IsUri :
      (found : List IpAddr) (host : UpstreamHost) (ip : IpAddr) (u : Upstream) (pq : String)
      → In ip found
      → IsUpstreamAt lookup_ip host ip u
      → IsUri found host pq (upstream_uri texts u pq) u.tls
  unfolding upstream_uri
  upstream_uri-IsUri found host ip u pq i at = elim (Bool-cases host.tls) [
    | inl e ↦ inl (
      e,
      ground (arith, e, at.tls, ap (λ n. append "https://" (append n pq)) at.hostname),
      at.tls ∙ e,
    )
    | inr e ↦ inr (
      e,
      (
        ip,
        (
          u,
          (
            i,
            at,
            ground (
              arith,
              e,
              at.tls,
              ap
                  (λ p.
                    append "http://"
                      (append (address_text (record { ip = u.socket_address.ip; port = p })) pq))
                  at.port,
            ),
          ),
        ),
      ),
      at.tls ∙ e,
    )
  ]

  -- Where the upstream that is picked is one that DNS found for a configured host, the request is sent
  -- to the host's name at the default port of HTTPS, over HTTP/2, if the host has TLS, whatever port is
  -- configured and whatever address was found, and else, over HTTP/1.1, to an address that was found and
  -- the port configured. A response comes back with its status and the one `server` header "pingoo",
  -- without the headers that are to be removed and with all others; where there is none, the answer is
  -- 502.
  pub handle_http_request-sends :
      (pick : Upstream → List Upstream → Upstream)
      (send : ProxyRequest texts → Option (ProxyResponse texts)) (u : Upstream) (us : List Upstream)
      (host : UpstreamHost) (context : RequestContext) (pq : String) (hs : Headers)
      → In (pick u us) (host_upstreams lookup_ip host)
      → (found : List IpAddr) × ((req : ProxyRequest texts) × ((lookup_ip host.hostname
              ≡ some found)
            × IsUri found host pq req.uri req.http2
            × (req.headers ≡ request_headers texts context hs)
            × IsReply (send req) (handle_http_request texts pick send (u ∷ us) context pq hs)))
  unfolding handle_http_request response_from
  handle_http_request-sends pick send u us host context pq hs h =
      let (found, (ip, (e, i, at))) = ((host_upstreams_iff lookup_ip host).0 (pick u us)).0 h in
      let req : ProxyRequest texts = record {
        uri = upstream_uri texts (pick u us) pq;
        http2 = (pick u us).tls;
        headers = request_headers texts context hs;
      } in
      (
        found,
        (
          req,
          (
            e,
            upstream_uri-IsUri found host ip (pick u us) pq i at,
            refl,
            answer_of-IsReply (send req),
          ),
        ),
      )

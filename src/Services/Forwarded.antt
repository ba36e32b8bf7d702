-- ===== src/Services/Forwarded.antt =====
-- The headers that upstreams get through pingoo/services/http_proxy_service.rs.
use pingoo.Prelude.{
  String, List, [], ◌∷◌, Option, some, true, ◌&&◌, ◌≡◌, ap, ◌∙◌, arith, ◌==◌, string_eq,
  if◌then◌else◌, contains, inl, inr, Bool-cases,
}
use pingoo.HttpListener.{RequestContext}
use pingoo.Services.HttpProxy.{
  Headers, insert_header, get_all, remove_headers, hop_headers, Texts, insert_text, forwarded_for,
  proto, forward_host, forward_client, forward_geoip, request_headers,
}
use pingoo.Services.HeaderMap.{get_all-insert, get_all-remove_headers}

module _ (texts : Texts) where
  open texts use {is_value, ip_text, number_text}

  get_all-insert_text :
      (k t j : String) (hs : Headers)
      → is_value t ≡ true
      → get_all j (insert_text texts k t hs) ≡ (if k == j then some t ∷ [] else get_all j hs)
  get_all-insert_text k t j hs h = ground (arith, get_all-insert k (some t) j hs)

  -- The values under each name that an upstream should get, by name.
  abbrev pub expected : RequestContext → Headers → String → List (Option String)
  expected context hs name =
      let ip = context.client_address.ip in
      if context.geoip_enabled && "pingoo-client-asn" == name
      then some (number_text context.asn) ∷ []
      else if context.geoip_enabled && "pingoo-client-country" == name
      then some context.country ∷ []
      else if "pingoo-client-ip" == name
      then some (ip_text ip) ∷ []
      else if "x-forwarded-proto" == name
      then some (proto texts context.tls) ∷ []
      else if "x-forwarded-for" == name
      then some (forwarded_for texts ip (get_all "x-forwarded-for" hs)) ∷ []
      else if "x-forwarded-host" == name
      then some context.host ∷ []
      else if "host" == name
      then some context.host ∷ []
      else if contains hop_headers name
      then []
      else get_all name hs

  -- Every text that goes into a header may stand there.
  pub record TextsAreValues (context : RequestContext) (hs : Headers) : Type 0 where
    pub host : is_value context.host ≡ true
    pub chain :
        is_value (forwarded_for texts context.client_address.ip (get_all "x-forwarded-for" hs))
        ≡ true
    pub ip : is_value (ip_text context.client_address.ip) ≡ true
    pub country : is_value context.country ≡ true
    pub asn : is_value (number_text context.asn) ≡ true

  module _ (context : RequestContext) (hs : Headers) (values : TextsAreValues context hs) where
    abbrev clean : Headers
    clean = remove_headers hop_headers hs

    abbrev with_host : Headers
    with_host = forward_host texts context clean

    abbrev with_client : Headers
    with_client = forward_client texts context with_host

    abbrev ip_string : String
    ip_string = ip_text context.client_address.ip

    abbrev chain : String
    chain = forwarded_for texts context.client_address.ip (get_all "x-forwarded-for" hs)

    get_all-forward_host :
        (name : String)
        → get_all name with_host ≡ (
            if "x-forwarded-host" == name
            then some context.host ∷ []
            else if "host" == name
            then some context.host ∷ []
            else if contains hop_headers name
            then []
            else get_all name hs)
    unfolding forward_host
    get_all-forward_host name =
        let first = insert_text texts "host" context.host clean in
        get_all-insert_text "x-forwarded-host" context.host name first values.host
        ∙ ap (λ r. if "x-forwarded-host" == name then some context.host ∷ [] else r)
            (get_all-insert_text "host" context.host name clean values.host
              ∙ ap (λ r. if "host" == name then some context.host ∷ [] else r)
                  (get_all-remove_headers hop_headers name hs))

    chain-kept :
        forwarded_for texts context.client_address.ip (get_all "x-forwarded-for" with_host) ≡ chain
    chain-kept =
        ap (λ v. forwarded_for texts context.client_address.ip v)
          (get_all-forward_host "x-forwarded-for")

    get_all-forward_client :
        (name : String)
        → get_all name with_client ≡ (
            if "pingoo-client-ip" == name
            then some ip_string ∷ []
            else if "x-forwarded-proto" == name
            then some (proto texts context.tls) ∷ []
            else if "x-forwarded-for" == name
            then some chain ∷ []
            else get_all name with_host)
    unfolding forward_client
    get_all-forward_client name =
        let c =
          forwarded_for texts context.client_address.ip (get_all "x-forwarded-for" with_host) in
        let p = proto texts context.tls in
        let second = insert_text texts "x-forwarded-for" c with_host in
        let third = insert_header "x-forwarded-proto" (some p) second in
        get_all-insert_text "pingoo-client-ip" ip_string name third values.ip
        ∙ ap (λ r. if "pingoo-client-ip" == name then some ip_string ∷ [] else r)
            (get_all-insert "x-forwarded-proto" (some p) name second
              ∙ ap (λ r. if "x-forwarded-proto" == name then some p ∷ [] else r)
                  (ap (λ t. get_all name (insert_text texts "x-forwarded-for" t with_host))
                      chain-kept
                    ∙ get_all-insert_text "x-forwarded-for" chain name with_host values.chain))

    get_all-forward_geoip :
        (name : String)
        → get_all name (forward_geoip texts context with_client) ≡ (
            if context.geoip_enabled && "pingoo-client-asn" == name
            then some (number_text context.asn) ∷ []
            else if context.geoip_enabled && "pingoo-client-country" == name
            then some context.country ∷ []
            else get_all name with_client)
    unfolding forward_geoip
    get_all-forward_geoip name =
        let first = insert_text texts "pingoo-client-country" context.country with_client in
        elim (Bool-cases context.geoip_enabled) [
          | inl e ↦ ground (
            arith,
            get_all-insert_text "pingoo-client-asn" (number_text context.asn) name first values.asn,
            get_all-insert_text "pingoo-client-country" context.country name with_client
                values.country,
          )
          | inr e ↦ ground arith
        ]

    -- Under every name an upstream gets: the host of the request under `host` and `x-forwarded-host`, the
    -- chain of the client's `x-forwarded-for` and its address, the protocol, the client's address, its
    -- ASN and country where GeoIP is on, nothing under the names of hop-by-hop headers, and else what the
    -- client has sent; this holds where the texts may stand in headers.
    pub get_all-request_headers :
        (name : String) → get_all name (request_headers texts context hs) ≡ expected context hs name
    unfolding request_headers
    get_all-request_headers name =
        get_all-forward_geoip name
        ∙ ap
            (λ r.
              if context.geoip_enabled && "pingoo-client-asn" == name
              then some (number_text context.asn) ∷ []
              else if context.geoip_enabled && "pingoo-client-country" == name
              then some context.country ∷ []
              else r)
            (get_all-forward_client name
              ∙ ap
                  (λ r.
                    if "pingoo-client-ip" == name
                    then some ip_string ∷ []
                    else if "x-forwarded-proto" == name
                    then some (proto texts context.tls) ∷ []
                    else if "x-forwarded-for" == name
                    then some chain ∷ []
                    else r)
                  (get_all-forward_host name))

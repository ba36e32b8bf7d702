-- ===== src/Discovery/Docker.antt =====
-- `discover` of pingoo/service_discovery/docker.rs over the containers that Docker lists. The cache of
-- containers that there was a warning for is a list of ids without expiry; the parser of addresses is a
-- parameter.
use pingoo.Prelude.{
  ℕ, ◌+◌, ◌*◌, ◌-◌, String, List, [], ◌∷◌, Option, none, some, false, not, ◌&&◌, HashMap, get,
  entry_extend, string_eq, ◌==◌, if◌then◌else◌, unwrap_or, contains, filter, eqb, leb, str_is_empty,
}
use Prim.Native.Char.{code}
use pingoo.Net.{IpAddr, Upstream}
use pingoo.ServiceRegistry.{Upstreams}

-- What is read of a container: the private ports and, by network, the address.
pub record Container : Type 0 where
  pub id : Option String
  pub labels : Option (HashMap String String)
  pub ports : Option (List ℕ)
  pub networks : Option (Option (HashMap String (Option String)))

abbrev digits : ℕ → String → Option ℕ
digits n String.[] = some n
digits n (String.◌∷◌ c s) =
    let m = n * 10 + (code c - b'0') in
    if leb b'0' (code c) && leb (code c) b'9' && leb m 65535 then digits m s else none

-- `parse::<u16>()`, which takes a leading plus
abbrev pub parse_u16 : String → Option ℕ
parse_u16 String.[] = none
parse_u16 (String.◌∷◌ c s) =
    if eqb (code c) b'+'
    then (if str_is_empty s then none else digits 0 s)
    else digits 0 (String.◌∷◌ c s)

-- the label, or the first exposed port
unfoldable pub port_of : HashMap String String → Option (List ℕ) → Option ℕ
port_of labels ports = elim (get labels "pingoo.port") [
  | some text ↦ parse_u16 text
  | none ↦ elim ports [
    | none ↦ none
    | some list ↦ elim list [ [] ↦ none | port ∷ others ↦ some port ]
  ]
]

-- the address text for the network "bridge"
unfoldable pub bridge_address : Option (Option (HashMap String (Option String))) → Option String
bridge_address networks = elim (get (unwrap_or (unwrap_or networks none) []) "bridge") [
  | none ↦ none
  | some address ↦ some (unwrap_or address "")
]

-- What a container is for the discoverer: not labelled, not usable, or an upstream of a service.
pub data Kind : Type 0 where
  unlabelled : Kind
  invalid : Kind
  upstream_for : String → Upstream → Kind

module _ (parse_ip : String → Option IpAddr) where
  abbrev container_id : Container → String
  container_id c = unwrap_or c.id ""

  unfoldable pub kind_of : Container → Kind
  kind_of c =
      let labels = unwrap_or c.labels [] in
      elim (get labels "pingoo.service") [
        | none ↦ unlabelled
        | some name ↦ elim (port_of labels c.ports) [
          | none ↦ invalid
          | some port ↦ elim (bridge_address c.networks) [
            | none ↦ invalid
            | some text ↦ elim (parse_ip text) [
              | none ↦ invalid
              | some ip ↦ upstream_for name (record {
                socket_address = record { ip = ip; port = port };
                hostname = container_id c;
                tls = false;
              })
            ]
          ]
        ]
      ]

  -- the warning for an id is given and noted once, and a valid container is taken out again
  unfoldable pub note : List String → Container → List String
  note warned c = elim (kind_of c) [
    | unlabelled ↦ warned
    | invalid ↦ if contains warned (container_id c) then warned else container_id c ∷ warned
    | upstream_for name u ↦ filter (λ id. not (id == container_id c)) warned
  ]

  unfoldable pub push_upstream : Upstreams → Kind → Upstreams
  push_upstream found (upstream_for name u) = entry_extend found name (u ∷ [])
  push_upstream found _ = found

  unfoldable pub discover_from : List String → Upstreams → List Container → List String × Upstreams
  discover_from warned found [] = (warned, found)
  discover_from warned found (c ∷ containers) =
      discover_from (note warned c) (push_upstream found (kind_of c)) containers

  -- without a client nothing is found
  unfoldable pub discover : List String → Option (List Container) → List String × Upstreams
  discover warned none = (warned, [])
  discover warned (some containers) = discover_from warned [] containers

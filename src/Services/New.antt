-- ===== src/Services/New.antt =====
-- `new_http_service` of pingoo/services/http_utils.rs, with the `new` of the two services that it makes:
-- pingoo/services/http_proxy_service.rs and http_static_site_service.rs. Whether rustls finds root
-- certificates of the system is a parameter; `none` is a panic. The clients, caches and the registry
-- that a service starts with are those of the other files.
use pingoo.Prelude.{
  String, List, [], ◌∷◌, Option, none, some, Option-cases, Bool, true, false, is_some, ◌||◌, ◌≡◌,
  ◌↔◌, ◌⊎◌, inl, inr, refl, arith, Bool-cases, if◌then◌else◌,
}
use pingoo.Config.{ServiceConfig, StaticSiteServiceConfig}

pub data HttpService (Expr : Type 0) : Type 0 where
  static_site_service : String → Option Expr → StaticSiteServiceConfig → HttpService Expr
  http_proxy_service : String → Option Expr → HttpService Expr

module _ {Expr : Type 0} where
  -- The service is no HTTP service.
  abbrev pub IsOther : ServiceConfig Expr → Type 0
  IsOther s = (s.static ≡ none) × (s.http_proxy ≡ none)

  -- The service is a proxy, which needs root certificates.
  abbrev pub IsProxy : ServiceConfig Expr → Type 0
  IsProxy s = (s.static ≡ none) × (is_some s.http_proxy ≡ true)

  -- Some service is a proxy.
  abbrev pub SomeProxy : List (ServiceConfig Expr) → Type 0
  SomeProxy [] = ⊥
  SomeProxy (s ∷ services) = IsProxy s ⊎ SomeProxy services

module _ {Expr : Type 0} (native_roots : Bool) where
  -- `HttpProxyService::new`
  abbrev pub new_http_proxy_service : ServiceConfig Expr → Option (HttpService Expr)
  new_http_proxy_service config =
      if native_roots then some (http_proxy_service config.name config.route) else none

  unfoldable pub new_http_service : ServiceConfig Expr → Option (HttpService Expr)
  new_http_service config = elim config.static [
    | some site ↦ some (static_site_service config.name config.route site)
    | none ↦ elim config.http_proxy [ some upstreams ↦ new_http_proxy_service config | none ↦ none ]
  ]

  abbrev also :
      Option (HttpService Expr)
      → Option (List (HttpService Expr))
      → Option (List (HttpService Expr))
  also none rest = none
  also (some h) none = none
  also (some h) (some hs) = some (h ∷ hs)

  -- the values of the map `http_services` of the server
  unfoldable pub new_http_services : List (ServiceConfig Expr) → Option (List (HttpService Expr))
  unfolding new_http_service
  new_http_services [] = some []
  new_http_services (s ∷ services) =
      let rest = new_http_services services in
      if is_some s.http_proxy || is_some s.static then also (new_http_service s) rest else rest

  -- A service with a static site is one, any other HTTP service is a proxy.
  abbrev pub IsNew : ServiceConfig Expr → HttpService Expr → Type 0
  IsNew s h =
      ((site : StaticSiteServiceConfig) × ((s.static ≡ some site)
          × (h ≡ static_site_service s.name s.route site)))
      ⊎ (IsProxy s × (native_roots ≡ true) × (h ≡ http_proxy_service s.name s.route))

  -- The HTTP services are those of the configured services, in order.
  abbrev pub AllNew : List (ServiceConfig Expr) → List (HttpService Expr) → Type 0
  AllNew [] hs = hs ≡ []
  AllNew (s ∷ services) hs =
      (IsOther s × AllNew services hs)
      ⊎ ((h : HttpService Expr) × ((hs' : List (HttpService Expr)) × ((hs ≡ h ∷ hs')
              × IsNew s h
              × AllNew services hs')))

  pub new_http_services-eq-none_iff :
      (services : List (ServiceConfig Expr))
      → (new_http_services services ≡ none) ↔ ((native_roots ≡ false) × SomeProxy services)
  unfolding new_http_services new_http_service
  new_http_services-eq-none_iff [] = ground arith
  new_http_services-eq-none_iff (s ∷ services) = elim (Option-cases s.static) [
    | inr (site, e) ↦ elim (Option-cases (new_http_services services)) [
      | inl r ↦ ground (arith, e, r, new_http_services-eq-none_iff services)
      | inr (hs, r) ↦ ground (arith, e, r, new_http_services-eq-none_iff services)
    ]
    | inl e ↦ elim (Option-cases s.http_proxy) [
      | inl f ↦ ground (arith, e, f, new_http_services-eq-none_iff services)
      | inr (us, f) ↦ elim (Option-cases (new_http_services services)) [
        | inl r ↦ ground (arith, e, f, r, new_http_services-eq-none_iff services)
        | inr (hs, r) ↦ ground (arith, e, f, r, new_http_services-eq-none_iff services)
      ]
    ]
  ]

  new_http_service-eq-some_iff :
      (s : ServiceConfig Expr) (h : HttpService Expr) → (new_http_service s ≡ some h) ↔ IsNew s h
  unfolding new_http_service
  new_http_service-eq-some_iff s h = elim (Option-cases s.static) [
    | inr (site, e) ↦ ground (arith, e)
    | inl e ↦ elim (Option-cases s.http_proxy) [
      | inl f ↦ ground (arith, e, f)
      | inr (us, f) ↦ ground (arith, e, f)
    ]
  ]

  also-eq-some_iff :
      (o : Option (HttpService Expr)) (rest : Option (List (HttpService Expr)))
      (hs : List (HttpService Expr))
      → (also o rest ≡ some hs) ↔ (
          (h : HttpService Expr) × ((hs' : List (HttpService Expr)) × ((hs ≡ h ∷ hs')
              × (o ≡ some h)
              × (rest ≡ some hs'))))
  also-eq-some_iff none rest hs = ground arith
  also-eq-some_iff (some h) none hs = ground arith
  also-eq-some_iff (some h) (some hs') hs =
      (λ e. (h, (hs', (ground (arith, e), refl, refl))), λ (a, (as', (e, f, g))). cc)

  IsNew-http :
      (s : ServiceConfig Expr) (h : HttpService Expr)
      → IsNew s h
      → (is_some s.http_proxy || is_some s.static) ≡ true
  IsNew-http s h (inl (site, (e, f))) = ground (arith, e)
  IsNew-http s h (inr ((e, f), g, k)) = ground (arith, f)

  not_http-IsOther :
      (s : ServiceConfig Expr) → (is_some s.http_proxy || is_some s.static) ≡ false → IsOther s
  not_http-IsOther s e = ground (arith, e, Option-cases s.static, Option-cases s.http_proxy)

  pub new_http_services-eq-some_iff :
      (services : List (ServiceConfig Expr)) (hs : List (HttpService Expr))
      → (new_http_services services ≡ some hs) ↔ AllNew services hs
  unfolding new_http_services
  new_http_services-eq-some_iff [] hs = ground arith
  new_http_services-eq-some_iff (s ∷ services) hs =
      let rest = new_http_services services in
      elim (Bool-cases (is_some s.http_proxy || is_some s.static)) [
        | inl e ↦
            let (to, from) = also-eq-some_iff (new_http_service s) rest hs in
            rw e (
              λ p.
                  let (h, (hs', (eq, o, r))) = to p in
                  inr (
                    h,
                    (
                      hs',
                      (
                        eq,
                        (new_http_service-eq-some_iff s h).0 o,
                        (new_http_services-eq-some_iff services hs').0 r,
                      ),
                    ),
                  ),
              λ all. elim all [
                | inl ((st, proxy), r) ↦ absurd (ground (arith, e, st, proxy))
                | inr (h, (hs', (eq, o, r))) ↦ from (
                  h,
                  (
                    hs',
                    (
                      eq,
                      (new_http_service-eq-some_iff s h).1 o,
                      (new_http_services-eq-some_iff services hs').1 r,
                    ),
                  ),
                )
              ],
            )
        | inr e ↦ rw e (
          λ p. inl (not_http-IsOther s e, (new_http_services-eq-some_iff services hs).0 p),
          λ all. elim all [
            | inl (other, r) ↦ (new_http_services-eq-some_iff services hs).1 r
            | inr (h, (hs', (eq, o, r))) ↦ absurd (ground (arith, e, IsNew-http s h o))
          ],
        )
      ]

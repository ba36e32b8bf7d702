-- ===== src/ServiceRegistry/Tests.antt =====
-- Rounds of discovery at concrete registries.
use pingoo.Prelude.{
  ℕ, ◌≡◌, List, [], ◌∷◌, Option, none, some, false, get, insert, remove, contains_key, entry_extend,
  arith, refl, inl, inr,
}
use pingoo.Net.{Upstream, ipv4}
use pingoo.ServiceRegistry.{
  Upstreams, ServiceRegistry, discover, get_upstreams, merge_all, merge_found, diff_upstreams,
  diff_new, diff_old, diff_service, insert_updated, remove_deleted,
}
use pingoo.ServiceRegistry.Discover.{
  SameUpstreams, found_for, discover_kept, discover_drops, discover_twice,
}

abbrev host : ℕ → Upstream
host n = record {
  socket_address = record { ip = ipv4 10 0 0 n; port = 80 };
  hostname = "host";
  tls = false;
}

-- "web" runs on two hosts; only the first is configured by address
abbrev registry : ServiceRegistry
registry = record {
  upstreams = ("web", host 1 ∷ host 2 ∷ []) ∷ [];
  static_upstreams = ("web", host 1 ∷ []) ∷ [];
}

-- the second host is gone, the third is new
abbrev round : List (Option Upstreams)
round = some (("web", host 3 ∷ []) ∷ []) ∷ none ∷ []

registry_tests : Unit {0}
unfolding discover get_upstreams merge_all merge_found diff_upstreams diff_new diff_old diff_service
    insert_updated remove_deleted get insert remove contains_key entry_extend
registry_tests = tt

found_test : found_for registry round "web" ≡ host 1 ∷ host 3 ∷ []
unfolding registry_tests
found_test = refl

discover_drops_example : get_upstreams (discover registry round) "web" ≡ []
unfolding get_upstreams get
discover_drops_example =
    discover_drops registry round ((λ i. i), tt) "web" (host 2) (inr (inl refl))
      (rw found_test (ground arith))

-- both hosts are found again, and a third
abbrev calm_round : List (Option Upstreams)
calm_round = some (("web", host 2 ∷ host 3 ∷ []) ∷ []) ∷ []

calm_test : found_for registry calm_round "web" ≡ host 1 ∷ host 2 ∷ host 3 ∷ []
unfolding registry_tests
calm_test = refl

discover_kept_example :
    SameUpstreams
      (get_upstreams (discover registry calm_round) "web")
      (found_for registry calm_round "web")
unfolding registry_tests
discover_kept_example = discover_kept registry calm_round ((λ i. i), tt) "web" (λ u i. ground arith)

discover_twice_example :
    SameUpstreams
      (get_upstreams (discover (discover registry round) round) "web")
      (found_for registry round "web")
discover_twice_example = discover_twice registry round ((λ i. i), tt) "web"

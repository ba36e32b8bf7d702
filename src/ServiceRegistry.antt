-- ===== src/ServiceRegistry.antt =====
-- pingoo/service_discovery/service_registry.rs: the upstreams of each service. The discoverers (DNS and
-- Docker) enter as the results that they return; a map that `HashMap` or `DashMap` holds has each key
-- once. The order in which sets are walked does not matter, as their elements are distinct keys.
pub mod Diff
pub mod Discover
mod Tests
use pingoo.Prelude.{
  ℕ, String, List, [], ◌∷◌, ◌++◌, map, Option, none, some, Bool, true, false, not, HashMap, keys,
  get, contains_key, insert, remove, entry_extend, Result, ok, err, unwrap_or, is_some, any,
  contains, ◌==◌, string_eq, if◌then◌else◌,
}
use pingoo.Net.{Upstream, upstream_eq}
use pingoo.Config.{ServiceConfig, UpstreamConfig, ip_address, domain}
use pingoo.Config.Load.{extend}

abbrev pub Upstreams : Type 0
Upstreams = HashMap String (List Upstream)

pub record ServiceRegistry : Type 0 where
  pub upstreams : Upstreams
  pub static_upstreams : Upstreams

pub record UpstreamDiff : Type 0 where
  pub updated : List String
  pub deleted : List String

-- `HashSet::insert`
abbrev pub set_insert : List String → String → List String
set_insert s x = if contains s x then s else x ∷ s

-- the upstreams that the configuration gives by address
unfoldable pub by_address : List UpstreamConfig → List Upstream
by_address [] = []
by_address (ip_address u ∷ us) = u ∷ by_address us
by_address (domain _ _ _ ∷ us) = by_address us

module _ {Expr : Type 0} where
  unfoldable pub static_of : ServiceConfig Expr → String × List Upstream
  static_of s = elim s.http_proxy [
    | some us ↦ (s.name, by_address us)
    | none ↦ elim s.tcp_proxy [ some us ↦ (s.name, by_address us) | none ↦ (s.name, []) ]
  ]

  unfoldable pub get_static_upstreams : List (ServiceConfig Expr) → Upstreams
  unfolding static_of by_address
  get_static_upstreams services = extend [] (map static_of services)

  unfoldable pub new : List (ServiceConfig Expr) → ServiceRegistry
  unfolding get_static_upstreams
  new services =
      let static_upstreams = get_static_upstreams services in
      record { upstreams = static_upstreams; static_upstreams = static_upstreams }

unfoldable pub get_upstreams : ServiceRegistry → String → List Upstream
get_upstreams r service = unwrap_or (get r.upstreams service) []

-- one round of the first loop of `diff_upstreams`
unfoldable pub diff_service : Upstreams → UpstreamDiff → String → List Upstream → UpstreamDiff
diff_service old d name new_ups = elim (get old name) [
  | some old_ups ↦ record {
    deleted =
        if any (λ u. not (contains new_ups u)) old_ups
        then set_insert d.deleted name
        else d.deleted;
    updated =
        if any (λ u. not (contains old_ups u)) new_ups
        then set_insert d.updated name
        else d.updated;
  }
  | none ↦ record d { updated = set_insert d.updated name }
]

unfoldable pub diff_new : Upstreams → UpstreamDiff → Upstreams → UpstreamDiff
diff_new old d [] = d
diff_new old d ((name, ups) ∷ new) = diff_new old (diff_service old d name ups) new

unfoldable pub diff_old : Upstreams → UpstreamDiff → Upstreams → UpstreamDiff
diff_old new d [] = d
diff_old new d ((name, ups) ∷ old) =
    diff_old new
      (if contains_key new name then d else record d { deleted = set_insert d.deleted name }) old

unfoldable pub diff_upstreams : Upstreams → Upstreams → UpstreamDiff
diff_upstreams old new = diff_old new (diff_new old (record { updated = []; deleted = [] }) new) old

-- add what one discoverer found
unfoldable pub merge_found : Upstreams → Upstreams → Upstreams
merge_found m [] = m
merge_found m ((name, ups) ∷ found) = merge_found (entry_extend m name ups) found

-- a discoverer that fails is passed over
unfoldable pub merge_all : Upstreams → List (Option Upstreams) → Upstreams
merge_all m [] = m
merge_all m (none ∷ results) = merge_all m results
merge_all m (some found ∷ results) = merge_all (merge_found m found) results

unfoldable pub insert_updated : Upstreams → Upstreams → List String → Upstreams
insert_updated ups new [] = ups
insert_updated ups new (name ∷ names) =
    insert_updated (elim (get new name) [ some us ↦ insert ups name us | none ↦ ups ])
      (remove new name) names

unfoldable pub remove_deleted : Upstreams → List String → Upstreams
remove_deleted ups [] = ups
remove_deleted ups (name ∷ names) = remove_deleted (remove ups name) names

unfoldable pub discover : ServiceRegistry → List (Option Upstreams) → ServiceRegistry
discover r results =
    let new_upstreams = merge_all r.static_upstreams results in
    let diff = diff_upstreams r.upstreams new_upstreams in
    record r {
      upstreams =
          remove_deleted (insert_updated r.upstreams new_upstreams diff.updated) diff.deleted;
    }

-- ===== src/ServiceRegistry/Discover.antt =====
-- Rounds of `discover` of pingoo/service_discovery/service_registry.rs, service by service.
use pingoo.Prelude.{
  String, ◌≡◌, ◌↔◌, List, [], ◌∷◌, ◌++◌, sym, subst, map, Option, none, some, true, false, keys,
  get, insert, entry_extend, NoDup-keys-insert, unwrap_or, contains_iff, All, All-In, In-All, In,
  NoDup, string_eq, if◌then◌else◌, arith, refl, Bool-cases, inl, inr,
}
use pingoo.Net.{Upstream, upstream_eq}
use pingoo.Config.{ServiceConfig}
use pingoo.Config.Load.{extend}
use pingoo.ServiceRegistry.{
  Upstreams, ServiceRegistry, UpstreamDiff, diff_new, diff_upstreams, merge_found, merge_all,
  insert_updated, discover, get_upstreams, new, static_of,
}
use pingoo.ServiceRegistry.Diff.{
  misses, updated_in, deleted_in, diff_new-updated, diff_new-deleted, diff_old-updated,
  diff_old-deleted, get-insert_updated, get-remove_deleted,
}

-- what a round makes of the entry of one service
abbrev pub after : Option (List Upstream) → Option (List Upstream) → Option (List Upstream)
after old found = if deleted_in old found then none else if updated_in old found then found else old

-- what a round finds for a service, the static upstreams first
abbrev pub found_for : ServiceRegistry → List (Option Upstreams) → String → List Upstream
found_for r results s = unwrap_or (get (merge_all r.static_upstreams results) s) []

-- The configured map has each service once.
abbrev pub IsRegistry : ServiceRegistry → Type 0
IsRegistry r = NoDup (keys r.static_upstreams)

extend-NoDup : (m n : Upstreams) → NoDup (keys m) → NoDup (keys (extend m n))
unfolding extend
extend-NoDup m [] h = h
extend-NoDup m ((k, v) ∷ n) h = extend-NoDup (insert m k v) n (NoDup-keys-insert m k v h)

pub new-IsRegistry :
    {Expr : Type 0} (services : List (ServiceConfig Expr)) → IsRegistry (new services)
unfolding new
new-IsRegistry services = extend-NoDup [] (map static_of services) tt

merge_found-NoDup : (m found : Upstreams) → NoDup (keys m) → NoDup (keys (merge_found m found))
unfolding merge_found entry_extend
merge_found-NoDup m [] h = h
merge_found-NoDup m ((k, v) ∷ found) h =
    merge_found-NoDup (entry_extend m k v) found
      (NoDup-keys-insert m k (unwrap_or (get m k) [] ++ v) h)

merge_all-NoDup :
    (m : Upstreams) (results : List (Option Upstreams))
    → NoDup (keys m)
    → NoDup (keys (merge_all m results))
unfolding merge_all
merge_all-NoDup m [] h = h
merge_all-NoDup m (none ∷ results) h = merge_all-NoDup m results h
merge_all-NoDup m (some found ∷ results) h =
    merge_all-NoDup (merge_found m found) results (merge_found-NoDup m found h)

module _ (r : ServiceRegistry) (results : List (Option Upstreams)) (registry : IsRegistry r) where
  get-discover :
      (s : String)
      → get (discover r results).upstreams s
        ≡ after (get r.upstreams s) (get (merge_all r.static_upstreams results) s)
  unfolding discover diff_upstreams
  get-discover s =
      let found = merge_all r.static_upstreams results in
      let once = merge_all-NoDup r.static_upstreams results registry in
      let start : UpstreamDiff = record { updated = []; deleted = [] } in
      let d = diff_new r.upstreams start found in
      let diff = diff_upstreams r.upstreams found in
      ground (
        arith,
        get-remove_deleted (insert_updated r.upstreams found diff.updated) diff.deleted s,
        get-insert_updated r.upstreams found diff.updated s,
        diff_old-updated found d r.upstreams,
        diff_old-deleted found d r.upstreams s,
        diff_new-updated r.upstreams start found s once,
        diff_new-deleted r.upstreams start found s once,
      )

misses-eq-false_iff : (xs ys : List Upstream) → (misses xs ys ≡ false) ↔ All (λ u. In u ys) xs
misses-eq-false_iff [] ys = ground arith
misses-eq-false_iff (x ∷ xs) ys = ground (arith, contains_iff ys x, misses-eq-false_iff xs ys)

misses_self : (xs : List Upstream) → misses xs xs ≡ false
misses_self xs = (misses-eq-false_iff xs xs).1 (All-In (λ a. In a xs) xs (λ a i. i))

misses-eq-true :
    (xs ys : List Upstream) (u : Upstream) → In u xs → ¬ (In u ys) → misses xs ys ≡ true
misses-eq-true xs ys u i h = elim (Bool-cases (misses xs ys)) [
  | inl e ↦ e
  | inr e ↦ absurd (h (In-All (λ a. In a ys) xs u ((misses-eq-false_iff xs ys).0 e) i))
]

-- the same upstreams, whatever their order
abbrev pub SameUpstreams : List Upstream → List Upstream → Type 0
SameUpstreams xs ys = (u : Upstream) → In u xs ↔ In u ys

same_of_misses :
    (xs ys : List Upstream) → misses xs ys ≡ false → misses ys xs ≡ false → SameUpstreams xs ys
same_of_misses xs ys p q u = (
  λ i. In-All (λ a. In a ys) xs u ((misses-eq-false_iff xs ys).0 p) i,
  λ i. In-All (λ a. In a xs) ys u ((misses-eq-false_iff ys xs).0 q) i,
)

-- one round that loses nothing
after_kept :
    (old found : Option (List Upstream))
    → deleted_in old found ≡ false
    → SameUpstreams (unwrap_or (after old found) []) (unwrap_or found [])
after_kept none none h u = (λ i. i, λ i. i)
after_kept (some os) none h u = (λ i. cc, λ i. cc)
after_kept none (some ns) h u = (λ i. i, λ i. i)
after_kept (some os) (some ns) h u = elim (Bool-cases (misses ns os)) [
  | inl e ↦ rw h (rw e (λ i. i, λ i. i))
  | inr e ↦ rw h (rw e (same_of_misses os ns h e u))
]

-- a round that loses something leaves nothing, and the next one finds everything
after_lost : (found : Option (List Upstream)) → after none found ≡ found
after_lost none = refl
after_lost (some ns) = refl

after_deleted :
    (old found : Option (List Upstream)) → deleted_in old found ≡ true → after old found ≡ none
after_deleted old found h = rw h

-- one round that loses nothing leaves nothing to lose for a second one
after_settled :
    (old found : Option (List Upstream))
    → deleted_in old found ≡ false
    → deleted_in (after old found) found ≡ false
after_settled none none h = refl
after_settled (some os) none h = cc
after_settled none (some ns) h = misses_self ns
after_settled (some os) (some ns) h = elim (Bool-cases (misses ns os)) [
  | inl e ↦ rw h (rw e (misses_self ns))
  | inr e ↦ rw h (rw e h)
]

-- two rounds that find the same
after_twice :
    (old found : Option (List Upstream))
    → SameUpstreams (unwrap_or (after (after old found) found) []) (unwrap_or found [])
after_twice old found u = elim (Bool-cases (deleted_in old found)) [
  | inl e ↦ rw (after_deleted old found e) (rw (after_lost found) (λ i. i, λ i. i))
  | inr e ↦ after_kept (after old found) found (after_settled old found e) u
]

after_found :
    (old found : Option (List Upstream))
    → ((u : Upstream) → In u (unwrap_or old []) → In u (unwrap_or found []))
    → SameUpstreams (unwrap_or (after old found) []) (unwrap_or found [])
after_found none found keeps = after_kept none found (deleted-none found)
  where
    deleted-none : (o : Option (List Upstream)) → deleted_in none o ≡ false
    deleted-none none = refl
    deleted-none (some ns) = refl
after_found (some os) none keeps = λ u. (λ i. i, λ i. i)
after_found (some os) (some ns) keeps =
    after_kept (some os) (some ns) ((misses-eq-false_iff os ns).1 (All-In (λ a. In a ns) os keeps))

after_gone :
    (old found : Option (List Upstream)) (u : Upstream)
    → In u (unwrap_or old [])
    → ¬ (In u (unwrap_or found []))
    → after old found ≡ none
after_gone none found u i gone = absurd i
after_gone (some os) none u i gone = refl
after_gone (some os) (some ns) u i gone = rw (misses-eq-true os ns u i gone)

static-discover :
    (r : ServiceRegistry) (results : List (Option Upstreams))
    → (discover r results).static_upstreams ≡ r.static_upstreams
unfolding discover
static-discover r results = refl

module _ (r : ServiceRegistry) (results : List (Option Upstreams)) (registry : IsRegistry r) where
  -- If every upstream that a service has is found again, the service's upstreams after the round are
  -- those that the round found.
  pub discover_kept :
      (s : String)
      → ((u : Upstream) → In u (get_upstreams r s) → In u (found_for r results s))
      → SameUpstreams (get_upstreams (discover r results) s) (found_for r results s)
  unfolding get_upstreams
  discover_kept s keeps u =
      rw (get-discover r results registry s)
        (after_found (get r.upstreams s) (get (merge_all r.static_upstreams results) s) keeps u)

  -- As soon as a service has one upstream that the round does not find, the service has none after the
  -- round, however many others are found.
  pub discover_drops :
      (s : String) (u : Upstream)
      → In u (get_upstreams r s)
      → ¬ (In u (found_for r results s))
      → get_upstreams (discover r results) s ≡ []
  unfolding get_upstreams
  discover_drops s u i gone =
      rw (get-discover r results registry s) (
        rw (after_gone (get r.upstreams s) (get (merge_all r.static_upstreams results) s) u i gone))

  -- After two rounds that find the same, every service has the upstreams that were found.
  pub discover_twice :
      (s : String)
      → SameUpstreams
          (get_upstreams (discover (discover r results) results) s)
          (found_for r results s)
  unfolding get_upstreams
  discover_twice s u =
      let r' = discover r results in
      let same = static-discover r results in
      rw (get-discover r' results (subst (λ m. NoDup (keys m)) (sym same) registry) s) (
        rw same (
          rw (get-discover r results registry s)
            (after_twice (get r.upstreams s) (get (merge_all r.static_upstreams results) s) u)))

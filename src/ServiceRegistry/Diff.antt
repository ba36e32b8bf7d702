-- ===== src/ServiceRegistry/Diff.antt =====
-- What one round of discovery makes of the upstreams of each service.
use pingoo.Prelude.{
  String, ◌≡◌, List, [], ◌∷◌, Option, none, some, Bool, true, false, not, ◌&&◌, ◌||◌, keys, get,
  insert, remove, get-insert, get-eq-none, get-remove, contains_key-eq, is_some, any, contains,
  contains_iff, NoDup, ◌==◌, string_eq, if◌then◌else◌, arith, refl, Bool-cases, Option-cases, inl,
  inr,
}
use pingoo.Net.{Upstream, upstream_eq}
use pingoo.ServiceRegistry.{
  Upstreams, UpstreamDiff, set_insert, diff_service, diff_new, diff_old, insert_updated,
  remove_deleted,
}

-- some upstream of the first list is not in the second
abbrev pub misses : List Upstream → List Upstream → Bool
misses xs ys = any (λ u. not (contains ys u)) xs

same_element : (s : List String) (x y : String) → x ≡ y → contains s x ≡ contains s y
same_element s x y e = rw e

same_entry : (m : Upstreams) (k j : String) → k ≡ j → get m k ≡ get m j
same_entry m k j e = rw e

contains-set_insert :
    (s : List String) (x y : String) → contains (set_insert s x) y ≡ (x == y || contains s y)
contains-set_insert s x y = elim (Bool-cases (contains s x)) [
  | inl h ↦
      ground (arith, contains_iff s x, contains_iff s y, string_eq.same_iff x y, same_element s x y)
  | inr h ↦ ground arith
]

-- whether a service whose upstreams are `ups` now has one that was not there before
abbrev pub gains : Option (List Upstream) → List Upstream → Bool
gains none ups = true
gains (some old_ups) ups = misses ups old_ups

-- whether it has lost one
abbrev pub loses : Option (List Upstream) → List Upstream → Bool
loses none ups = false
loses (some old_ups) ups = misses old_ups ups

abbrev pub updated_in : Option (List Upstream) → Option (List Upstream) → Bool
updated_in old none = false
updated_in old (some ups) = gains old ups

abbrev pub deleted_in : Option (List Upstream) → Option (List Upstream) → Bool
deleted_in old none = is_some old
deleted_in old (some ups) = loses old ups

module _ (old : Upstreams) where
  diff_service-updated :
      (d : UpstreamDiff) (n : String) (ups : List Upstream) (s : String)
      → contains (diff_service old d n ups).updated s
        ≡ (contains d.updated s || n == s && gains (get old n) ups)
  unfolding diff_service
  diff_service-updated d n ups s = ground (arith, contains-set_insert d.updated n s)

  diff_service-deleted :
      (d : UpstreamDiff) (n : String) (ups : List Upstream) (s : String)
      → contains (diff_service old d n ups).deleted s
        ≡ (contains d.deleted s || n == s && loses (get old n) ups)
  unfolding diff_service
  diff_service-deleted d n ups s = ground (arith, contains-set_insert d.deleted n s)

  pub diff_new-updated :
      (d : UpstreamDiff) (new : Upstreams) (s : String)
      → NoDup (keys new)
      → contains (diff_new old d new).updated s
        ≡ (contains d.updated s || updated_in (get old s) (get new s))
  unfolding diff_new get
  diff_new-updated d [] s h = ground arith
  diff_new-updated d ((n, ups) ∷ new) s h = ground (
    arith,
    diff_new-updated (diff_service old d n ups) new s h.1,
    diff_service-updated d n ups s,
    get-eq-none new n h.0,
    string_eq.same_iff n s,
    same_entry new n s,
    same_entry old n s,
  )

  pub diff_new-deleted :
      (d : UpstreamDiff) (new : Upstreams) (s : String)
      → NoDup (keys new)
      → contains (diff_new old d new).deleted s
        ≡ (contains d.deleted s || is_some (get new s) && deleted_in (get old s) (get new s))
  unfolding diff_new get
  diff_new-deleted d [] s h = ground arith
  diff_new-deleted d ((n, ups) ∷ new) s h = ground (
    arith,
    diff_new-deleted (diff_service old d n ups) new s h.1,
    diff_service-deleted d n ups s,
    get-eq-none new n h.0,
    string_eq.same_iff n s,
    same_entry new n s,
    same_entry old n s,
  )

pub diff_old-deleted :
    (new : Upstreams) (d : UpstreamDiff) (old : Upstreams) (s : String)
    → contains (diff_old new d old).deleted s
      ≡ (contains d.deleted s || is_some (get old s) && not (is_some (get new s)))
unfolding diff_old get
diff_old-deleted new d [] s = ground arith
diff_old-deleted new d ((n, ups) ∷ old) s = ground (
  arith,
  diff_old-deleted new d old s,
  diff_old-deleted new (record d { deleted = set_insert d.deleted n }) old s,
  contains-set_insert d.deleted n s,
  contains_key-eq new n,
  string_eq.same_iff n s,
  same_entry new n s,
)

pub diff_old-updated :
    (new : Upstreams) (d : UpstreamDiff) (old : Upstreams)
    → (diff_old new d old).updated ≡ d.updated
unfolding diff_old
diff_old-updated new d [] = refl
diff_old-updated new d ((n, ups) ∷ old) = ground (
  arith,
  diff_old-updated new d old,
  diff_old-updated new (record d { deleted = set_insert d.deleted n }) old,
)

pub get-insert_updated :
    (ups new : Upstreams) (names : List String) (s : String)
    → get (insert_updated ups new names) s
      ≡ (if contains names s && is_some (get new s) then get new s else get ups s)
unfolding insert_updated
get-insert_updated ups new [] s = refl
get-insert_updated ups new (n ∷ ns) s = elim (Option-cases (get new n)) [
  | inl e ↦ rw e (
      ground (
        arith,
        get-insert_updated ups (remove new n) ns s,
        get-remove new n s,
        string_eq.same_iff n s,
        same_entry new n s,
      ))
  | inr (us, e) ↦ rw e (
      ground (
        arith,
        get-insert_updated (insert ups n us) (remove new n) ns s,
        get-remove new n s,
        get-insert ups n us s,
        string_eq.same_iff n s,
        same_entry new n s,
      ))
]

pub get-remove_deleted :
    (ups : Upstreams) (names : List String) (s : String)
    → get (remove_deleted ups names) s ≡ (if contains names s then none else get ups s)
unfolding remove_deleted
get-remove_deleted ups [] s = refl
get-remove_deleted ups (n ∷ ns) s =
    ground (arith, get-remove_deleted (remove ups n) ns s, get-remove ups n s)

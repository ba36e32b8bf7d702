-- ===== src/Prelude/Assoc.antt =====
-- Hash maps: an association list in insertion order, one entry for a key.
use Prim.Native.Nat.{suc}
use mathlib.Core.Path.{◌≡◌, refl}
use mathlib.Core.Bool.{Bool, true, false}
use mathlib.Core.Option.{Option, none, some}
use mathlib.Core.List.{List, [], ◌∷◌, ◌++◌}
use native.Mathlib.Omega.{arith}
use pingoo.Prelude.Tests.{if◌then◌else◌, is_some, unwrap_or}
use mathlib.Core.Logic.{◌↔◌, ◌⊎◌}
use pingoo.Prelude.Lists.{length, In, NoDup}
use pingoo.Prelude.Equality.{Eq, ◌==◌}

abbrev pub HashMap {ℓ κ} : Type ℓ → Type κ → Type (ℓ ⊔ κ)
HashMap K V = List (K × V)

abbrev pub keys {ℓ κ} : {K : Type ℓ} {V : Type κ} → HashMap K V → List K
keys [] = []
keys ((k, v) ∷ m) = k ∷ keys m

module _ {ℓ κ} {K : Type ℓ} {V : Type κ} ⦃e : Eq K⦄ where
  unfoldable pub get : HashMap K V → K → Option V
  get [] k = none
  get ((j, v) ∷ m) k = if j == k then some v else get m k

  unfoldable pub contains_key : HashMap K V → K → Bool
  contains_key [] k = false
  contains_key ((j, v) ∷ m) k = if j == k then true else contains_key m k

  unfoldable pub insert : HashMap K V → K → V → HashMap K V
  insert [] k v = (k, v) ∷ []
  insert ((j, w) ∷ m) k v = if j == k then (k, v) ∷ m else (j, w) ∷ insert m k v

  unfoldable pub remove : HashMap K V → K → HashMap K V
  remove [] k = []
  remove ((j, w) ∷ m) k = let rest = remove m k in if j == k then rest else (j, w) ∷ rest

  pub contains_key-eq : (m : HashMap K V) (k : K) → contains_key m k ≡ is_some (get m k)
  unfolding get contains_key
  contains_key-eq [] k = refl
  contains_key-eq ((j, v) ∷ m) k = ground (arith, contains_key-eq m k)

  pub get-insert :
      (m : HashMap K V) (k : K) (v : V) (j : K)
      → get (insert m k v) j ≡ (if k == j then some v else get m j)
  unfolding get insert
  get-insert [] k v j = refl
  get-insert ((i, w) ∷ m) k v j =
      ground (arith, get-insert m k v j, e.same_iff i k, e.same_iff i j, e.same_iff k j)

  pub get-remove :
      (m : HashMap K V) (k j : K) → get (remove m k) j ≡ (if k == j then none else get m j)
  unfolding get remove
  get-remove [] k j = ground arith
  get-remove ((i, w) ∷ m) k j =
      ground (arith, get-remove m k j, e.same_iff i k, e.same_iff i j, e.same_iff k j)

  pub size-insert_new :
      (m : HashMap K V) (k : K) (v : V) → get m k ≡ none → length (insert m k v) ≡ suc (length m)
  unfolding get insert
  size-insert_new [] k v h = refl
  size-insert_new ((i, w) ∷ m) k v h = ground (arith, size-insert_new m k v)

  pub size-insert_old :
      (m : HashMap K V) (k : K) (v w : V) → get m k ≡ some w → length (insert m k v) ≡ length m
  unfolding get insert
  size-insert_old [] k v w h = ground arith
  size-insert_old ((i, u) ∷ m) k v w h = ground (arith, size-insert_old m k v w)

module _ {κ} {K : Type 0} {V : Type κ} ⦃e : Eq K⦄ where
  pub get-eq-none : (m : HashMap K V) (k : K) → ¬ (In k (keys m)) → get m k ≡ none
  unfolding get
  get-eq-none [] k h = refl
  get-eq-none ((j, v) ∷ m) k h = ground (arith, e.same_iff j k, get-eq-none m k)

  pub In-keys-insert :
      (m : HashMap K V) (k : K) (v : V) (j : K)
      → In j (keys (insert m k v)) ↔ ((k ≡ j) ⊎ In j (keys m))
  unfolding insert
  In-keys-insert [] k v j = ground arith
  In-keys-insert ((i, w) ∷ m) k v j = ground (arith, In-keys-insert m k v j, e.same_iff i k)

  -- a map keeps each key once
  pub NoDup-keys-insert :
      (m : HashMap K V) (k : K) (v : V) → NoDup (keys m) → NoDup (keys (insert m k v))
  unfolding insert
  NoDup-keys-insert [] k v h = ground arith
  NoDup-keys-insert ((i, w) ∷ m) k v h =
      ground (arith, In-keys-insert m k v i, NoDup-keys-insert m k v, e.same_iff i k)

module _ {ℓ κ} {K : Type ℓ} {V : Type κ} ⦃e : Eq K⦄ where
  -- `map.entry(k).or_insert(Vec::new()).extend(vs)`
  unfoldable pub entry_extend : HashMap K (List V) → K → List V → HashMap K (List V)
  entry_extend m k vs = insert m k (unwrap_or (get m k) [] ++ vs)

  pub get-entry_extend :
      (m : HashMap K (List V)) (k : K) (vs : List V) (j : K)
      → get (entry_extend m k vs) j
        ≡ (if k == j then some (unwrap_or (get m k) [] ++ vs) else get m j)
  unfolding entry_extend
  get-entry_extend m k vs j = get-insert m k (unwrap_or (get m k) [] ++ vs) j

pub ruleset map_laws = (get-insert, get-remove)

-- ===== src/Config/Duplicates.antt =====
-- `find_duplicate` and `find_duplicate2` of pingoo/config/config.rs.
use pingoo.Prelude.{
  ◌≡◌, ◌↔◌, List, [], ◌∷◌, Option, none, some, Eq, if◌then◌else◌, contains, contains_iff, find, In,
  NoDup, All, arith, inl, inr, Bool-cases, subst,
}

module _ {T : Type 0} ⦃e : Eq T⦄ where
  -- `seen` is the hash set
  unfoldable pub find_duplicate_from : List T → List T → Option T
  find_duplicate_from seen [] = none
  find_duplicate_from seen (x ∷ xs) =
      if contains seen x then some x else find_duplicate_from (x ∷ seen) xs

  unfoldable pub find_duplicate : List T → Option T
  unfolding find_duplicate_from
  find_duplicate v = find_duplicate_from [] v

  unfoldable pub find_duplicate2 : List T → List T → Option T
  find_duplicate2 a b = find (contains a) b

  abbrev Fresh : List T → List T → Type 0
  Fresh seen xs = All (λ x. ¬ (In x seen)) xs

  Fresh-nil : (xs : List T) → Fresh [] xs
  Fresh-nil [] = tt
  Fresh-nil (x ∷ xs) = (λ h. h, Fresh-nil xs)

  Fresh-cons_iff : (x : T) (seen xs : List T) → Fresh (x ∷ seen) xs ↔ (¬ (In x xs) × Fresh seen xs)
  Fresh-cons_iff x seen [] = ground arith
  Fresh-cons_iff x seen (y ∷ ys) = ground (arith, Fresh-cons_iff x seen ys)

  find_duplicate_from-eq-none_iff :
      (seen xs : List T) → (find_duplicate_from seen xs ≡ none) ↔ (Fresh seen xs × NoDup xs)
  unfolding find_duplicate_from
  find_duplicate_from-eq-none_iff seen [] = ground arith
  find_duplicate_from-eq-none_iff seen (x ∷ xs) = ground (
    arith,
    contains_iff seen x,
    find_duplicate_from-eq-none_iff (x ∷ seen) xs,
    Fresh-cons_iff x seen xs,
  )

  -- `find_duplicate` finds nothing exactly when no element occurs twice.
  pub find_duplicate-eq-none_iff : (v : List T) → (find_duplicate v ≡ none) ↔ NoDup v
  unfolding find_duplicate
  find_duplicate-eq-none_iff v = ground (arith, find_duplicate_from-eq-none_iff [] v, Fresh-nil v)

  pub find_duplicate2-eq-none_iff :
      (a b : List T) → (find_duplicate2 a b ≡ none) ↔ All (λ x. ¬ (In x a)) b
  unfolding find_duplicate2
  find_duplicate2-eq-none_iff a [] = ground arith
  find_duplicate2-eq-none_iff a (x ∷ b) =
      ground (arith, contains_iff a x, find_duplicate2-eq-none_iff a b)

  pub find_duplicate2-eq-some :
      (a b : List T) (d : T) → find_duplicate2 a b ≡ some d → In d a × In d b
  unfolding find_duplicate2
  find_duplicate2-eq-some a [] d h = cc
  find_duplicate2-eq-some a (x ∷ b) d h = elim (Bool-cases (contains a x)) [
    | inl y ↦
        let q : x ≡ d = ground arith in (subst (λ z. In z a) q ((contains_iff a x).0 y), inl q)
    | inr n ↦ let (p, r) = find_duplicate2-eq-some a b d (ground arith) in (p, inr r)
  ]

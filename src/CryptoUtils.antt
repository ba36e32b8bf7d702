-- ===== src/CryptoUtils.antt =====
-- pingoo/crypto_utils.rs: the comparison of two byte strings. Its time is not modelled.
use pingoo.Prelude.{ℕ, List, [], ◌∷◌, Bool, true, false, ◌&&◌, eqb, ◌≡◌, ◌↔◌, arith}

abbrev pub constant_time_compare : List ℕ → List ℕ → Bool
constant_time_compare [] [] = true
constant_time_compare (x ∷ xs) (y ∷ ys) = eqb x y && constant_time_compare xs ys
constant_time_compare _ _ = false

pub constant_time_compare_iff : (xs ys : List ℕ) → (constant_time_compare xs ys ≡ true) ↔ (xs ≡ ys)
constant_time_compare_iff [] [] = ground arith
constant_time_compare_iff [] (y ∷ ys) = ground arith
constant_time_compare_iff (x ∷ xs) [] = ground arith
constant_time_compare_iff (x ∷ xs) (y ∷ ys) = ground (arith, constant_time_compare_iff xs ys)

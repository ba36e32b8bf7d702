-- ===== src/Prelude/Split.antt =====
-- Texts taken apart at a character, and what comes of texts put together with it.
use Prim.Native.Nat.{ℕ, zero, suc, ◌+◌}
use Prim.Native.Char.{Char, code}
use Prim.Native.String.{String, [], ◌∷◌}
use mathlib.Core.Path.{◌≡◌, refl, ap}
use mathlib.Core.Bool.{true, false}
use mathlib.Core.List.{List}
use native.Mathlib.Omega.{arith}
use pingoo.Prelude.Tests.{eqb, if◌then◌else◌}
use pingoo.Prelude.Text.{str_len, any_char}

abbrev pub append : String → String → String
append [] t = t
append (c ∷ s) t = c ∷ append s t

abbrev push_first : Char → List String → List String
push_first d List.[] = List.◌∷◌ (d ∷ []) List.[]
push_first d (List.◌∷◌ s xs) = List.◌∷◌ (d ∷ s) xs

-- `str::split` at a character
abbrev pub split : ℕ → String → List String
split c [] = List.◌∷◌ [] List.[]
split c (d ∷ s) = if eqb (code d) c then List.◌∷◌ [] (split c s) else push_first d (split c s)

-- `&s[..n]`
abbrev pub str_take : ℕ → String → String
str_take zero s = []
str_take (suc n) [] = []
str_take (suc n) (c ∷ s) = c ∷ str_take n s

-- The character is not in the text.
abbrev pub Lacks : ℕ → String → Type 0
Lacks c s = any_char (λ d. eqb d c) s ≡ false

pub split-Lacks : (c : ℕ) (s : String) → Lacks c s → split c s ≡ List.◌∷◌ s List.[]
split-Lacks c [] h = refl
split-Lacks c (d ∷ s) h = ground (arith, split-Lacks c s)

pub split-append :
    (c : ℕ) (d : Char) (s t : String)
    → Lacks c s
    → eqb (code d) c ≡ true
    → split c (append s (d ∷ t)) ≡ List.◌∷◌ s (split c t)
split-append c d [] t h e = ground arith
split-append c d (x ∷ s) t h e = ground (arith, split-append c d s t)

pub append_assoc : (s t u : String) → append (append s t) u ≡ append s (append t u)
append_assoc [] t u = refl
append_assoc (c ∷ s) t u = ap (λ x. c ∷ x) (append_assoc s t u)

pub str_len-append : (s t : String) → str_len (append s t) ≡ str_len s + str_len t
str_len-append [] t = omega arith
str_len-append (c ∷ s) t = omega (arith, str_len-append s t)

pub str_take-append : (s t : String) → str_take (str_len s) (append s t) ≡ s
str_take-append [] t = refl
str_take-append (c ∷ s) t = ap (λ x. c ∷ x) (str_take-append s t)

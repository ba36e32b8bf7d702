-- ===== src/Prelude/Results.antt =====
-- Rust's `Result<A, E>`, with `?` as `do`.
use mathlib.Core.Path.{◌≡◌, refl}
use mathlib.Core.Bool.{Bool, true, false}
use mathlib.Core.Logic.{◌⊎◌, inl, inr}
use mathlib.Core.Option.{Option, none, some}
use mathlib.Core.List.{List, [], ◌∷◌}

-- The error stands second, as in the source; the level of each side is its own.
pub data Result {ℓ κ} (A : Type ℓ) (E : Type κ) : Type (ℓ ⊔ κ) where
  err : E → Result A E
  ok : A → Result A E

module _ {ℓ κ μ} {A : Type ℓ} {B : Type κ} {E : Type μ} where
  infixl 5 ◌>>=◌
  abbrev pub ◌>>=◌ : Result A E → (A → Result B E) → Result B E
  err e >>= _ = err e
  ok a >>= next = next a

-- `if !test { return Err(e) }`, with the rest of the function behind it
abbrev pub ensure {ℓ κ} : {A : Type ℓ} {E : Type κ} → Bool → E → Result A E → Result A E
ensure true e rest = rest
ensure false e rest = err e

abbrev pub ok_or {ℓ κ} : {A : Type ℓ} {E : Type κ} → Option A → E → Result A E
ok_or none e = err e
ok_or (some a) e = ok a

-- `iter().map(f).collect::<Result<Vec<_>, _>>()`
unfoldable pub collect {ℓ κ μ} :
    {A : Type ℓ} {B : Type κ} {E : Type μ} → (A → Result B E) → List A → Result (List B) E
collect f [] = ok []
collect f (x ∷ xs) = do y ← f x; ys ← collect f xs; ok (y ∷ ys)

-- `o.map(f).map_or(Ok(None), |r| r.map(Some))?`
abbrev pub transpose {ℓ κ μ} :
    {A : Type ℓ} {B : Type κ} {E : Type μ} → (A → Result B E) → Option A → Result (Option B) E
transpose f none = ok none
transpose f (some a) = f a >>= λ b. ok (some b)

pub Result-cases {ℓ κ} :
    {A : Type ℓ} {E : Type κ} (r : Result A E) → ((a : A) × (r ≡ ok a)) ⊎ ((e : E) × (r ≡ err e))
Result-cases (err e) = inr (e, refl)
Result-cases (ok a) = inl (a, refl)

-- what a chain that succeeds has done first
pub bind-eq-ok {ℓ κ μ} :
    {A : Type ℓ} {B : Type κ} {E : Type μ} (r : Result A E) (next : A → Result B E) {b : B}
    → (r >>= next) ≡ ok b
    → (a : A) × (r ≡ ok a) × (next a ≡ ok b)
bind-eq-ok (err e) next p = cc
bind-eq-ok (ok a) next p = (a, refl, p)

pub ok-injective {ℓ κ} :
    {A : Type ℓ} (E : Type κ) {a b : A} → ◌≡◌ {A = Result A E} (ok a) (ok b) → a ≡ b
ok-injective E h = cc

pub ok_or-eq-ok {ℓ κ} :
    {A : Type ℓ} {E : Type κ} (o : Option A) (e : E) {a : A} → ok_or o e ≡ ok a → o ≡ some a
ok_or-eq-ok none e h = cc
ok_or-eq-ok (some a) e h = cc

pub ensure-eq-ok {ℓ κ} :
    {A : Type ℓ} {E : Type κ} (b : Bool) (e : E) {r : Result A E} {a : A}
    → ensure b e r ≡ ok a
    → (b ≡ true) × (r ≡ ok a)
ensure-eq-ok true e h = (refl, h)
ensure-eq-ok false e h = cc

-- ===== src/Prelude/Equality.antt =====
-- Rust's `Eq` as an interface: a Boolean test that decides equality.
use Prim.Native.Nat.{ℕ}
use Prim.Native.String.{String}
use mathlib.Core.Path.{◌≡◌, refl}
use mathlib.Core.Logic.{◌↔◌, ◌≢◌}
use mathlib.Core.Bool.{Bool, true, false}
use native.Mathlib.Omega.{arith}
use text.Mathlib.Text.{◌==◌ as str_eq}
use text.Mathlib.TextEquality.{eq_iff}
use pingoo.Prelude.Tests.{eqb, eqb_iff}

pub record Eq {ℓ} (A : Type ℓ) : Type ℓ where
  pub same : A → A → Bool
  pub same_iff : (x y : A) → (same x y ≡ true) ↔ (x ≡ y)

module _ {ℓ} {A : Type ℓ} ⦃e : Eq A⦄ where
  infix 50 ◌==◌
  abbrev pub ◌==◌ : A → A → Bool
  x == y = e.same x y

  pub ==_refl : (a : A) → (a == a) ≡ true
  ==_refl a = (e.same_iff a a).1 refl

  pub ==_ne : (a b : A) → a ≢ b → (a == b) ≡ false
  ==_ne a b h = ground (arith, e.same_iff a b)

  pub ==_sound : (a b : A) → (a == b) ≡ true → a ≡ b
  ==_sound a b h = (e.same_iff a b).0 h

  pub ==_false : (a b : A) → (a == b) ≡ false → a ≢ b
  ==_false a b h p = ground (arith, e.same_iff a b)

instance abbrev pub string_eq : Eq String
string_eq = record { same = str_eq; same_iff = eq_iff }

instance abbrev pub ℕ_eq : Eq ℕ
ℕ_eq = record { same = eqb; same_iff = eqb_iff }

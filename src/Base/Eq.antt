-- ===== src/Base/Eq.antt =====
-- Keys of maps: the Boolean equality of Rust's `Eq`, with its law.
use Prim.Native.Nat.{ℕ}
use Prim.Native.String.{String}
use mathlib.Core.Path.{◌≡◌, refl}
use mathlib.Core.Logic.{◌↔◌}
use mathlib.Core.Bool.{Bool, true, ◌&&◌}
use native.Mathlib.Omega.{arith}
use text.Mathlib.Text.{◌==◌ as str_eq}
use text.Mathlib.TextEquality.{eq_iff}
use ph_reactor.Base.Tests.{eqb, eqb_iff}

-- Types whose values a Boolean test tells apart.
pub record Eq {ℓ} (K : Type ℓ) : Type ℓ where
  pub same : K → K → Bool
  pub same_iff : (x y : K) → (same x y ≡ true) ↔ (x ≡ y)

instance abbrev pub string_eq : Eq String
string_eq = record { same_iff = eq_iff; same = str_eq }

instance abbrev pub nat_eq : Eq ℕ
nat_eq = record { same_iff = eqb_iff; same = eqb }

-- Pairs of texts, the keys of the model registry.
abbrev pub pair_same : String × String → String × String → Bool
pair_same (a, b) (c, d) = str_eq a c && str_eq b d

pub pair_same_iff : (p q : String × String) → (pair_same p q ≡ true) ↔ (p ≡ q)
pair_same_iff (a, b) (c, d) = ground (arith, eq_iff a c, eq_iff b d)

instance abbrev pub pair_eq : Eq (String × String)
pair_eq = record { same_iff = pair_same_iff; same = pair_same }

module _ {ℓ} {A : Type ℓ} ⦃e : Eq A⦄ where
  infix 50 ◌==◌
  abbrev pub ◌==◌ : A → A → Bool
  x == y = e.same x y

  pub ==_iff : (a b : A) → ((a == b) ≡ true) ↔ (a ≡ b)
  ==_iff a b = e.same_iff a b

  pub ==_self : (a : A) → (a == a) ≡ true
  ==_self a = (e.same_iff a a).1 refl

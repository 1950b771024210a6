-- ===== src/Base/Equality.antt =====
-- Go's `comparable` constraint: a type whose values are compared by `==`.
use Prim.Native.Nat.{ℕ}
use Prim.Native.String.{String}
use mathlib.Core.Path.{◌≡◌, refl}
use mathlib.Core.Logic.{◌↔◌}
use mathlib.Core.Bool.{Bool, true, ◌&&◌}
use native.Mathlib.Omega.{arith}
use text.Mathlib.Text.{◌==◌ as str_eq}
use text.Mathlib.TextEquality.{eq_iff}
use async_agreement_protocol.Base.Tests.{eqb, eqb_iff}

pub record Comparable {ℓ} (K : Type ℓ) : Type ℓ where
  pub equal : K → K → Bool
  pub equal_iff : (x y : K) → (equal x y ≡ true) ↔ (x ≡ y)

infix 50 ◌==◌
abbrev pub ◌==◌ {ℓ} : {A : Type ℓ} ⦃c : Comparable A⦄ → A → A → Bool
◌==◌ ⦃c⦄ = c.equal

instance abbrev pub nat_comparable : Comparable ℕ
nat_comparable = record { equal = eqb; equal_iff = eqb_iff }

instance abbrev pub string_comparable : Comparable String
string_comparable = record { equal = str_eq; equal_iff = eq_iff }

module _ {ℓ} {A : Type ℓ} ⦃c : Comparable A⦄ where
  pub beq_refl : (a : A) → (a == a) ≡ true
  beq_refl a = (c.equal_iff a a).1 refl

  pub eq_of_beq : {a b : A} → (a == b) ≡ true → a ≡ b
  eq_of_beq {a} {b} h = (c.equal_iff a b).0 h

module _ {ℓ κ} {A : Type ℓ} {B : Type κ} ⦃c : Comparable A⦄ ⦃d : Comparable B⦄ where
  abbrev pub pair_eq : A × B → A × B → Bool
  pair_eq p q = p.0 == q.0 && p.1 == q.1

  pub pair_eq_iff : (p q : A × B) → (pair_eq p q ≡ true) ↔ (p ≡ q)
  pair_eq_iff p q = ground (arith, c.equal_iff p.0 q.0, d.equal_iff p.1 q.1)

  instance abbrev pub pair_comparable : Comparable (A × B)
  pair_comparable = record { equal = pair_eq; equal_iff = pair_eq_iff }

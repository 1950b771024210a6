-- ===== src/Polynomial/Residues.antt =====
-- utils/polynomial.go: numbers that are equal modulo `Prime`.
use native.Mathlib.Nat.{div-add-mod, add-mul-mod_self_left}
use async_agreement_protocol.Base.{ℕ, suc, ◌+◌, ◌*◌, ◌/◌, ◌%◌, ◌≡◌, sym, ap, ◌∙◌, arith}
use async_agreement_protocol.Polynomial.Defs.{prime}
use async_agreement_protocol.Polynomial.Interpolate.{neg_mod}

infix 40 ◌≈◌
-- `a` and `b` differ by multiples of the prime.
pub record ◌≈◌ (a b : ℕ) : Type 0 where
  pub left : ℕ
  pub right : ℕ
  pub same : a + left * prime ≡ b + right * prime

pub of_eq : {a b : ℕ} → a ≡ b → a ≈ b
of_eq {a} {b} h = record { left = 0; right = 0; same = omega arith }

pub congruent_sym : {a b : ℕ} → a ≈ b → b ≈ a
congruent_sym {a} {b} h = record { left = h.right; right = h.left; same = sym h.same }

pub congruent_trans : {a b c : ℕ} → a ≈ b → b ≈ c → a ≈ c
congruent_trans {a} {b} {c} h k = record {
  left = h.left + k.left;
  right = h.right + k.right;
  same = omega (arith, h.same, k.same);
}

-- A multiple of a congruence may be added to both sides of a goal.
pub by : {x y a b : ℕ} (u : ℕ) → a ≈ b → x + u * a ≈ y + u * b → x ≈ y
by {x} {y} {a} {b} u h goal =
    let scaled : u * (a + h.left * prime) ≡ u * (b + h.right * prime) = ap (λ v. u * v) h.same in
    record {
      left = goal.left + u * h.right;
      right = goal.right + u * h.left;
      same = omega (arith, goal.same, scaled);
    }

-- A remainder is congruent to the number.
pub mod_congruent : (a : ℕ) → a % prime ≈ a
mod_congruent a = record { left = a / prime; right = 0; same = omega (arith, div-add-mod a prime) }

pub mod_of_congruent : {a b : ℕ} → a ≈ b → a % prime ≡ b % prime
mod_of_congruent {a} {b} h = sym (strip a h.left) ∙ ap (λ v. v % prime) h.same ∙ strip b h.right
  where
    strip : (a k : ℕ) → (a + k * prime) % prime ≡ a % prime
    strip a k = ap (λ v. (a + v) % prime) (omega arith) ∙ add-mul-mod_self_left a prime k

pub congruent_of_mod : {a b : ℕ} → a % prime ≡ b % prime → a ≈ b
congruent_of_mod {a} {b} h =
    congruent_trans (congruent_sym (mod_congruent a)) (congruent_trans (of_eq h) (mod_congruent b))

pub congruent-add : {a b c d : ℕ} → a ≈ b → c ≈ d → a + c ≈ b + d
congruent-add h k = by 1 (congruent_sym h) (by 1 (congruent_sym k) (of_eq (omega arith)))

pub congruent-mul : {a b c d : ℕ} → a ≈ b → c ≈ d → a * c ≈ b * d
congruent-mul {a} {b} {c} {d} h k =
    by c (congruent_sym h) (by b (congruent_sym k) (of_eq (omega arith)))

-- `neg_mod x` is -x.
pub neg_mod-cancel : (x : ℕ) → x + neg_mod x ≈ 0
unfolding neg_mod prime
neg_mod-cancel x = record { left = 0; right = suc (x / prime); same = omega arith }

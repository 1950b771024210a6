-- ===== src/Polynomial/Division.antt =====
-- utils/polynomial.go: the value at zero from the values at enough points.
use async_agreement_protocol.Base.{
  ℕ, zero, suc, ◌+◌, ◌*◌, ◌≤◌, refl, sym, List, [], ◌∷◌, length, arith,
}
use async_agreement_protocol.Polynomial.Defs.{evaluate_coeffs}
use async_agreement_protocol.Polynomial.Residues.{
  ◌≈◌, of_eq, congruent_sym, congruent_trans, by, congruent-add, congruent-mul, mod_congruent,
}
use async_agreement_protocol.Polynomial.Products.{product}
use async_agreement_protocol.Polynomial.Weights.{
  Apart, weighted-none, weighted-cons, weighted, weighted_ext, weighted_linear, weights_sum,
  AllApart, weight,
}

-- Horner's loop without the remainders.
pub value : List ℕ → ℕ → ℕ
value [] y = 0
value (c ∷ f) y = value f y * y + c

pub evaluate_coeffs-value : (f : List ℕ) (y : ℕ) → evaluate_coeffs f y ≈ value f y
unfolding evaluate_coeffs value
evaluate_coeffs-value [] y = of_eq refl
evaluate_coeffs-value (c ∷ f) y =
    congruent_trans (mod_congruent _)
      (congruent-add (congruent-mul (evaluate_coeffs-value f y) (of_eq refl)) (of_eq refl))

-- The quotient by y - a: synthetic division.
quotient : ℕ → List ℕ → List ℕ
quotient a [] = []
quotient a (c ∷ []) = []
quotient a (c ∷ d ∷ f) = value (d ∷ f) a ∷ quotient a (d ∷ f)

quotient_shorter : (a n : ℕ) (f : List ℕ) → length f ≤ suc n → length (quotient a f) ≤ n
unfolding quotient
quotient_shorter a n [] h = omega arith
quotient_shorter a n (c ∷ []) h = omega arith
quotient_shorter a zero (c ∷ d ∷ f) h = absurd (omega arith)
quotient_shorter a (suc n) (c ∷ d ∷ f) h = omega (arith, quotient_shorter a n (d ∷ f) (omega arith))

divided :
    (a n y : ℕ) (f : List ℕ) → a + n ≈ 0 → value f y ≈ value f a + (y + n) * value (quotient a f) y
unfolding value quotient
divided a n y [] h = of_eq (omega arith)
divided a n y (c ∷ []) h = of_eq (omega arith)
divided a n y (c ∷ d ∷ f) h =
    let ih = divided a n y (d ∷ f) h in
    by y (congruent_sym ih) (by (value (d ∷ f) a) h (of_eq (omega arith)))

module _ (x n : ℕ → ℕ) (inverse : ℕ → ℕ → ℕ) (negative : (m : ℕ) → x m + n m ≈ 0) where
  split_value :
      (k m : ℕ) (f : List ℕ)
      → Apart x n inverse k m
      → weight x n inverse m k * value f (x m)
        ≈ value f (x k) * (weight x n inverse m k * 1) + n k * value (quotient (x k) f) (x m)
  split_value k m f p =
      by (weight x n inverse m k) (congruent_sym (divided (x k) (n k) (x m) f (negative k)))
        (by (n k * value (quotient (x k) f) (x m)) (congruent_sym p.back) (of_eq (omega arith)))

  -- The weighted values of a polynomial with at most as many coefficients as there are points add
  -- up to its value at zero.
  pub weighted-value :
      (s : List ℕ) (f : List ℕ)
      → AllApart x n inverse s
      → length f ≤ length s
      → weighted x n inverse s (λ m. value f (x m)) ≈ value f 0
  unfolding value
  weighted-value [] [] p small = of_eq (weighted-none x n inverse _)
  weighted-value [] (c ∷ f) p small = absurd (omega arith)
  weighted-value (k ∷ s) f p small =
      let q : List ℕ = quotient (x k) f in
      let others : ℕ → ℕ = λ m. weight x n inverse m k * 1 in
      let rest =
        congruent_trans
          (weighted_ext x n inverse s _ (λ m. value f (x k) * others m + n k * value q (x m))
            (λ m i. split_value k m f (p.0 m i)))
          (weighted_linear x n inverse s (value f (x k)) (n k) others (λ m. value q (x m))) in
      let shorter = weighted-value s q p.1 (quotient_shorter (x k) (length s) f small) in
      congruent_trans (of_eq (weighted-cons x n inverse k s (λ m. value f (x m)))) (
        by 1 (congruent_sym rest) (
          by (n k) (congruent_sym shorter) (
            by 1 (divided (x k) (n k) 0 f (negative k))
              (by (value f (x k)) (congruent_sym weights_one) (of_eq (omega arith))))))
    where
      weights_one :
          product s (weight x n inverse k) * 1
            + weighted x n inverse s (λ m. weight x n inverse m k * 1)
          ≈ 1
      weights_one =
          congruent_trans (of_eq (sym (weighted-cons x n inverse k s (λ m. 1))))
            (weights_sum x n inverse negative k s p)

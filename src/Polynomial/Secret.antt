-- ===== src/Polynomial/Secret.antt =====
-- utils/polynomial.go, `InterpolateAtZero`, on the slices of a symmetric polynomial and on others
-- that agree with them.
use async_agreement_protocol.Base.{
  ℕ, zero, suc, ◌%◌, ◌≤◌, ◌<◌, ◌≡◌, refl, sym, ap, ◌∙◌, Bool, true, Option, some, List, [], ◌∷◌,
  length, arith, map, nat_comparable,
}
use async_agreement_protocol.Base.Members.{contains}
use async_agreement_protocol.Base.Counting.{count_list, count_list-le}
use async_agreement_protocol.Polynomial.Defs.{
  prime, get_or, Polynomial, evaluate, SymmetricPolynomial, coefficient, coeffs_loop,
  get_univariate_polynomial,
}
use async_agreement_protocol.Polynomial.Interpolate.{interpolate_at_zero}
use async_agreement_protocol.Polynomial.Residues.{
  ◌≈◌, of_eq, congruent_sym, congruent_trans, mod_of_congruent,
}
use async_agreement_protocol.Polynomial.Division.{value, evaluate_coeffs-value}
use async_agreement_protocol.Polynomial.Lagrange.{point}
use async_agreement_protocol.Polynomial.Slices.{
  IsSymmetric, slices_agree, bivariate_zero, evaluate-get_univariate_polynomial,
}
use async_agreement_protocol.Polynomial.Reconstruction.{
  InvertsDenominators, interpolate_at_zero-value, get_or-map, evaluate_reduced,
}
use async_agreement_protocol.Polynomial.Consistent.{same_at_zero}

contains-get_or : (xs : List ℕ) (k : ℕ) → k < length xs → contains xs (get_or xs k 0) ≡ true
contains-get_or [] k h = absurd (omega arith)
contains-get_or (x ∷ xs) zero h = ground arith
contains-get_or (x ∷ xs) (suc k) h = ground (arith, contains-get_or xs k (omega arith))

evaluate-value : (p : Polynomial) (x : ℕ) → evaluate p x ≈ value p.coeffs x
unfolding evaluate
evaluate-value p x = evaluate_coeffs-value p.coeffs x

pub length-get_univariate_polynomial :
    (sp : SymmetricPolynomial) (k : ℕ)
    → length (get_univariate_polynomial sp k).coeffs ≡ suc sp.degree
unfolding get_univariate_polynomial coeffs_loop
length-get_univariate_polynomial sp k = length-coeffs_loop (suc sp.degree) 0
  where
    length-coeffs_loop : (rounds j : ℕ) → length (coeffs_loop sp k rounds j) ≡ rounds
    length-coeffs_loop zero j = refl
    length-coeffs_loop (suc rounds) j = ap suc (length-coeffs_loop rounds (suc j))

secret_slice :
    (sp : SymmetricPolynomial)
    → value (get_univariate_polynomial sp 0).coeffs 0 % prime ≡ coefficient sp 0 0 % prime
secret_slice sp =
    sym (mod_of_congruent (evaluate-value (get_univariate_polynomial sp 0) 0))
    ∙ evaluate_reduced (get_univariate_polynomial sp 0) 0
    ∙ evaluate-get_univariate_polynomial sp 0 0
    ∙ ap (λ v. v % prime) (bivariate_zero sp)

module _ (mod_inverse : ℕ → Option ℕ) (xs : List ℕ) (inverts : InvertsDenominators mod_inverse xs)
    (sp : SymmetricPolynomial) (even : IsSymmetric sp) (polys : ℕ → Polynomial) (honest : ℕ → Bool)
    (slices : (u : ℕ)
      → contains xs u ≡ true
      → honest u ≡ true
      → polys u ≡ get_univariate_polynomial sp u)
    (short : (u : ℕ) → contains xs u ≡ true → length (polys u).coeffs ≤ suc sp.degree)
    (agree : (u v : ℕ)
      → contains xs u ≡ true
      → contains xs v ≡ true
      → evaluate (polys u) v ≡ evaluate (polys v) u)
    (enough : sp.degree < count_list honest xs) where
  -- Also the others hold polynomials with the values of their slices at zero.
  as_slice :
      (k : ℕ)
      → k < length xs
      → value (polys (point xs k)).coeffs 0
        ≈ value (get_univariate_polynomial sp (point xs k)).coeffs 0
  as_slice k small =
      let u = point xs k in
      let listed = contains-get_or xs k small in
      same_at_zero mod_inverse xs inverts honest (polys u).coeffs
        (get_univariate_polynomial sp u).coeffs (omega (arith, short u listed))
        (omega (arith, length-get_univariate_polynomial sp u))
        (λ m below good.
          let v = point xs m in
          let at = contains-get_or xs m below in
          congruent_trans (congruent_sym (evaluate-value (polys u) v)) (
            congruent_trans
              (of_eq (
                agree u v listed at
                ∙ ap (λ p. evaluate p u) (slices v at good)
                ∙ slices_agree sp v u even))
              (evaluate-value (get_univariate_polynomial sp u) v)))

  -- Interpolating the values at zero gives the secret.
  pub interpolate_at_zero-secret :
      interpolate_at_zero mod_inverse xs (map (λ u. evaluate (polys u) 0) xs)
      ≡ some (coefficient sp 0 0 % prime)
  interpolate_at_zero-secret =
      interpolate_at_zero-value mod_inverse xs inverts (map (λ u. evaluate (polys u) 0) xs)
        (get_univariate_polynomial sp 0).coeffs
        (omega (arith, length-get_univariate_polynomial sp 0, enough, count_list-le honest xs))
        (λ k small.
          let u = point xs k in
          congruent_trans (of_eq (get_or-map (λ u. evaluate (polys u) 0) xs k small)) (
            congruent_trans (evaluate-value (polys u) 0) (
              congruent_trans (as_slice k small) (
                congruent_trans (congruent_sym (evaluate-value (get_univariate_polynomial sp u) 0))
                  (congruent_trans (of_eq (slices_agree sp u 0 even))
                    (evaluate-value (get_univariate_polynomial sp 0) u))))))
      ∙ ap some (secret_slice sp)

-- ===== src/Polynomial/Reconstruction.antt =====
-- utils/polynomial.go, `InterpolateAtZero`, against `Evaluate`. `ModInverse` of math/big is given.
use native.Mathlib.Nat.{mod-mod, zero-mod}
use async_agreement_protocol.Base.{
  ℕ, zero, suc, ◌+◌, ◌*◌, ◌%◌, ◌≤◌, ◌<◌, ◌≡◌, refl, sym, ap, subst, ◌∙◌, Option, none, some, List,
  [], ◌∷◌, length, arith, map,
}
use async_agreement_protocol.Polynomial.Defs.{prime, get_or, Polynomial, evaluate, evaluate_coeffs}
use async_agreement_protocol.Polynomial.Interpolate.{
  basis_loop, lagrange_term, add_term, interpolate_step, interpolate_loop, interpolate_at_zero,
}
use async_agreement_protocol.Polynomial.Residues.{
  ◌≈◌, of_eq, congruent_sym, congruent_trans, by, congruent-mul, mod_congruent, neg_mod-cancel,
  mod_of_congruent, congruent_of_mod,
}
use async_agreement_protocol.Polynomial.Products.{
  total, range, total_ext, range_bounds, length-range,
}
use async_agreement_protocol.Polynomial.Weights.{weighted, weighted-range, weighted_ext}
use async_agreement_protocol.Polynomial.Division.{value, evaluate_coeffs-value, weighted-value}
use async_agreement_protocol.Polynomial.Lagrange.{
  denominator, point, minus, indices, inverse, AllApart-range, weight_used,
}

-- `ModInverse` returns an inverse modulo the prime of each denominator that the interpolation uses.
abbrev pub InvertsDenominators : (ℕ → Option ℕ) → List ℕ → Type 0
InvertsDenominators mod_inverse xs =
    (k : ℕ)
    → k < length xs
    → (b : ℕ) × (mod_inverse (denominator xs k) ≡ some b) × ((denominator xs k * b) % prime ≡ 1)

one_mod : 1 % prime ≡ 1
unfolding prime
one_mod = omega arith

abbrev pub found : Option ℕ → ℕ
found none = 0
found (some b) = b

lagrange_term_congruent : (y num b : ℕ) → lagrange_term y num b ≈ num * b * y
unfolding lagrange_term
lagrange_term_congruent y num b =
    congruent_trans (mod_congruent _)
      (congruent_trans (congruent-mul (mod_congruent _) (of_eq refl)) (of_eq (omega arith)))

module _ (mod_inverse : ℕ → Option ℕ) (xs : List ℕ)
    (inverts : InvertsDenominators mod_inverse xs) where
  abbrev pub used : ℕ → ℕ
  used k = found (mod_inverse (denominator xs k))

  is_found : (k : ℕ) → k < length xs → mod_inverse (denominator xs k) ≡ some (used k)
  is_found k h = let i = inverts k h in subst (λ o. o ≡ some (found o)) (sym i.1) refl

  pub is_inverse : (k : ℕ) → k < length xs → denominator xs k * used k ≈ 1
  is_inverse k h =
      let i = inverts k h in
      subst (λ o. denominator xs k * found o ≈ 1) (sym i.1) (congruent_of_mod (i.2 ∙ sym one_mod))

  module _ (ys : List ℕ) where
    -- What a round adds.
    abbrev summand : ℕ → ℕ
    summand k = (basis_loop xs k (length xs) 0 1 1).0 * used k * get_or ys k 0

    loop_sum :
        (rounds j result : ℕ)
        → j + rounds ≤ length xs
        → result % prime ≡ result
        → (v : ℕ) × (interpolate_loop mod_inverse xs ys rounds j (some result) ≡ some v)
          × (v ≈ result + total (range j rounds) summand)
          × (v % prime ≡ v)
    unfolding interpolate_loop interpolate_step total range
    loop_sum zero j result h e = (result, refl, of_eq (omega arith), e)
    loop_sum (suc rounds) j result h e =
        let num = (basis_loop xs j (length xs) 0 1 1).0 in
        let added = result + lagrange_term (get_or ys j 0) num (used j) in
        let (v, runs, sums, small) =
          loop_sum rounds (suc j) (added % prime) (omega arith) (mod-mod added prime) in
        (
          v,
          ap
                (λ o.
                  interpolate_loop mod_inverse xs ys rounds (suc j)
                    (add_term result (get_or ys j 0) num o))
                (is_found j (omega arith))
              ∙ runs,
          congruent_trans sums (
              by 1 (congruent_sym (mod_congruent added)) (
                by 1 (congruent_sym (lagrange_term_congruent (get_or ys j 0) num (used j)))
                  (of_eq (omega arith)))),
          small,
        )

    interpolate_at_zero_total :
        (v : ℕ) × (interpolate_at_zero mod_inverse xs ys ≡ some v)
        × (v
            ≈ weighted
                (point xs)
                (minus xs)
                (inverse xs used is_inverse)
                (indices xs)
                (λ k. get_or ys k 0))
        × (v % prime ≡ v)
    unfolding interpolate_at_zero
    interpolate_at_zero_total =
        let (v, runs, sums, small) = loop_sum (length xs) 0 0 (omega arith) (zero-mod prime) in
        (
          v,
          runs,
          congruent_trans sums (
              congruent_sym (
                congruent_trans
                  (weighted-range (point xs) (minus xs) (inverse xs used is_inverse) 0 (length xs)
                    _)
                  (congruent_trans
                    (total_ext (indices xs) _ summand (λ k i.
                      congruent-mul
                        (weight_used xs used is_inverse k
                          (omega (arith, (range_bounds k 0 (length xs) i).1)))
                        (of_eq refl)))
                    (of_eq (omega arith))))),
          small,
        )

    -- From the values of a polynomial with at most as many coefficients as there are points.
    pub interpolate_at_zero-value :
        (f : List ℕ)
        → length f ≤ length xs
        → ((k : ℕ) → k < length xs → get_or ys k 0 ≈ value f (point xs k))
        → interpolate_at_zero mod_inverse xs ys ≡ some (value f 0 % prime)
    interpolate_at_zero-value f few agree =
        let (v, runs, sums, small) = interpolate_at_zero_total in
        let at_points =
          weighted_ext (point xs) (minus xs) (inverse xs used is_inverse) (indices xs)
            (λ k. get_or ys k 0) (λ k. value f (point xs k))
            (λ k i. agree k (omega (arith, (range_bounds k 0 (length xs) i).1))) in
        let at_zero =
          weighted-value (point xs) (minus xs) (inverse xs used is_inverse)
            (λ k. neg_mod-cancel (point xs k)) (indices xs) f
            (AllApart-range xs used is_inverse 0 (length xs) (omega arith))
            (omega (arith, few, length-range 0 (length xs))) in
        runs
        ∙ ap some (
            sym small ∙ mod_of_congruent (congruent_trans sums (congruent_trans at_points at_zero)))

pub get_or-map :
    (f : ℕ → ℕ) (xs : List ℕ) (k : ℕ) → k < length xs → get_or (map f xs) k 0 ≡ f (get_or xs k 0)
get_or-map f [] k h = absurd (omega arith)
get_or-map f (x ∷ xs) zero h = refl
get_or-map f (x ∷ xs) (suc k) h = get_or-map f xs k (omega arith)

evaluate_coeffs_reduced : (f : List ℕ) (x : ℕ) → evaluate_coeffs f x % prime ≡ evaluate_coeffs f x
unfolding evaluate_coeffs
evaluate_coeffs_reduced [] x = zero-mod prime
evaluate_coeffs_reduced (c ∷ f) x = mod-mod _ prime

pub evaluate_reduced : (p : Polynomial) (x : ℕ) → evaluate p x % prime ≡ evaluate p x
unfolding evaluate
evaluate_reduced p x = evaluate_coeffs_reduced p.coeffs x

-- Interpolating the values of a polynomial returns its value at zero, if it has at most as many
-- coefficients as there are points, and each denominator has an inverse modulo the prime.
pub interpolate_at_zero-evaluate :
    (mod_inverse : ℕ → Option ℕ) (xs : List ℕ) (p : Polynomial)
    → InvertsDenominators mod_inverse xs
    → length p.coeffs ≤ length xs
    → interpolate_at_zero mod_inverse xs (map (evaluate p) xs) ≡ some (evaluate p 0)
unfolding evaluate
interpolate_at_zero-evaluate mod_inverse xs p inverts few =
    interpolate_at_zero-value mod_inverse xs inverts (map (evaluate p) xs) p.coeffs few (λ k h.
      congruent_trans (of_eq (get_or-map (evaluate p) xs k h))
        (evaluate_coeffs-value p.coeffs (get_or xs k 0)))
    ∙ ap some (
        sym (mod_of_congruent (evaluate_coeffs-value p.coeffs 0))
        ∙ evaluate_coeffs_reduced p.coeffs 0)

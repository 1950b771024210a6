-- ===== src/Polynomial/Lagrange.antt =====
-- utils/polynomial.go, `InterpolateAtZero`: its loops as products and sums.
use native.Mathlib.Decide.{ℕ_discrete}
use async_agreement_protocol.Base.{
  ℕ, zero, suc, ◌+◌, ◌*◌, ◌%◌, ◌≤◌, ◌<◌, ◌≡◌, ◌≢◌, refl, sym, ap, subst, ◌∙◌, List, length, arith,
  nat_comparable, ◌==◌, Bool-cases, inl, inr,
}
use async_agreement_protocol.Polynomial.Defs.{prime, get_or}
use async_agreement_protocol.Polynomial.Interpolate.{neg_mod, basis_loop}
use async_agreement_protocol.Polynomial.Residues.{
  ◌≈◌, of_eq, congruent_sym, congruent_trans, by, congruent-mul, mod_congruent,
}
use async_agreement_protocol.Polynomial.Products.{
  times, Among, product, range, masked, product-masked, product_ones, product-mul, range_bounds,
  masked_other, masked_same, product_ext, masked-mul,
}
use async_agreement_protocol.Polynomial.Weights.{weight, AllApart}

-- The denominator of the basis polynomial of the point `j`.
abbrev pub denominator : List ℕ → ℕ → ℕ
denominator xs j = (basis_loop xs j (length xs) 0 1 1).1

-- A factor taken by a round of the inner loop, and one that is skipped.
take_factor : (acc f p r : ℕ) → r ≈ acc * f % prime * p → r ≈ acc * (f * p)
take_factor acc f p r h =
    congruent_trans h
      (congruent_trans (congruent-mul (mod_congruent (acc * f)) (of_eq refl)) (of_eq (omega arith)))

skip_factor : (acc p r : ℕ) → r ≈ acc * p → r ≈ acc * (1 * p)
skip_factor acc p r h = congruent_trans h (of_eq (omega arith))

module _ (xs : List ℕ) where
  abbrev pub point : ℕ → ℕ
  point m = get_or xs m 0

  abbrev pub minus : ℕ → ℕ
  minus m = neg_mod (point m)

  abbrev gap : ℕ → ℕ → ℕ
  gap j m = point j + minus m

  abbrev pub indices : List ℕ
  indices = range 0 (length xs)

  basis_products :
      (j rounds m num den : ℕ)
      → ((basis_loop xs j rounds m num den).0 ≈ num * product (range m rounds) (masked j minus))
        × ((basis_loop xs j rounds m num den).1 ≈ den * product (range m rounds) (masked j (gap j)))
  unfolding basis_loop product range
  basis_products j zero m num den = (of_eq (omega arith), of_eq (omega arith))
  basis_products j (suc rounds) m num den = elim (Bool-cases (m == j)) [
    | inl e ↦
        let rest = basis_products j rounds (suc m) num den in
        rw e (skip_factor num _ _ rest.0, skip_factor den _ _ rest.1)
    | inr e ↦
        let rest =
          basis_products j rounds (suc m) (num * minus m % prime) (den * gap j m % prime) in
        rw e (take_factor num (minus m) _ _ rest.0, take_factor den (gap j m) _ _ rest.1)
  ]

  module _ (b : ℕ → ℕ) (inverts : (k : ℕ) → k < length xs → denominator xs k * b k ≈ 1) where
    -- The product of the other differences of the points, over the whole of them.
    abbrev pub inverse : ℕ → ℕ → ℕ
    inverse k m = b k * product indices (masked m (masked k (gap k)))

    all_gaps : (k : ℕ) → k < length xs → product indices (masked k (gap k)) * b k ≈ 1
    all_gaps k small =
        congruent_trans
          (congruent-mul
            (congruent_trans (of_eq (omega arith))
              (congruent_sym (basis_products k (length xs) 0 1 1).1))
            (of_eq refl))
          (inverts k small)

    gap-inverse : (k m : ℕ) → k < length xs → m < length xs → m ≢ k → gap k m * inverse k m ≈ 1
    gap-inverse k m small below other =
        congruent_trans
          (of_eq (
            move (gap k m) (masked k (gap k) m) (b k) _ _ (masked_other k m (gap k) other)
              (product-masked m 0 (length xs) (masked k (gap k)) (omega arith) (omega arith))))
          (all_gaps k small)
      where
        move : (g f c p q : ℕ) → f ≡ g → q ≡ f * p → g * (c * p) ≡ q * c
        move g f c p q e h = ap (λ v. v * (c * p)) (sym e) ∙ omega arith ∙ ap (λ v. v * c) (sym h)

    pub AllApart-range :
        (m rounds : ℕ) → m + rounds ≤ length xs → AllApart point minus inverse (range m rounds)
    unfolding range
    AllApart-range m zero h = tt
    AllApart-range m (suc rounds) h = (
      λ k i.
          let at = range_bounds k (suc m) rounds i in
          record {
            there =
                gap-inverse m k (omega arith) (omega (arith, at.1))
                  (λ e. (absurd (omega (arith, at.0))));
            back =
                gap-inverse k m (omega (arith, at.1)) (omega arith)
                  (λ e. (absurd (omega (arith, at.0))));
          },
      AllApart-range (suc m) rounds (omega arith),
    )

    -- The product of the inverses is the inverse of the product.
    product-inverse : (k : ℕ) → k < length xs → product indices (masked k (inverse k)) ≈ b k
    product-inverse k small =
        let gaps = product indices (masked k (gap k)) in
        let inverses = product indices (masked k (inverse k)) in
        by inverses (all_gaps k small)
          (by (b k) (congruent_sym both_products) (of_eq (omega arith)))
      where
        pair_one : (m : ℕ) → Among m indices → masked k (gap k) m * masked k (inverse k) m ≈ 1
        pair_one m i = elim (ℕ_discrete m k) [
          | yes e ↦ of_eq (
              subst (λ m. masked k (gap k) m * masked k (inverse k) m ≡ 1) (sym e)
                (times _ 1 _ 1 (masked_same k (gap k)) (masked_same k (inverse k))))
          | no e ↦
              congruent_trans
                (of_eq
                  (times _ _ _ _ (masked_other k m (gap k) e) (masked_other k m (inverse k) e)))
                (gap-inverse k m small (omega (arith, (range_bounds m 0 (length xs) i).1)) e)
        ]

        both_products :
            product indices (masked k (gap k)) * product indices (masked k (inverse k)) ≈ 1
        both_products =
            congruent_trans
              (of_eq (sym (product-mul indices (masked k (gap k)) (masked k (inverse k)))))
              (product_ones indices _ pair_one)

    -- The weight of a point is what the source multiplies its value by.
    pub weight_used :
        (k : ℕ)
        → k < length xs
        → product indices (masked k (weight point minus inverse k))
          ≈ (basis_loop xs k (length xs) 0 1 1).0 * b k
    weight_used k small =
        congruent_trans
          (of_eq (
            product_ext indices _ (λ m. masked k minus m * masked k (inverse k) m)
              (λ m i. masked-mul k m minus (inverse k))
            ∙ product-mul indices (masked k minus) (masked k (inverse k))))
          (congruent-mul
            (congruent_trans (of_eq (omega arith))
              (congruent_sym (basis_products k (length xs) 0 1 1).0))
            (product-inverse k small))

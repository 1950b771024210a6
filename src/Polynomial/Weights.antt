-- ===== src/Polynomial/Weights.antt =====
-- utils/polynomial.go: the Lagrange weights at zero, as a recursion on the points.
use async_agreement_protocol.Base.{
  sym, ◌≢◌, ◌∙◌, ℕ, zero, suc, ◌+◌, ◌*◌, ◌≡◌, refl, ap, List, [], ◌∷◌, arith,
}
use async_agreement_protocol.Polynomial.Products.{
  times, Among, first, later, product, range, total, total_ext, masked, range_bounds, masked_same,
  masked_other, product-masked_below,
}
use async_agreement_protocol.Polynomial.Residues.{
  ◌≈◌, of_eq, congruent_sym, congruent_trans, by, congruent-add, congruent-mul,
}

-- The point with index `m` is `x m`, `n m` is -(x m), and `inverse k m` is 1 / (x k - x m).
module _ (x n : ℕ → ℕ) (inverse : ℕ → ℕ → ℕ) where
  -- The factor -(x m) / (x k - x m).
  abbrev pub weight : ℕ → ℕ → ℕ
  weight k m = n m * inverse k m

  pub record Apart (k m : ℕ) : Type 0 where
    pub there : (x k + n m) * inverse k m ≈ 1
    pub back : (x m + n k) * inverse m k ≈ 1

  abbrev pub AllApart : List ℕ → Type 0
  AllApart [] = Unit {0}
  AllApart (k ∷ s) = ((m : ℕ) → Among m s → Apart k m) × AllApart s

  -- The sum of h(k) times the weights of k.
  pub weighted : List ℕ → (ℕ → ℕ) → ℕ
  weighted [] h = 0
  weighted (k ∷ s) h = product s (weight k) * h k + weighted s (λ m. weight m k * h m)

  pub weighted-none : (h : ℕ → ℕ) → weighted [] h ≡ 0
  unfolding weighted
  weighted-none h = refl

  pub weighted-cons :
      (k : ℕ) (s : List ℕ) (h : ℕ → ℕ)
      → weighted (k ∷ s) h ≡ product s (weight k) * h k + weighted s (λ m. weight m k * h m)
  unfolding weighted
  weighted-cons k s h = refl

  -- The sum in closed form, over the indices from `i` on.
  pub weighted-range :
      (i rounds : ℕ) (h : ℕ → ℕ)
      → weighted (range i rounds) h
        ≈ total (range i rounds) (λ k. product (range i rounds) (masked k (weight k)) * h k)
  unfolding weighted total product range
  weighted-range i zero h = of_eq refl
  weighted-range i (suc rounds) h = congruent-add (of_eq first_term) (
      congruent_trans (weighted-range (suc i) rounds (λ m. weight m i * h m))
        (total_ext (range (suc i) rounds) _ _ (λ k at. of_eq (next_term k at))))
    where
      first_term :
          product (range (suc i) rounds) (weight i) * h i
          ≡ masked i (weight i) i * product (range (suc i) rounds) (masked i (weight i)) * h i
      first_term = sym (
          ap (λ v. v * h i)
            (times _ 1 _ _ (masked_same i (weight i))
              (product-masked_below i (suc i) rounds (weight i) (omega arith)))
          ∙ omega arith)

      next_term :
          (k : ℕ)
          → Among k (range (suc i) rounds)
          → product (range (suc i) rounds) (masked k (weight k)) * (weight k i * h k)
            ≡ masked k (weight k) i * product (range (suc i) rounds) (masked k (weight k)) * h k
      next_term k at =
          let rest = product (range (suc i) rounds) (masked k (weight k)) in
          let apart : i ≢ k =
            λ e. (absurd (omega (arith, e, (range_bounds k (suc i) rounds at).0))) in
          ap (λ v. rest * (v * h k)) (sym (masked_other k i (weight k) apart)) ∙ omega arith

  pub weighted_ext :
      (s : List ℕ) (g h : ℕ → ℕ) → ((m : ℕ) → Among m s → g m ≈ h m) → weighted s g ≈ weighted s h
  unfolding weighted
  weighted_ext [] g h e = of_eq refl
  weighted_ext (k ∷ s) g h e =
      congruent-add (congruent-mul (of_eq refl) (e k first))
        (weighted_ext s _ _ (λ m i. congruent-mul (of_eq refl) (e m (later i))))

  pub weighted_linear :
      (s : List ℕ) (a b : ℕ) (g h : ℕ → ℕ)
      → weighted s (λ m. a * g m + b * h m) ≈ a * weighted s g + b * weighted s h
  unfolding weighted
  weighted_linear [] a b g h = of_eq (omega arith)
  weighted_linear (k ∷ s) a b g h =
      congruent_trans
        (congruent-add (of_eq refl) (
          congruent_trans
            (weighted_ext s _ (λ m. a * (weight m k * g m) + b * (weight m k * h m))
              (λ m i. of_eq (omega arith)))
            (weighted_linear s a b (λ m. weight m k * g m) (λ m. weight m k * h m))))
        (of_eq (omega arith))

  module _ (negative : (m : ℕ) → x m + n m ≈ 0) where
    -- 1/((y - a)(y - b)) in partial fractions.
    exchange :
        (a b y : ℕ)
        → Apart a y
        → Apart b y
        → (x a + n b) * (weight y a * weight y b) ≈ n b * weight y a + x a * weight y b
    exchange a b y p q =
        let i = inverse y a in
        let j = inverse y b in
        by (n b * j) (negative a) (
          by (n a * n b * i * j) (congruent_sym (negative a)) (
            by (n a * n b * j) p.back
              (by (n a * n b * i) (congruent_sym q.back) (of_eq (omega arith)))))

    toward : (a b : ℕ) → Apart a b → (x a + n b) * weight a b ≈ n b
    toward a b p = by (n b) (congruent_sym p.there) (of_eq (omega arith))

    away : (a b : ℕ) → Apart a b → (x a + n b) * weight b a ≈ x a
    away a b p =
        let i = inverse b a in
        by (n a) p.back (
          by 1 (negative a) (
            by (n a * i) (congruent_sym (negative a))
              (by (n a * i) (congruent_sym (negative b)) (of_eq (omega arith)))))

    -- The weights of the points without b, and without a, give those of all the points.
    recurrence :
        (a b : ℕ) (s : List ℕ)
        → AllApart (a ∷ b ∷ s)
        → (x a + n b) * weighted (a ∷ b ∷ s) (λ m. 1)
          ≈ n b * weighted (a ∷ s) (λ m. 1) + x a * weighted (b ∷ s) (λ m. 1)
    unfolding weighted product
    recurrence a b s (pa, pb) =
        by (product s (weight a)) (congruent_sym (toward a b (pa b first))) (
          by (product s (weight b)) (congruent_sym (away a b (pa b first)))
            (by 1 (congruent_sym inner) (of_eq (omega arith))))
      where
        both_weights : ℕ → ℕ
        both_weights m = weight m b * (weight m a * 1)

        step :
            (m : ℕ)
            → Among m s
            → x a * both_weights m + n b * both_weights m
              ≈ n b * (weight m a * 1) + x a * (weight m b * 1)
        step m i =
            by 1 (congruent_sym (exchange a b m (pa m (later i)) (pb.0 m i))) (of_eq (omega arith))

        inner :
            x a * weighted s both_weights + n b * weighted s both_weights
            ≈ n b * weighted s (λ m. weight m a * 1) + x a * weighted s (λ m. weight m b * 1)
        inner =
            congruent_trans
              (congruent_sym (weighted_linear s (x a) (n b) both_weights both_weights))
              (congruent_trans
                (weighted_ext s _ (λ m. n b * (weight m a * 1) + x a * (weight m b * 1))
                  (λ m i. step m i))
                (weighted_linear s (n b) (x a) (λ m. weight m a * 1) (λ m. weight m b * 1)))

    divide : (c i t : ℕ) → c * i ≈ 1 → c * t ≈ c → t ≈ 1
    divide c i t h k =
        by t h (by i (congruent_sym k) (by 1 (congruent_sym h) (of_eq (omega arith))))

    -- The weights of distinct points add up to 1.
    pub weights_sum : (a : ℕ) (s : List ℕ) → AllApart (a ∷ s) → weighted (a ∷ s) (λ m. 1) ≈ 1
    unfolding weighted product
    weights_sum a [] p = of_eq refl
    weights_sum a (b ∷ s) (pa, pb) =
        let without_b = weights_sum a s ((λ m i. pa m (later i)), pb.1) in
        let without_a = weights_sum b s pb in
        divide (x a + n b) (inverse a b) _ (pa b first).there (
          congruent_trans (recurrence a b s (pa, pb)) (
            by (n b) (congruent_sym without_b)
              (by (x a) (congruent_sym without_a) (of_eq (omega arith)))))

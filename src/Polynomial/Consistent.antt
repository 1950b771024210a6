-- ===== src/Polynomial/Consistent.antt =====
-- utils/polynomial.go, `InterpolateAtZero`, on polynomials that agree pairwise, some of which are
-- slices of a symmetric one.
use async_agreement_protocol.Base.{
  ℕ, suc, ◌+◌, ◌≤◌, ◌<◌, ◌≡◌, refl, ap, subst, ◌∙◌, Bool, true, Option, List, [], ◌∷◌, length,
  arith, inl, inr, Bool-cases, if◌then◌else◌, nat_comparable,
}
use async_agreement_protocol.Base.Counting.{count_list}
use async_agreement_protocol.Polynomial.Defs.{get_or}
use async_agreement_protocol.Polynomial.Residues.{
  ◌≈◌, congruent_sym, congruent_trans, neg_mod-cancel,
}
use async_agreement_protocol.Polynomial.Products.{Among, first, later, range, range_bounds}
use async_agreement_protocol.Polynomial.Weights.{weighted, weighted_ext, AllApart}
use async_agreement_protocol.Polynomial.Division.{value, weighted-value}
use async_agreement_protocol.Polynomial.Lagrange.{point, minus, inverse, AllApart-range}
use async_agreement_protocol.Polynomial.Reconstruction.{InvertsDenominators, used, is_inverse}

-- The indices of the points that pass the test.
keep : (ℕ → Bool) → List ℕ → List ℕ
keep p [] = []
keep p (m ∷ s) = if p m then m ∷ keep p s else keep p s

among_head :
    (p : ℕ → Bool) (m k : ℕ) (s t : List ℕ)
    → (Among m t → Among m s × (p m ≡ true))
    → p k ≡ true
    → Among m (k ∷ t)
    → Among m (k ∷ s) × (p m ≡ true)
among_head p m k s t within e first = (first, e)
among_head p m k s t within e (later j) = let rest = within j in (later rest.0, rest.1)

keep_among : (p : ℕ → Bool) (m : ℕ) (s : List ℕ) → Among m (keep p s) → Among m s × (p m ≡ true)
unfolding keep
keep_among p m [] i = elim i [ ]
keep_among p m (k ∷ s) i = elim (Bool-cases (p k)) [
  | inl e ↦
      among_head p m k s (keep p s) (keep_among p m s) e
        (subst (λ b. Among m (if b then k ∷ keep p s else keep p s)) e i)
  | inr e ↦
      let rest =
        keep_among p m s (subst (λ b. Among m (if b then k ∷ keep p s else keep p s)) e i) in
      (later rest.0, rest.1)
]

keep-AllApart :
    (x n : ℕ → ℕ) (inverse : ℕ → ℕ → ℕ) (p : ℕ → Bool) (s : List ℕ)
    → AllApart x n inverse s
    → AllApart x n inverse (keep p s)
unfolding keep
keep-AllApart x n inverse p [] h = tt
keep-AllApart x n inverse p (k ∷ s) h = elim (Bool-cases (p k)) [
  | inl e ↦ rw e (λ m i. h.0 m (keep_among p m s i).0, keep-AllApart x n inverse p s h.1)
  | inr e ↦ rw e (keep-AllApart x n inverse p s h.1)
]

length-keep :
    (p : ℕ → Bool) (f : ℕ → ℕ) (xs : List ℕ) (i : ℕ)
    → ((j : ℕ) → f (j + i) ≡ get_or xs j 0)
    → length (keep (λ k. p (f k)) (range i (length xs))) ≡ count_list p xs
unfolding keep range count_list
length-keep p f [] i h = refl
length-keep p f (x ∷ xs) i h =
    ground (arith, h 0, length-keep p f xs (suc i) (λ j. ap f (omega arith) ∙ h (suc j)))

-- Two polynomials with the same values at enough of the points have the same value at zero.
module _ (mod_inverse : ℕ → Option ℕ) (xs : List ℕ) (inverts : InvertsDenominators mod_inverse xs)
    (p : ℕ → Bool) where
  pub same_at_zero :
      (f g : List ℕ)
      → length f ≤ count_list p xs
      → length g ≤ count_list p xs
      → ((k : ℕ)
          → k < length xs
          → p (point xs k) ≡ true
          → value f (point xs k) ≈ value g (point xs k))
      → value f 0 ≈ value g 0
  same_at_zero f g short_f short_g agree = congruent_trans (congruent_sym (at_zero f short_f)) (
      congruent_trans
        (weighted_ext (point xs) (minus xs) inv kept _ _ (λ k i.
          let among = keep_among (λ k. p (point xs k)) k (range 0 (length xs)) i in
          agree k (omega (arith, (range_bounds k 0 (length xs) among.0).1)) among.1))
        (at_zero g short_g))
    where
      kept : List ℕ
      kept = keep (λ k. p (point xs k)) (range 0 (length xs))

      inv : ℕ → ℕ → ℕ
      inv = inverse xs (used mod_inverse xs inverts) (is_inverse mod_inverse xs inverts)

      at_zero :
          (f : List ℕ)
          → length f ≤ count_list p xs
          → weighted (point xs) (minus xs) inv kept (λ k. value f (point xs k)) ≈ value f 0
      at_zero f short =
          weighted-value (point xs) (minus xs) inv (λ k. neg_mod-cancel (point xs k)) kept f
            (keep-AllApart (point xs) (minus xs) inv (λ k. p (point xs k)) (range 0 (length xs))
              (AllApart-range xs (used mod_inverse xs inverts) (is_inverse mod_inverse xs inverts) 0
                (length xs) (omega arith)))
            (omega (arith, short, length-keep p (point xs) xs 0 (λ j. ap (point xs) (omega arith))))

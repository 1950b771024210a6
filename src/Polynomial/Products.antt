-- ===== src/Polynomial/Products.antt =====
-- utils/polynomial.go: products and sums over the indices of the points.
use native.Mathlib.Decide.{ℕ_discrete}
use async_agreement_protocol.Base.{
  ℕ, zero, suc, ◌+◌, ◌*◌, ◌≤◌, ◌<◌, ◌≡◌, ◌≢◌, refl, sym, ap, subst, ◌∙◌, List, [], ◌∷◌, length,
  arith, nat_comparable, eqb, if◌then◌else◌, Bool-cases, inl, inr,
}
use async_agreement_protocol.Polynomial.Residues.{◌≈◌, of_eq, congruent-mul, congruent-add}

-- One of the members of the list.
pub data Among (m : ℕ) : List ℕ → Type 0 where
  first : {s : List ℕ} → Among m (m ∷ s)
  later : {k : ℕ} {s : List ℕ} → Among m s → Among m (k ∷ s)

unfoldable pub product : List ℕ → (ℕ → ℕ) → ℕ
product [] f = 1
product (m ∷ s) f = f m * product s f

unfoldable pub total : List ℕ → (ℕ → ℕ) → ℕ
total [] f = 0
total (m ∷ s) f = f m + total s f

-- The numbers from `m` on.
unfoldable pub range : ℕ → ℕ → List ℕ
range m zero = []
range m (suc rounds) = m ∷ range (suc m) rounds

pub length-range : (m rounds : ℕ) → length (range m rounds) ≡ rounds
unfolding range
length-range m zero = refl
length-range m (suc rounds) = ap suc (length-range (suc m) rounds)

pub range_bounds : (k m rounds : ℕ) → Among k (range m rounds) → (m ≤ k) × (k < m + rounds)
unfolding range
range_bounds k m zero i = elim i [ ]
range_bounds k m (suc rounds) first = (omega arith, omega arith)
range_bounds k m (suc rounds) (later i) =
    let b = range_bounds k (suc m) rounds i in (omega (arith, b.0), omega (arith, b.1))

-- `f`, with 1 in place of the value at `k`.
abbrev pub masked : ℕ → (ℕ → ℕ) → ℕ → ℕ
masked k f m = if eqb m k then 1 else f m

pub product_ext :
    (s : List ℕ) (f g : ℕ → ℕ) → ((m : ℕ) → Among m s → f m ≡ g m) → product s f ≡ product s g
unfolding product
product_ext [] f g h = refl
product_ext (m ∷ s) f g h =
    ap (λ v. v * product s f) (h m first)
    ∙ ap (λ v. g m * v) (product_ext s f g (λ k i. h k (later i)))

pub total_ext :
    (s : List ℕ) (f g : ℕ → ℕ) → ((m : ℕ) → Among m s → f m ≈ g m) → total s f ≈ total s g
unfolding total
total_ext [] f g h = of_eq refl
total_ext (m ∷ s) f g h = congruent-add (h m first) (total_ext s f g (λ k i. h k (later i)))

pub product_ones : (s : List ℕ) (f : ℕ → ℕ) → ((m : ℕ) → Among m s → f m ≈ 1) → product s f ≈ 1
unfolding product
product_ones [] f h = of_eq refl
product_ones (m ∷ s) f h = congruent-mul (h m first) (product_ones s f (λ k i. h k (later i)))

pub product-mul :
    (s : List ℕ) (f g : ℕ → ℕ) → product s (λ m. f m * g m) ≡ product s f * product s g
unfolding product
product-mul [] f g = refl
product-mul (m ∷ s) f g = ap (λ v. f m * g m * v) (product-mul s f g) ∙ omega arith

pub masked-mul : (k m : ℕ) (f g : ℕ → ℕ) → masked k (λ m. f m * g m) m ≡ masked k f m * masked k g m
masked-mul k m f g = elim (Bool-cases (eqb m k)) [ inl e ↦ rw e refl | inr e ↦ rw e refl ]

pub masked_other : (k m : ℕ) (f : ℕ → ℕ) → m ≢ k → masked k f m ≡ f m
masked_other k m f h = ground arith

pub masked_same : (k : ℕ) (f : ℕ → ℕ) → masked k f k ≡ 1
masked_same k f = ground arith

pub times : (a b c d : ℕ) → a ≡ b → c ≡ d → a * c ≡ b * d
times a b c d e h = ap (λ v. v * c) e ∙ ap (λ v. b * v) h

-- Below the range, the mask does nothing.
pub product-masked_below :
    (k m rounds : ℕ) (f : ℕ → ℕ)
    → k < m
    → product (range m rounds) (masked k f) ≡ product (range m rounds) f
product-masked_below k m rounds f low =
    product_ext (range m rounds) (masked k f) f
      (λ i at. masked_other k i f (λ e. (absurd (omega (arith, (range_bounds i m rounds at).0)))))

moved : (a b c p q : ℕ) → a ≡ b → p ≡ c * q → b * p ≡ c * (a * q)
moved a b c p q e h = ap (λ v. b * v) h ∙ omega arith ∙ ap (λ v. c * (v * q)) (sym e)

kept : (a b p q : ℕ) → a ≡ 1 → q ≡ p → b * p ≡ b * (a * q)
kept a b p q e h = ap (λ v. b * v) (sym h) ∙ omega arith ∙ ap (λ v. b * (v * q)) (sym e)

-- The factor of an index in the range.
pub product-masked :
    (k m rounds : ℕ) (f : ℕ → ℕ)
    → m ≤ k
    → k < m + rounds
    → product (range m rounds) f ≡ f k * product (range m rounds) (masked k f)
unfolding product range
product-masked k m zero f low high = absurd (omega arith)
product-masked k m (suc rounds) f low high = elim (ℕ_discrete m k) [
  | yes e ↦
      subst
        (λ k.
          f m * product (range (suc m) rounds) f
          ≡ f k * (masked k f m * product (range (suc m) rounds) (masked k f)))
        e
        (kept (masked m f m) (f m) (product (range (suc m) rounds) f)
          (product (range (suc m) rounds) (masked m f)) (masked_same m f)
          (product-masked_below m (suc m) rounds f (omega arith)))
  | no e ↦
      moved (masked k f m) (f m) (f k) (product (range (suc m) rounds) f)
        (product (range (suc m) rounds) (masked k f)) (masked_other k m f e)
        (product-masked k (suc m) rounds f (omega arith) (omega arith))
]

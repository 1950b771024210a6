-- ===== src/Base/Counting.antt =====
-- Counting process ids 1..n by a Boolean test, and the quorum arguments.
use Prim.Native.Nat.{ℕ, zero, suc, ◌+◌, ◌-◌, ◌*◌, ◌≤◌, ◌<◌}
use mathlib.Core.Path.{◌≡◌, refl}
use mathlib.Core.Logic.{inl, inr}
use mathlib.Core.Bool.{Bool, true, false, not, ◌&&◌, ◌||◌}
use mathlib.Core.List.{List, [], ◌∷◌}
use native.Mathlib.Decide.{ℕ_discrete}
use native.Mathlib.Nat.{le_antisymm}
use native.Mathlib.Omega.{arith}
use async_agreement_protocol.Base.Tests.{if◌then◌else◌, Bool-cases, eqb, both}
use async_agreement_protocol.Base.Lists.{length}
use async_agreement_protocol.Base.Equality.{nat_comparable}
use async_agreement_protocol.Base.Members.{contains, Distinct}

-- How many of the ids 1..n pass the test.
unfoldable pub count_ids : (ℕ → Bool) → ℕ → ℕ
count_ids p zero = 0
count_ids p (suc n) = (if p (suc n) then 1 else 0) + count_ids p n

-- `i` is one of the ids 1..n.
abbrev pub IsId : ℕ → ℕ → Type 0
IsId n i = (1 ≤ i) × (i ≤ n)

abbrev pub AllIds : ℕ → List ℕ → Type 0
AllIds n [] = Unit {0}
AllIds n (x ∷ xs) = IsId n x × AllIds n xs

pub count_ids-le : (p : ℕ → Bool) (n : ℕ) → count_ids p n ≤ n
unfolding count_ids
count_ids-le p zero = omega arith
count_ids-le p (suc n) = ground (arith, count_ids-le p n)

pub count_ids_mono :
    (p q : ℕ → Bool) (n : ℕ)
    → ((i : ℕ) → IsId n i → p i ≡ true → q i ≡ true)
    → count_ids p n ≤ count_ids q n
unfolding count_ids
count_ids_mono p q zero h = omega arith
count_ids_mono p q (suc n) h =
    ground
      (arith, h (suc n) (omega arith), count_ids_mono p q n (λ i d. h i (d.0, omega (arith, d.1))))

-- Inclusion and exclusion.
pub count_ids-and-or :
    (p q : ℕ → Bool) (n : ℕ)
    → count_ids (λ i. p i && q i) n + count_ids (λ i. p i || q i) n ≡ count_ids p n + count_ids q n
unfolding count_ids
count_ids-and-or p q zero = refl
count_ids-and-or p q (suc n) = ground (arith, count_ids-and-or p q n)

pub count_ids-not : (p : ℕ → Bool) (n : ℕ) → count_ids p n + count_ids (λ i. not (p i)) n ≡ n
unfolding count_ids
count_ids-not p zero = refl
count_ids-not p (suc n) = ground (arith, count_ids-not p n)

-- A positive count has a witness.
pub count_ids_witness :
    (p : ℕ → Bool) (n : ℕ) → 0 < count_ids p n → (i : ℕ) × IsId n i × (p i ≡ true)
unfolding count_ids
count_ids_witness p zero h = absurd (omega arith)
count_ids_witness p (suc n) h = elim (Bool-cases (p (suc n))) [
  | inl e ↦ (suc n, (omega arith, omega arith), e)
  | inr e ↦
      let (i, d, q) = count_ids_witness p n (ground arith) in (i, (d.0, omega (arith, d.1)), q)
]

pub count_ids_zero : (p : ℕ → Bool) (n i : ℕ) → count_ids p n ≡ 0 → IsId n i → p i ≡ false
unfolding count_ids
count_ids_zero p zero i h d = absurd (omega arith)
count_ids_zero p (suc n) i h d = elim (ℕ_discrete i (suc n)) [
  | yes e ↦ ground arith
  | no e ↦ count_ids_zero p n i (ground arith) (d.0, omega arith)
]

count_ids_none : (p : ℕ → Bool) (n : ℕ) → ((i : ℕ) → p i ≡ false) → count_ids p n ≡ 0
unfolding count_ids
count_ids_none p zero h = refl
count_ids_none p (suc n) h = ground (arith, h (suc n), count_ids_none p n h)

count_ids_above : (x n : ℕ) → n < x → count_ids (λ i. eqb x i) n ≡ 0
unfolding count_ids
count_ids_above x zero h = refl
count_ids_above x (suc n) h = ground (arith, count_ids_above x n (omega arith))

count_ids_one : (x n : ℕ) → IsId n x → count_ids (λ i. eqb x i) n ≡ 1
unfolding count_ids
count_ids_one x zero h = absurd (omega arith)
count_ids_one x (suc n) h = elim (ℕ_discrete x (suc n)) [
  | yes e ↦ ground (arith, count_ids_above x n (omega arith))
  | no e ↦ ground (arith, count_ids_one x n (h.0, omega (arith, h.1)))
]

contains_eq : (xs : List ℕ) (x i : ℕ) → contains xs x ≡ false → (eqb x i && contains xs i) ≡ false
contains_eq xs x i h = ground arith

-- A list of distinct ids is as long as the set that it lists is large.
pub count_ids-contains :
    (xs : List ℕ) (n : ℕ) → Distinct xs → AllIds n xs → count_ids (contains xs) n ≡ length xs
count_ids-contains [] n d a = count_ids_none (contains []) n (λ i. refl)
count_ids-contains (x ∷ xs) n d a = omega (
  arith,
  count_ids-and-or (λ i. eqb x i) (contains xs) n,
  count_ids_none (λ i. eqb x i && contains xs i) n (λ i. contains_eq xs x i d.0),
  count_ids_one x n a.0,
  count_ids-contains xs n d.1 a.1,
)

-- How many entries of a list pass the test.
unfoldable pub count_list : (ℕ → Bool) → List ℕ → ℕ
count_list p [] = 0
count_list p (x ∷ xs) = (if p x then 1 else 0) + count_list p xs

pub count_list-le : (p : ℕ → Bool) (xs : List ℕ) → count_list p xs ≤ length xs
unfolding count_list
count_list-le p [] = omega arith
count_list-le p (x ∷ xs) = ground (arith, count_list-le p xs)

count_ids_at :
    (p : ℕ → Bool) (x n : ℕ) → IsId n x → count_ids (λ i. eqb x i && p i) n ≡ (if p x then 1 else 0)
count_ids_at p x n h = elim (Bool-cases (p x)) [
  | inl e ↦ rw e (
      le_antisymm
        (omega (
          arith,
          count_ids_mono (λ i. eqb x i && p i) (λ i. eqb x i) n (λ i d q. (both q).0),
          count_ids_one x n h,
        ))
        (omega (
          arith,
          count_ids_mono (λ i. eqb x i) (λ i. eqb x i && p i) n (λ i d q. ground arith),
          count_ids_one x n h,
        )))
  | inr e ↦ rw e (count_ids_none (λ i. eqb x i && p i) n (λ i. ground arith))
]

count_ids_eq : (p q : ℕ → Bool) (n : ℕ) → ((i : ℕ) → p i ≡ q i) → count_ids p n ≡ count_ids q n
unfolding count_ids
count_ids_eq p q zero h = refl
count_ids_eq p q (suc n) h = ground (arith, h (suc n), count_ids_eq p q n h)

pub count_ids-count_list :
    (p : ℕ → Bool) (xs : List ℕ) (n : ℕ)
    → Distinct xs
    → AllIds n xs
    → count_ids (λ i. contains xs i && p i) n ≡ count_list p xs
unfolding count_list
count_ids-count_list p [] n d a = count_ids_none (λ i. false && p i) n (λ i. refl)
count_ids-count_list p (x ∷ xs) n d a = omega (
  arith,
  count_ids-and-or (λ i. eqb x i && p i) (λ i. contains xs i && p i) n,
  count_ids_none (λ i. (eqb x i && p i) && (contains xs i && p i)) n (λ i. apart x i d.0),
  count_ids_eq (λ i. (eqb x i || contains xs i) && p i)
      (λ i. (eqb x i && p i) || (contains xs i && p i)) n (λ i. ground arith),
  count_ids_at p x n a.0,
  count_ids-count_list p xs n d.1 a.1,
)
  where
    apart : (x i : ℕ) → contains xs x ≡ false → ((eqb x i && p i) && (contains xs i && p i)) ≡ false
    apart x i h = ground arith

-- At most `t` of the ids 1..n are faulty.
module _ (honest : ℕ → Bool) (n t : ℕ) (few : count_ids (λ i. not (honest i)) n ≤ t) where
  -- More than `t` ids that pass a test include an honest one.
  pub honest_among :
      (p : ℕ → Bool) → t < count_ids p n → (i : ℕ) × IsId n i × (p i ≡ true) × (honest i ≡ true)
  honest_among p h =
      let (i, d, e) = count_ids_witness (λ i. p i && honest i) n enough in
      (i, d, (both e).0, (both e).1)
    where
      enough : 0 < count_ids (λ i. p i && honest i) n
      enough = omega (
        arith,
        few,
        count_ids-and-or p honest n,
        count_ids-not honest n,
        count_ids-le (λ i. p i || honest i) n,
      )

  -- So does a list of more than `t` distinct ids.
  pub honest_listed :
      (xs : List ℕ)
      → Distinct xs
      → AllIds n xs
      → t < length xs
      → (i : ℕ) × IsId n i × (contains xs i ≡ true) × (honest i ≡ true)
  honest_listed xs d a h = honest_among (contains xs) (omega (arith, count_ids-contains xs n d a))

  -- Two lists of at least n - t distinct ids share an honest id, where n > 3t.
  pub honest_shared :
      (xs ys : List ℕ)
      → Distinct xs
      → AllIds n xs
      → Distinct ys
      → AllIds n ys
      → 3 * t < n
      → n - t ≤ length xs
      → n - t ≤ length ys
      → (i : ℕ) × (contains xs i ≡ true) × (contains ys i ≡ true) × (honest i ≡ true)
  honest_shared xs ys dx ax dy ay big hx hy =
      let (i, d, e, g) = honest_among (λ i. contains xs i && contains ys i) enough in
      (i, (both e).0, (both e).1, g)
    where
      enough : t < count_ids (λ i. contains xs i && contains ys i) n
      enough = omega (
        arith,
        count_ids-and-or (contains xs) (contains ys) n,
        count_ids-contains xs n dx ax,
        count_ids-contains ys n dy ay,
        count_ids-le (λ i. contains xs i || contains ys i) n,
      )

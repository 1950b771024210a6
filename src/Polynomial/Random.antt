-- ===== src/Polynomial/Random.antt =====
-- utils/polynomial.go, `NewRandomSymmetricPolynomial`: the matrix that its loops fill.
use mathlib.Core.Option.{some-injective}
use async_agreement_protocol.Base.{
  ℕ, subst, zero, suc, ◌+◌, ◌≤◌, ◌<◌, ◌≡◌, refl, sym, ◌∙◌, inl, inr, ◌&&◌, Option, none, some, List,
  [], ◌∷◌, nat_comparable, eqb, ltb, if◌then◌else◌, length, arith, Bool-cases,
}
use async_agreement_protocol.Polynomial.Defs.{SymmetricPolynomial, get_or, coefficient}
use async_agreement_protocol.Polynomial.Interpolate.{
  set, set_cell, replicate, fill_cell, as_polynomial, fill_step, fill_row, fill_rows,
  new_random_symmetric_polynomial,
}
use async_agreement_protocol.Polynomial.Slices.{IsSymmetric}

module _ {ℓ} {A : Type ℓ} where
  get_or-set :
      (xs : List A) (i k : ℕ) (v d : A)
      → get_or (set xs i v) k d ≡ (if eqb k i && ltb i (length xs) then v else get_or xs k d)
  unfolding set
  get_or-set [] i k v d = ground arith
  get_or-set (x ∷ xs) zero zero v d = ground arith
  get_or-set (x ∷ xs) zero (suc k) v d = ground arith
  get_or-set (x ∷ xs) (suc i) zero v d = ground arith
  get_or-set (x ∷ xs) (suc i) (suc k) v d = ground (arith, get_or-set xs i k v d)

  length-set : (xs : List A) (i : ℕ) (v : A) → length (set xs i v) ≡ length xs
  unfolding set
  length-set [] i v = refl
  length-set (x ∷ xs) zero v = refl
  length-set (x ∷ xs) (suc i) v = omega (arith, length-set xs i v)

  length-replicate : (n : ℕ) (v : A) → length (replicate n v) ≡ n
  unfolding replicate
  length-replicate zero v = refl
  length-replicate (suc n) v = omega (arith, length-replicate n v)

  get_or-replicate : (n k : ℕ) (v d : A) → get_or (replicate n v) k d ≡ (if ltb k n then v else d)
  unfolding replicate
  get_or-replicate zero k v d = ground arith
  get_or-replicate (suc n) zero v d = ground arith
  get_or-replicate (suc n) (suc k) v d = ground (arith, get_or-replicate n k v d)

abbrev cell : List (List ℕ) → ℕ → ℕ → ℕ
cell rows i j = get_or (get_or rows i []) j 0

-- `size` rows of length `size`, with the same number at (i, j) and (j, i), and the secret at (0, 0).
record HoldsSecret (size secret : ℕ) (rows : List (List ℕ)) : Type 0 where
  height : length rows ≡ size
  width : (i : ℕ) → i < size → length (get_or rows i []) ≡ size
  even : (i j : ℕ) → cell rows i j ≡ cell rows j i
  secret_at : cell rows 0 0 ≡ secret

module _ (size : ℕ) (rows : List (List ℕ)) (height : length rows ≡ size)
    (width : (i : ℕ) → i < size → length (get_or rows i []) ≡ size) (i j v : ℕ) (hi : i < size)
    (hj : j < size) where
  cell-set_cell :
      (a b : ℕ) → cell (set_cell rows i j v) a b ≡ (if eqb a i && eqb b j then v else cell rows a b)
  unfolding set_cell
  cell-set_cell a b = ground (
    arith,
    get_or-set rows i a (set (get_or rows i []) j v) [],
    get_or-set (get_or rows i []) j b v 0,
    width i hi,
  )

  height-set_cell : length (set_cell rows i j v) ≡ size
  unfolding set_cell
  height-set_cell = omega (arith, length-set rows i (set (get_or rows i []) j v), height)

  width-set_cell : (k : ℕ) → k < size → length (get_or (set_cell rows i j v) k []) ≡ size
  unfolding set_cell
  width-set_cell k hk = ground (
    arith,
    get_or-set rows i k (set (get_or rows i []) j v) [],
    length-set (get_or rows i []) j v,
    width i hi,
    width k hk,
  )

-- The matrix of a loop that has not met an error.
abbrev Filled : ℕ → ℕ → Option (List (List ℕ)) → Type 0
Filled size secret none = Unit {0}
Filled size secret (some rows) = HoldsSecret size secret rows

module _ (size secret : ℕ) where
  two_cells-HoldsSecret :
      (rows : List (List ℕ)) (i j v : ℕ)
      → HoldsSecret size secret rows
      → i < size
      → j < size
      → 0 < i + j
      → HoldsSecret size secret (set_cell (set_cell rows i j v) j i v)
  two_cells-HoldsSecret rows i j v h hi hj apart =
      let once = set_cell rows i j v in
      let height = height-set_cell size rows h.height h.width i j v hi hj in
      let width = width-set_cell size rows h.height h.width i j v hi hj in
      let first = cell-set_cell size rows h.height h.width i j v hi hj in
      let second = cell-set_cell size once height width j i v hj hi in
      record {
        height = height-set_cell size once height width j i v hj hi;
        width = width-set_cell size once height width j i v hj hi;
        even = λ a b. ground (arith, second a b, second b a, first a b, first b a, h.even a b);
        secret_at = ground (arith, second 0 0, first 0 0, h.secret_at);
      }

  fill_cell-Filled :
      (rows : List (List ℕ)) (i j : ℕ) (v : Option ℕ)
      → HoldsSecret size secret rows
      → i < size
      → j < size
      → 0 < i + j
      → Filled size secret (fill_cell rows i j v)
  fill_cell-Filled rows i j none h hi hj apart = tt
  fill_cell-Filled rows i j (some v) h hi hj apart = two_cells-HoldsSecret rows i j v h hi hj apart

  module _ (random : ℕ → ℕ → Option ℕ) where
    fill_step-Filled :
        (i j : ℕ) (rows : List (List ℕ))
        → HoldsSecret size secret rows
        → i < size
        → j < size
        → Filled size secret (fill_step random i j rows)
    unfolding fill_step
    fill_step-Filled i j rows h hi hj = elim (Bool-cases (eqb (i + j) 0)) [
      | inl e ↦ rw e h
      | inr e ↦ rw e (fill_cell-Filled rows i j (random i j) h hi hj (ground arith))
    ]

    fill_row-Filled :
        (i rounds j : ℕ) (rows : Option (List (List ℕ)))
        → Filled size secret rows
        → i < size
        → j + rounds ≤ size
        → Filled size secret (fill_row random i rounds j rows)
    unfolding fill_row
    fill_row-Filled i zero j rows h hi hj = h
    fill_row-Filled i (suc rounds) j none h hi hj = tt
    fill_row-Filled i (suc rounds) j (some rows) h hi hj =
        fill_row-Filled i rounds (suc j) (fill_step random i j rows)
          (fill_step-Filled i j rows h hi (omega arith)) hi (omega arith)

    fill_rows-Filled :
        (rounds i : ℕ) (rows : Option (List (List ℕ)))
        → Filled size secret rows
        → i + rounds ≤ size
        → Filled size secret (fill_rows random rounds i rows)
    unfolding fill_rows
    fill_rows-Filled zero i rows h hi = h
    fill_rows-Filled (suc rounds) i rows h hi =
        fill_rows-Filled rounds (suc i) (fill_row random i (suc i) 0 rows)
          (fill_row-Filled i (suc i) 0 rows h (omega arith) (omega arith)) (omega arith)

abbrev zeros_row : ℕ → List ℕ
zeros_row degree = replicate (suc degree) 0

abbrev blank : ℕ → List (List ℕ)
blank degree = replicate (suc degree) (zeros_row degree)

cell-blank : (degree a b : ℕ) → cell (blank degree) a b ≡ 0
cell-blank degree a b = ground (
  arith,
  get_or-replicate (suc degree) a (zeros_row degree) [],
  get_or-replicate {A = ℕ} (suc degree) b 0 0,
)

blank-HoldsSecret : (degree : ℕ) → HoldsSecret (suc degree) 0 (blank degree)
blank-HoldsSecret degree = record {
  height = length-replicate (suc degree) (zeros_row degree);
  width = λ i hi. ground (
    arith,
    get_or-replicate (suc degree) i (zeros_row degree) [],
    length-replicate {A = ℕ} (suc degree) 0,
  );
  even = λ a b. cell-blank degree a b ∙ sym (cell-blank degree b a);
  secret_at = cell-blank degree 0 0;
}

secret-HoldsSecret :
    (degree secret : ℕ) → HoldsSecret (suc degree) secret (set_cell (blank degree) 0 0 secret)
secret-HoldsSecret degree secret =
    let rows : List (List ℕ) = blank degree in
    let h = blank-HoldsSecret degree in
    let z : 0 < suc degree = omega arith in
    let written = cell-set_cell (suc degree) rows h.height h.width 0 0 secret z z in
    record {
      height = height-set_cell (suc degree) rows h.height h.width 0 0 secret z z;
      width = width-set_cell (suc degree) rows h.height h.width 0 0 secret z z;
      even = λ a b. ground (arith, written a b, written b a, h.even a b);
      secret_at = ground (arith, written 0 0);
    }

as_polynomial-inv :
    (degree : ℕ) (rows : Option (List (List ℕ))) (sp : SymmetricPolynomial) (secret : ℕ)
    → Filled (suc degree) secret rows
    → as_polynomial degree rows ≡ some sp
    → IsSymmetric sp × (coefficient sp 0 0 ≡ secret) × (sp.degree ≡ degree)
as_polynomial-inv degree none sp secret h e = cc
as_polynomial-inv degree (some rows) sp secret h e =
    subst (λ q. IsSymmetric q × (coefficient q 0 0 ≡ secret) × (q.degree ≡ degree))
      (some-injective _ _ e) (h.even, h.secret_at, refl)

-- Unless the random reader fails, the polynomial is symmetric, has the given degree, and holds the
-- secret as its coefficient of x^0 * y^0.
pub new_random_symmetric_polynomial_lem :
    (random : ℕ → ℕ → Option ℕ) (degree secret : ℕ) (sp : SymmetricPolynomial)
    → new_random_symmetric_polynomial random degree secret ≡ some sp
    → IsSymmetric sp × (coefficient sp 0 0 ≡ secret) × (sp.degree ≡ degree)
unfolding new_random_symmetric_polynomial
new_random_symmetric_polynomial_lem random degree secret sp e =
    as_polynomial-inv degree _ sp secret
      (fill_rows-Filled (suc degree) secret random (suc degree) 0 _
        (secret-HoldsSecret degree secret) (omega arith))
      e

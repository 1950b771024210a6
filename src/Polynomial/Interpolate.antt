-- ===== src/Polynomial/Interpolate.antt =====
-- utils/polynomial.go, `InterpolateAtZero` and `NewRandomSymmetricPolynomial`. A nil from
-- `ModInverse`, on which the source then panics, is `none`; so is an error of the random reader.
use async_agreement_protocol.Base.{
  ℕ, zero, suc, ◌+◌, ◌-◌, ◌*◌, ◌%◌, Option, none, some, List, [], ◌∷◌, nat_comparable, ◌==◌,
  if◌then◌else◌, length,
}
use async_agreement_protocol.Polynomial.Defs.{prime, get_or, SymmetricPolynomial}

-- `-x`, as a residue.
unfoldable pub neg_mod : ℕ → ℕ
neg_mod x = prime - x % prime

-- The inner loop, with the number of rounds left, the index `m`, `num` and `den`.
unfoldable pub basis_loop : List ℕ → ℕ → ℕ → ℕ → ℕ → ℕ → ℕ × ℕ
basis_loop xs j zero m num den = (num, den)
basis_loop xs j (suc rounds) m num den =
    let xm = get_or xs m 0 in
    let xj = get_or xs j 0 in
    let skipped = basis_loop xs j rounds (suc m) num den in
    let taken =
      basis_loop xs j rounds (suc m) (num * neg_mod xm % prime) (den * (xj + neg_mod xm) % prime) in
    if m == j then skipped else taken

-- `term`, from `y_j`, `num` and the inverse of `den`.
unfoldable pub lagrange_term : ℕ → ℕ → ℕ → ℕ
lagrange_term y num inverse = y * num % prime * inverse % prime

abbrev pub add_term : ℕ → ℕ → ℕ → Option ℕ → Option ℕ
add_term result y num none = none
add_term result y num (some inverse) = some ((result + lagrange_term y num inverse) % prime)

module _ (mod_inverse : ℕ → Option ℕ) where
  -- The body of the outer loop.
  unfoldable pub interpolate_step : List ℕ → List ℕ → ℕ → ℕ → Option ℕ
  interpolate_step xs ys j result =
      let (num, den) = basis_loop xs j (length xs) 0 1 1 in
      add_term result (get_or ys j 0) num (mod_inverse den)

  -- The outer loop, with the number of rounds left, the index `j` and `result`.
  unfoldable pub interpolate_loop : List ℕ → List ℕ → ℕ → ℕ → Option ℕ → Option ℕ
  interpolate_loop xs ys zero j result = result
  interpolate_loop xs ys (suc rounds) j none = none
  interpolate_loop xs ys (suc rounds) j (some result) =
      interpolate_loop xs ys rounds (suc j) (interpolate_step xs ys j result)

  -- `InterpolateAtZero`. The result is never negative, so the correction at the end does nothing.
  unfoldable pub interpolate_at_zero : List ℕ → List ℕ → Option ℕ
  interpolate_at_zero xs ys = interpolate_loop xs ys (length xs) 0 (some 0)

-- `coeffs[i][j] = v`
unfoldable pub set {ℓ} : {A : Type ℓ} → List A → ℕ → A → List A
set [] i v = []
set (x ∷ xs) zero v = v ∷ xs
set (x ∷ xs) (suc i) v = x ∷ set xs i v

unfoldable pub set_cell : List (List ℕ) → ℕ → ℕ → ℕ → List (List ℕ)
set_cell rows i j v = set rows i (set (get_or rows i []) j v)

-- `make([]T, n)`
unfoldable pub replicate {ℓ} : {A : Type ℓ} → ℕ → A → List A
replicate zero v = []
replicate (suc n) v = v ∷ replicate n v

abbrev pub fill_cell : List (List ℕ) → ℕ → ℕ → Option ℕ → Option (List (List ℕ))
fill_cell rows i j none = none
fill_cell rows i j (some v) = some (set_cell (set_cell rows i j v) j i v)

abbrev pub as_polynomial : ℕ → Option (List (List ℕ)) → Option SymmetricPolynomial
as_polynomial degree none = none
as_polynomial degree (some rows) = some (record { coeffs = rows; degree = degree })

-- The readings of `rand.Int`, one for each coefficient.
module _ (random : ℕ → ℕ → Option ℕ) where
  unfoldable pub fill_step : ℕ → ℕ → List (List ℕ) → Option (List (List ℕ))
  fill_step i j rows =
      let read = fill_cell rows i j (random i j) in if i + j == 0 then some rows else read

  -- The inner loop, with the number of rounds left and the index `j`.
  unfoldable pub fill_row : ℕ → ℕ → ℕ → Option (List (List ℕ)) → Option (List (List ℕ))
  fill_row i zero j rows = rows
  fill_row i (suc rounds) j none = none
  fill_row i (suc rounds) j (some rows) = fill_row i rounds (suc j) (fill_step i j rows)

  -- The outer loop, with the number of rounds left and the index `i`.
  unfoldable pub fill_rows : ℕ → ℕ → Option (List (List ℕ)) → Option (List (List ℕ))
  fill_rows zero i rows = rows
  fill_rows (suc rounds) i rows = fill_rows rounds (suc i) (fill_row i (suc i) 0 rows)

  -- `NewRandomSymmetricPolynomial`
  unfoldable pub new_random_symmetric_polynomial : ℕ → ℕ → Option SymmetricPolynomial
  new_random_symmetric_polynomial degree secret =
      let blank = replicate (suc degree) (replicate (suc degree) 0) in
      as_polynomial degree (fill_rows (suc degree) 0 (some (set_cell blank 0 0 secret)))

-- ===== src/Polynomial/Dealing.antt =====
-- utils/polynomial.go, `NewRandomSymmetricPolynomial`, with a random reader that does not fail.
use async_agreement_protocol.Base.{
  ℕ, zero, suc, ◌+◌, ◌≡◌, refl, ap, inl, inr, Option, some, List, nat_comparable, ◌==◌, Bool-cases,
}
use async_agreement_protocol.Polynomial.Defs.{SymmetricPolynomial, coefficient}
use async_agreement_protocol.Polynomial.Interpolate.{
  set_cell, as_polynomial, fill_step, fill_row, fill_rows, new_random_symmetric_polynomial,
}
use async_agreement_protocol.Polynomial.Slices.{IsSymmetric}
use async_agreement_protocol.Polynomial.Random.{new_random_symmetric_polynomial_lem}

-- Every reading gives a number.
abbrev pub Reads : (ℕ → ℕ → Option ℕ) → Type 0
Reads random = (i j : ℕ) → (v : ℕ) × (random i j ≡ some v)

module _ (random : ℕ → ℕ → Option ℕ) (reads : Reads random) where
  abbrev Fills : Option (List (List ℕ)) → Type 0
  Fills o = (rows : List (List ℕ)) × (o ≡ some rows)

  fill_step-Fills : (i j : ℕ) (rows : List (List ℕ)) → Fills (fill_step random i j rows)
  unfolding fill_step
  fill_step-Fills i j rows = elim (Bool-cases (i + j == 0)) [
    | inl e ↦ (rows, rw e refl)
    | inr e ↦
        let read = reads i j in
        (set_cell (set_cell rows i j read.0) j i read.0, rw (e, read.1) refl)
  ]

  fill_row-Fills :
      (i rounds j : ℕ) (rows : List (List ℕ)) → Fills (fill_row random i rounds j (some rows))
  unfolding fill_row
  fill_row-Fills i zero j rows = (rows, refl)
  fill_row-Fills i (suc rounds) j rows =
      let step = fill_step-Fills i j rows in rw step.1 (fill_row-Fills i rounds (suc j) step.0)

  fill_rows-Fills :
      (rounds i : ℕ) (rows : List (List ℕ)) → Fills (fill_rows random rounds i (some rows))
  unfolding fill_rows
  fill_rows-Fills zero i rows = (rows, refl)
  fill_rows-Fills (suc rounds) i rows =
      let row = fill_row-Fills i (suc i) 0 rows in rw row.1 (fill_rows-Fills rounds (suc i) row.0)

  polynomial_made :
      (degree secret : ℕ)
      → (sp : SymmetricPolynomial) × (new_random_symmetric_polynomial random degree secret
          ≡ some sp)
  unfolding new_random_symmetric_polynomial
  polynomial_made degree secret =
      let filled = fill_rows-Fills (suc degree) 0 _ in (_, ap (as_polynomial degree) filled.1)

  -- With a random reader that does not fail, a polynomial is made: it is symmetric, has the given
  -- degree, and holds the secret as its coefficient of x^0 * y^0.
  pub new_random_symmetric_polynomial_total :
      (degree secret : ℕ)
      → (sp : SymmetricPolynomial) × (new_random_symmetric_polynomial random degree secret
          ≡ some sp)
        × IsSymmetric sp
        × (coefficient sp 0 0 ≡ secret)
        × (sp.degree ≡ degree)
  new_random_symmetric_polynomial_total degree secret =
      let made = polynomial_made degree secret in
      let holds = new_random_symmetric_polynomial_lem random degree secret made.0 made.1 in
      (made.0, made.1, holds.0, holds.1, holds.2)

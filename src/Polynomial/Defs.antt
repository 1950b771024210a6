-- ===== src/Polynomial/Defs.antt =====
-- utils/polynomial.go, as the source writes it. A `big.Int` is a natural number here: every number
-- that the code makes is a residue or a small index, and only residues matter to the results.
use async_agreement_protocol.Base.{ℕ, zero, suc, ◌+◌, ◌*◌, ◌%◌, ◌^◌, List, [], ◌∷◌}

-- `Prime`
unfoldable pub prime : ℕ
prime = 0xFFFFFFFFFFFFFFFFFFFFFFFFFFFFFFFFFFFFFFFFFFFFFFFFFFFFFFFEFFFFFC2F

-- The coefficients, the constant one first.
pub record Polynomial : Type 0 where
  pub coeffs : List ℕ

-- The loop of `Evaluate`. It goes from the last coefficient to the first.
unfoldable pub evaluate_coeffs : List ℕ → ℕ → ℕ
evaluate_coeffs [] x = 0
evaluate_coeffs (a ∷ rest) x = (evaluate_coeffs rest x * x + a) % prime

-- `Evaluate`
unfoldable pub evaluate : Polynomial → ℕ → ℕ
unfolding evaluate_coeffs
evaluate p x = evaluate_coeffs p.coeffs x

-- The matrix of the coefficients of x^i * y^j.
pub record SymmetricPolynomial : Type 0 where
  pub coeffs : List (List ℕ)
  pub degree : ℕ

module _ {ℓ} {A : Type ℓ} where
  abbrev pub get_or : List A → ℕ → A → A
  get_or [] i d = d
  get_or (x ∷ xs) zero d = x
  get_or (x ∷ xs) (suc i) d = get_or xs i d

-- `sp.Coeffs[i][j]`, where the source never reads out of range.
abbrev pub coefficient : SymmetricPolynomial → ℕ → ℕ → ℕ
coefficient sp i j = get_or (get_or sp.coeffs i []) j 0

-- `term`, from `C_{ij}` and `k^i`.
unfoldable pub term : SymmetricPolynomial → ℕ → ℕ → ℕ → ℕ
term sp k j i = coefficient sp i j * (k ^ i % prime) % prime

-- The inner loop, with the number of rounds left, the index `i` and `coeffJ`.
unfoldable pub coeff_loop : SymmetricPolynomial → ℕ → ℕ → ℕ → ℕ → ℕ → ℕ
coeff_loop sp k j zero i coeff = coeff
coeff_loop sp k j (suc rounds) i coeff =
    coeff_loop sp k j rounds (suc i) ((coeff + term sp k j i) % prime)

-- The outer loop, with the number of rounds left and the index `j`.
unfoldable pub coeffs_loop : SymmetricPolynomial → ℕ → ℕ → ℕ → List ℕ
coeffs_loop sp k zero j = []
coeffs_loop sp k (suc rounds) j =
    coeff_loop sp k j (suc sp.degree) 0 0 ∷ coeffs_loop sp k rounds (suc j)

-- `GetUnivariatePolynomial`
unfoldable pub get_univariate_polynomial : SymmetricPolynomial → ℕ → Polynomial
get_univariate_polynomial sp k = record { coeffs = coeffs_loop sp k (suc sp.degree) 0 }

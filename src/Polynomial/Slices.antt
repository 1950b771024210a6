-- ===== src/Polynomial/Slices.antt =====
-- utils/polynomial.go: what Horner's loop and the slices of a symmetric polynomial compute.
use native.Mathlib.Nat.{mod-add-mod, add-mod-mod, mod-mod, zero-mod, pow-suc, pow-zero, mul_comm}
use async_agreement_protocol.Base.{
  ℕ, zero, suc, ◌+◌, ◌*◌, ◌%◌, ◌^◌, ◌≡◌, sym, ap, ◌∙◌, List, [], ◌∷◌, length, arith,
}
use async_agreement_protocol.Polynomial.Defs.{
  prime, Polynomial, evaluate_coeffs, evaluate, SymmetricPolynomial, get_or, coefficient, term,
  coeff_loop, coeffs_loop, get_univariate_polynomial,
}
use async_agreement_protocol.Polynomial.Sums.{
  sum_to, sum_to-zero, sum_to-suc, sum_to_ext, sum_to-mul, sum_to_swap, mod-mul-mod,
}

horner :
    (n : ℕ) (f : ℕ → ℕ) (x : ℕ)
    → sum_to (suc n) (λ i. f i * x ^ i) ≡ sum_to n (λ i. f (suc i) * x ^ i) * x + f 0
horner n f x =
    sum_to-suc n _
    ∙ ap (λ s. f 0 * x ^ 0 + s)
        (sum_to_ext n _ _ step ∙ sym (sum_to-mul n x (λ i. f (suc i) * x ^ i)))
    ∙ last
  where
    step : (i : ℕ) → f (suc i) * x ^ suc i ≡ x * (f (suc i) * x ^ i)
    step i = grind (arith, pow-suc x i)

    last :
        f 0 * x ^ 0 + x * sum_to n (λ i. f (suc i) * x ^ i)
        ≡ sum_to n (λ i. f (suc i) * x ^ i) * x + f 0
    last = grind (arith, pow-zero x)

horner_mod : (e s x a : ℕ) → e ≡ s % prime → (e * x + a) % prime ≡ (s * x + a) % prime
horner_mod e s x a h =
    ap (λ e. (e * x + a) % prime) h
    ∙ sym (mod-add-mod (s % prime * x) prime a)
    ∙ ap (λ r. (r + a) % prime) (mod-mul-mod s x prime)
    ∙ mod-add-mod (s * x) prime a

evaluate_coeffs_lem :
    (l : List ℕ) (x : ℕ)
    → evaluate_coeffs l x ≡ sum_to (length l) (λ i. get_or l i 0 * x ^ i) % prime
unfolding evaluate_coeffs
evaluate_coeffs_lem [] x = sym (ap (λ s. s % prime) (sum_to-zero (λ i. 0 * x ^ i)) ∙ zero-mod prime)
evaluate_coeffs_lem (a ∷ l) x =
    horner_mod _ _ x a (evaluate_coeffs_lem l x)
    ∙ sym (ap (λ s. s % prime) (horner (length l) (λ i. get_or (a ∷ l) i 0) x))

-- Horner's loop computes the sum of the a_i * x^i, modulo the prime.
evaluate_lem :
    (p : Polynomial) (x : ℕ)
    → evaluate p x ≡ sum_to (length p.coeffs) (λ i. get_or p.coeffs i 0 * x ^ i) % prime
unfolding evaluate
evaluate_lem p x = evaluate_coeffs_lem p.coeffs x

-- The sum of all C_{ij} * x^i * y^j.
pub bivariate : SymmetricPolynomial → ℕ → ℕ → ℕ
bivariate sp x y =
    sum_to (suc sp.degree) (λ j. sum_to (suc sp.degree) (λ i. coefficient sp i j * x ^ i) * y ^ j)

sum_at_zero : (n : ℕ) (f : ℕ → ℕ) → sum_to (suc n) (λ i. f i * 0 ^ i) ≡ f 0
sum_at_zero n f = horner n f 0 ∙ omega arith

pub bivariate_zero : (sp : SymmetricPolynomial) → bivariate sp 0 0 ≡ coefficient sp 0 0
unfolding bivariate
bivariate_zero sp = sum_at_zero sp.degree _ ∙ sum_at_zero sp.degree (λ i. coefficient sp i 0)

module _ (sp : SymmetricPolynomial) (k : ℕ) where
  -- The terms of the inner sum, from `i` on.
  abbrev powers : ℕ → ℕ → ℕ → ℕ
  powers j i m = coefficient sp (i + m) j * k ^ (i + m)

  term-mod : (j i : ℕ) → term sp k j i ≡ coefficient sp i j * k ^ i % prime
  unfolding term
  term-mod j i =
      ap (λ x. x % prime) (mul_comm (coefficient sp i j) (k ^ i % prime))
      ∙ mod-mul-mod (k ^ i) (coefficient sp i j) prime
      ∙ ap (λ x. x % prime) (mul_comm (k ^ i) (coefficient sp i j))

  coeff_loop_lem :
      (j rounds i c : ℕ)
      → c % prime ≡ c
      → coeff_loop sp k j rounds i c ≡ (c + sum_to rounds (powers j i)) % prime
  unfolding coeff_loop
  coeff_loop_lem j zero i c h =
      sym (
        ap (λ s. (c + s) % prime) (sum_to-zero (powers j i))
        ∙ ap (λ x. x % prime) (omega arith)
        ∙ h)
  coeff_loop_lem j (suc rounds) i c h =
      coeff_loop_lem j rounds (suc i) ((c + term sp k j i) % prime)
        (mod-mod (c + term sp k j i) prime)
      ∙ mod-add-mod (c + term sp k j i) prime _
      ∙ ap (λ s. (c + term sp k j i + s) % prime) (sum_to_ext rounds _ _ shift)
      ∙ ap (λ t. (c + t + sum_to rounds (λ m. powers j i (suc m))) % prime) (term-mod j i)
      ∙ ap (λ x. x % prime) (regroup _ _)
      ∙ mod-add-mod _ prime _
      ∙ ap (λ x. x % prime)
          (whole (sum_to rounds (λ m. powers j i (suc m)))
            ∙ ap (λ s. c + s) (sym (sum_to-suc rounds (powers j i))))
    where
      shift : (m : ℕ) → powers j (suc i) m ≡ powers j i (suc m)
      shift m = ap (λ q. coefficient sp q j * k ^ q) (omega arith)

      regroup : (r s : ℕ) → c + r + s ≡ r + (c + s)
      regroup r s = omega arith

      whole : (s : ℕ) → coefficient sp i j * k ^ i + (c + s) ≡ c + (powers j i 0 + s)
      whole s =
          let e : i ≡ i + 0 = omega arith in
          ap (λ q. coefficient sp q j * k ^ q + (c + s)) e ∙ omega arith

  -- The coefficient of y^j in the slice.
  abbrev slice_coeff : ℕ → ℕ
  slice_coeff j = sum_to (suc sp.degree) (λ i. coefficient sp i j * k ^ i)

  first_coeff : (j : ℕ) → coeff_loop sp k j (suc sp.degree) 0 0 ≡ slice_coeff j % prime
  first_coeff j =
      coeff_loop_lem j (suc sp.degree) 0 0 (zero-mod prime)
      ∙ ap (λ x. x % prime)
          (start (sum_to (suc sp.degree) (powers j 0)) ∙ sum_to_ext (suc sp.degree) _ _ shift)
    where
      shift : (m : ℕ) → powers j 0 m ≡ coefficient sp m j * k ^ m
      shift m = ap (λ q. coefficient sp q j * k ^ q) (omega arith)

      start : (s : ℕ) → 0 + s ≡ s
      start s = omega arith

  coeffs_loop_lem :
      (y rounds j : ℕ)
      → evaluate_coeffs (coeffs_loop sp k rounds j) y
        ≡ sum_to rounds (λ m. slice_coeff (j + m) * y ^ m) % prime
  unfolding evaluate_coeffs coeffs_loop
  coeffs_loop_lem y zero j =
      sym (ap (λ s. s % prime) (sum_to-zero (λ m. slice_coeff (j + m) * y ^ m)) ∙ zero-mod prime)
  coeffs_loop_lem y (suc rounds) j =
      horner_mod _ _ y _
        (coeffs_loop_lem y rounds (suc j) ∙ ap (λ s. s % prime) (sum_to_ext rounds _ _ shift))
      ∙ ap (λ c. (sum_to rounds (λ m. slice_coeff (j + suc m) * y ^ m) * y + c) % prime)
          (first_coeff j)
      ∙ add-mod-mod _ _ prime
      ∙ ap (λ c. (sum_to rounds (λ m. slice_coeff (j + suc m) * y ^ m) * y + slice_coeff c) % prime)
          here
      ∙ sym (ap (λ s. s % prime) (horner rounds (λ m. slice_coeff (j + m)) y))
    where
      shift : (m : ℕ) → slice_coeff (suc j + m) * y ^ m ≡ slice_coeff (j + suc m) * y ^ m
      shift m = ap (λ q. slice_coeff q * y ^ m) (omega arith)

      here : j ≡ j + 0
      here = omega arith

  -- The slice of the polynomial at k, evaluated at y, is the sum of all C_ij * k^i * y^j modulo the
  -- prime.
  pub evaluate-get_univariate_polynomial :
      (y : ℕ) → evaluate (get_univariate_polynomial sp k) y ≡ bivariate sp k y % prime
  unfolding evaluate get_univariate_polynomial bivariate
  evaluate-get_univariate_polynomial y =
      coeffs_loop_lem y (suc sp.degree) 0
      ∙ ap (λ s. s % prime) (sum_to_ext (suc sp.degree) _ _ shift)
    where
      shift : (m : ℕ) → slice_coeff (0 + m) * y ^ m ≡ slice_coeff m * y ^ m
      shift m = ap (λ q. slice_coeff q * y ^ m) (omega arith)

abbrev pub IsSymmetric : SymmetricPolynomial → Type 0
IsSymmetric sp = (i j : ℕ) → coefficient sp i j ≡ coefficient sp j i

exchange : (c a b : ℕ) → c * a * b ≡ c * b * a
exchange c a b = omega arith

bivariate_comm :
    (sp : SymmetricPolynomial) (x y : ℕ) → IsSymmetric sp → bivariate sp x y ≡ bivariate sp y x
unfolding bivariate
bivariate_comm sp x y h =
    sum_to_ext n _ _ (λ j. inward x y j)
    ∙ sum_to_swap n n (λ j i. coefficient sp i j * x ^ i * y ^ j)
    ∙ sum_to_ext n _ _ (λ i. sum_to_ext n _ _ (λ j. mirror i j) ∙ sym (inward y x i))
  where
    n : ℕ
    n = suc sp.degree

    inward :
        (x y j : ℕ)
        → sum_to n (λ i. coefficient sp i j * x ^ i) * y ^ j
          ≡ sum_to n (λ i. coefficient sp i j * x ^ i * y ^ j)
    inward x y j =
        mul_comm _ (y ^ j) ∙ sum_to-mul n (y ^ j) _ ∙ sum_to_ext n _ _ (λ i. mul_comm (y ^ j) _)

    mirror : (i j : ℕ) → coefficient sp i j * x ^ i * y ^ j ≡ coefficient sp j i * y ^ j * x ^ i
    mirror i j = ap (λ c. c * x ^ i * y ^ j) (h i j) ∙ exchange (coefficient sp j i) (x ^ i) (y ^ j)

-- Two slices of a symmetric polynomial agree: the slice at i, evaluated at j, is the slice at j,
-- evaluated at i.
pub slices_agree :
    (sp : SymmetricPolynomial) (i j : ℕ)
    → IsSymmetric sp
    → evaluate (get_univariate_polynomial sp i) j ≡ evaluate (get_univariate_polynomial sp j) i
slices_agree sp i j h =
    evaluate-get_univariate_polynomial sp i j
    ∙ ap (λ s. s % prime) (bivariate_comm sp i j h)
    ∙ sym (evaluate-get_univariate_polynomial sp j i)

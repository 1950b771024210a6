-- ===== src/Ivss/Unanimous.antt =====
-- services/ivss.go, `checkInterpolationSet`, when every process in M reveals what the dealer sent it.
use mathlib.Core.List.{append-nil, append_assoc}
use async_agreement_protocol.Base.{
  ℕ, ◌-◌, ◌*◌, ◌%◌, ◌≤◌, ◌<◌, ◌≡◌, refl, sym, ap, subst, ◌∙◌, true, Option, some, List, [], ◌∷◌,
  ◌++◌, nat_comparable, arith, length,
}
use async_agreement_protocol.Base.Maps.{Map}
use async_agreement_protocol.Base.Members.{contains, contains-append}
use async_agreement_protocol.Base.Counting.{count_list}
use async_agreement_protocol.Certification.{CertificationProtocol}
use async_agreement_protocol.Polynomial.{
  prime, Polynomial, SymmetricPolynomial, get_univariate_polynomial,
  new_random_symmetric_polynomial,
}
use async_agreement_protocol.Polynomial.Random.{new_random_symmetric_polynomial_lem}
use async_agreement_protocol.Polynomial.Reconstruction.{InvertsDenominators}
use async_agreement_protocol.Polynomial.Secret.{length-get_univariate_polynomial}
use async_agreement_protocol.Polynomial.Slices.{IsSymmetric}
use async_agreement_protocol.Ivss.Types.{IvssInstance, IvssService, IvssOutside}
use async_agreement_protocol.Ivss.Sets.{
  poly_of, agrees, scan_next, scan, take_scan, candidates, valid_loop, interpolation_target,
}
use async_agreement_protocol.Ivss.Service.{check_interpolation_set}
use async_agreement_protocol.Ivss.Faults.{honest-is_consistent}
use async_agreement_protocol.Ivss.Recovery.{recovered, check_interpolation_set-recovered}

count_list_all : (xs : List ℕ) → count_list (λ u. true) xs ≡ length xs
unfolding count_list
count_list_all [] = refl
count_list_all (x ∷ xs) = omega (arith, count_list_all xs)

module _ (polys : Map ℕ (Option Polynomial)) (sp : SymmetricPolynomial)
    (even : IsSymmetric sp) where
  abbrev AllSlices : List ℕ → Type 0
  AllSlices us =
      (u : ℕ) → contains us u ≡ true → poly_of polys u ≡ some (get_univariate_polynomial sp u)

  scan-AllSlices :
      (c : ℕ) (us : List ℕ)
      → poly_of polys c ≡ some (get_univariate_polynomial sp c)
      → AllSlices us
      → scan polys c us ≡ agrees
  unfolding scan
  scan-AllSlices c [] hc h = refl
  scan-AllSlices c (v ∷ vs) hc h =
      ap (λ b. scan_next v b (scan polys c vs))
        (honest-is_consistent polys sp c v even hc (h v (ground arith)))
      ∙ scan-AllSlices c vs hc (λ u i. h u (ground arith))

  valid_loop-AllSlices :
      (cs valid : List ℕ) (cp : CertificationProtocol)
      → AllSlices (valid ++ cs)
      → valid_loop polys cs (some (valid, cp)) ≡ some (valid ++ cs, cp)
  unfolding valid_loop
  valid_loop-AllSlices [] valid cp h = ap (λ l. some (l, cp)) (sym (append-nil valid))
  valid_loop-AllSlices (c ∷ cs) valid cp h =
      ap (λ r. valid_loop polys cs (take_scan c valid cp r))
        (scan-AllSlices c valid (h c (ground (arith, contains-append valid (c ∷ cs) c)))
          (λ u i. h u (ground (arith, i, contains-append valid (c ∷ cs) u))))
      ∙ valid_loop-AllSlices cs (valid ++ c ∷ []) cp
          (subst AllSlices (sym (append_assoc valid (c ∷ []) cs)) h)
      ∙ ap (λ l. some (l, cp)) (append_assoc valid (c ∷ []) cs)

-- If the dealer makes the polynomial, and every process in M that revealed one revealed its slice,
-- then once n - 2t of them have, the secret modulo the prime is computed, and no pair becomes faulty.
pub check_interpolation_set-all_slices :
    (outside : IvssOutside) (s : IvssService) (inst : IvssInstance) (m_set : List ℕ)
    (random : ℕ → ℕ → Option ℕ) (secret : ℕ) (sp : SymmetricPolynomial)
    → 3 * s.t < s.n
    → new_random_symmetric_polynomial random s.t secret ≡ some sp
    → ((u : ℕ)
        → contains (candidates inst.reconstructed_polys m_set) u ≡ true
        → poly_of inst.reconstructed_polys u ≡ some (get_univariate_polynomial sp u))
    → s.n - 2 * s.t ≤ length (candidates inst.reconstructed_polys m_set)
    → InvertsDenominators outside.mod_inverse (candidates inst.reconstructed_polys m_set)
    → check_interpolation_set outside s (some m_set) inst
      ≡ recovered outside s inst (secret % prime) s.cp
unfolding interpolation_target
check_interpolation_set-all_slices outside s inst m_set random secret sp big deals slices many
      inverts =
    let chosen = candidates inst.reconstructed_polys m_set in
    let (even, holds, degree) = new_random_symmetric_polynomial_lem random s.t secret sp deals in
    check_interpolation_set-recovered outside s inst m_set chosen s.cp sp (λ u. true) random secret
      deals (λ u i good. slices u i)
      (λ u i. (
        get_univariate_polynomial sp u,
        slices u i,
        omega (arith, degree, length-get_univariate_polynomial sp u),
      ))
      (valid_loop-AllSlices inst.reconstructed_polys sp even chosen [] s.cp slices)
      (omega (arith, big, many, count_list_all chosen)) (ground (arith, big, many)) inverts

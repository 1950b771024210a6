-- ===== src/Ivss/Recovery.antt =====
-- services/ivss.go, `checkInterpolationSet`: the secret that it computes.
use async_agreement_protocol.Base.{
  ℕ, suc, ◌+◌, ◌-◌, ◌*◌, ◌%◌, ◌≤◌, ◌<◌, ◌≡◌, refl, sym, ap, subst, ◌∙◌, Bool, true, false, Option,
  none, some, List, [], ◌∷◌, nat_comparable, arith, length, length-append, ltb, le→leb,
}
use async_agreement_protocol.Base.Maps.{Map}
use async_agreement_protocol.Base.Members.{contains}
use async_agreement_protocol.Base.Counting.{count_list}
use async_agreement_protocol.Certification.{CertificationProtocol}
use async_agreement_protocol.Polynomial.{
  prime, Polynomial, SymmetricPolynomial, coefficient, get_univariate_polynomial,
  new_random_symmetric_polynomial,
}
use async_agreement_protocol.Polynomial.Slices.{IsSymmetric}
use async_agreement_protocol.Polynomial.Random.{new_random_symmetric_polynomial_lem}
use async_agreement_protocol.Polynomial.Reconstruction.{InvertsDenominators}
use async_agreement_protocol.Polynomial.Secret.{interpolate_at_zero-secret}
use async_agreement_protocol.Ivss.Types.{IvssInstance, IvssService, IvssOutside}
use async_agreement_protocol.Ivss.Sets.{
  poly_of, Scan, agrees, disagrees_with, panics_at, scan, Agreeing, take_scan, candidates,
  valid_loop, interpolation_target,
}
use async_agreement_protocol.Ivss.Messages.{start_acast, ready_payload}
use async_agreement_protocol.Ivss.Service.{
  Interpolated, take_secret, interpolate_values, check_interpolation_set,
}
use async_agreement_protocol.Ivss.Agreeing.{
  shown, revealed_poly, AgreeingValues, Found, valid_loop-Found, values_of-map,
}

-- The set is no longer than the list of the candidates.
abbrev AtMost : ℕ → Agreeing → Type 0
AtMost k none = Unit {0}
AtMost k (some (valid, cp)) = length valid ≤ k

module _ (polys : Map ℕ (Option Polynomial)) where
  take_scan-AtMost :
      (c k : ℕ) (valid : List ℕ) (cp : CertificationProtocol) (r : Scan)
      → length valid ≤ k
      → AtMost (suc k) (take_scan c valid cp r)
  take_scan-AtMost c k valid cp agrees h = omega (arith, length-append valid (c ∷ []))
  take_scan-AtMost c k valid cp (disagrees_with v) h = omega arith
  take_scan-AtMost c k valid cp (panics_at v) h = tt

  valid_loop-AtMost :
      (cs : List ℕ) (k : ℕ) (found : Agreeing)
      → AtMost k found
      → AtMost (k + length cs) (valid_loop polys cs found)
  unfolding valid_loop
  valid_loop-AtMost [] k found h = subst (λ k. AtMost k found) (omega arith) h
  valid_loop-AtMost (c ∷ cs) k none h = tt
  valid_loop-AtMost (c ∷ cs) k (some (valid, cp)) h =
      subst (λ k. AtMost k (valid_loop polys (c ∷ cs) (some (valid, cp)))) (omega arith)
        (valid_loop-AtMost cs (suc k) (take_scan c valid cp (scan polys c valid))
          (take_scan-AtMost c k valid cp (scan polys c valid) h))

-- What `checkInterpolationSet` leaves when it has computed the secret.
abbrev pub recovered :
    IvssOutside → IvssService → IvssInstance → ℕ → CertificationProtocol → Interpolated
recovered outside s inst secret cp = some (
  record inst { secret = some secret },
  (cp, start_acast outside s.id (ready_payload inst.id s.id)),
)

-- A revealed polynomial, with at most `t + 1` coefficients.
abbrev pub IsShort : ℕ → Option Polynomial → Type 0
IsShort t o = (p : Polynomial) × (o ≡ some p) × (length p.coeffs ≤ suc t)

module _ (outside : IvssOutside) (s : IvssService) (inst : IvssInstance) (m_set valid : List ℕ)
    (cp : CertificationProtocol) (sp : SymmetricPolynomial) (honest : ℕ → Bool) where
  abbrev polys : Map ℕ (Option Polynomial)
  polys = inst.reconstructed_polys

  abbrev chosen : List ℕ
  chosen = candidates inst.reconstructed_polys m_set

  enough_chosen :
      valid_loop polys chosen (some ([], s.cp)) ≡ some (valid, cp)
      → interpolation_target s.n s.t ≤ length valid
      → ltb (length chosen) (s.n - 2 * s.t) ≡ false
  unfolding interpolation_target
  enough_chosen loop target =
      let bound : length valid ≤ 0 + length chosen =
        subst (AtMost (0 + length chosen)) loop
          (valid_loop-AtMost polys chosen 0 (some ([], s.cp)) (omega arith)) in
      ground (arith, bound, target)

  valid_found :
      valid_loop polys chosen (some ([], s.cp)) ≡ some (valid, cp)
      → AgreeingValues polys valid × ((u : ℕ) → contains valid u ≡ true → contains chosen u ≡ true)
  valid_found loop = subst (Found polys (contains chosen)) loop (
      valid_loop-Found polys (contains chosen) chosen (some ([], s.cp)) (λ c i. i)
        ((λ u v i j. cc), (λ u i. cc)))

  present :
      (o : Option Polynomial)
      → IsShort s.t o
      → (o ≡ some (shown o)) × (length (shown o).coeffs ≤ suc s.t)
  present o h =
      subst (λ o. (o ≡ some (shown o)) × (length (shown o).coeffs ≤ suc s.t)) (sym h.1) (refl, h.2)

  recover_coefficient :
      IsSymmetric sp
      → sp.degree ≡ s.t
      → ((u : ℕ)
          → contains chosen u ≡ true
          → honest u ≡ true
          → poly_of polys u ≡ some (get_univariate_polynomial sp u))
      → ((u : ℕ) → contains chosen u ≡ true → IsShort s.t (poly_of polys u))
      → valid_loop polys chosen (some ([], s.cp)) ≡ some (valid, cp)
      → s.t < count_list honest valid
      → interpolation_target s.n s.t ≤ length valid
      → InvertsDenominators outside.mod_inverse valid
      → check_interpolation_set outside s (some m_set) inst
        ≡ recovered outside s inst (coefficient sp 0 0 % prime) cp
  unfolding check_interpolation_set
  recover_coefficient even degree slices short loop many target inverts =
      let (agreeing, listed) = valid_found loop in
      let values =
        values_of-map polys valid (λ u i. (present (poly_of polys u) (short u (listed u i))).0) in
      let result =
        interpolate_at_zero-secret outside.mod_inverse valid inverts sp even (revealed_poly polys)
          honest (λ u i good. ap shown (slices u (listed u i) good))
          (λ u i. omega (arith, degree, (present (poly_of polys u) (short u (listed u i))).1))
          agreeing (omega (arith, degree, many)) in
      rw
        (
          enough_chosen loop target,
          loop,
          le→leb (interpolation_target s.n s.t) (length valid) target,
        )
        (ap (take_secret outside s cp inst) (ap (interpolate_values outside valid) values ∙ result))

  -- If the polynomial is one that a dealer makes, the honest candidates revealed their slices of it,
  -- every candidate revealed a polynomial with at most t + 1 coefficients, the loop over the
  -- candidates returns a set that reaches the target and has more than t honest members, and each
  -- denominator over that set has an inverse modulo the prime, then the secret modulo the prime is
  -- stored and READY is A-Cast, whatever the faulty candidates revealed; the certification is the
  -- one that the loop returns.
  pub check_interpolation_set-recovered :
      (random : ℕ → ℕ → Option ℕ) (secret : ℕ)
      → new_random_symmetric_polynomial random s.t secret ≡ some sp
      → ((u : ℕ)
          → contains chosen u ≡ true
          → honest u ≡ true
          → poly_of polys u ≡ some (get_univariate_polynomial sp u))
      → ((u : ℕ) → contains chosen u ≡ true → IsShort s.t (poly_of polys u))
      → valid_loop polys chosen (some ([], s.cp)) ≡ some (valid, cp)
      → s.t < count_list honest valid
      → interpolation_target s.n s.t ≤ length valid
      → InvertsDenominators outside.mod_inverse valid
      → check_interpolation_set outside s (some m_set) inst
        ≡ recovered outside s inst (secret % prime) cp
  check_interpolation_set-recovered random secret deals slices short loop many target inverts =
      let (even, holds, degree) = new_random_symmetric_polynomial_lem random s.t secret sp deals in
      recover_coefficient even degree slices short loop many target inverts
      ∙ ap (λ c. recovered outside s inst (c % prime) cp) holds

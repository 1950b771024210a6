-- ===== src/Ivss/Faults.antt =====
-- services/ivss.go, `checkInterpolationSet`: which pairs become faulty, and which polynomials agree.
use async_agreement_protocol.Base.{
  ℕ, ◌≡◌, ◌≢◌, ◌⊎◌, subst, refl, ◌∙◌, inl, inr, Bool, true, false, Option, none, some, List, [],
  ◌∷◌, nat_comparable, arith, Bool-cases,
}
use async_agreement_protocol.Base.Maps.{Map}
use async_agreement_protocol.Certification.{CertificationProtocol, is_faulty_pair}
use async_agreement_protocol.Certification.Pairs.{same_pair, is_faulty_pair-add_faulty_pair}
use async_agreement_protocol.Polynomial.{Polynomial, SymmetricPolynomial, get_univariate_polynomial}
use async_agreement_protocol.Polynomial.Slices.{IsSymmetric, slices_agree}
use async_agreement_protocol.Base.{ltb, leb, length, ◌-◌, ◌*◌}
use async_agreement_protocol.Ivss.Types.{IvssService, IvssInstance, IvssOutside}
use async_agreement_protocol.Ivss.Service.{
  Interpolated, take_secret, take_valid, check_interpolation_set,
}
use async_agreement_protocol.Ivss.Sets.{
  candidates, interpolation_target, poly_of, is_consistent, Scan, agrees, disagrees_with, panics_at,
  scan_next, scan, Agreeing, take_scan, valid_loop,
}

-- The pair is as faulty as it was.
abbrev Keeps : ℕ → ℕ → CertificationProtocol → Agreeing → Type 0
Keeps a b cp none = Unit {0}
Keeps a b cp (some (valid, cp')) = is_faulty_pair a b cp' ≡ is_faulty_pair a b cp

abbrev pub KeepsAfter : ℕ → ℕ → CertificationProtocol → Interpolated → Type 0
KeepsAfter a b cp none = Unit {0}
KeepsAfter a b cp (some (inst, (cp', es))) = is_faulty_pair a b cp' ≡ is_faulty_pair a b cp

Keeps-trans :
    (a b : ℕ) (cp cp' : CertificationProtocol) (r : Agreeing)
    → is_faulty_pair a b cp' ≡ is_faulty_pair a b cp
    → Keeps a b cp' r
    → Keeps a b cp r
Keeps-trans a b cp cp' none e h = tt
Keeps-trans a b cp cp' (some (valid, cp'')) e h = h ∙ e

module _ (polys : Map ℕ (Option Polynomial)) where
  scan_next-disagrees :
      (v w : ℕ) (b : Option Bool) (rest : Scan)
      → scan_next v b rest ≡ disagrees_with w
      → ((v ≡ w) × (b ≡ some false)) ⊎ (rest ≡ disagrees_with w)
  scan_next-disagrees v w none rest h = cc
  scan_next-disagrees v w (some true) rest h = inr h
  scan_next-disagrees v w (some false) rest h = inl (ground (arith, h))

  -- A pair that the scan reports does disagree.
  scan-disagrees :
      (c v : ℕ) (valid : List ℕ)
      → scan polys c valid ≡ disagrees_with v
      → is_consistent polys c v ≡ some false
  unfolding scan
  scan-disagrees c v [] h = cc
  scan-disagrees c v (x ∷ xs) h =
      elim (scan_next-disagrees x v (is_consistent polys c x) (scan polys c xs) h) [
        | inl p ↦ subst (λ k. is_consistent polys c k ≡ some false) p.0 p.1
        | inr r ↦ scan-disagrees c v xs r
      ]

  -- Two processes whose polynomials agree stay as they are in the certification.
  module _ (a b : ℕ) (ab : is_consistent polys a b ≢ some false)
      (ba : is_consistent polys b a ≢ some false) where
    same_pair-disagrees :
        (c v : ℕ) → is_consistent polys c v ≡ some false → same_pair c v a b ≡ false
    same_pair-disagrees c v h = ground (arith, h)

    take_scan-Keeps :
        (c : ℕ) (valid : List ℕ) (cp : CertificationProtocol) (r : Scan)
        → ((v : ℕ) → r ≡ disagrees_with v → is_consistent polys c v ≡ some false)
        → Keeps a b cp (take_scan c valid cp r)
    take_scan-Keeps c valid cp agrees sound = refl
    take_scan-Keeps c valid cp (disagrees_with v) sound =
        rw (is_faulty_pair-add_faulty_pair c v a b cp, same_pair-disagrees c v (sound v refl)) refl
    take_scan-Keeps c valid cp (panics_at v) sound = tt

    valid_loop-Keeps :
        (cs : List ℕ) (cp : CertificationProtocol) (found : Agreeing)
        → Keeps a b cp found
        → Keeps a b cp (valid_loop polys cs found)
    unfolding valid_loop
    valid_loop-Keeps [] cp found h = h
    valid_loop-Keeps (c ∷ cs) cp none h = tt
    valid_loop-Keeps (c ∷ cs) cp (some (valid, cp')) h =
        valid_loop-Keeps cs cp (take_scan c valid cp' (scan polys c valid)) (
          Keeps-trans a b cp cp' (take_scan c valid cp' (scan polys c valid)) h
            (take_scan-Keeps c valid cp' (scan polys c valid) (λ v. scan-disagrees c v valid)))

-- Two processes that reveal slices of one symmetric polynomial agree.
pub honest-is_consistent :
    (polys : Map ℕ (Option Polynomial)) (sp : SymmetricPolynomial) (a b : ℕ)
    → IsSymmetric sp
    → poly_of polys a ≡ some (get_univariate_polynomial sp a)
    → poly_of polys b ≡ some (get_univariate_polynomial sp b)
    → is_consistent polys a b ≡ some true
unfolding is_consistent
honest-is_consistent polys sp a b sym_sp ha hb =
    rw (ha, hb) (ground (arith, slices_agree sp a b sym_sp))

module _ (outside : IvssOutside) (a b : ℕ) where
  take_secret-KeepsAfter :
      (s : IvssService) (cp cp' : CertificationProtocol) (inst : IvssInstance) (secret : Option ℕ)
      → is_faulty_pair a b cp' ≡ is_faulty_pair a b cp
      → KeepsAfter a b cp (take_secret outside s cp' inst secret)
  take_secret-KeepsAfter s cp cp' inst none h = tt
  take_secret-KeepsAfter s cp cp' inst (some secret) h = h

  take_valid-KeepsAfter :
      (s : IvssService) (cp : CertificationProtocol) (inst : IvssInstance) (r : Agreeing)
      → Keeps a b cp r
      → KeepsAfter a b cp (take_valid outside s inst r)
  take_valid-KeepsAfter s cp inst none h = tt
  take_valid-KeepsAfter s cp inst (some (valid, cp')) h =
      elim (Bool-cases (leb (interpolation_target s.n s.t) (length valid))) [
        | inl e ↦ rw e (take_secret-KeepsAfter s cp cp' inst _ h)
        | inr e ↦ rw e h
      ]

  -- No reconstruction makes a pair of processes faulty that both revealed their slices of one
  -- symmetric polynomial, whatever the others reveal and in whatever order: a reconstruction that
  -- does not panic leaves the pair as faulty as it was.
  pub honest-KeepsAfter :
      (s : IvssService) (m_set : Option (List ℕ)) (inst : IvssInstance) (sp : SymmetricPolynomial)
      → IsSymmetric sp
      → poly_of inst.reconstructed_polys a ≡ some (get_univariate_polynomial sp a)
      → poly_of inst.reconstructed_polys b ≡ some (get_univariate_polynomial sp b)
      → KeepsAfter a b s.cp (check_interpolation_set outside s m_set inst)
  unfolding check_interpolation_set
  honest-KeepsAfter s none inst sp even ha hb = refl
  honest-KeepsAfter s (some m_set) inst sp even ha hb =
      let polys = inst.reconstructed_polys in
      let chosen = candidates polys m_set in
      let ab = honest-is_consistent polys sp a b even ha hb in
      let ba = honest-is_consistent polys sp b a even hb ha in
      elim (Bool-cases (ltb (length chosen) (s.n - 2 * s.t))) [
        | inl e ↦ rw e refl
        | inr e ↦ rw e (
            take_valid-KeepsAfter s s.cp inst (valid_loop polys chosen (some ([], s.cp)))
              (valid_loop-Keeps polys a b (λ h. cc) (λ h. cc) chosen s.cp (some ([], s.cp)) refl))
      ]

-- ===== src/Ivss/RevealSteps.antt =====
-- services/ivss.go, `case Payload_Reveal`: one reveal of a slice, before there are enough and after.
use async_agreement_protocol.Base.{
  ℕ, ◌-◌, ◌*◌, ◌%◌, ◌≤◌, ◌<◌, ◌≡◌, refl, sym, ap, subst, ◌∙◌, true, Option, some, List, [],
  nat_comparable, string_comparable, arith, length, ltb, String,
}
use async_agreement_protocol.Base.Maps.{insert}
use async_agreement_protocol.Base.Members.{contains}
use async_agreement_protocol.Polynomial.{
  prime, SymmetricPolynomial, get_univariate_polynomial, new_random_symmetric_polynomial,
}
use async_agreement_protocol.Polynomial.Reconstruction.{InvertsDenominators}
use async_agreement_protocol.Ivss.Types.{IvssInstance, IvssService, IvssOutside}
use async_agreement_protocol.Ivss.Sets.{poly_of, candidates}
use async_agreement_protocol.Ivss.Messages.{instance_of, reveal_payload}
use async_agreement_protocol.Ivss.Service.{
  close_reveal, check_interpolation_set, on_reveal, deliver_as, on_acast_delivered,
}
use async_agreement_protocol.Ivss.Recovery.{recovered}
use async_agreement_protocol.Ivss.Unanimous.{check_interpolation_set-all_slices}
use async_agreement_protocol.Ivss.Entries.{entries, candidates-entries, poly_of-entries}

module _ (outside : IvssOutside) (sp : SymmetricPolynomial) (id : String) (m_set : List ℕ) where
  module _ (s : IvssService) (us : List ℕ) (inst : IvssInstance)
      (holds : inst.reconstructed_polys ≡ entries sp us)
      (listed : (u : ℕ) → contains us u ≡ true → contains m_set u ≡ true) where
    revealed_in_m : candidates inst.reconstructed_polys m_set ≡ us
    revealed_in_m =
        ap (λ polys. candidates polys m_set) holds ∙ candidates-entries sp us m_set listed

    -- A reveal before there are enough.
    pub early :
        length us < s.n - 2 * s.t
        → check_interpolation_set outside s (some m_set) inst ≡ some (inst, (s.cp, []))
    unfolding check_interpolation_set
    early few =
        let less : ltb (length us) (s.n - 2 * s.t) ≡ true = ground (arith, few) in
        rw (revealed_in_m, less) refl

    -- The reveal with which there are enough.
    pub late :
        (random : ℕ → ℕ → Option ℕ) (secret : ℕ)
        → 3 * s.t < s.n
        → new_random_symmetric_polynomial random s.t secret ≡ some sp
        → s.n - 2 * s.t ≤ length us
        → InvertsDenominators outside.mod_inverse us
        → check_interpolation_set outside s (some m_set) inst
          ≡ recovered outside s inst (secret % prime) s.cp
    late random secret big deals many inverts =
        check_interpolation_set-all_slices outside s inst m_set random secret sp big deals
          (λ u i.
            ap (λ polys. poly_of polys u) holds
            ∙ poly_of-entries sp us u (subst (λ l. contains l u ≡ true) revealed_in_m i))
          (subst (λ l. s.n - 2 * s.t ≤ length l) (sym revealed_in_m) many)
          (subst (InvertsDenominators outside.mod_inverse) (sym revealed_in_m) inverts)

  -- The instance after one more reveal.
  abbrev pub with_reveal : ℕ → IvssInstance → IvssInstance
  with_reveal u inst = record inst {
    reconstructed_polys = insert u (some (get_univariate_polynomial sp u)) inst.reconstructed_polys;
  }

  pub deliver_reveal :
      (s : IvssService) (u : ℕ)
      → (instance_of s id 0).m_set ≡ some m_set
      → on_acast_delivered outside
          (some (reveal_payload id (some (get_univariate_polynomial sp u)) u))
          s
        ≡ close_reveal s id
            (check_interpolation_set outside s (some m_set) (with_reveal u (instance_of s id 0)))
  unfolding on_acast_delivered deliver_as on_reveal
  deliver_reveal s u e =
      ap
        (λ m.
          close_reveal s id
            (check_interpolation_set outside s m (with_reveal u (instance_of s id 0))))
        e

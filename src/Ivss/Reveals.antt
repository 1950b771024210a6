-- ===== src/Ivss/Reveals.antt =====
-- services/ivss.go, `case Payload_Reveal`: the reveals of a sharing, delivered one after another.
use mathlib.Core.List.{append-nil, append_assoc}
use async_agreement_protocol.Base.{
  ℕ, ◌+◌, ◌-◌, ◌*◌, ◌%◌, ◌<◌, ◌≡◌, refl, sym, ap, subst, ◌∙◌, true, false, Option, some, List, [],
  ◌∷◌, ◌++◌, nat_comparable, string_comparable, arith, length, length-append, String,
}
use async_agreement_protocol.Base.Members.{contains, contains-append, Distinct}
use async_agreement_protocol.Attempt.{returns, prepend, and_then}
use async_agreement_protocol.Polynomial.{
  prime, SymmetricPolynomial, get_univariate_polynomial, new_random_symmetric_polynomial,
}
use async_agreement_protocol.Polynomial.Reconstruction.{InvertsDenominators}
use async_agreement_protocol.Ivss.Types.{IvssInstance, IvssService, IvssOutside, IvssAttempt}
use async_agreement_protocol.Ivss.Messages.{
  instance_of, put_instance, reveal_payload, ready_payload, start_acast,
}
use async_agreement_protocol.Ivss.Service.{
  check_interpolation_set, close_reveal, on_acast_delivered,
}
use async_agreement_protocol.Ivss.Entries.{instance_of-put_instance, entries, insert-entries}
use async_agreement_protocol.Ivss.RevealSteps.{early, late, deliver_reveal, with_reveal}

module _ (sp : SymmetricPolynomial) where
  -- The deliveries of what these processes reveal, each its slice.
  pub deliver_reveals : IvssOutside → String → List ℕ → IvssService → IvssAttempt
  deliver_reveals outside id [] s = returns s []
  deliver_reveals outside id (u ∷ us) s =
      and_then
        (on_acast_delivered outside
          (some (reveal_payload id (some (get_univariate_polynomial sp u)) u)) s)
        (deliver_reveals outside id us)

-- `base` is the instance before the first reveal.
module _ (outside : IvssOutside) (sp : SymmetricPolynomial) (id : String) (m_set : List ℕ)
    (base : IvssInstance) (set_m : base.m_set ≡ some m_set) (random : ℕ → ℕ → Option ℕ)
    (secret : ℕ) where
  -- The instance after these reveals.
  abbrev after_reveals : List ℕ → IvssInstance
  after_reveals us = record base { reconstructed_polys = entries sp us }

  abbrev with_secret : List ℕ → IvssInstance
  with_secret us = record (after_reveals us) { secret = some (secret % prime) }

  -- The call returns, sends READY, and leaves this instance; the rest that matters stays as it is.
  abbrev Recovers : List ℕ → IvssService → IvssAttempt → Type 0
  Recovers us s c =
      (s' : IvssService) × (c ≡ returns s' (start_acast outside s.id (ready_payload base.id s.id)))
      × (instance_of s' id 0 ≡ with_secret us)
      × (s'.n ≡ s.n)
      × (s'.t ≡ s.t)
      × (s'.cp ≡ s.cp)

  -- The hypotheses on the reveals still to come.
  record ToCome (s : IvssService) (earlier us : List ℕ) : Type 0 where
    big : 3 * s.t < s.n
    deals : new_random_symmetric_polynomial random s.t secret ≡ some sp
    fresh : (v : ℕ) → contains us v ≡ true → contains earlier v ≡ false
    distinct : Distinct us
    listed : (v : ℕ) → contains (earlier ++ us) v ≡ true → contains m_set v ≡ true
    exact : length earlier + length us ≡ s.n - 2 * s.t
    inverts : InvertsDenominators outside.mod_inverse (earlier ++ us)

  module _ (s : IvssService) (earlier : List ℕ) (u : ℕ)
      (h : instance_of s id 0 ≡ after_reveals earlier) where
    abbrev next : IvssInstance
    next = after_reveals (earlier ++ u ∷ [])

    -- What the delivery of the next reveal calls.
    reveal_call :
        contains earlier u ≡ false
        → on_acast_delivered outside
            (some (reveal_payload id (some (get_univariate_polynomial sp u)) u))
            s
          ≡ close_reveal s id (check_interpolation_set outside s (some m_set) next)
    reveal_call new =
        deliver_reveal outside sp id m_set s u (ap (λ inst. inst.m_set) h ∙ set_m)
        ∙ ap (λ inst. close_reveal s id (check_interpolation_set outside s (some m_set) inst))
            (ap (with_reveal outside sp id m_set u) h
              ∙ ap (λ polys. record base { reconstructed_polys = polys })
                  (insert-entries sp earlier u new))

    last_reveal :
        ToCome s earlier (u ∷ [])
        → Recovers (earlier ++ u ∷ []) s (deliver_reveals sp outside id (u ∷ []) s)
    unfolding deliver_reveals and_then prepend put_instance
    last_reveal c =
        let after = with_secret (earlier ++ u ∷ []) in
        let found =
          late outside sp id m_set s (earlier ++ u ∷ []) next refl c.listed random secret c.big
            c.deals (omega (arith, c.exact, length-append earlier (u ∷ []))) c.inverts in
        (
          put_instance after id s,
          ap (λ o. and_then o (deliver_reveals sp outside id []))
                (reveal_call (c.fresh u (ground arith)) ∙ ap (close_reveal s id) found)
              ∙ ap (returns (put_instance after id s))
                  (append-nil (start_acast outside s.id (ready_payload base.id s.id))),
          instance_of-put_instance after id s,
          refl,
          refl,
          refl,
        )

    still_ToCome :
        (v : ℕ) (us : List ℕ)
        → ToCome s earlier (u ∷ v ∷ us)
        → ToCome (put_instance next id s) (earlier ++ u ∷ []) (v ∷ us)
    unfolding put_instance
    still_ToCome v us c =
        let whole = append_assoc earlier (u ∷ []) (v ∷ us) in
        record {
          big = c.big;
          deals = c.deals;
          fresh = λ w at. ground (
            arith,
            c.fresh w (ground (arith, at)),
            contains-append earlier (u ∷ []) w,
            c.distinct,
            at,
          );
          distinct = c.distinct.1;
          listed = λ w at. c.listed w (subst (λ l. contains l w ≡ true) whole at);
          exact = omega (arith, c.exact, length-append earlier (u ∷ []));
          inverts = subst (InvertsDenominators outside.mod_inverse) (sym whole) c.inverts;
        }

    next_reveal :
        (v : ℕ) (us all : List ℕ)
        → ToCome s earlier (u ∷ v ∷ us)
        → Recovers all
            (put_instance next id s)
            (deliver_reveals sp outside id (v ∷ us) (put_instance next id s))
        → Recovers all s (deliver_reveals sp outside id (u ∷ v ∷ us) s)
    unfolding deliver_reveals and_then prepend put_instance
    next_reveal v us all c (s', runs, left, size, faults, kept) =
        let found =
          early outside sp id m_set s (earlier ++ u ∷ []) next refl
            (λ w at. c.listed w (
              ground (
                arith,
                at,
                contains-append earlier (u ∷ []) w,
                contains-append earlier (u ∷ v ∷ us) w,
              )))
            (omega (arith, c.exact, length-append earlier (u ∷ []))) in
        (
          s',
          ap (λ o. and_then o (deliver_reveals sp outside id (v ∷ us)))
                (reveal_call (c.fresh u (ground arith)) ∙ ap (close_reveal s id) found)
              ∙ ap (prepend []) runs,
          left,
          size,
          faults,
          kept,
        )

  reveals_from :
      (us : List ℕ) (earlier : List ℕ) (u : ℕ) (s : IvssService)
      → instance_of s id 0 ≡ after_reveals earlier
      → ToCome s earlier (u ∷ us)
      → Recovers (earlier ++ u ∷ us) s (deliver_reveals sp outside id (u ∷ us) s)
  reveals_from [] earlier u s h c = last_reveal s earlier u h c
  reveals_from (v ∷ us) earlier u s h c = next_reveal s earlier u h v us (earlier ++ u ∷ v ∷ us) c (
      subst
        (λ all.
          Recovers all (put_instance (next s earlier u h) id s)
            (deliver_reveals sp outside id (v ∷ us) (put_instance (next s earlier u h) id s)))
        (append_assoc earlier (u ∷ []) (v ∷ us))
        (reveals_from us (earlier ++ u ∷ []) v (put_instance (next s earlier u h) id s)
          (instance_of-put_instance (next s earlier u h) id s) (still_ToCome s earlier u h v us c)))

-- If n > 3t, the polynomial is one that a dealer makes, M is known, nothing was revealed before, and
-- each denominator over n - 2t different processes of M has an inverse modulo the prime, then after
-- the reveals of these processes, each of its slice, in any order, the secret modulo the prime is
-- stored and READY is A-Cast, once; no call panics, and apart from the secret and the polynomials
-- that were revealed, the instance and the certification stay as they were.
pub deliver_reveals-recovered :
    (outside : IvssOutside) (s : IvssService) (id : String) (m_set us : List ℕ)
    (random : ℕ → ℕ → Option ℕ) (secret : ℕ) (sp : SymmetricPolynomial)
    → 3 * s.t < s.n
    → new_random_symmetric_polynomial random s.t secret ≡ some sp
    → (instance_of s id 0).m_set ≡ some m_set
    → (instance_of s id 0).reconstructed_polys ≡ []
    → Distinct us
    → ((u : ℕ) → contains us u ≡ true → contains m_set u ≡ true)
    → length us ≡ s.n - 2 * s.t
    → InvertsDenominators outside.mod_inverse us
    → (s' : IvssService) × (deliver_reveals sp outside id us s
        ≡ returns s' (start_acast outside s.id (ready_payload (instance_of s id 0).id s.id)))
      × (instance_of s' id 0 ≡ record (instance_of s id 0) {
        reconstructed_polys = entries sp us;
        secret = some (secret % prime);
      })
      × (s'.n ≡ s.n)
      × (s'.t ≡ s.t)
      × (s'.cp ≡ s.cp)
deliver_reveals-recovered outside s id m_set [] random secret sp big deals e none_yet d listed exact
      inverts =
    absurd (omega (arith, big, exact))
deliver_reveals-recovered outside s id m_set (u ∷ us) random secret sp big deals e none_yet d listed
      exact inverts =
    let base = instance_of s id 0 in
    reveals_from outside sp id m_set base e random secret us [] u s
      (ap (λ polys. record base { reconstructed_polys = polys }) none_yet)
      (record {
        big = big;
        deals = deals;
        fresh = λ v i. refl;
        distinct = d;
        listed = listed;
        exact = omega (arith, exact);
        inverts = inverts;
      })

-- ===== src/Icc/Sharings.antt =====
-- services/icc.go, `ivssContextAdapter` under `StartSharing` and `StartReconstruction`: what these
-- two hand to it are broadcasts, so that taking their wrapped broadcasts is what the adapter does.
use async_agreement_protocol.Base.{
  ℕ, zero, suc, ◌≡◌, refl, ◌∙◌, true, none, some, [], ◌∷◌, Option, String, arith, string_comparable,
}
use async_agreement_protocol.Context.{broadcast, send_result}
use async_agreement_protocol.Attempt.{returns, panics, waits, prepend, and_then, Ensures}
use async_agreement_protocol.ACast.Origins.{no_results}
use async_agreement_protocol.Polynomial.{SymmetricPolynomial, new_random_symmetric_polynomial}
use async_agreement_protocol.Ivss
use async_agreement_protocol.Ivss.{
  IvssService, IvssOutside, IvssEffects, share_loop, share_to_all, start_sharing,
  start_reconstruction,
}
use async_agreement_protocol.Icc.Types.{IccService, IccOutside, IccAttempt}
use async_agreement_protocol.Icc.Progress.{wrap_sharings}
use async_agreement_protocol.Icc.Service.{adapt_ivss, start_loop, start_icc}
use async_agreement_protocol.Icc.Phases.{outputs, outputs-append, outputs-wrap_sharings}

share_loop-no_results :
    (id : ℕ) (instance_id : String) (poly : SymmetricPolynomial) (rounds k : ℕ)
    → no_results (share_loop id instance_id poly rounds k) ≡ true
unfolding share_loop
share_loop-no_results id instance_id poly zero k = refl
share_loop-no_results id instance_id poly (suc rounds) k =
    share_loop-no_results id instance_id poly rounds (suc k)

share_to_all-no_results :
    (s : IvssService) (instance_id : String) (poly : Option SymmetricPolynomial)
    → no_results (share_to_all s instance_id poly) ≡ true
share_to_all-no_results s instance_id none = refl
share_to_all-no_results s instance_id (some poly) =
    share_loop-no_results s.id instance_id poly s.n 1

module _ (outside : IvssOutside) (instance_id : String) (s : IvssService) where
  start_sharing-no_results :
      (secret : ℕ) → no_results (start_sharing outside instance_id secret s).1 ≡ true
  unfolding start_sharing
  start_sharing-no_results secret =
      share_to_all-no_results s instance_id
        (new_random_symmetric_polynomial (outside.random s.draws) s.t secret)

  start_reconstruction-no_results : no_results (start_reconstruction outside instance_id s).1 ≡ true
  unfolding start_reconstruction Ivss.start_acast
  start_reconstruction-no_results = ground arith

module _ (outside : IccOutside) where
  adapt_ivss-wrap_sharings :
      (es : IvssEffects) (s : IccService)
      → no_results es ≡ true
      → adapt_ivss outside es s ≡ returns s (wrap_sharings es)
  unfolding adapt_ivss wrap_sharings prepend
  adapt_ivss-wrap_sharings [] s h = refl
  adapt_ivss-wrap_sharings (broadcast m ∷ es) s h = rw (adapt_ivss-wrap_sharings es s h) refl
  adapt_ivss-wrap_sharings (send_result res ∷ es) s h = ground arith

  -- The adapter under `StartSharing` leaves the service as it is and sends the wrapped broadcasts.
  pub adapt_ivss-start_sharing :
      (instance_id : String) (secret : ℕ) (ivss : IvssService) (s : IccService)
      → adapt_ivss outside ((start_sharing outside.ivss instance_id secret ivss).1) s
        ≡ returns s (wrap_sharings (start_sharing outside.ivss instance_id secret ivss).1)
  adapt_ivss-start_sharing instance_id secret ivss s =
      adapt_ivss-wrap_sharings _ s (start_sharing-no_results outside.ivss instance_id ivss secret)

  -- So does the adapter under `StartReconstruction`.
  pub adapt_ivss-start_reconstruction :
      (instance_id : String) (ivss : IvssService) (s : IccService)
      → adapt_ivss outside ((start_reconstruction outside.ivss instance_id ivss).1) s
        ≡ returns s (wrap_sharings (start_reconstruction outside.ivss instance_id ivss).1)
  adapt_ivss-start_reconstruction instance_id ivss s =
      adapt_ivss-wrap_sharings _ s (start_reconstruction-no_results outside.ivss instance_id ivss)

  -- The loop of `Start` hands out no result.
  prepend-Silent :
      (es : IvssEffects) (c : IccAttempt)
      → Ensures (λ rest s. outputs rest ≡ 0) c
      → Ensures (λ rest s. outputs rest ≡ 0) (prepend (wrap_sharings es) c)
  unfolding prepend
  prepend-Silent es (returns s rest) h =
      outputs-append (wrap_sharings es) rest ∙ rw (outputs-wrap_sharings es, h) refl
  prepend-Silent es panics h = tt
  prepend-Silent es waits h = tt

  start_loop-Silent :
      (rounds j : ℕ) (s : IccService)
      → Ensures (λ es s'. outputs es ≡ 0) (start_loop outside rounds j s)
  unfolding start_loop and_then outputs
  start_loop-Silent zero j s = refl
  start_loop-Silent (suc rounds) j s =
      let id = outside.print_instance s.round s.id j in
      let secret = outside.random_secret s.round j in
      let dealt = start_sharing outside.ivss id secret s.ivss in
      let s' = record s { ivss = dealt.0 } in
      rw (adapt_ivss-start_sharing id secret s.ivss s') (
        prepend-Silent dealt.1 (start_loop outside rounds (suc j) s')
          (start_loop-Silent rounds (suc j) s'))

  -- `Start` hands out no coin.
  pub start_icc-Silent : (s : IccService) → Ensures (λ es s'. outputs es ≡ 0) (start_icc outside s)
  unfolding start_icc
  start_icc-Silent s = start_loop-Silent s.n 1 s

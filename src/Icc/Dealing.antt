-- ===== src/Icc/Dealing.antt =====
-- services/icc.go, `Start`, over `StartSharing` of services/ivss.go: the secrets that it shares.
use async_agreement_protocol.Base.{
  ℕ, zero, suc, ◌≡◌, refl, ap, ◌∙◌, some, List, [], ◌∷◌, ◌++◌, map, String,
}
use async_agreement_protocol.Context.{broadcast}
use async_agreement_protocol.Attempt.{returns, prepend, and_then}
use async_agreement_protocol.Polynomial.{
  SymmetricPolynomial, coefficient, get_univariate_polynomial, new_random_symmetric_polynomial,
}
use async_agreement_protocol.Polynomial.Products.{range}
use async_agreement_protocol.Polynomial.Slices.{IsSymmetric}
use async_agreement_protocol.Polynomial.Dealing.{Reads, new_random_symmetric_polynomial_total}
use async_agreement_protocol.Ivss.{
  IvssService, IvssEffects, share_message, share_loop, start_sharing,
}
use async_agreement_protocol.Icc.Types.{IccService, IccOutside, IccEffects}
use async_agreement_protocol.Icc.Progress.{wrap_ivss, wrap_sharings}
use async_agreement_protocol.Icc.Service.{start_loop, start_icc}
use async_agreement_protocol.Icc.Sharings.{adapt_ivss-start_sharing}

-- The SHAREs of one polynomial for the processes `ks`, each with the slice of its receiver.
abbrev pub shares : ℕ → String → SymmetricPolynomial → List ℕ → IccEffects
shares id instance_id poly ks =
    map
      (λ k.
        broadcast (wrap_ivss (share_message k id instance_id (get_univariate_polynomial poly k))))
      ks

wrap_sharings-share_loop :
    (id : ℕ) (instance_id : String) (poly : SymmetricPolynomial) (rounds k : ℕ)
    → wrap_sharings (share_loop id instance_id poly rounds k)
      ≡ shares id instance_id poly (range k rounds)
unfolding wrap_sharings share_loop range
wrap_sharings-share_loop id instance_id poly zero k = refl
wrap_sharings-share_loop id instance_id poly (suc rounds) k =
    ap
      (λ es.
        broadcast (wrap_ivss (share_message k id instance_id (get_univariate_polynomial poly k)))
        ∷ es)
      (wrap_sharings-share_loop id instance_id poly rounds (suc k))

-- A service after so many polynomials drawn at random.
abbrev pub drawn : IccService → ℕ → IccService
drawn s draws = record s { ivss = record s.ivss { draws = draws } }

module _ (outside : IccOutside) where
  -- The broadcasts of the sharings with these indices: each has its own symmetric polynomial of
  -- degree t whose constant coefficient is the random secret, and a SHARE for each process.
  abbrev pub Deals : IccService → List ℕ → IccEffects → Type 0
  Deals s [] es = es ≡ []
  Deals s (j ∷ js) es =
      (poly : SymmetricPolynomial) × (rest : IccEffects) × (es
        ≡ shares s.ivss.id (outside.print_instance s.round s.id j) poly (range 1 s.ivss.n) ++ rest)
      × IsSymmetric poly
      × (coefficient poly 0 0 ≡ outside.random_secret s.round j)
      × (poly.degree ≡ s.ivss.t)
      × Deals s js rest

  start_loop-suc :
      (rounds j : ℕ) (s : IccService) (ivss : IvssService) (es : IvssEffects)
      → start_sharing outside.ivss
          (outside.print_instance s.round s.id j)
          (outside.random_secret s.round j)
          s.ivss
        ≡ (ivss, es)
      → start_loop outside (suc rounds) j s
        ≡ prepend (wrap_sharings es) (start_loop outside rounds (suc j) (record s { ivss = ivss }))
  unfolding start_loop and_then
  start_loop-suc rounds j s ivss es e =
      let id = outside.print_instance s.round s.id j in
      let secret = outside.random_secret s.round j in
      let dealt = start_sharing outside.ivss id secret s.ivss in
      let s' = record s { ivss = dealt.0 } in
      let adapted : start_loop outside (suc rounds) j s
          ≡ prepend (wrap_sharings dealt.1) (start_loop outside rounds (suc j) s') =
        rw (adapt_ivss-start_sharing outside id secret s.ivss s') refl in
      adapted
      ∙ ap
          (λ d.
            prepend (wrap_sharings d.1)
              (start_loop outside rounds (suc j) (record s { ivss = d.0 })))
          e

  module _ (s : IccService) (reads : (draw : ℕ) → Reads (outside.ivss.random draw)) where
    start_sharing-made :
        (id : String) (secret draws : ℕ) (poly : SymmetricPolynomial)
        → new_random_symmetric_polynomial (outside.ivss.random draws) s.ivss.t secret ≡ some poly
        → start_sharing outside.ivss id secret (drawn s draws).ivss
          ≡ ((drawn s (suc draws)).ivss, share_loop s.ivss.id id poly s.ivss.n 1)
    unfolding start_sharing
    start_sharing-made id secret draws poly e = rw e refl

    start_loop-Deals :
        (rounds j draws : ℕ)
        → (later : ℕ) × (es : IccEffects) × (start_loop outside rounds j (drawn s draws)
            ≡ returns (drawn s later) es)
          × Deals s (range j rounds) es
    unfolding range prepend
    start_loop-Deals zero j draws = (draws, [], unfold start_loop in refl, refl)
    start_loop-Deals (suc rounds) j draws =
        let id = outside.print_instance s.round s.id j in
        let secret = outside.random_secret s.round j in
        let (poly, made, symmetric, constant, degree) =
          new_random_symmetric_polynomial_total (outside.ivss.random draws) (reads draws) s.ivss.t
            secret in
        let sent = share_loop s.ivss.id id poly s.ivss.n 1 in
        let (later, rest, ends, deals) = start_loop-Deals rounds (suc j) (suc draws) in
        (
          later,
          wrap_sharings sent ++ rest,
          start_loop-suc rounds j (drawn s draws) _ sent
                (start_sharing-made id secret draws poly made)
              ∙ ap (prepend (wrap_sharings sent)) ends,
          (
            poly,
            rest,
            ap (λ es. es ++ rest) (wrap_sharings-share_loop s.ivss.id id poly s.ivss.n 1),
            symmetric,
            constant,
            degree,
            deals,
          ),
        )

-- With a random reader that does not fail, `Start` of the coin returns and changes nothing but what
-- the random reader gives next. What goes out through the adapter are n sharings, one for each index
-- from 1 to n, and no result: each has a symmetric polynomial of degree t whose constant coefficient
-- is the random secret of its index, and consists of one SHARE for each process, in the order of
-- their ids, which carries the slice of the polynomial at the id of its receiver.
pub start_icc-Deals :
    (outside : IccOutside) (s : IccService)
    → ((draw : ℕ) → Reads (outside.ivss.random draw))
    → (later : ℕ) × (es : IccEffects) × (start_icc outside s ≡ returns (drawn s later) es)
      × Deals outside s (range 1 s.n) es
unfolding start_icc
start_icc-Deals outside s reads = start_loop-Deals outside s reads s.n 1 s.ivss.draws

-- ===== src/Ivss/Readies.antt =====
-- services/ivss.go, `case Payload_Ready`: the READYs of a sharing, delivered one after another.
use mathlib.Core.List.{append-nil}
use async_agreement_protocol.Base.{
  ℕ, ◌-◌, ◌*◌, ◌%◌, ◌≤◌, ◌<◌, ◌≡◌, refl, sym, ap, ◌∙◌, Bool, true, false, not, ◌&&◌, Option, some,
  List, [], ◌∷◌, ◌++◌, nat_comparable, string_comparable, arith, length, leb, String, if◌then◌else◌,
  le→leb, leb→le,
}
use async_agreement_protocol.Base.Members.{contains, add, Distinct}
use async_agreement_protocol.Context.{send_result}
use async_agreement_protocol.Attempt.{returns, prepend, and_then}
use async_agreement_protocol.Polynomial.{
  prime, SymmetricPolynomial, new_random_symmetric_polynomial,
}
use async_agreement_protocol.Polynomial.Reconstruction.{InvertsDenominators}
use async_agreement_protocol.Ivss.Types.{
  IvssInstance, IvssService, IvssOutside, IvssAttempt, IvssEffects,
}
use async_agreement_protocol.Ivss.Messages.{
  instance_of, put_instance, ready_payload, start_acast, secret_result,
}
use async_agreement_protocol.Ivss.Direct.{close}
use async_agreement_protocol.Ivss.Service.{output_secret, on_ready, deliver_as, on_acast_delivered}
use async_agreement_protocol.Ivss.Entries.{instance_of-put_instance, entries}
use async_agreement_protocol.Ivss.Reveals.{deliver_reveals, deliver_reveals-recovered}

-- The senders after these READYs.
unfoldable pub ready_senders : List ℕ → List ℕ → List ℕ
ready_senders [] senders = senders
ready_senders (u ∷ us) senders = ready_senders us (add u senders)

length-add_more : (u : ℕ) (senders : List ℕ) → length senders ≤ length (add u senders)
unfolding add
length-add_more u senders = ground arith

length_senders_more : (us senders : List ℕ) → length senders ≤ length (ready_senders us senders)
unfolding ready_senders
length_senders_more [] senders = omega arith
length_senders_more (u ∷ us) senders =
    omega (arith, length-add_more u senders, length_senders_more us (add u senders))

-- The deliveries of the READYs of these processes, which may repeat.
unfoldable pub deliver_readies : IvssOutside → String → List ℕ → IvssService → IvssAttempt
deliver_readies outside id [] s = returns s []
deliver_readies outside id (u ∷ us) s =
    and_then (on_acast_delivered outside (some (ready_payload id u)) s)
      (deliver_readies outside id us)

true_is_false : false ≡ true → ⊥
true_is_false h = cc

-- Something is emitted once, when a test that stays true becomes true.
once_between {ℓ} :
    {A : Type ℓ} (p q r : Bool) (xs : List A)
    → (p ≡ true → q ≡ true)
    → (q ≡ true → r ≡ true)
    → (if p then [] else if q then xs else []) ++ (if q then [] else if r then xs else [])
      ≡ (if p then [] else if r then xs else [])
once_between true true r xs up down = refl
once_between true false r xs up down = absurd (true_is_false (up refl))
once_between false true true xs up down = append-nil xs
once_between false true false xs up down = absurd (true_is_false (down refl))
once_between false false r xs up down = refl

nothing_between {ℓ} :
    {A : Type ℓ} (p : Bool) (xs : List A) → (if p then [] else if p then xs else []) ≡ []
nothing_between true xs = refl
nothing_between false xs = refl

-- `base` is an instance that holds the secret `v`.
module _ (outside : IvssOutside) (id : String) (base : IvssInstance) (v n t : ℕ)
    (holds : base.secret ≡ some v) where
  abbrev enough : List ℕ → Bool
  enough senders = leb (n - t) (length senders)

  enough_more : (a b : List ℕ) → length a ≤ length b → enough a ≡ true → enough b ≡ true
  enough_more a b less h =
      le→leb (n - t) (length b) (omega (arith, less, leb→le (n - t) (length a) h))

  -- The instance after READYs of these senders.
  abbrev counted : List ℕ → IvssInstance
  counted senders = record base { ready_to_complete = senders; reconstructed = enough senders }

  -- What goes out as the senders grow from one list to another.
  abbrev emits : List ℕ → List ℕ → IvssEffects
  emits a b =
      if enough a then [] else if enough b then send_result (secret_result base v) ∷ [] else []

  emits-append :
      (a b c : List ℕ)
      → (enough a ≡ true → enough b ≡ true)
      → (enough b ≡ true → enough c ≡ true)
      → emits a b ++ emits b c ≡ emits a c
  emits-append a b c up down = once_between (enough a) (enough b) (enough c) _ up down

  ready_step :
      (senders : List ℕ) (before after : Bool)
      → (before ≡ true → after ≡ true)
      → (if after && not before
          then output_secret
              (record base { ready_to_complete = senders; reconstructed = before })
              base.secret
          else (record base { ready_to_complete = senders; reconstructed = before }, []))
        ≡ (
          record base { ready_to_complete = senders; reconstructed = after },
          if before then [] else if after then send_result (secret_result base v) ∷ [] else [],
        )
  unfolding output_secret
  ready_step senders true true up = refl
  ready_step senders true false up = absurd (true_is_false (up refl))
  ready_step senders false true up =
      ap (output_secret (record base { ready_to_complete = senders; reconstructed = false })) holds
  ready_step senders false false up = refl

  on_ready-counted :
      (u : ℕ) (senders : List ℕ)
      → on_ready n t (ready_payload id u) (counted senders)
        ≡ (counted (add u senders), emits senders (add u senders))
  unfolding on_ready
  on_ready-counted u senders =
      ready_step (add u senders) (enough senders) (enough (add u senders))
        (enough_more senders (add u senders) (length-add_more u senders))

  ready_call :
      (u : ℕ) (senders : List ℕ) (s : IvssService)
      → s.n ≡ n
      → s.t ≡ t
      → instance_of s id 0 ≡ counted senders
      → on_acast_delivered outside (some (ready_payload id u)) s
        ≡ returns (put_instance (counted (add u senders)) id s) (emits senders (add u senders))
  unfolding on_acast_delivered deliver_as
  ready_call u senders s size faults h =
      ap (λ inst. close s id (some (on_ready s.n s.t (ready_payload id u) inst))) h
      ∙ ap (λ n. close s id (some (on_ready n s.t (ready_payload id u) (counted senders)))) size
      ∙ ap (λ t. close s id (some (on_ready n t (ready_payload id u) (counted senders)))) faults
      ∙ ap (λ r. close s id (some r)) (on_ready-counted u senders)

  -- What the deliveries leave, from an instance with these senders on.
  abbrev Counts : List ℕ → List ℕ → IvssAttempt → Type 0
  Counts senders us c =
      (s' : IvssService) × (c ≡ returns s' (emits senders (ready_senders us senders)))
      × (instance_of s' id 0 ≡ counted (ready_senders us senders))

  readies_from :
      (us senders : List ℕ) (s : IvssService)
      → s.n ≡ n
      → s.t ≡ t
      → instance_of s id 0 ≡ counted senders
      → Counts senders us (deliver_readies outside id us s)
  unfolding deliver_readies ready_senders and_then prepend put_instance
  readies_from [] senders s size faults h =
      (s, ap (returns s) (sym (nothing_between (enough senders) _)), h)
  readies_from (u ∷ us) senders s size faults h =
      let (s', runs, left) =
        readies_from us (add u senders) (put_instance (counted (add u senders)) id s) size faults
          (instance_of-put_instance (counted (add u senders)) id s) in
      (
        s',
        ap (λ o. and_then o (deliver_readies outside id us)) (ready_call u senders s size faults h)
            ∙ ap (prepend (emits senders (add u senders))) runs
            ∙ ap (returns s') (
                emits-append senders (add u senders) (ready_senders us (add u senders))
                  (enough_more senders (add u senders) (length-add_more u senders))
                  (enough_more (add u senders) (ready_senders us (add u senders))
                    (length_senders_more us (add u senders)))),
        left,
      )

-- Take n > 3t, a polynomial that a dealer makes of its secret, and a process that knows M, to which
-- nothing was revealed before, which has not output the secret and has seen no READY. Then after the
-- reveals of n - 2t different processes of M, each of its slice, in any order, and the READYs of any
-- processes, which may repeat, no call has panicked, and what has gone out is the A-Cast of its own
-- READY and, exactly if the READYs are of at least n - t different processes, one result: the secret
-- modulo the prime. Each denominator over the processes that reveal must have an inverse.
pub reconstruction_outputs :
    (outside : IvssOutside) (s : IvssService) (id : String) (m_set us ws : List ℕ)
    (random : ℕ → ℕ → Option ℕ) (secret : ℕ) (sp : SymmetricPolynomial)
    → 3 * s.t < s.n
    → new_random_symmetric_polynomial random s.t secret ≡ some sp
    → (instance_of s id 0).m_set ≡ some m_set
    → (instance_of s id 0).reconstructed_polys ≡ []
    → (instance_of s id 0).reconstructed ≡ false
    → (instance_of s id 0).ready_to_complete ≡ []
    → Distinct us
    → ((u : ℕ) → contains us u ≡ true → contains m_set u ≡ true)
    → length us ≡ s.n - 2 * s.t
    → InvertsDenominators outside.mod_inverse us
    → (s' : IvssService) × (and_then
          (deliver_reveals sp outside id us s)
          (deliver_readies outside id ws)
        ≡ returns s' (
            start_acast outside s.id (ready_payload (instance_of s id 0).id s.id)
            ++ (if leb (s.n - s.t) (length (ready_senders ws []))
                then send_result (secret_result (instance_of s id 0) (secret % prime)) ∷ []
                else [])))
unfolding and_then prepend
reconstruction_outputs outside s id m_set us ws random secret sp big deals e no_polys not_yet
      no_readies d listed exact inverts =
    let (s1, runs, left, size, faults, kept) =
      deliver_reveals-recovered outside s id m_set us random secret sp big deals e no_polys d listed
        exact inverts in
    let base : IvssInstance = record (instance_of s id 0) {
      reconstructed_polys = entries sp us;
      secret = some (secret % prime);
    } in
    let none_enough : leb (s.n - s.t) 0 ≡ false = ground (arith, big) in
    let start =
      left
      ∙ ap (λ r. record base { reconstructed = r }) (not_yet ∙ sym none_enough)
      ∙ ap (λ r. record base { ready_to_complete = r; reconstructed = leb (s.n - s.t) 0 })
          no_readies in
    let (s2, more, after) =
      readies_from outside id base (secret % prime) s.n s.t refl ws [] s1 size faults start in
    let first = start_acast outside s.id (ready_payload base.id s.id) in
    let outcome : IvssEffects =
      if leb (s.n - s.t) (length (ready_senders ws []))
      then send_result (secret_result base (secret % prime)) ∷ []
      else [] in
    (
      s2,
      ap (λ o. and_then o (deliver_readies outside id ws)) runs
          ∙ ap (prepend first) more
          ∙ ap (λ b. returns s2 (first ++ (if b then [] else outcome))) none_enough,
    )

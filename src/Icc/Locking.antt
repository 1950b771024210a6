-- ===== src/Icc/Locking.antt =====
-- services/icc.go with the mutexes of services/ivss.go: `StartReconstruction` under a mutex that is held.
use async_agreement_protocol.Base.{
  ℕ, ◌-◌, ◌≡◌, refl, sym, ◌∙◌, ap, subst, inl, inr, true, not, ◌&&◌, Option, none, some, List, [],
  ◌∷◌, String, string_comparable, nat_comparable, ◌==◌, beq_refl, eqb, leb, length, if◌then◌else◌,
  arith, Bool-cases,
}
use async_agreement_protocol.Base.Members.{contains}
use async_agreement_protocol.Base.Maps.{lookup}
use async_agreement_protocol.Base.Sorting.{sort}
use async_agreement_protocol.Attempt.{returns, panics, waits, prepend, and_then}
use async_agreement_protocol.Ivss.{IvssResult}
use async_agreement_protocol.Icc.Types.{IccService, IccOutside, IccEffects, IccAttempt}
use async_agreement_protocol.Icc.Progress.{
  start_acast, final_payload, phase_attach, phase_accept, reconstruct_one, reconstruct_row,
  reconstruct_from, reconstruct_rows, phase_reconstruct, check_progress, subset_senders,
}
use async_agreement_protocol.Icc.Service.{handle_ivss_result, take_ivss_result}

-- What the loops read stays as it is, and they do not panic.
abbrev Keeps : IccService → IccService → Type 0
Keeps a b = (b.round ≡ a.round) × (b.received_t ≡ a.received_t)

abbrev Goes : IccService → IccAttempt → Type 0
Goes s (returns d es) = Keeps s d
Goes s panics = ⊥
Goes s waits = Unit

prepend-Goes :
    (s : IccService) (es : IccEffects) (c : IccAttempt) → Goes s c → Goes s (prepend es c)
unfolding prepend
prepend-Goes s es (returns d rest) h = h
prepend-Goes s es panics h = h
prepend-Goes s es waits h = h

Goes-trans : (s d : IccService) (c : IccAttempt) → Keeps s d → Goes d c → Goes s c
Goes-trans s d (returns e es) h g = (g.0 ∙ h.0, g.1 ∙ h.1)
Goes-trans s d panics h g = g
Goes-trans s d waits h g = g

and_then-Goes :
    (s : IccService) (c : IccAttempt) (next : IccService → IccAttempt)
    → Goes s c
    → ((d : IccService) → Goes d (next d))
    → Goes s (and_then c next)
unfolding and_then
and_then-Goes s (returns d es) next h g =
    prepend-Goes s es (next d) (Goes-trans s d (next d) h (g d))
and_then-Goes s panics next h g = h
and_then-Goes s waits next h g = h

-- A call that is followed by a wait.
and_then-waits :
    (s : IccService) (c : IccAttempt) (next : IccService → IccAttempt)
    → Goes s c
    → ((d : IccService) → Keeps s d → next d ≡ waits)
    → and_then c next ≡ waits
unfolding and_then prepend
and_then-waits s (returns d es) next h g = rw (g d h) refl
and_then-waits s panics next h g = elim h [ ]
and_then-waits s waits next h g = refl

module _ (outside : IccOutside) (held : String) where
  reconstruct_one-Goes :
      (j k : ℕ) (s : IccService) → Goes s (reconstruct_one outside (some held) j k s)
  unfolding reconstruct_one
  reconstruct_one-Goes j k s = elim (Bool-cases (held == outside.print_instance s.round k j)) [
    | inl e ↦ rw e tt
    | inr e ↦ rw e (refl, refl)
  ]

  reconstruct_row-Goes :
      (j : ℕ) (ks : List ℕ) (s : IccService) → Goes s (reconstruct_row outside (some held) j ks s)
  unfolding reconstruct_row
  reconstruct_row-Goes j [] s = (refl, refl)
  reconstruct_row-Goes j (k ∷ ks) s =
      and_then-Goes s (reconstruct_one outside (some held) j k s)
        (reconstruct_row outside (some held) j ks) (reconstruct_one-Goes j k s)
        (reconstruct_row-Goes j ks)

  reconstruct_from-Goes :
      (j : ℕ) (o : Option (List ℕ)) (s : IccService)
      → Goes s (reconstruct_from outside (some held) j o s)
  reconstruct_from-Goes j none s = (refl, refl)
  reconstruct_from-Goes j (some ks) s = reconstruct_row-Goes j ks s

  reconstruct_one-waits :
      (j k : ℕ) (s : IccService)
      → outside.print_instance s.round k j ≡ held
      → reconstruct_one outside (some held) j k s ≡ waits
  unfolding reconstruct_one
  reconstruct_one-waits j k s e = rw (e, beq_refl held) refl

  reconstruct_row-waits :
      (j k : ℕ) (ks : List ℕ) (s : IccService)
      → contains ks k ≡ true
      → outside.print_instance s.round k j ≡ held
      → reconstruct_row outside (some held) j ks s ≡ waits
  unfolding reconstruct_row and_then
  reconstruct_row-waits j k [] s m e = ground (arith, m)
  reconstruct_row-waits j k (x ∷ xs) s m e = elim (Bool-cases (eqb x k)) [
    | inl same ↦
        rw
          (reconstruct_one-waits j x s
            (ap (λ a. outside.print_instance s.round a j) (ground (arith, same)) ∙ e))
          refl
    | inr other ↦
        and_then-waits s (reconstruct_one outside (some held) j x s)
          (reconstruct_row outside (some held) j xs) (reconstruct_one-Goes j x s)
          (λ d kept.
            reconstruct_row-waits j k xs d (ground (arith, m, other))
              (ap (λ r. outside.print_instance r k j) kept.0 ∙ e))
  ]

  reconstruct_rows-waits :
      (j k : ℕ) (ks js : List ℕ) (s : IccService)
      → contains js j ≡ true
      → lookup j s.received_t ≡ some ks
      → contains ks k ≡ true
      → outside.print_instance s.round k j ≡ held
      → reconstruct_rows outside (some held) js s ≡ waits
  unfolding reconstruct_rows and_then
  reconstruct_rows-waits j k ks [] s m sent known e = ground (arith, m)
  reconstruct_rows-waits j k ks (x ∷ xs) s m sent known e = elim (Bool-cases (eqb x j)) [
    | inl same ↦
        let here : x ≡ j = ground (arith, same) in
        rw (here, sent, reconstruct_row-waits j k ks s known e) refl
    | inr other ↦
        and_then-waits s (reconstruct_from outside (some held) x (lookup x s.received_t) s)
          (reconstruct_rows outside (some held) xs)
          (reconstruct_from-Goes x (lookup x s.received_t) s)
          (λ d kept.
            reconstruct_rows-waits j k ks xs d (ground (arith, m, other))
              (ap (lookup j) kept.1 ∙ sent) known
              (ap (λ r. outside.print_instance r k j) kept.0 ∙ e))
  ]

  -- A process enters the reconstruction phase while the instance (k, j) is locked, and has to
  -- reconstruct the secret j of dealer k.
  pub record Reenters (j k : ℕ) (ks : List ℕ) (s : IccService) : Type 0 where
    pub ready :
        (not s.sent_reconstruct
          && s.sent_accept
          && leb (s.n - s.t) (length (subset_senders s.received_a s.my_a)))
        ≡ true
    pub accepted : contains s.my_a j ≡ true
    pub attached : lookup j s.received_t ≡ some ks
    pub listed : contains ks k ≡ true
    pub same : outside.print_instance s.round k j ≡ held

  phase_reconstruct-waits :
      (j k : ℕ) (ks : List ℕ) (s : IccService)
      → Reenters j k ks s
      → phase_reconstruct outside (some held) s ≡ waits
  unfolding phase_reconstruct prepend start_acast
  phase_reconstruct-waits j k ks s r =
      let senders = subset_senders s.received_a s.my_a in
      let sent =
        start_acast outside (final_payload s.id s.my_a (sort senders))
          (record s { my_s = sort senders; my_h = s.my_a; sent_reconstruct = true }) in
      let stuck =
        reconstruct_rows-waits j k ks s.my_a sent.0 r.accepted r.attached r.listed r.same in
      subst
        (λ b.
          (if b
            then prepend sent.1 (reconstruct_rows outside (some held) s.my_a sent.0)
            else returns s [])
          ≡ waits)
        (sym r.ready) (ap (prepend sent.1) stuck)

  check_progress-waits :
      (j k : ℕ) (ks : List ℕ) (s : IccService)
      → Reenters j k ks (phase_accept outside (phase_attach outside s).0).0
      → check_progress outside (some held) s ≡ waits
  unfolding check_progress prepend and_then
  check_progress-waits j k ks s r =
      rw (phase_reconstruct-waits j k ks (phase_accept outside (phase_attach outside s).0).0 r) refl

-- A result of the secret `idx` of `dealer` for the process's round, behind which the process enters
-- the reconstruction phase, where it is to reconstruct this very secret, is never done with:
-- `StartReconstruction` waits for the mutex that `OnACastDelivered` holds in the same goroutine.
pub handle_ivss_result-waits :
    (outside : IccOutside) (res : IvssResult) (dealer idx : ℕ) (ks : List ℕ) (s : IccService)
    → outside.scan_instance res.instance_id ≡ some (s.round, (dealer, idx))
    → Reenters outside res.instance_id idx dealer ks
        (phase_accept outside
          (phase_attach outside (take_ivss_result res.type dealer idx res s)).0).0
    → handle_ivss_result outside res s ≡ waits
unfolding handle_ivss_result
handle_ivss_result-waits outside res dealer idx ks s scan r =
    rw (scan, beq_refl s.round)
      (check_progress-waits outside res.instance_id idx dealer ks
        (take_ivss_result res.type dealer idx res s) r)

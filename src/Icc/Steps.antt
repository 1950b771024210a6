-- ===== src/Icc/Steps.antt =====
-- services/icc.go: the three phases of `checkProgress`, each under the rules of Icc/Phases.
use async_agreement_protocol.Base.{
  ℕ, ◌-◌, ◌≡◌, refl, inl, inr, true, not, ◌&&◌, Option, none, some, List, [], ◌∷◌, String,
  nat_comparable, string_comparable, leb, length, arith, Bool-cases,
}
use async_agreement_protocol.Base.Maps.{lookup}
use async_agreement_protocol.Base.Sorting.{sort, length-sort}
use async_agreement_protocol.Attempt.{Ensures, prepend-Ensures, and_then-Ensures}
use async_agreement_protocol.Ivss.{start_reconstruction}
use async_agreement_protocol.Icc.Types.{IccPayload, IccService, IccOutside}
use async_agreement_protocol.Icc.Progress.{
  complete_dealers, subset_senders, accept_payload, attach_payload, final_payload, start_acast,
  phase_attach, phase_accept, reconstruct_one, reconstruct_row, reconstruct_rows, phase_reconstruct,
  locks, reconstruct_from,
}
use async_agreement_protocol.Icc.Phases.{
  Phases, phases, outputs, Follows, Follows_refl, ServiceFollows, ServiceFollows-trans,
  outputs-wrap_acasts, outputs-wrap_sharings,
}

module _ (outside : IccOutside) where
  -- An A-Cast that is started outputs nothing, and changes no phase.
  outputs-start_acast : (p : IccPayload) (s : IccService) → outputs (start_acast outside p s).1 ≡ 0
  unfolding start_acast outputs
  outputs-start_acast p s = outputs-wrap_acasts _

  start_acast-Follows :
      (p : IccPayload) (a : Phases) (s : IccService)
      → Follows a 0 (phases s)
      → Follows a (outputs (start_acast outside p s).1) (phases (start_acast outside p s).0)
  unfolding start_acast
  start_acast-Follows p a s h = rw (outputs-start_acast p s) h

  pub phase_attach-Follows :
      (s : IccService) → ServiceFollows s (phase_attach outside s).1 (phase_attach outside s).0
  unfolding phase_attach outputs
  phase_attach-Follows s =
      let dealers = complete_dealers s.n s.completed_secrets_count in
      let enough = not s.sent_attach && leb (s.n - s.t) (length dealers) in
      elim (Bool-cases enough) [
        | inl e ↦ rw e (
            start_acast-Follows (attach_payload s.id (sort dealers)) (phases s)
              (record s { my_t = sort dealers; sent_attach = true })
              (record {
                same_n = refl;
                same_t = refl;
                attach_stays = λ h. ground (arith, e, h);
                accept_stays = λ h. (h, refl);
                reconstruct_stays = λ h. (h, refl, refl);
                outputs_once = omega arith;
                ordered = λ o. record {
                  attached = λ h. ground (arith, e, length-sort dealers);
                  accepted = λ h. (refl, (o.accepted h).1);
                  reconstructed = o.reconstructed;
                  decided = o.decided;
                };
              }))
        | inr e ↦ rw e (Follows_refl (phases s))
      ]

  pub phase_accept-Follows :
      (s : IccService) → ServiceFollows s (phase_accept outside s).1 (phase_accept outside s).0
  unfolding phase_accept outputs
  phase_accept-Follows s =
      let senders = subset_senders s.received_t s.my_t in
      let enough = not s.sent_accept && s.sent_attach && leb (s.n - s.t) (length senders) in
      elim (Bool-cases enough) [
        | inl e ↦ rw e (
            start_acast-Follows (accept_payload s.id (sort senders)) (phases s)
              (record s { my_a = sort senders; sent_accept = true })
              (record {
                same_n = refl;
                same_t = refl;
                attach_stays = λ h. (h, refl);
                accept_stays = λ h. ground (arith, e, h);
                reconstruct_stays = λ h. (h, refl, refl);
                outputs_once = omega arith;
                ordered = λ o. record {
                  attached = o.attached;
                  accepted = λ h. (ground (arith, e), ground (arith, e, length-sort senders));
                  reconstructed =
                      λ h. let before = (o.reconstructed h).0 in ground (arith, e, before);
                  decided = o.decided;
                };
              }))
        | inr e ↦ rw e (Follows_refl (phases s))
      ]

  reconstruct_one-Ensures :
      (held : Option String) (j k : ℕ) (s : IccService)
      → Ensures (ServiceFollows s) (reconstruct_one outside held j k s)
  unfolding reconstruct_one
  reconstruct_one-Ensures held j k s =
      elim (Bool-cases (locks held (outside.print_instance s.round k j))) [
        | inl e ↦ rw e tt
        | inr e ↦ rw e (
            rw
              (outputs-wrap_sharings
                (start_reconstruction outside.ivss (outside.print_instance s.round k j) s.ivss).1)
              (Follows_refl (phases s)))
      ]

  reconstruct_row-Ensures :
      (held : Option String) (j : ℕ) (ks : List ℕ) (s : IccService)
      → Ensures (ServiceFollows s) (reconstruct_row outside held j ks s)
  unfolding reconstruct_row outputs
  reconstruct_row-Ensures held j [] s = Follows_refl (phases s)
  reconstruct_row-Ensures held j (k ∷ ks) s =
      and_then-Ensures ServiceFollows ServiceFollows-trans s (reconstruct_one outside held j k s)
        (reconstruct_row outside held j ks) (reconstruct_one-Ensures held j k s)
        (reconstruct_row-Ensures held j ks)

  reconstruct_from-Ensures :
      (held : Option String) (j : ℕ) (o : Option (List ℕ)) (s : IccService)
      → Ensures (ServiceFollows s) (reconstruct_from outside held j o s)
  unfolding outputs
  reconstruct_from-Ensures held j none s = Follows_refl (phases s)
  reconstruct_from-Ensures held j (some ks) s = reconstruct_row-Ensures held j ks s

  reconstruct_rows-Ensures :
      (held : Option String) (js : List ℕ) (s : IccService)
      → Ensures (ServiceFollows s) (reconstruct_rows outside held js s)
  unfolding reconstruct_rows outputs
  reconstruct_rows-Ensures held [] s = Follows_refl (phases s)
  reconstruct_rows-Ensures held (j ∷ js) s =
      let row = lookup j s.received_t in
      and_then-Ensures ServiceFollows ServiceFollows-trans s (reconstruct_from outside held j row s)
        (reconstruct_rows outside held js) (reconstruct_from-Ensures held j row s)
        (reconstruct_rows-Ensures held js)

  -- The state and the effects of the final sets.
  final_sets-Follows :
      (s : IccService) (senders : List ℕ)
      → (not s.sent_reconstruct && s.sent_accept && leb (s.n - s.t) (length senders)) ≡ true
      → let sent =
          start_acast outside
            (final_payload s.id s.my_a (sort senders))
            (record s { my_s = sort senders; my_h = s.my_a; sent_reconstruct = true }) in
        ServiceFollows s sent.1 sent.0
  final_sets-Follows s senders e =
      start_acast-Follows (final_payload s.id s.my_a (sort senders)) (phases s)
        (record s { my_s = sort senders; my_h = s.my_a; sent_reconstruct = true })
        (record {
          same_n = refl;
          same_t = refl;
          attach_stays = λ h. (h, refl);
          accept_stays = λ h. (h, refl);
          reconstruct_stays = λ h. ground (arith, e, h);
          outputs_once = omega arith;
          ordered = λ o. record {
            attached = o.attached;
            accepted = o.accepted;
            reconstructed = λ h. (ground (arith, e), ground (arith, e, length-sort senders), refl);
            decided = λ h. refl;
          };
        })

  pub phase_reconstruct-Ensures :
      (held : Option String) (s : IccService)
      → Ensures (ServiceFollows s) (phase_reconstruct outside held s)
  unfolding phase_reconstruct outputs
  phase_reconstruct-Ensures held s =
      let senders = subset_senders s.received_a s.my_a in
      let enough = not s.sent_reconstruct && s.sent_accept && leb (s.n - s.t) (length senders) in
      let sent =
        start_acast outside (final_payload s.id s.my_a (sort senders))
          (record s { my_s = sort senders; my_h = s.my_a; sent_reconstruct = true }) in
      elim (Bool-cases enough) [
        | inl e ↦ rw e (
            prepend-Ensures ServiceFollows ServiceFollows-trans s sent.0 sent.1 _
              (final_sets-Follows s senders e) (reconstruct_rows-Ensures held _ sent.0))
        | inr e ↦ rw e (Follows_refl (phases s))
      ]

-- ===== src/Icc/Lifecycle.antt =====
-- services/icc.go, `checkProgress`: each phase keeps to the rules of Icc/Phases.
use async_agreement_protocol.Base.{
  ◌≡◌, refl, sym, subst, inl, inr, Bool, true, false, Option, none, some, [], String,
  nat_comparable, string_comparable, if◌then◌else◌, arith, Bool-cases,
}
use async_agreement_protocol.Attempt.{Ensures, prepend-Ensures, and_then-Ensures}
use async_agreement_protocol.Icc.Types.{FinalSet, IccService, IccOutside, IccEffects}
use async_agreement_protocol.Icc.Coin.{accepts, find_decision, output_coin, check_decision}
use async_agreement_protocol.Icc.Progress.{
  phase_attach, phase_accept, phase_reconstruct, check_progress, done,
}
use async_agreement_protocol.Icc.Decision.{find_decision-Decides}
use async_agreement_protocol.Icc.Phases.{
  phases, outputs, Follows_refl, ServiceFollows, ServiceFollows-trans,
}
use async_agreement_protocol.Icc.Steps.{
  phase_attach-Follows, phase_accept-Follows, phase_reconstruct-Ensures,
}

-- A coin is output once, after the final sets are sent.
output_coin-Follows :
    (s : IccService) (o : Option Bool)
    → s.finished ≡ false
    → ((z : Bool) → o ≡ some z → s.sent_reconstruct ≡ true)
    → ServiceFollows s (output_coin s o).1 (output_coin s o).0
unfolding outputs
output_coin-Follows s none running ready = Follows_refl (phases s)
output_coin-Follows s (some z) running ready = record {
  same_n = refl;
  same_t = refl;
  attach_stays = λ h. (h, refl);
  accept_stays = λ h. (h, refl);
  reconstruct_stays = λ h. (h, refl, refl);
  outputs_once = rw running refl;
  ordered = λ o. record {
    attached = o.attached;
    accepted = o.accepted;
    reconstructed = o.reconstructed;
    decided = λ h. ready z refl;
  };
}

accepts-sent_reconstruct :
    (s : IccService) (f : FinalSet) → accepts s f ≡ true → s.sent_reconstruct ≡ true
unfolding accepts
accepts-sent_reconstruct s f e = ground (arith, e)

check_decision-Follows :
    (s : IccService) → ServiceFollows s (check_decision s).1 (check_decision s).0
unfolding check_decision outputs
check_decision-Follows s =
    let decision = find_decision s s.received_final_sets in
    let after = λ (x : IccService × IccEffects). ServiceFollows s x.1 x.0 in
    elim (Bool-cases s.finished) [
      | inl e ↦
          subst (λ b. after (if b then (s, []) else output_coin s decision)) (sym e)
            (Follows_refl (phases s))
      | inr e ↦
          subst (λ b. after (if b then (s, []) else output_coin s decision)) (sym e)
            (output_coin-Follows s decision e (λ z h.
              let found = find_decision-Decides s s.received_final_sets z h in
              accepts-sent_reconstruct s found.0 found.2.0))
    ]

-- `checkProgress` keeps to the rules.
pub check_progress-Ensures :
    (outside : IccOutside) (held : Option String) (s : IccService)
    → Ensures (ServiceFollows s) (check_progress outside held s)
unfolding check_progress
check_progress-Ensures outside held s =
    let a = phase_attach outside s in
    let b = phase_accept outside a.0 in
    prepend-Ensures ServiceFollows ServiceFollows-trans s a.0 a.1 _ (phase_attach-Follows outside s)
      (prepend-Ensures ServiceFollows ServiceFollows-trans a.0 b.0 b.1 _
        (phase_accept-Follows outside a.0)
        (and_then-Ensures ServiceFollows ServiceFollows-trans b.0
          (phase_reconstruct outside held b.0) (λ d. done outside (check_decision d))
          (phase_reconstruct-Ensures outside held b.0) check_decision-Follows))

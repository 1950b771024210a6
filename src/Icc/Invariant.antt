-- ===== src/Icc/Invariant.antt =====
-- services/icc.go: what holds of a process of the coin after any messages.
use async_agreement_protocol.Base.{
  ℕ, ◌≡◌, subst, true, [], ◌++◌, string_comparable, nat_comparable, arith,
}
use async_agreement_protocol.Attempt.{returns, Ensures}
use async_agreement_protocol.Certification.{CertificationProtocol}
use async_agreement_protocol.Icc.Types.{
  IccMessage, IccService, IccOutside, IccEffects, new_icc_service,
}
use async_agreement_protocol.Icc.Service.{on_icc_message, start_icc}
use async_agreement_protocol.Icc.Phases.{
  phases, Ordered, flag, outputs, Follows_refl, ServiceFollows, ServiceFollows-trans,
}
use async_agreement_protocol.Icc.Handlers.{on_icc_message-Ensures, start_icc-Ensures}

-- The life of a process of the coin, with what it sends. The certification is shared, and others
-- change it.
pub data IccRun (outside : IccOutside) (first : IccService) : IccEffects → IccService → Type 0 where
  fresh : IccRun outside first [] first
  begun :
      (es rest : IccEffects) (s s' : IccService)
      → IccRun outside first es s
      → start_icc outside s ≡ returns s' rest
      → IccRun outside first (es ++ rest) s'
  handled :
      (m : IccMessage) (es rest : IccEffects) (s s' : IccService)
      → IccRun outside first es s
      → on_icc_message outside m s ≡ returns s' rest
      → IccRun outside first (es ++ rest) s'
  certified :
      (cp : CertificationProtocol) (es : IccEffects) (s : IccService)
      → IccRun outside first es s
      → IccRun outside first es (record s { ivss = record s.ivss { cp = cp } })

module _ (outside : IccOutside) where
  run-Follows :
      (a : IccService) (es : IccEffects) (b : IccService)
      → IccRun outside a es b
      → ServiceFollows a es b
  unfolding outputs
  run-Follows a _ _ fresh = Follows_refl (phases a)
  run-Follows a _ _ (begun es rest s s' r e) =
      ServiceFollows-trans a s s' es rest (run-Follows a es s r)
        (subst (Ensures (ServiceFollows s)) e (start_icc-Ensures outside s))
  run-Follows a _ _ (handled m es rest s s' r e) =
      ServiceFollows-trans a s s' es rest (run-Follows a es s r)
        (subst (Ensures (ServiceFollows s)) e (on_icc_message-Ensures outside m s))
  run-Follows a _ _ (certified cp es s r) = run-Follows a es s r

  -- In a run from the first state, with any messages, a process has output one coin if it has
  -- finished and none otherwise; and each phase follows the one before it, with lists T, A and S of at
  -- least n - t members, H being A.
  pub run-Ordered :
      (id n t round : ℕ) (cp : CertificationProtocol) (es : IccEffects) (s : IccService)
      → IccRun outside (new_icc_service outside id n t round cp) es s
      → (outputs es ≡ flag s.finished) × Ordered (phases s)
  unfolding new_icc_service
  run-Ordered id n t round cp es s r =
      let f = run-Follows (new_icc_service outside id n t round cp) es s r in
      (
        omega (arith, f.outputs_once),
        f.ordered (record {
          attached = λ h. ground (arith, h);
          accepted = λ h. ground (arith, h);
          reconstructed = λ h. ground (arith, h);
          decided = λ h. ground (arith, h);
        }),
      )

  -- Along any further run, the sets that a process has sent stay what they were.
  pub run-keeps_sets :
      (a b : IccService) (es : IccEffects)
      → IccRun outside a es b
      → (a.sent_attach ≡ true → b.my_t ≡ a.my_t)
        × (a.sent_accept ≡ true → b.my_a ≡ a.my_a)
        × (a.sent_reconstruct ≡ true → (b.my_h ≡ a.my_h) × (b.my_s ≡ a.my_s))
  run-keeps_sets a b es r =
      let f = run-Follows a es b r in
      (
        λ h. (f.attach_stays h).1,
        λ h. (f.accept_stays h).1,
        λ h. let kept = f.reconstruct_stays h in (kept.1, kept.2),
      )

-- ===== src/Ivss/Steps.antt =====
-- services/ivss.go: what the calls on one instance do to its completion and its set M.
use async_agreement_protocol.Base.{
  ℕ, ◌-◌, ◌≤◌, ◌≡◌, refl, Bool, true, false, not, ◌&&◌, Option, none, some, List, [],
  nat_comparable, pair_comparable, string_comparable, leb, if◌then◌else◌, length, arith,
}
use async_agreement_protocol.Base.Members.{add}
use async_agreement_protocol.ACast.{or_else}
use async_agreement_protocol.Ivss.Types.{IvssPayload, IvssInstance, IvssService, IvssEffects}
use async_agreement_protocol.Ivss.Direct.{InstanceCall, with_instance}
use async_agreement_protocol.Ivss.Service.{
  complete_sharing, output_secret, on_ready, retry_pending, on_m_set,
}
use async_agreement_protocol.Ivss.Verified.{
  AllEqual, add-AllEqual, Follows, Follows_refl, Follows-trans, same-Follows, verify_m_set_sound,
}

module _ (n t : ℕ) where
  abbrev pub CallFollows : IvssInstance → InstanceCall → Type 0
  CallFollows a none = Unit {0}
  CallFollows a (some (b, es)) = Follows n t a b

  pub with_instance-CallFollows :
      (a b : IvssInstance) (es : Option IvssEffects)
      → Follows n t a b
      → CallFollows a (with_instance b es)
  with_instance-CallFollows a b none h = tt
  with_instance-CallFollows a b (some es) h = h

  if-Follows :
      (a : IvssInstance) (test : Bool) (x y : IvssInstance × IvssEffects)
      → (test ≡ true → Follows n t a x.0)
      → Follows n t a y.0
      → Follows n t a ((if test then x else y).0)
  if-Follows a true x y p q = p refl
  if-Follows a false x y p q = q

  -- A verified set may be taken over at any time.
  complete_sharing-Follows :
      (m_set : Option (List ℕ)) (inst : IvssInstance)
      → (n - t ≤ length (or_else [] m_set)) × AllEqual inst.completed_equals (or_else [] m_set)
      → Follows n t inst ((complete_sharing m_set inst).0)
  unfolding complete_sharing
  complete_sharing-Follows m_set inst h = record { verified = λ k e. h; stays = λ e. refl }

  output_secret-Follows : (b : IvssInstance) (o : Option ℕ) → Follows n t b ((output_secret b o).0)
  unfolding output_secret
  output_secret-Follows b none = Follows_refl n t b
  output_secret-Follows b (some v) = same-Follows n t b _ refl refl refl

  pub on_ready-Follows :
      (p : IvssPayload) (inst : IvssInstance) → Follows n t inst ((on_ready n t p inst).0)
  unfolding on_ready
  on_ready-Follows p inst =
      let b = record inst { ready_to_complete = add p.reveal_sender inst.ready_to_complete } in
      let same = same-Follows n t inst b refl refl refl in
      if-Follows inst (leb (n - t) (length b.ready_to_complete) && not b.reconstructed) _ _
        (λ e.
          Follows-trans n t inst b ((output_secret b b.secret).0) same
            (output_secret-Follows b b.secret))
        same

  pub equal-Follows :
      (p : IvssPayload) (inst : IvssInstance)
      → Follows n t inst (record inst { completed_equals = add p.equal_pair inst.completed_equals })
  equal-Follows p inst = record {
    verified = λ h e.
        ((h e).0, add-AllEqual inst.completed_equals p.equal_pair (or_else [] inst.m_set) (h e).1);
    stays = λ e. e;
  }

module _ (s : IvssService) where
  pub retry_pending-Follows :
      (pending : Option (List ℕ)) (inst : IvssInstance)
      → Follows s.n s.t inst ((retry_pending s pending inst).0)
  unfolding retry_pending
  retry_pending-Follows none inst = Follows_refl s.n s.t inst
  retry_pending-Follows (some m_set) inst =
      if-Follows s.n s.t inst _ _ _
        (λ e.
          complete_sharing-Follows s.n s.t (some m_set) inst
            (verify_m_set_sound s.n s.t inst.completed_equals s.cp m_set (ground (arith, e))))
        (Follows_refl s.n s.t inst)

  pub on_m_set-Follows :
      (p : IvssPayload) (inst : IvssInstance) → Follows s.n s.t inst ((on_m_set s p inst).0)
  unfolding on_m_set
  on_m_set-Follows p inst =
      if-Follows s.n s.t inst _ _ _
        (λ e.
          complete_sharing-Follows s.n s.t p.m_set inst
            (verify_m_set_sound s.n s.t inst.completed_equals s.cp (or_else [] p.m_set) e))
        (same-Follows s.n s.t inst _ refl refl refl)

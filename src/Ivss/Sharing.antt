-- ===== src/Ivss/Sharing.antt =====
-- services/ivss.go, the deliveries and the direct messages, under the rules of Ivss/Verified.
use async_agreement_protocol.Base.{
  ℕ, ◌-◌, ◌*◌, ◌≡◌, refl, ◌∙◌, inl, inr, Option, none, some, List, [], String, nat_comparable,
  pair_comparable, string_comparable, eqb, ltb, leb, length, Bool-cases,
}
use async_agreement_protocol.Base.Members.{add}
use async_agreement_protocol.Attempt.{Ensures}
use async_agreement_protocol.Polynomial.{Polynomial}
use async_agreement_protocol.Certification.{CertificationProtocol}
use async_agreement_protocol.Ivss.Types.{
  IvssPayloadType, payload_equal, payload_m_set, payload_reveal, payload_ready, IvssPayload,
  DirectMsgType, direct_share, direct_point, IvssMessage, IvssInstance, IvssService, IvssOutside,
  IvssEffects,
}
use async_agreement_protocol.Ivss.Sets.{interpolation_target, candidates, Agreeing, valid_loop}
use async_agreement_protocol.Ivss.Messages.{instance_of, put_instance}
use async_agreement_protocol.Ivss.Direct.{
  InstanceCall, close, on_share, on_point_with, on_direct_as, on_direct,
}
use async_agreement_protocol.Ivss.Service.{
  on_ready, retry_pending, on_equal, on_m_set, Interpolated, take_secret, take_valid,
  check_interpolation_set, on_reveal, close_reveal, deliver_as, on_acast_delivered,
}
use async_agreement_protocol.Ivss.Steps.{
  CallFollows, with_instance-CallFollows, on_ready-Follows, equal-Follows, retry_pending-Follows,
  on_m_set-Follows,
}
use async_agreement_protocol.Ivss.Verified.{
  Follows, Follows_refl, Follows-trans, same-Follows, ServiceFollows, fresh-Follows,
  put_instance-ServiceFollows,
}

-- Only the instances matter.
same_instances :
    (s a b : IvssService) (es : IvssEffects)
    → ServiceFollows s es a
    → b.n ≡ a.n
    → b.t ≡ a.t
    → b.instances ≡ a.instances
    → ServiceFollows s es b
unfolding instance_of
same_instances s a b es h e f g = (e ∙ h.0, f ∙ h.1, λ id. rw g (h.2 id))

module _ (s : IvssService) where
  module _ (outside : IvssOutside) where
    on_equal-Follows :
        (p : IvssPayload) (inst : IvssInstance)
        → Follows s.n s.t inst ((on_equal outside s p inst).0)
    unfolding on_equal
    on_equal-Follows p inst =
        let b = record inst { completed_equals = add p.equal_pair inst.completed_equals } in
        Follows-trans s.n s.t inst b ((retry_pending s b.pending_m_set b).0)
          (equal-Follows s.n s.t p inst) (retry_pending-Follows s b.pending_m_set b)

    abbrev RevealFollows : IvssInstance → Interpolated → Type 0
    RevealFollows a none = Unit {0}
    RevealFollows a (some (b, (cp, es))) = Follows s.n s.t a b

    take_secret-RevealFollows :
        (cp : CertificationProtocol) (inst : IvssInstance) (o : Option ℕ)
        → RevealFollows inst (take_secret outside s cp inst o)
    take_secret-RevealFollows cp inst none = tt
    take_secret-RevealFollows cp inst (some v) = same-Follows s.n s.t inst _ refl refl refl

    take_valid-RevealFollows :
        (inst : IvssInstance) (r : Agreeing) → RevealFollows inst (take_valid outside s inst r)
    take_valid-RevealFollows inst none = tt
    take_valid-RevealFollows inst (some (valid, cp)) =
        elim (Bool-cases (leb (interpolation_target s.n s.t) (length valid))) [
          | inl e ↦ rw e (take_secret-RevealFollows cp inst _)
          | inr e ↦ rw e (Follows_refl s.n s.t inst)
        ]

    interpolation-RevealFollows :
        (m_set : Option (List ℕ)) (inst : IvssInstance)
        → RevealFollows inst (check_interpolation_set outside s m_set inst)
    unfolding check_interpolation_set
    interpolation-RevealFollows none inst = Follows_refl s.n s.t inst
    interpolation-RevealFollows (some m_set) inst =
        let chosen = candidates inst.reconstructed_polys m_set in
        elim (Bool-cases (ltb (length chosen) (s.n - 2 * s.t))) [
          | inl e ↦ rw e (Follows_refl s.n s.t inst)
          | inr e ↦ rw e (
              take_valid-RevealFollows inst
                (valid_loop inst.reconstructed_polys chosen (some ([], s.cp))))
        ]

    close-Ensures :
        (a : IvssInstance) (id : String) (call : InstanceCall)
        → Follows s.n s.t (instance_of s id 0) a
        → CallFollows s.n s.t a call
        → Ensures (ServiceFollows s) (close s id call)
    close-Ensures a id none p q = tt
    close-Ensures a id (some (b, es)) p q =
        put_instance-ServiceFollows s es id b (Follows-trans s.n s.t (instance_of s id 0) a b p q)

    close_reveal-Ensures :
        (a : IvssInstance) (id : String) (call : Interpolated)
        → Follows s.n s.t (instance_of s id 0) a
        → RevealFollows a call
        → Ensures (ServiceFollows s) (close_reveal s id call)
    unfolding put_instance
    close_reveal-Ensures a id none p q = tt
    close_reveal-Ensures a id (some (b, (cp, es))) p q =
        let stored =
          put_instance-ServiceFollows s es id b
            (Follows-trans s.n s.t (instance_of s id 0) a b p q) in
        same_instances s (put_instance b id s) (put_instance b id (record s { cp = cp })) es stored
          refl refl refl

    on_direct_as-CallFollows :
        (type : DirectMsgType) (m : IvssMessage) (inst : IvssInstance)
        → CallFollows s.n s.t inst (on_direct_as outside type s.id s.n m inst)
    unfolding on_direct_as on_share
    on_direct_as-CallFollows direct_share m inst =
        with_instance-CallFollows s.n s.t inst _ _ (same-Follows s.n s.t inst _ refl refl refl)
    on_direct_as-CallFollows direct_point m inst = point inst.received_poly
      where
        point :
            (p : Option Polynomial) → CallFollows s.n s.t inst (on_point_with outside p s.id m inst)
        point none = same-Follows s.n s.t inst _ refl refl refl
        point (some p) = with_instance-CallFollows s.n s.t inst inst _ (Follows_refl s.n s.t inst)

    pub on_direct-Ensures : (m : IvssMessage) → Ensures (ServiceFollows s) (on_direct outside m s)
    unfolding on_direct
    on_direct-Ensures m = elim (Bool-cases (eqb m.to s.id)) [
      | inl e ↦
          let inst = instance_of s m.instance_id m.from in
          rw e (
            close-Ensures inst m.instance_id _ (fresh-Follows s m.instance_id m.from)
              (on_direct_as-CallFollows m.direct_type m inst))
      | inr e ↦ rw e (refl, refl, λ id. Follows_refl s.n s.t (instance_of s id 0))
    ]

    RevealFollows-trans :
        (a b : IvssInstance) (call : Interpolated)
        → Follows s.n s.t a b
        → RevealFollows b call
        → RevealFollows a call
    RevealFollows-trans a b none p q = tt
    RevealFollows-trans a b (some (d, (cp, es))) p q = Follows-trans s.n s.t a b d p q

    on_reveal-RevealFollows :
        (p : IvssPayload) (inst : IvssInstance) → RevealFollows inst (on_reveal outside s p inst)
    unfolding on_reveal
    on_reveal-RevealFollows p inst =
        RevealFollows-trans inst _ _ (same-Follows s.n s.t inst _ refl refl refl)
          (interpolation-RevealFollows inst.m_set _)

    deliver_as-Ensures :
        (type : IvssPayloadType) (p : IvssPayload)
        → Ensures (ServiceFollows s) (deliver_as outside type p (instance_of s p.instance_id 0) s)
    unfolding deliver_as
    deliver_as-Ensures payload_equal p =
        let inst = instance_of s p.instance_id 0 in
        close-Ensures inst p.instance_id (some (on_equal outside s p inst))
          (Follows_refl s.n s.t inst) (on_equal-Follows p inst)
    deliver_as-Ensures payload_m_set p =
        let inst = instance_of s p.instance_id 0 in
        close-Ensures inst p.instance_id (some (on_m_set s p inst)) (Follows_refl s.n s.t inst)
          (on_m_set-Follows s p inst)
    deliver_as-Ensures payload_reveal p =
        let inst = instance_of s p.instance_id 0 in
        close_reveal-Ensures inst p.instance_id _ (Follows_refl s.n s.t inst)
          (on_reveal-RevealFollows p inst)
    deliver_as-Ensures payload_ready p =
        let inst = instance_of s p.instance_id 0 in
        close-Ensures inst p.instance_id (some (on_ready s.n s.t p inst))
          (Follows_refl s.n s.t inst) (on_ready-Follows s.n s.t p inst)

    pub delivered-Ensures :
        (p : Option IvssPayload) → Ensures (ServiceFollows s) (on_acast_delivered outside p s)
    unfolding on_acast_delivered
    delivered-Ensures none = (refl, refl, λ id. Follows_refl s.n s.t (instance_of s id 0))
    delivered-Ensures (some p) = deliver_as-Ensures p.type p

-- ===== src/Ivss/Invariant.antt =====
-- services/ivss.go: what holds of a service after any messages.
use async_agreement_protocol.Base.{
  ℕ, ◌-◌, ◌≤◌, ◌≡◌, refl, sym, ◌∙◌, subst, Bool, true, false, not, if◌then◌else◌, nat_comparable,
  Option, none, some, List, [], ◌∷◌, ◌++◌, String, string_comparable, length,
}
use async_agreement_protocol.Base.Maps.{lookup}
use async_agreement_protocol.Base.Members.{contains}
use async_agreement_protocol.Context.{Effect, broadcast, send_result}
use async_agreement_protocol.Attempt.{returns, Ensures, prepend-Ensures, and_then-Ensures}
use async_agreement_protocol.ACast.{ACastMessage, on_message, or_else}
use async_agreement_protocol.Certification.{CertificationProtocol}
use async_agreement_protocol.Ivss.Types.{
  IvssMsgType, ivss_direct, ivss_acast, IvssMessage, IvssService, IvssOutside, IvssEffects,
  new_ivss_service, new_ivss_instance,
}
use async_agreement_protocol.Ivss.Messages.{instance_of, put_instance, wrap_acast}
use async_agreement_protocol.Ivss.Direct.{start_sharing, start_reconstruction}
use async_agreement_protocol.Ivss.Service.{
  on_acast_delivered, adapt_acast, on_acast_msg, on_ivss_as, on_ivss_message,
}
use async_agreement_protocol.Ivss.Verified.{
  PairsEqual, AllEqual-PairsEqual, Follows, Follows_refl, Follows-trans, ServiceFollows,
  put_instance-ServiceFollows,
}
use async_agreement_protocol.Ivss.Sharing.{on_direct-Ensures, delivered-Ensures}

idle : (s : IvssService) (es : IvssEffects) → ServiceFollows s es s
idle s es = (refl, refl, λ id. Follows_refl s.n s.t (instance_of s id 0))

ServiceFollows-trans :
    (a b d : IvssService) (xs ys : IvssEffects)
    → ServiceFollows a xs b
    → ServiceFollows b ys d
    → ServiceFollows a (xs ++ ys) d
ServiceFollows-trans a b d xs ys p q = (
  q.0 ∙ p.0,
  q.1 ∙ p.1,
  λ id.
      Follows-trans a.n a.t (instance_of a id 0) (instance_of b id 0) (instance_of d id 0) (p.2 id)
        (subst (λ k. Follows k a.t (instance_of b id 0) (instance_of d id 0)) p.0
          (subst (λ k. Follows b.n k (instance_of b id 0) (instance_of d id 0)) p.1 (q.2 id))),
)

module _ (outside : IvssOutside) where
  adapt_acast-Ensures :
      (es : List (Effect (ACastMessage String) String)) (s : IvssService)
      → Ensures (ServiceFollows s) (adapt_acast outside es s)
  unfolding adapt_acast
  adapt_acast-Ensures [] s = idle s []
  adapt_acast-Ensures (broadcast m ∷ es) s =
      prepend-Ensures ServiceFollows ServiceFollows-trans s s (broadcast (wrap_acast m) ∷ [])
        (adapt_acast outside es s) (idle s []) (adapt_acast-Ensures es s)
  adapt_acast-Ensures (send_result res ∷ es) s =
      and_then-Ensures ServiceFollows ServiceFollows-trans s
        (on_acast_delivered outside (outside.unmarshal res) s) (adapt_acast outside es)
        (delivered-Ensures s outside (outside.unmarshal res)) (adapt_acast-Ensures es)

  on_acast_msg-Ensures :
      (m : Option (ACastMessage String)) (s : IvssService)
      → Ensures (ServiceFollows s) (on_acast_msg outside m s)
  unfolding on_acast_msg instance_of
  on_acast_msg-Ensures none s = idle s []
  on_acast_msg-Ensures (some m) s =
      adapt_acast-Ensures _ (record s { acast = (on_message s.acast m).0 })

  on_ivss_as-Ensures :
      (type : IvssMsgType) (m : IvssMessage) (s : IvssService)
      → Ensures (ServiceFollows s) (on_ivss_as outside type m s)
  unfolding on_ivss_as
  on_ivss_as-Ensures ivss_acast m s = on_acast_msg-Ensures m.acast_msg s
  on_ivss_as-Ensures ivss_direct m s = on_direct-Ensures s outside m

  -- Every message that is handled keeps each instance verified, and each complete sharing complete.
  on_ivss_message-Ensures :
      (m : IvssMessage) (s : IvssService) → Ensures (ServiceFollows s) (on_ivss_message outside m s)
  unfolding on_ivss_message
  on_ivss_message-Ensures m s = on_ivss_as-Ensures m.type m s

-- The life of a service: its calls in any order. The certification is shared, and others change it.
pub data IvssRun (outside : IvssOutside) (first : IvssService) : IvssService → Type 0 where
  starts : IvssRun outside first first
  handled :
      (m : IvssMessage) (s s' : IvssService) (es : IvssEffects)
      → IvssRun outside first s
      → on_ivss_message outside m s ≡ returns s' es
      → IvssRun outside first s'
  deals :
      (id : String) (secret : ℕ) (s : IvssService)
      → IvssRun outside first s
      → IvssRun outside first (start_sharing outside id secret s).0
  reconstructs :
      (id : String) (s : IvssService)
      → IvssRun outside first s
      → IvssRun outside first (start_reconstruction outside id s).0
  certifies :
      (cp : CertificationProtocol) (s : IvssService)
      → IvssRun outside first s
      → IvssRun outside first (record s { cp = cp })

-- Three branches that leave the same state.
same_outcome :
    (b c : Bool) (s : IvssService) (xs ys zs : IvssEffects)
    → (if◌then◌else◌ {A = IvssService × IvssEffects}
        (not b)
        (s, xs)
        (if c then (s, ys) else (s, zs))).0
      ≡ s
same_outcome false c s xs ys zs = refl
same_outcome true false s xs ys zs = refl
same_outcome true true s xs ys zs = refl

module _ (outside : IvssOutside) where
  start_reconstruction-Follows :
      (id : String) (s : IvssService) → ServiceFollows s [] (start_reconstruction outside id s).0
  unfolding start_reconstruction
  start_reconstruction-Follows id s =
      let inst = instance_of s id 0 in
      let a = put_instance inst id s in
      subst (ServiceFollows s [])
        (sym
          (same_outcome inst.sharing_completed (contains (or_else [] inst.m_set) s.id) a [] _ []))
        (put_instance-ServiceFollows s [] id inst (Follows_refl s.n s.t inst))

  start_sharing-Follows :
      (id : String) (secret : ℕ) (s : IvssService)
      → ServiceFollows s [] (start_sharing outside id secret s).0
  unfolding start_sharing instance_of
  start_sharing-Follows id secret s = idle s []

  other-Follows :
      (cp : CertificationProtocol) (s : IvssService) → ServiceFollows s [] (record s { cp = cp })
  unfolding instance_of
  other-Follows cp s = idle s []

  run-Follows : (a b : IvssService) → IvssRun outside a b → ServiceFollows a [] b
  run-Follows a _ starts = idle a []
  run-Follows a _ (handled m s s' es p e) =
      ServiceFollows-trans a s s' [] es (run-Follows a s p)
        (subst (Ensures (ServiceFollows s)) e (on_ivss_message-Ensures outside m s))
  run-Follows a _ (deals id secret s p) =
      ServiceFollows-trans a s _ [] [] (run-Follows a s p) (start_sharing-Follows id secret s)
  run-Follows a _ (reconstructs id s p) =
      ServiceFollows-trans a s _ [] [] (run-Follows a s p) (start_reconstruction-Follows id s)
  run-Follows a _ (certifies cp s p) =
      ServiceFollows-trans a s _ [] [] (run-Follows a s p) (other-Follows cp s)

  new_ivss_service-incomplete :
      (i n t : ℕ) (cp : CertificationProtocol) (id : String)
      → (instance_of (new_ivss_service i n t cp) id 0).sharing_completed ≡ false
  unfolding new_ivss_service instance_of new_ivss_instance lookup
  new_ivss_service-incomplete i n t cp id = refl

  -- Whatever messages a service handles from its creation on, whatever it deals and reconstructs in
  -- between, and however the shared certification changes: a sharing that is complete has a list M of
  -- at least n - t entries, any two of which have an EQUAL delivered both ways.
  pub run-PairsEqual :
      (i n t : ℕ) (cp : CertificationProtocol) (s : IvssService) (id : String)
      → IvssRun outside (new_ivss_service i n t cp) s
      → (instance_of s id 0).sharing_completed ≡ true
      → (n - t ≤ length (or_else [] (instance_of s id 0).m_set))
        × PairsEqual (instance_of s id 0).completed_equals (or_else [] (instance_of s id 0).m_set)
  unfolding new_ivss_service
  run-PairsEqual i n t cp s id p done =
      let first = new_ivss_service i n t cp in
      let verified =
        ((run-Follows first s p).2 id).verified
          (λ e. cc (e, new_ivss_service-incomplete i n t cp id)) done in
      (verified.0, AllEqual-PairsEqual _ _ verified.1)

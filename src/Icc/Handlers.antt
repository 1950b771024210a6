-- ===== src/Icc/Handlers.antt =====
-- services/icc.go, the entry points and the adapters, under the rules of Icc/Phases.
use async_agreement_protocol.Base.{
  ℕ, zero, suc, ◌≡◌, refl, subst, inl, inr, Bool, true, false, Option, none, some, List, [], ◌∷◌,
  String, string_comparable, nat_comparable, ◌==◌, if◌then◌else◌, Bool-cases,
}
use async_agreement_protocol.Base.Members.{contains}
use async_agreement_protocol.Base.Maps.{lookup}
use async_agreement_protocol.Context.{Effect, broadcast, send_result}
use async_agreement_protocol.Attempt.{
  returns, panics, waits, Ensures, prepend-Ensures, and_then-Ensures,
}
use async_agreement_protocol.ACast.{ACastMessage, on_message, or_else}
use async_agreement_protocol.Ivss.{
  IvssMessage, IvssResultType, sharing_complete, reconstructed_secret, IvssResult, IvssAttempt,
  start_sharing, on_ivss_message,
}
use async_agreement_protocol.Icc.Types.{
  IccPayloadType, icc_attach, icc_accept, icc_reconstruct_enabled, icc_final_sets, IccPayload,
  IccMsgType, icc_ivss, icc_acast, IccMessage, IccService, IccOutside, IccAttempt,
}
use async_agreement_protocol.Icc.Progress.{wrap_acast, wrap_ivss, check_progress}
use async_agreement_protocol.Icc.Service.{
  count_sharing, store_value, take_ivss_result, store_payload, scanned, handle_ivss_result,
  adapt_ivss, process_payload, adapt_acast, take_ivss, on_ivss_msg, on_acast_msg, on_icc_as,
  on_icc_message, start_loop, start_icc,
}
use async_agreement_protocol.Icc.Phases.{
  phases, outputs, Follows, Follows_refl, ServiceFollows, ServiceFollows-trans,
}
use async_agreement_protocol.Icc.Lifecycle.{check_progress-Ensures}

-- What comes in changes no phase.
phases-count_sharing :
    (dealer idx : ℕ) (s : IccService) → phases (count_sharing dealer idx s) ≡ phases s
unfolding count_sharing
phases-count_sharing dealer idx s =
    elim (Bool-cases (contains (or_else [] (lookup dealer s.completed_secrets)) idx)) [
      | inl e ↦ rw e refl
      | inr e ↦ rw e refl
    ]

phases-take_ivss_result :
    (type : IvssResultType) (dealer idx : ℕ) (res : IvssResult) (s : IccService)
    → phases (take_ivss_result type dealer idx res s) ≡ phases s
unfolding take_ivss_result store_value
phases-take_ivss_result sharing_complete dealer idx res s = phases-count_sharing dealer idx s
phases-take_ivss_result reconstructed_secret dealer idx res s = refl

phases-store_payload :
    (type : IccPayloadType) (p : IccPayload) (s : IccService)
    → phases (store_payload type p s) ≡ phases s
unfolding store_payload
phases-store_payload icc_attach p s = refl
phases-store_payload icc_accept p s = refl
phases-store_payload icc_reconstruct_enabled p s = refl
phases-store_payload icc_final_sets p s = refl

-- A call that starts in the same phases.
same_phases :
    (s s' : IccService) (c : IccAttempt)
    → phases s' ≡ phases s
    → Ensures (ServiceFollows s') c
    → Ensures (ServiceFollows s) c
same_phases s s' (returns d es) e h = subst (λ a. Follows a (outputs es) (phases d)) e h
same_phases s s' panics e h = tt
same_phases s s' waits e h = tt

if-Ensures :
    (s : IccService) (test : Bool) (x y : IccAttempt)
    → Ensures (ServiceFollows s) x
    → Ensures (ServiceFollows s) y
    → Ensures (ServiceFollows s) (if test then x else y)
if-Ensures s true x y p q = p
if-Ensures s false x y p q = q

module _ (outside : IccOutside) where
  scanned-Ensures :
      (o : Option (ℕ × (ℕ × ℕ))) (res : IvssResult) (s : IccService)
      → Ensures (ServiceFollows s) (scanned outside o res s)
  unfolding outputs
  scanned-Ensures none res s = Follows_refl (phases s)
  scanned-Ensures (some (round, (dealer, idx))) res s =
      let s' = take_ivss_result res.type dealer idx res s in
      elim (Bool-cases (round == s.round)) [
        | inl e ↦ rw e (
            same_phases s s' (check_progress outside (some res.instance_id) s')
              (phases-take_ivss_result res.type dealer idx res s)
              (check_progress-Ensures outside (some res.instance_id) s'))
        | inr e ↦ rw e (Follows_refl (phases s))
      ]

  adapt_ivss-Ensures :
      (es : List (Effect IvssMessage IvssResult)) (s : IccService)
      → Ensures (ServiceFollows s) (adapt_ivss outside es s)
  unfolding adapt_ivss handle_ivss_result outputs
  adapt_ivss-Ensures [] s = Follows_refl (phases s)
  adapt_ivss-Ensures (broadcast m ∷ es) s =
      prepend-Ensures ServiceFollows ServiceFollows-trans s s (broadcast (wrap_ivss m) ∷ [])
        (adapt_ivss outside es s) (Follows_refl (phases s)) (adapt_ivss-Ensures es s)
  adapt_ivss-Ensures (send_result res ∷ es) s =
      and_then-Ensures ServiceFollows ServiceFollows-trans s (handle_ivss_result outside res s)
        (adapt_ivss outside es) (scanned-Ensures (outside.scan_instance res.instance_id) res s)
        (adapt_ivss-Ensures es)

  process_payload-Ensures :
      (p : Option IccPayload) (s : IccService)
      → Ensures (ServiceFollows s) (process_payload outside p s)
  unfolding process_payload outputs
  process_payload-Ensures none s = Follows_refl (phases s)
  process_payload-Ensures (some p) s =
      let s' = store_payload p.type p s in
      same_phases s s' (check_progress outside none s') (phases-store_payload p.type p s)
        (check_progress-Ensures outside none s')

  adapt_acast-Ensures :
      (es : List (Effect (ACastMessage String) String)) (s : IccService)
      → Ensures (ServiceFollows s) (adapt_acast outside es s)
  unfolding adapt_acast outputs
  adapt_acast-Ensures [] s = Follows_refl (phases s)
  adapt_acast-Ensures (broadcast m ∷ es) s =
      prepend-Ensures ServiceFollows ServiceFollows-trans s s (broadcast (wrap_acast m) ∷ [])
        (adapt_acast outside es s) (Follows_refl (phases s)) (adapt_acast-Ensures es s)
  adapt_acast-Ensures (send_result res ∷ es) s =
      and_then-Ensures ServiceFollows ServiceFollows-trans s
        (process_payload outside (outside.unmarshal res) s) (adapt_acast outside es)
        (process_payload-Ensures (outside.unmarshal res) s) (adapt_acast-Ensures es)

  take_ivss-Ensures :
      (c : IvssAttempt) (s : IccService) → Ensures (ServiceFollows s) (take_ivss outside c s)
  take_ivss-Ensures (returns ivss es) s = adapt_ivss-Ensures es (record s { ivss = ivss })
  take_ivss-Ensures panics s = tt
  take_ivss-Ensures waits s = tt

  on_icc_as-Ensures :
      (type : IccMsgType) (m : IccMessage) (s : IccService)
      → Ensures (ServiceFollows s) (on_icc_as outside type m s)
  unfolding on_icc_as on_ivss_msg on_acast_msg outputs
  on_icc_as-Ensures icc_ivss m s = ivss m.ivss_msg
    where
      ivss : (o : Option IvssMessage) → Ensures (ServiceFollows s) (on_ivss_msg outside o s)
      ivss none = Follows_refl (phases s)
      ivss (some m) = take_ivss-Ensures (on_ivss_message outside.ivss m s.ivss) s
  on_icc_as-Ensures icc_acast m s = acast m.acast_msg
    where
      acast :
          (o : Option (ACastMessage String)) → Ensures (ServiceFollows s) (on_acast_msg outside o s)
      acast none = Follows_refl (phases s)
      acast (some m) = adapt_acast-Ensures _ (record s { acast = (on_message s.acast m).0 })

  -- A message that is handled keeps to the rules of the phases.
  pub on_icc_message-Ensures :
      (m : IccMessage) (s : IccService) → Ensures (ServiceFollows s) (on_icc_message outside m s)
  unfolding on_icc_message outputs
  on_icc_message-Ensures m s = if-Ensures s s.finished (returns s []) _ (Follows_refl (phases s)) (
      and_then-Ensures ServiceFollows ServiceFollows-trans s (on_icc_as outside m.type m s)
        (check_progress outside none) (on_icc_as-Ensures m.type m s)
        (check_progress-Ensures outside none))

  start_loop-Ensures :
      (rounds j : ℕ) (s : IccService) → Ensures (ServiceFollows s) (start_loop outside rounds j s)
  unfolding start_loop outputs
  start_loop-Ensures zero j s = Follows_refl (phases s)
  start_loop-Ensures (suc rounds) j s =
      let dealt =
        start_sharing outside.ivss (outside.print_instance s.round s.id j)
          (outside.random_secret s.round j) s.ivss in
      and_then-Ensures ServiceFollows ServiceFollows-trans s
        (adapt_ivss outside dealt.1 (record s { ivss = dealt.0 }))
        (start_loop outside rounds (suc j))
        (same_phases s (record s { ivss = dealt.0 }) _ refl
          (adapt_ivss-Ensures dealt.1 (record s { ivss = dealt.0 })))
        (start_loop-Ensures rounds (suc j))

  -- So does `Start`.
  pub start_icc-Ensures : (s : IccService) → Ensures (ServiceFollows s) (start_icc outside s)
  unfolding start_icc
  start_icc-Ensures s = start_loop-Ensures s.n 1 s

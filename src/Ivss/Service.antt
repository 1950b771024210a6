-- ===== src/Ivss/Service.antt =====
-- services/ivss.go, what the A-Casts deliver, and `OnMessage`.
use async_agreement_protocol.Base.{
  ℕ, ◌-◌, ◌*◌, true, not, ◌&&◌, ◌||◌, Option, none, some, List, [], ◌∷◌, ◌++◌, String,
  nat_comparable, pair_comparable, string_comparable, leb, ltb, eqb, if◌then◌else◌, length,
}
use async_agreement_protocol.Base.Maps.{insert}
use async_agreement_protocol.Base.Members.{add}
use async_agreement_protocol.Base.Sorting.{sort}
use async_agreement_protocol.Context.{Effect, broadcast, send_result}
use async_agreement_protocol.Attempt.{returns, panics, prepend, and_then}
use async_agreement_protocol.ACast.{ACastMessage, on_message, or_else}
use async_agreement_protocol.Certification.{CertificationProtocol}
use async_agreement_protocol.Polynomial.{interpolate_at_zero}
use async_agreement_protocol.Ivss.Types.{
  IvssPayloadType, payload_equal, payload_m_set, payload_reveal, payload_ready, IvssPayload,
  IvssMsgType, ivss_direct, ivss_acast, IvssMessage, IvssInstance, IvssService, IvssOutside,
  IvssEffects, IvssAttempt,
}
use async_agreement_protocol.Ivss.Sets.{
  candidate_set, verify_m_set, candidates, valid_loop, values_of, Agreeing, interpolation_target,
}
use async_agreement_protocol.Ivss.Messages.{
  instance_of, put_instance, wrap_acast, sharing_result, secret_result, start_acast, m_set_payload,
  ready_payload,
}
use async_agreement_protocol.Ivss.Direct.{close, on_direct}

-- What both `Payload_Equal` and `Payload_MSet` do with an M that is verified.
unfoldable pub complete_sharing : Option (List ℕ) → IvssInstance → IvssInstance × IvssEffects
complete_sharing m_set inst = (
  record inst { m_set = m_set; sharing_completed = true; pending_m_set = none },
  send_result (sharing_result inst m_set) ∷ [],
)

unfoldable pub output_secret : IvssInstance → Option ℕ → IvssInstance × IvssEffects
output_secret inst none = (inst, [])
output_secret inst (some secret) =
    (record inst { reconstructed = true }, send_result (secret_result inst secret) ∷ [])

-- `case Payload_Ready`
unfoldable pub on_ready : ℕ → ℕ → IvssPayload → IvssInstance → IvssInstance × IvssEffects
on_ready n t p inst =
    let senders = add p.reveal_sender inst.ready_to_complete in
    let inst' = record inst { ready_to_complete = senders } in
    if leb (n - t) (length senders) && not inst.reconstructed
    then output_secret inst' inst'.secret
    else (inst', [])

-- What `checkInterpolationSet` leaves: the instance, the certification, the effects.
abbrev pub Interpolated : Type 0
Interpolated = Option (IvssInstance × (CertificationProtocol × IvssEffects))

abbrev pub close_reveal : IvssService → String → Interpolated → IvssAttempt
close_reveal s id none = panics
close_reveal s id (some (inst, (cp, es))) = returns (put_instance inst id (record s { cp = cp })) es

-- The end of `case Payload_Equal`: a pending M may be valid now.
unfoldable pub retry_pending :
    IvssService → Option (List ℕ) → IvssInstance → IvssInstance × IvssEffects
retry_pending s none inst = (inst, [])
retry_pending s (some m_set) inst =
    if not inst.sharing_completed && verify_m_set s.n s.t inst.completed_equals s.cp m_set
    then complete_sharing (some m_set) inst
    else (inst, [])

-- `case Payload_MSet`
unfoldable pub on_m_set : IvssService → IvssPayload → IvssInstance → IvssInstance × IvssEffects
on_m_set s p inst =
    if verify_m_set s.n s.t inst.completed_equals s.cp (or_else [] p.m_set)
    then complete_sharing p.m_set inst
    else (record inst { pending_m_set = p.m_set }, [])

module _ (outside : IvssOutside) where
  -- `checkCandidateSet`
  unfoldable pub check_candidate_set : IvssService → IvssInstance → IvssEffects
  check_candidate_set s inst =
      let m_set = candidate_set inst.completed_equals s.cp s.n in
      if not (eqb s.id inst.dealer) || inst.sharing_completed
      then []
      else if leb (s.n - s.t) (length m_set)
      then start_acast outside s.id (m_set_payload inst.id (sort m_set))
      else []

  -- `case Payload_Equal`
  unfoldable pub on_equal : IvssService → IvssPayload → IvssInstance → IvssInstance × IvssEffects
  on_equal s p inst =
      let inst' = record inst { completed_equals = add p.equal_pair inst.completed_equals } in
      let (inst'', es) = retry_pending s inst'.pending_m_set inst' in
      (inst'', check_candidate_set s inst' ++ es)

  abbrev pub take_secret :
      IvssService → CertificationProtocol → IvssInstance → Option ℕ → Interpolated
  take_secret s cp inst none = none
  take_secret s cp inst (some secret) = some (
    record inst { secret = some secret },
    (cp, start_acast outside s.id (ready_payload inst.id s.id)),
  )

  abbrev pub interpolate_values : List ℕ → Option (List ℕ) → Option ℕ
  interpolate_values xs none = none
  interpolate_values xs (some ys) = interpolate_at_zero outside.mod_inverse xs ys

  abbrev pub take_valid : IvssService → IvssInstance → Agreeing → Interpolated
  take_valid s inst none = none
  take_valid s inst (some (valid, cp)) =
      if leb (interpolation_target s.n s.t) (length valid)
      then take_secret s cp inst
          (interpolate_values valid (values_of inst.reconstructed_polys valid))
      else some (inst, (cp, []))

  -- `checkInterpolationSet`
  unfoldable pub check_interpolation_set :
      IvssService → Option (List ℕ) → IvssInstance → Interpolated
  check_interpolation_set s none inst = some (inst, (s.cp, []))
  check_interpolation_set s (some m_set) inst =
      let chosen = candidates inst.reconstructed_polys m_set in
      if ltb (length chosen) (s.n - 2 * s.t)
      then some (inst, (s.cp, []))
      else take_valid s inst (valid_loop inst.reconstructed_polys chosen (some ([], s.cp)))

  -- `case Payload_Reveal`
  unfoldable pub on_reveal : IvssService → IvssPayload → IvssInstance → Interpolated
  on_reveal s p inst = check_interpolation_set s inst.m_set (record inst {
    reconstructed_polys = insert p.reveal_sender p.reveal_poly inst.reconstructed_polys;
  })

  unfoldable pub deliver_as :
      IvssPayloadType → IvssPayload → IvssInstance → IvssService → IvssAttempt
  deliver_as payload_equal p inst s = close s p.instance_id (some (on_equal s p inst))
  deliver_as payload_m_set p inst s = close s p.instance_id (some (on_m_set s p inst))
  deliver_as payload_reveal p inst s = close_reveal s p.instance_id (on_reveal s p inst)
  deliver_as payload_ready p inst s = close s p.instance_id (some (on_ready s.n s.t p inst))

  -- `OnACastDelivered`
  unfoldable pub on_acast_delivered : Option IvssPayload → IvssService → IvssAttempt
  on_acast_delivered none s = returns s []
  on_acast_delivered (some p) s = deliver_as p.type p (instance_of s p.instance_id 0) s

  -- The calls that the A-Cast service makes on its adapter, in turn.
  unfoldable pub adapt_acast :
      List (Effect (ACastMessage String) String) → IvssService → IvssAttempt
  adapt_acast [] s = returns s []
  adapt_acast (broadcast m ∷ es) s = prepend (broadcast (wrap_acast m) ∷ []) (adapt_acast es s)
  adapt_acast (send_result res ∷ es) s =
      and_then (on_acast_delivered (outside.unmarshal res) s) (adapt_acast es)

  unfoldable pub on_acast_msg : Option (ACastMessage String) → IvssService → IvssAttempt
  on_acast_msg none s = returns s []
  on_acast_msg (some m) s =
      let (acast, effects) = on_message s.acast m in
      adapt_acast effects (record s { acast = acast })

  unfoldable pub on_ivss_as : IvssMsgType → IvssMessage → IvssService → IvssAttempt
  on_ivss_as ivss_acast m s = on_acast_msg m.acast_msg s
  on_ivss_as ivss_direct m s = on_direct outside m s

  -- `OnMessage`
  unfoldable pub on_ivss_message : IvssMessage → IvssService → IvssAttempt
  on_ivss_message m s = on_ivss_as m.type m s

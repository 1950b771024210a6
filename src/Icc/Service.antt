-- ===== src/Icc/Service.antt =====
-- services/icc.go, the service: `Start`, `OnMessage`, the adapters, and what they deliver.
use async_agreement_protocol.Base.{
  ℕ, zero, suc, Option, none, some, List, [], ◌∷◌, ◌++◌, String, nat_comparable, string_comparable,
  ◌==◌, if◌then◌else◌,
}
use async_agreement_protocol.Base.Maps.{lookup, insert}
use async_agreement_protocol.Base.Members.{contains, add}
use async_agreement_protocol.Context.{Effect, broadcast, send_result}
use async_agreement_protocol.Attempt.{returns, panics, waits, prepend, and_then}
use async_agreement_protocol.ACast.{ACastMessage, on_message, or_else}
use async_agreement_protocol.Ivss.{
  IvssMessage, IvssResultType, sharing_complete, reconstructed_secret, IvssResult, IvssAttempt,
  start_sharing, on_ivss_message,
}
use async_agreement_protocol.Icc.Types.{
  IccPayloadType, icc_attach, icc_accept, icc_reconstruct_enabled, icc_final_sets, IccPayload,
  IccMsgType, icc_ivss, icc_acast, IccMessage, IccService, IccOutside, IccAttempt,
}
use async_agreement_protocol.Icc.Progress.{wrap_acast, wrap_ivss, check_progress}

-- The case SHARING_COMPLETE of `handleIVSSResult`: each secret of a dealer counts once.
unfoldable pub count_sharing : ℕ → ℕ → IccService → IccService
count_sharing dealer secret_idx s =
    let secrets = or_else [] (lookup dealer s.completed_secrets) in
    let count = or_else 0 (lookup dealer s.completed_secrets_count) in
    if contains secrets secret_idx then s else record s {
      completed_secrets = insert dealer (add secret_idx secrets) s.completed_secrets;
      completed_secrets_count = insert dealer (suc count) s.completed_secrets_count;
    }

-- The case RECONSTRUCTED of `handleIVSSResult`
unfoldable pub store_value : ℕ → ℕ → Option ℕ → IccService → IccService
store_value dealer secret_idx secret s =
    let values = or_else [] (lookup dealer s.reconstructed_values) in
    record s {
      reconstructed_values = insert dealer (insert secret_idx secret values) s.reconstructed_values;
    }

unfoldable pub take_ivss_result : IvssResultType → ℕ → ℕ → IvssResult → IccService → IccService
take_ivss_result sharing_complete dealer secret_idx res s = count_sharing dealer secret_idx s
take_ivss_result reconstructed_secret dealer secret_idx res s =
    store_value dealer secret_idx res.secret s

-- The `switch` of `processDeliveredPayload`
unfoldable pub store_payload : IccPayloadType → IccPayload → IccService → IccService
store_payload icc_attach p s = record s { received_t = insert p.sender p.set_t s.received_t }
store_payload icc_accept p s = record s { received_a = insert p.sender p.set_a s.received_a }
store_payload icc_reconstruct_enabled p s = s
store_payload icc_final_sets p s = record s {
  received_final_sets =
      s.received_final_sets ++ record { from = p.sender; h = p.set_h; s = p.set_s } ∷ [];
}

module _ (outside : IccOutside) where
  abbrev pub scanned : Option (ℕ × (ℕ × ℕ)) → IvssResult → IccService → IccAttempt
  scanned none res s = returns s []
  scanned (some (round, (dealer, secret_idx))) res s =
      let progress =
        check_progress outside (some res.instance_id)
          (take_ivss_result res.type dealer secret_idx res s) in
      if round == s.round then progress else returns s []

  -- `handleIVSSResult`. The instance of the result is locked by the caller.
  unfoldable pub handle_ivss_result : IvssResult → IccService → IccAttempt
  handle_ivss_result res s = scanned (outside.scan_instance res.instance_id) res s

  -- The calls that secret sharing makes on its adapter, in turn.
  unfoldable pub adapt_ivss : List (Effect IvssMessage IvssResult) → IccService → IccAttempt
  adapt_ivss [] s = returns s []
  adapt_ivss (broadcast m ∷ es) s = prepend (broadcast (wrap_ivss m) ∷ []) (adapt_ivss es s)
  adapt_ivss (send_result res ∷ es) s = and_then (handle_ivss_result res s) (adapt_ivss es)

  -- `processDeliveredPayload`
  unfoldable pub process_payload : Option IccPayload → IccService → IccAttempt
  process_payload none s = returns s []
  process_payload (some p) s = check_progress outside none (store_payload p.type p s)

  -- The calls that the A-Cast service makes on its adapter, in turn.
  unfoldable pub adapt_acast : List (Effect (ACastMessage String) String) → IccService → IccAttempt
  adapt_acast [] s = returns s []
  adapt_acast (broadcast m ∷ es) s = prepend (broadcast (wrap_acast m) ∷ []) (adapt_acast es s)
  adapt_acast (send_result res ∷ es) s =
      and_then (process_payload (outside.unmarshal res) s) (adapt_acast es)

  abbrev pub take_ivss : IvssAttempt → IccService → IccAttempt
  take_ivss (returns ivss es) s = adapt_ivss es (record s { ivss = ivss })
  take_ivss panics s = panics
  take_ivss waits s = waits

  unfoldable pub on_ivss_msg : Option IvssMessage → IccService → IccAttempt
  on_ivss_msg none s = returns s []
  on_ivss_msg (some m) s = take_ivss (on_ivss_message outside.ivss m s.ivss) s

  unfoldable pub on_acast_msg : Option (ACastMessage String) → IccService → IccAttempt
  on_acast_msg none s = returns s []
  on_acast_msg (some m) s =
      let (acast, effects) = on_message s.acast m in
      adapt_acast effects (record s { acast = acast })

  unfoldable pub on_icc_as : IccMsgType → IccMessage → IccService → IccAttempt
  on_icc_as icc_ivss m s = on_ivss_msg m.ivss_msg s
  on_icc_as icc_acast m s = on_acast_msg m.acast_msg s

  -- `OnMessage`
  unfoldable pub on_icc_message : IccMessage → IccService → IccAttempt
  on_icc_message m s =
      let handled = and_then (on_icc_as m.type m s) (check_progress outside none) in
      if s.finished then returns s [] else handled

  -- The loop of `Start`, with the number of rounds left and the index `j`.
  unfoldable pub start_loop : ℕ → ℕ → IccService → IccAttempt
  start_loop zero j s = returns s []
  start_loop (suc rounds) j s =
      let (ivss, es) =
        start_sharing outside.ivss (outside.print_instance s.round s.id j)
          (outside.random_secret s.round j) s.ivss in
      and_then (adapt_ivss es (record s { ivss = ivss })) (start_loop rounds (suc j))

  -- `Start`
  unfoldable pub start_icc : IccService → IccAttempt
  start_icc s = start_loop s.n 1 s

-- ===== src/Aba/Complete.antt =====
-- services/aba.go, the COMPLETE votes: `broadcastComplete`, `handleCompleteDelivery` and their
-- adapter.
use async_agreement_protocol.Base.{
  ℕ, suc, ◌+◌, true, not, ◌&&◌, Option, none, some, List, [], ◌∷◌, ◌++◌, String, nat_comparable,
  string_comparable, leb, if◌then◌else◌, length,
}
use async_agreement_protocol.Base.Maps.{lookup, insert}
use async_agreement_protocol.Base.Members.{add}
use async_agreement_protocol.Base.Int.{ℤ, int_comparable}
use async_agreement_protocol.Context.{Effect, broadcast, send_result}
use async_agreement_protocol.ACast.{ACastMessage, new_acast_message, on_message, or_else}
use async_agreement_protocol.Aba.Types.{
  AbaMessage, aba_complete, CompletePayload, AbaOutside, AbaService, AbaEffects,
}

-- The adapter's `Broadcast`.
abbrev pub wrap_complete : (M : Type 0) → ACastMessage String → AbaMessage M
wrap_complete M m = record {
  type = aba_complete;
  round = 0;
  vote_msg = none;
  icc_msg = none;
  complete_msg = some m;
}

-- The broadcasts of a handler through the adapter. The A-Cast service is handed a MSG, which never
-- delivers, so the adapter's `SendResult` has no part in it.
unfoldable pub wrap_completes :
    (M : Type 0) → List (Effect (ACastMessage String) String) → AbaEffects M
wrap_completes M [] = []
wrap_completes M (broadcast m ∷ es) = broadcast (wrap_complete M m) ∷ wrap_completes M es
wrap_completes M (send_result v ∷ es) = wrap_completes M es

module _ {S M : Type 0} where
  -- The senders of the COMPLETE votes for the value.
  unfoldable pub backers : AbaService S M → ℤ → List ℕ
  backers a value = or_else [] (lookup value a.complete_counts)

  module _ (outside : AbaOutside) where
    -- `broadcastComplete`
    unfoldable pub broadcast_complete : ℤ → AbaService S M → AbaService S M × AbaEffects M
    broadcast_complete val a =
        let payload : CompletePayload = record { sender = a.id; value = val } in
        let m = new_acast_message outside.new_uuid (outside.marshal payload) a.id a.clock in
        let (acast, local) = on_message a.acast_complete m in
        (
          record a { acast_complete = acast; clock = suc a.clock },
          broadcast (wrap_complete M m) ∷ wrap_completes M local,
        )

    -- `if !s.hasBroadcastComplete`
    unfoldable pub ensure_complete : ℤ → AbaService S M → AbaService S M × AbaEffects M
    ensure_complete val a =
        let (a', es) = broadcast_complete val a in
        if not a.has_broadcast_complete
        then (record a' { has_broadcast_complete = true }, es)
        else (a, [])

    -- The decision that ends `handleCompleteDelivery`.
    unfoldable pub decide : ℤ → AbaService S M → AbaService S M × AbaEffects M
    decide value a =
        let (a', es) = ensure_complete value (record a { decided = true; decision = value }) in
        (a', send_result value ∷ es)

    -- `handleCompleteDelivery`
    unfoldable pub count_complete : CompletePayload → AbaService S M → AbaService S M × AbaEffects M
    count_complete p a =
        let senders = add p.sender (backers a p.value) in
        let a' = record a { complete_counts = insert p.value senders a.complete_counts } in
        if leb (a.t + 1) (length senders) && not a.decided then decide p.value a' else (a', [])

    unfoldable pub handle_complete_delivery :
        Option CompletePayload → AbaService S M → AbaService S M × AbaEffects M
    handle_complete_delivery none a = (a, [])
    handle_complete_delivery (some p) a = count_complete p a

    -- The calls that the A-Cast service makes on the adapter, in turn.
    unfoldable pub adapt_complete :
        List (Effect (ACastMessage String) String) → AbaService S M → AbaService S M × AbaEffects M
    adapt_complete [] a = (a, [])
    adapt_complete (broadcast m ∷ es) a =
        let (a', rest) = adapt_complete es a in (a', broadcast (wrap_complete M m) ∷ rest)
    adapt_complete (send_result res ∷ es) a =
        let (a', first) = handle_complete_delivery (outside.unmarshal res) a in
        let (a'', rest) = adapt_complete es a' in (a'', first ++ rest)

    -- `case ABA_Complete` of `dispatchMessage`
    unfoldable pub on_complete_msg :
        Option (ACastMessage String) → AbaService S M → AbaService S M × AbaEffects M
    on_complete_msg none a = (a, [])
    on_complete_msg (some m) a =
        let (acast, effects) = on_message a.acast_complete m in
        adapt_complete effects (record a { acast_complete = acast })

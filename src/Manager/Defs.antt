-- ===== src/Manager/Defs.antt =====
-- services/service.go, `ServiceManager`, over any service: `OnMessage` is the argument `on_message`.
-- The messages that it broadcasts are handed to the network, which is `Network` below.
use async_agreement_protocol.Base.{
  ℕ, Bool, true, false, List, [], ◌∷◌, ◌++◌, ltb, if◌then◌else◌, length,
}
use async_agreement_protocol.Context.{Effect, broadcast, send_result}

-- The capacity of `inbox` and `outbox`.
abbrev pub capacity : ℕ
capacity = 1000

-- `network` lists the messages that the manager handed to `network.Broadcast`, the newest first.
pub record ServiceManager {ℓ} (S M R : Type ℓ) : Type ℓ where
  pub service : S
  pub inbox : List M
  pub outbox : List R
  pub awaiting_msgs : List R
  pub network : List M
  pub stop : Bool

unfoldable pub new_service_manager {ℓ} : {S M R : Type ℓ} → S → ServiceManager S M R
new_service_manager s = record {
  service = s;
  inbox = [];
  outbox = [];
  awaiting_msgs = [];
  network = [];
  stop = false;
}

module _ {ℓ} {S M R : Type ℓ} where
  -- `Broadcast` and `SendResult` of the manager, for each effect of a handler in turn.
  unfoldable pub perform : List (Effect M R) → ServiceManager S M R → ServiceManager S M R
  perform [] sm = sm
  perform (broadcast m ∷ es) sm = perform es (record sm { network = m ∷ sm.network })
  perform (send_result r ∷ es) sm =
      perform es (record sm { awaiting_msgs = sm.awaiting_msgs ++ r ∷ [] })

  -- `Stop`: closing the channel a second time is avoided by the `select`.
  unfoldable pub stop_manager : ServiceManager S M R → ServiceManager S M R
  stop_manager sm = record sm { stop = true }

-- The cases of the two `select` statements of `loop`.
pub data Case : Type 0 where
  from_inbox to_outbox on_stop : Case

-- What one round of the loop leaves: a `select` may take a case only when it is ready.
pub data Round {ℓ} (A : Type ℓ) : Type ℓ where
  not_ready : Round A
  continue : A → Round A
  return : Round A

module _ {ℓ} {S M R : Type ℓ} (on_message : S → M → S × List (Effect M R)) where
  -- `case msg := <-sm.inbox`
  unfoldable pub take_message : List M → ServiceManager S M R → Round (ServiceManager S M R)
  take_message [] sm = not_ready
  take_message (m ∷ ms) sm =
      let (service, effects) = on_message sm.service m in
      continue (perform effects (record sm { service = service; inbox = ms }))

  -- `case sm.outbox <- nextMsg`, which stands in the first `select` only.
  unfoldable pub give_result : List R → ServiceManager S M R → Round (ServiceManager S M R)
  give_result [] sm = not_ready
  give_result (r ∷ rs) sm =
      if ltb (length sm.outbox) capacity
      then continue (record sm { outbox = sm.outbox ++ r ∷ []; awaiting_msgs = rs })
      else not_ready

  -- One round of `loop`, by the case that the `select` takes.
  unfoldable pub round : Case → ServiceManager S M R → Round (ServiceManager S M R)
  round from_inbox sm = take_message sm.inbox sm
  round to_outbox sm = give_result sm.awaiting_msgs sm
  round on_stop sm = if sm.stop then return else not_ready

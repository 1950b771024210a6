-- ===== src/Manager/Order.antt =====
-- Every result that the service sends reaches the reader of `Result()` once, in the order of the
-- `SendResult` calls, and no channel holds more than its capacity.
use mathlib.Core.List.{append_assoc, append-nil}
use async_agreement_protocol.Base.{
  ◌≤◌, ◌<◌, ◌≡◌, refl, sym, ap, ◌∙◌, List, [], ◌∷◌, ◌++◌, length, length-append, arith, subst,
}
use async_agreement_protocol.Context.{Effect, broadcast, send_result}
use async_agreement_protocol.Manager.Defs.{
  ServiceManager, new_service_manager, perform, stop_manager, capacity, from_inbox, to_outbox,
  continue, take_message, give_result, round,
}

-- The results among the effects of a handler.
abbrev pub results {ℓ} : {M R : Type ℓ} → List (Effect M R) → List R
results [] = []
results (broadcast m ∷ es) = results es
results (send_result r ∷ es) = r ∷ results es

module _ {ℓ} {S M R : Type ℓ} where
  perform-awaiting_msgs :
      (es : List (Effect M R)) (sm : ServiceManager S M R)
      → (perform es sm).awaiting_msgs ≡ sm.awaiting_msgs ++ results es
  unfolding perform
  perform-awaiting_msgs [] sm = sym (append-nil _)
  perform-awaiting_msgs (broadcast m ∷ es) sm = perform-awaiting_msgs es _
  perform-awaiting_msgs (send_result r ∷ es) sm =
      perform-awaiting_msgs es _ ∙ append_assoc sm.awaiting_msgs (r ∷ []) (results es)

  perform_rest :
      (es : List (Effect M R)) (sm : ServiceManager S M R)
      → ((perform es sm).outbox ≡ sm.outbox) × ((perform es sm).inbox ≡ sm.inbox)
  unfolding perform
  perform_rest [] sm = (refl, refl)
  perform_rest (broadcast m ∷ es) sm = perform_rest es _
  perform_rest (send_result r ∷ es) sm = perform_rest es _

-- The manager with its surroundings: `sent` lists the results of all `SendResult` calls, `taken`
-- those that were read from `Result()`, the oldest first.
pub record World {ℓ} (S M R : Type ℓ) : Type ℓ where
  pub manager : ServiceManager S M R
  pub sent : List R
  pub taken : List R

module _ {ℓ} {S M R : Type ℓ} where
  pub record IsOrderly (w : World S M R) : Type ℓ where
    pub in_order : w.taken ++ (w.manager.outbox ++ w.manager.awaiting_msgs) ≡ w.sent
    pub outbox_fits : length w.manager.outbox ≤ capacity
    pub inbox_fits : length w.manager.inbox ≤ capacity

module _ {ℓ} {S M R : Type ℓ} (on_message : S → M → S × List (Effect M R)) where
  pub data WorldStep (w : World S M R) : World S M R → Type ℓ where
    -- The loop handles the first message of the inbox.
    handles :
        (m : M) (ms : List M) {sm : ServiceManager S M R}
        → w.manager.inbox ≡ m ∷ ms
        → round on_message from_inbox w.manager ≡ continue sm
        → WorldStep w
            (record w { manager = sm; sent = w.sent ++ results (on_message w.manager.service m).1 })
    -- The loop writes a result to the outbox.
    gives :
        {sm : ServiceManager S M R}
        → round on_message to_outbox w.manager ≡ continue sm
        → WorldStep w (record w { manager = sm })
    -- A goroutine of the network writes to the inbox, which waits while that is full.
    arrives :
        (m : M)
        → length w.manager.inbox < capacity
        → WorldStep w
            (record w { manager = record (w.manager) { inbox = w.manager.inbox ++ m ∷ [] } })
    -- The reader of `Result()` takes a result.
    reads :
        (r : R) (rs : List R)
        → w.manager.outbox ≡ r ∷ rs
        → WorldStep w
            (record w { manager = record (w.manager) { outbox = rs }; taken = w.taken ++ r ∷ [] })
    stops : WorldStep w (record w { manager = stop_manager w.manager })

  pub data WorldReach (s : S) : World S M R → Type ℓ where
    made : WorldReach s (record { manager = new_service_manager s; sent = []; taken = [] })
    later : {w w' : World S M R} → WorldReach s w → WorldStep w w' → WorldReach s w'

  take_message_inv :
      (ms : List M) (sm : ServiceManager S M R) {sm' : ServiceManager S M R} (m : M) (rest : List M)
      → ms ≡ m ∷ rest
      → take_message on_message ms sm ≡ continue sm'
      → perform
          (on_message sm.service m).1
          (record sm { service = (on_message sm.service m).0; inbox = rest })
        ≡ sm'
  unfolding take_message
  take_message_inv [] sm m rest e h = cc
  take_message_inv (x ∷ xs) sm m rest e h = ground arith

  give_result_inv :
      (rs : List R) (sm : ServiceManager S M R) {sm' : ServiceManager S M R}
      → give_result on_message rs sm ≡ continue sm'
      → (r : R) × (rest : List R) × (rs ≡ r ∷ rest)
        × (length sm.outbox < capacity)
        × (record sm { outbox = sm.outbox ++ r ∷ []; awaiting_msgs = rest } ≡ sm')
  unfolding give_result
  give_result_inv [] sm h = absurd (ground arith)
  give_result_inv (r ∷ rest) sm h = (r, rest, refl, ground arith, ground arith)

  performs-IsOrderly :
      (w : World S M R) (es : List (Effect M R)) (sm : ServiceManager S M R)
      → sm.outbox ≡ w.manager.outbox
      → sm.awaiting_msgs ≡ w.manager.awaiting_msgs
      → length sm.inbox ≤ capacity
      → IsOrderly w
      → IsOrderly (record w { manager = perform es sm; sent = w.sent ++ results es })
  performs-IsOrderly w es sm o a i h = record {
    in_order =
        rw ((perform_rest es sm).0, perform-awaiting_msgs es sm, o, a)
          (rw (← append_assoc w.manager.outbox w.manager.awaiting_msgs (results es))
            (sym (append_assoc w.taken _ (results es)) ∙ ap (λ l. l ++ results es) h.in_order));
    outbox_fits = rw ((perform_rest es sm).0, o) h.outbox_fits;
    inbox_fits = rw (perform_rest es sm).1 i;
  }

  handles-IsOrderly :
      (w : World S M R) (m : M) (ms : List M) {sm : ServiceManager S M R}
      → w.manager.inbox ≡ m ∷ ms
      → round on_message from_inbox w.manager ≡ continue sm
      → IsOrderly w
      → IsOrderly
          (record w { manager = sm; sent = w.sent ++ results (on_message w.manager.service m).1 })
  unfolding round
  handles-IsOrderly w m ms e r h =
      subst
        (λ sm.
          IsOrderly (record w {
            manager = sm;
            sent = w.sent ++ results (on_message w.manager.service m).1;
          }))
        (take_message_inv w.manager.inbox w.manager m ms e r)
        (performs-IsOrderly w (on_message w.manager.service m).1 _ refl refl
          (let p : length (m ∷ ms) ≤ capacity = rw e at h.inbox_fits in omega arith) h)

  gives-IsOrderly :
      (w : World S M R) {sm : ServiceManager S M R}
      → round on_message to_outbox w.manager ≡ continue sm
      → IsOrderly w
      → IsOrderly (record w { manager = sm })
  unfolding round
  gives-IsOrderly w r h =
      let (x, xs, e, room, d) = give_result_inv w.manager.awaiting_msgs w.manager r in
      subst (λ sm. IsOrderly (record w { manager = sm })) d
        (record {
          in_order =
              ap (λ l. w.taken ++ l) (append_assoc w.manager.outbox (x ∷ []) xs)
              ∙ (rw e at h.in_order);
          outbox_fits = omega (arith, length-append w.manager.outbox (x ∷ []));
          inbox_fits = h.inbox_fits;
        })

  -- In every run the results that were read, those in the outbox and those that wait are, in this
  -- order, the results that were sent, and inbox and outbox stay within their capacity.
  pub results_in_order : {s : S} {w : World S M R} → WorldReach s w → IsOrderly w
  unfolding new_service_manager stop_manager
  results_in_order made = record {
    in_order = refl;
    outbox_fits = omega arith;
    inbox_fits = omega arith;
  }
  results_in_order (later {w} r (handles m ms e d)) =
      handles-IsOrderly w m ms e d (results_in_order r)
  results_in_order (later {w} r (gives d)) = gives-IsOrderly w d (results_in_order r)
  results_in_order (later {w} r (arrives m room)) =
      let h = results_in_order r in
      record {
        in_order = h.in_order;
        outbox_fits = h.outbox_fits;
        inbox_fits = omega (arith, length-append w.manager.inbox (m ∷ []));
      }
  results_in_order (later {w} r (reads x xs e)) =
      let h = results_in_order r in
      record {
        in_order =
            append_assoc w.taken (x ∷ []) (xs ++ w.manager.awaiting_msgs) ∙ (rw e at h.in_order);
        outbox_fits = let p = rw e at h.outbox_fits in omega arith;
        inbox_fits = h.inbox_fits;
      }
  results_in_order (later r stops) =
      let h = results_in_order r in
      record { in_order = h.in_order; outbox_fits = h.outbox_fits; inbox_fits = h.inbox_fits }

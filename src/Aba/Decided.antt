-- ===== src/Aba/Decided.antt =====
-- services/aba.go: the COMPLETE votes keep to the rules of Aba/Rules.
use async_agreement_protocol.Base.{
  ℕ, ◌+◌, ◌≤◌, ◌≡◌, refl, inl, inr, true, false, not, ◌&&◌, Option, some, none, List, [], ◌∷◌,
  String, arith, nat_comparable, string_comparable, length, if◌then◌else◌, leb, Bool-cases, ◌==◌,
}
use async_agreement_protocol.Base.Maps.{lookup-insert, lookup, insert}
use async_agreement_protocol.Base.Members.{Distinct, add, add-Distinct}
use async_agreement_protocol.Base.Int.{ℤ, int_comparable}
use async_agreement_protocol.Context.{Effect, broadcast, send_result}
use async_agreement_protocol.ACast.{
  MessageType, msg, echo, ready, ACastMessage, ACastInstance, on_instance, or_else, on_message,
  get_instance, new_acast_message,
}
use async_agreement_protocol.ACast
use async_agreement_protocol.Aba.Types.{AbaOutside, CompletePayload, AbaService}
use async_agreement_protocol.Aba.Complete.{
  backers, wrap_complete, wrap_completes, broadcast_complete, ensure_complete, decide,
  count_complete, handle_complete_delivery, adapt_complete, on_complete_msg,
}
use async_agreement_protocol.Base.{sym}
use mathlib.Core.List.{append-nil}
use async_agreement_protocol.Aba.Rules.{
  origins, results, completes, Follows, follows_if, follows_vote, follows_quiet, follows_trans,
}

dispatch-origins :
    (type : MessageType) (id n t : ℕ) (m : ACastMessage String) (inst : ACastInstance String)
    → origins ((ACast.dispatch type id n t m inst).1) ≡ 0
unfolding ACast.dispatch ACast.on_msg ACast.on_echo ACast.on_ready ACast.amplify ACast.deliver
dispatch-origins msg id n t m inst = ground arith
dispatch-origins echo id n t m inst = ground arith
dispatch-origins ready id n t m inst = ground arith

on_message-origins :
    (a : ACast.AcastService String) (m : ACastMessage String) → origins ((on_message a m).1) ≡ 0
unfolding on_message on_instance
on_message-origins a m =
    ground (arith, dispatch-origins m.type a.id a.n a.t m (get_instance a m.uuid))

wrap_completes-results :
    (M : Type 0) (es : List (Effect (ACastMessage String) String))
    → results (wrap_completes M es) ≡ []
unfolding wrap_completes
wrap_completes-results M [] = refl
wrap_completes-results M (broadcast m ∷ es) = wrap_completes-results M es
wrap_completes-results M (send_result v ∷ es) = wrap_completes-results M es

completes-wrap_completes :
    (M : Type 0) (es : List (Effect (ACastMessage String) String))
    → completes (wrap_completes M es) ≡ origins es
unfolding wrap_completes
completes-wrap_completes M [] = refl
completes-wrap_completes M (broadcast m ∷ es) = omega (arith, completes-wrap_completes M es)
completes-wrap_completes M (send_result v ∷ es) = completes-wrap_completes M es

module _ {S M : Type 0} (outside : AbaOutside) where
  pub ensure_complete-Follows :
      (val : ℤ) (a : AbaService S M)
      → Follows a ((ensure_complete outside val a).1) ((ensure_complete outside val a).0)
  unfolding ensure_complete broadcast_complete new_acast_message
  ensure_complete-Follows val a =
      let payload : CompletePayload = record { sender = a.id; value = val } in
      let m = new_acast_message outside.new_uuid (outside.marshal payload) a.id a.clock in
      let local = (on_message a.acast_complete m).1 in
      let a' = (broadcast_complete outside val a).0 in
      follows_if a (not a.has_broadcast_complete)
        (record a' { has_broadcast_complete = true }, (broadcast_complete outside val a).1) (a, [])
        (λ h.
          follows_vote a (record a' { has_broadcast_complete = true }) refl refl refl refl
            ((broadcast_complete outside val a).1) (wrap_completes-results M local)
            (ground
              (arith, h, completes-wrap_completes M local, on_message-origins a.acast_complete m)))
        (λ h. follows_quiet a a refl refl refl refl [] refl refl refl)

  -- The state in which a COMPLETE vote has been counted.
  abbrev counted : CompletePayload → AbaService S M → AbaService S M
  counted p a = record a {
    complete_counts = insert p.value (add p.sender (backers a p.value)) a.complete_counts;
  }

  backers-counted :
      (p : CompletePayload) (a : AbaService S M) (v : ℤ)
      → backers (counted p a) v
        ≡ (if p.value == v then add p.sender (backers a p.value) else backers a v)
  unfolding backers
  backers-counted p a v = ground (
    arith,
    lookup-insert p.value v (add p.sender (or_else [] (lookup p.value a.complete_counts)))
        a.complete_counts,
  )

  counted-Distinct :
      (p : CompletePayload) (a : AbaService S M)
      → ((v : ℤ) → Distinct (backers a v))
      → (v : ℤ) → Distinct (backers (counted p a) v)
  counted-Distinct p a distinct v = rw (backers-counted p a v) (elim (Bool-cases (p.value == v)) [
    | inl e ↦ rw e (add-Distinct p.sender (backers a p.value) (distinct p.value))
    | inr e ↦ rw e (distinct v)
  ])

  length-counted :
      (p : CompletePayload) (a : AbaService S M) (v : ℤ)
      → length (backers a v) ≤ length (backers (counted p a) v)
  unfolding add
  length-counted p a v = ground (arith, backers-counted p a v, int_comparable.equal_iff p.value v)

  decided-Follows :
      (p : CompletePayload) (a : AbaService S M)
      → a.t + 1 ≤ length (add p.sender (backers a p.value))
      → a.decided ≡ false
      → Follows a
          (send_result p.value ∷ [])
          (record (counted p a) { decided = true; decision = p.value })
  unfolding backers
  decided-Follows p a enough undecided = record {
    decides = rw undecided refl;
    votes = omega arith;
    backs = λ h. (
      counted-Distinct p a h.0,
      λ e.
          ground
            (arith, enough, backers-counted p a p.value, int_comparable.equal_iff p.value p.value),
    );
    keeps = refl;
  }

  counted-Follows : (p : CompletePayload) (a : AbaService S M) → Follows a [] (counted p a)
  counted-Follows p a = record {
    decides = sym (append-nil _);
    votes = omega arith;
    backs =
        λ h. (counted-Distinct p a h.0, λ e. omega (arith, h.1 e, length-counted p a a.decision));
    keeps = refl;
  }

  count_complete-Follows :
      (p : CompletePayload) (a : AbaService S M)
      → Follows a ((count_complete outside p a).1) ((count_complete outside p a).0)
  unfolding count_complete decide
  count_complete-Follows p a =
      let senders = add p.sender (backers a p.value) in
      follows_if a (leb (a.t + 1) (length senders) && not a.decided)
        (decide outside p.value (counted p a)) (counted p a, [])
        (λ h. follows_trans (decided-Follows p a (ground (arith, h)) (ground (arith, h))) (
          ensure_complete-Follows p.value
            (record (counted p a) { decided = true; decision = p.value })))
        (λ h. counted-Follows p a)

  delivery-Follows :
      (p : Option CompletePayload) (a : AbaService S M)
      → Follows a
          ((handle_complete_delivery outside p a).1)
          ((handle_complete_delivery outside p a).0)
  unfolding handle_complete_delivery
  delivery-Follows none a = follows_quiet a a refl refl refl refl [] refl refl refl
  delivery-Follows (some p) a = count_complete-Follows p a

  adapt_complete-Follows :
      (es : List (Effect (ACastMessage String) String)) (a : AbaService S M)
      → origins es ≡ 0
      → Follows a ((adapt_complete outside es a).1) ((adapt_complete outside es a).0)
  unfolding adapt_complete
  adapt_complete-Follows [] a none_sent = follows_quiet a a refl refl refl refl [] refl refl refl
  adapt_complete-Follows (broadcast m ∷ es) a none_sent =
      follows_trans
        (follows_quiet a a refl refl refl refl (broadcast (wrap_complete M m) ∷ []) refl refl
          (omega (arith, none_sent)))
        (adapt_complete-Follows es a (omega (arith, none_sent)))
  adapt_complete-Follows (send_result res ∷ es) a none_sent =
      follows_trans (delivery-Follows (outside.unmarshal res) a) (
        adapt_complete-Follows es ((handle_complete_delivery outside (outside.unmarshal res) a).0)
          none_sent)

  pub on_complete_msg-Follows :
      (m : Option (ACastMessage String)) (a : AbaService S M)
      → Follows a ((on_complete_msg outside m a).1) ((on_complete_msg outside m a).0)
  unfolding on_complete_msg
  on_complete_msg-Follows none a = follows_quiet a a refl refl refl refl [] refl refl refl
  on_complete_msg-Follows (some m) a =
      let acast = (on_message a.acast_complete m).0 in
      let b = record a { acast_complete = acast } in
      follows_trans (follows_quiet a b refl refl refl refl [] refl refl refl) (
        adapt_complete-Follows ((on_message a.acast_complete m).1) b
          (on_message-origins a.acast_complete m))

-- ===== src/Aba/Fuel.antt =====
-- services/aba.go: how much fuel a call needs.
use async_agreement_protocol.Base.{
  ℕ, zero, suc, ◌≤◌, ◌<◌, ◌≡◌, ◌≢◌, refl, Bool, true, false, Option, some, none, List, [], ◌∷◌,
  arith, nat_comparable, string_comparable, ltb, length, if◌then◌else◌, subst,
}
use async_agreement_protocol.Base.Maps
use async_agreement_protocol.Base.Maps.{Map, lookup, erase}
use async_agreement_protocol.Attempt.{returns, panics, waits, Ensures}
use async_agreement_protocol.ACast.{or_else}
use async_agreement_protocol.Vote.{VoteMessage, start_round, on_vote_message}
use async_agreement_protocol.Certification.{CertificationProtocol}
use async_agreement_protocol.Aba.Types.{
  AbaMsgType, AbaMessage, aba_vote, aba_icc, aba_complete, IccOperations, IccAnswer, AbaOutside,
  AbaService,
}
use async_agreement_protocol.Aba.Complete.{on_complete_msg}
use async_agreement_protocol.Aba.Service.{
  Ending, done, blocked, crashed, out_of_fuel, Restart, call_vote, adapt_icc, call_icc, answer_icc,
  on_vote_msg, on_icc_msg, dispatch_as, dispatch_message, dispatch_messages, process_buffered,
  start_aba_round, on_message_as, on_aba_message,
}
use async_agreement_protocol.Aba.Pending.{
  pending, pending-erase, pending-suc, pending_le, pending-length, EndsIn, same_Advances,
  from_Advances, after-EndsIn, idle, HasFuel, RestartsIn, HasFuel-Advances,
}
use async_agreement_protocol.Aba.Ends.{
  has_coin, on_complete_msg-Unmoved, call_vote-EndsIn, adapt_icc-EndsIn, quiet_icc-EndsIn,
}

module _ {S M : Type 0} (outside : AbaOutside) (icc : IccOperations S M) where
  vote_msg-EndsIn :
      (round : ℕ) (m : Option VoteMessage) (a : AbaService S M)
      → EndsIn a (on_vote_msg outside icc round m a)
  unfolding on_vote_msg
  vote_msg-EndsIn round none a = idle a
  vote_msg-EndsIn round (some m) a =
      call_vote-EndsIn outside round (on_vote_message outside.vote m) a

  answer_icc-EndsIn :
      (restart : Restart S M) (r fuel : ℕ)
      → RestartsIn restart r fuel
      → (round : ℕ) (answer : IccAnswer S M) (a : AbaService S M) → HasFuel r fuel a
      → EndsIn a (answer_icc outside restart round answer a)
  unfolding call_icc
  answer_icc-EndsIn restart r fuel ok round (returns (coin, cp) es) a h =
      let b = record a { icc = Maps.insert round coin a.icc; cp = cp } in
      from_Advances a b (adapt_icc outside restart round es b) (same_Advances a b refl refl)
        (adapt_icc-EndsIn outside restart r fuel ok round es b h)
  answer_icc-EndsIn restart r fuel ok round panics a h = tt
  answer_icc-EndsIn restart r fuel ok round waits a h = tt

  icc_msg-EndsIn :
      (restart : Restart S M) (r fuel : ℕ)
      → RestartsIn restart r fuel
      → (round : ℕ) (s : Option S) (m : Option M) (a : AbaService S M) → HasFuel r fuel a
      → EndsIn a (on_icc_msg outside icc restart round s m a)
  unfolding on_icc_msg
  icc_msg-EndsIn restart r fuel ok round none m a h = idle a
  icc_msg-EndsIn restart r fuel ok round (some s) none a h = idle a
  icc_msg-EndsIn restart r fuel ok round (some s) (some m) a h =
      answer_icc-EndsIn restart r fuel ok round (icc.on_message m a.cp s) a h

  dispatch-EndsIn :
      (restart : Restart S M) (r fuel : ℕ)
      → RestartsIn restart r fuel
      → (type : AbaMsgType) (m : AbaMessage M) (a : AbaService S M) → HasFuel r fuel a
      → EndsIn a (dispatch_as outside icc type restart m a)
  unfolding dispatch_as
  dispatch-EndsIn restart r fuel ok aba_vote m a h = vote_msg-EndsIn m.round m.vote_msg a
  dispatch-EndsIn restart r fuel ok aba_icc m a h =
      icc_msg-EndsIn restart r fuel ok m.round (lookup m.round a.icc) m.icc_msg a h
  dispatch-EndsIn restart r fuel ok aba_complete m a h =
      let u = on_complete_msg-Unmoved outside m.complete_msg a in
      same_Advances a ((on_complete_msg outside m.complete_msg a).0) u.0 u.1

  dispatch_messages-EndsIn :
      (restart : Restart S M) (r fuel : ℕ)
      → RestartsIn restart r fuel
      → (ms : List (AbaMessage M)) (a : AbaService S M) → HasFuel r fuel a
      → EndsIn a (dispatch_messages outside icc restart ms a)
  unfolding dispatch_messages dispatch_message
  dispatch_messages-EndsIn restart r fuel ok [] a h = idle a
  dispatch_messages-EndsIn restart r fuel ok (m ∷ ms) a h =
      after-EndsIn a (dispatch_message outside icc restart m a)
        (dispatch_messages outside icc restart ms) (dispatch-EndsIn restart r fuel ok m.type m a h)
        (λ b p. dispatch_messages-EndsIn restart r fuel ok ms b (HasFuel-Advances r fuel a b h p))

  process_buffered-EndsIn :
      (restart : Restart S M) (r fuel : ℕ)
      → RestartsIn restart r fuel
      → (ms : Option (List (AbaMessage M))) (a : AbaService S M)
      → ((found : List (AbaMessage M)) → ms ≡ some found → HasFuel r fuel a)
      → EndsIn a (process_buffered outside icc restart r ms a)
  unfolding process_buffered
  process_buffered-EndsIn restart r fuel ok none a h = idle a
  process_buffered-EndsIn restart r fuel ok (some ms) a h =
      after-EndsIn a (dispatch_messages outside icc restart ms a) _
        (dispatch_messages-EndsIn restart r fuel ok ms a (h ms refl))
        (λ b p. (omega arith, λ k. pending-erase k r b.future_msgs))

  -- The fuel was enough.
  abbrev Returns : Ending S M → Type 0
  Returns (done b es) = Unit {0}
  Returns blocked = Unit {0}
  Returns crashed = Unit {0}
  Returns out_of_fuel = 1 ≤ 0

  EndsIn-Returns : (a : AbaService S M) (e : Ending S M) → EndsIn a e → Returns e
  EndsIn-Returns a (done b es) p = tt
  EndsIn-Returns a blocked p = tt
  EndsIn-Returns a crashed p = tt
  EndsIn-Returns a out_of_fuel p = p

  Returns-sound : (e : Ending S M) → Returns e → e ≢ out_of_fuel
  Returns-sound e p same = absurd (omega (arith, subst Returns same p))

  if-Returns :
      (test : Bool) (x y : Ending S M) → Returns x → Returns y → Returns (if test then x else y)
  if-Returns true x y p q = p
  if-Returns false x y p q = q

  -- The coin gives no result while it is started.
  abbrev pub StartsQuietly : Type 0
  StartsQuietly =
      (cp : CertificationProtocol) (s : S) → Ensures (λ es s'. has_coin es ≡ false) (icc.start cp s)

  start_answer-EndsIn :
      (restart : Restart S M) (r : ℕ) (c : IccAnswer S M) (b : AbaService S M)
      → Ensures (λ es s. has_coin es ≡ false) c
      → EndsIn b (answer_icc outside restart r c b)
  unfolding call_icc
  start_answer-EndsIn restart r (returns (coin, cp) es) b quiet =
      let b' = record b { icc = Maps.insert r coin b.icc; cp = cp } in
      from_Advances b b' (adapt_icc outside restart r es b') (same_Advances b b' refl refl)
        (quiet_icc-EndsIn outside restart r es b' quiet)
  start_answer-EndsIn restart r panics b quiet = tt
  start_answer-EndsIn restart r waits b quiet = tt

  -- A round begun from here on needs no more than what is left.
  restart-EndsIn :
      (fuel r : ℕ) (a : AbaService S M)
      → HasFuel r fuel a
      → (a.round ≤ suc a.round
          → pending (suc a.round) a.future_msgs < fuel
          → EndsIn a (start_aba_round outside icc fuel (suc a.round) a))
      → EndsIn a (start_aba_round outside icc fuel (suc a.round) a)
  restart-EndsIn fuel r a h begun =
      begun (omega arith)
        (omega (arith, h.1, pending_le (suc r) (suc a.round) a.future_msgs (omega (arith, h.0))))

  module _ (quiet : StartsQuietly) where
    start_round-EndsIn :
        (fuel r : ℕ) (a : AbaService S M)
        → a.round ≤ r
        → pending r a.future_msgs < fuel
        → EndsIn a (start_aba_round outside icc fuel r a)
    unfolding start_aba_round
    start_round-EndsIn zero r a later enough = omega (arith, enough)
    start_round-EndsIn (suc fuel) r a later enough =
        let restart = start_aba_round outside icc fuel in
        let fresh = icc.new_icc_service a.id a.n a.t r in
        let a' = record a {
          round = r;
          vote_result = none;
          icc_result = none;
          icc = Maps.insert r fresh a.icc;
        } in
        from_Advances a a' _ (later, λ k. omega arith)
          (after-EndsIn a' (call_vote outside r (start_round outside.vote r a.estimate) a') _
            (call_vote-EndsIn outside r (start_round outside.vote r a.estimate) a')
            (λ b p.
              let s = or_else fresh (lookup r b.icc) in
              after-EndsIn b (answer_icc outside restart r (icc.start b.cp s) b) _
                (start_answer-EndsIn restart r (icc.start b.cp s) b (quiet b.cp s))
                (λ d q.
                  process_buffered-EndsIn restart r fuel
                    (λ e h. restart-EndsIn fuel r e h (start_round-EndsIn fuel (suc e.round) e))
                    (lookup r d.future_msgs) d
                    (λ found here. (
                      omega (arith, p.0, q.0),
                      omega (arith, enough, p.1 r, q.1 r, pending-suc r found d.future_msgs here),
                    )))))

    message_as-Returns :
        (type : AbaMsgType) (fuel : ℕ) (m : AbaMessage M) (a : AbaService S M)
        → Returns (dispatch_message outside icc (start_aba_round outside icc fuel) m a)
        → Returns (on_message_as outside icc type fuel m a)
    unfolding on_message_as
    message_as-Returns aba_complete fuel m a now = now
    message_as-Returns aba_vote fuel m a now = if-Returns (ltb a.round m.round) _ _ tt now
    message_as-Returns aba_icc fuel m a now = if-Returns (ltb a.round m.round) _ _ tt now

    -- If the coin gives no result while it is started, then with more fuel than there are rounds with
    -- buffered messages, no message exhausts the fuel.
    pub enough_fuel :
        (fuel : ℕ) (m : AbaMessage M) (a : AbaService S M)
        → length a.future_msgs < fuel
        → on_aba_message outside icc fuel m a ≢ out_of_fuel
    unfolding on_aba_message dispatch_message
    enough_fuel fuel m a enough = Returns-sound _ (
        message_as-Returns m.type fuel m a (
          EndsIn-Returns a _ (
            dispatch-EndsIn (start_aba_round outside icc fuel) a.round fuel
              (λ e h. restart-EndsIn fuel a.round e h (start_round-EndsIn fuel (suc e.round) e))
              m.type m a
              (omega arith, omega (arith, enough, pending-length (suc a.round) a.future_msgs)))))

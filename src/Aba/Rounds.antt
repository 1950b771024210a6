-- ===== src/Aba/Rounds.antt =====
-- services/aba.go: every call of the rounds keeps to the rules of Aba/Rules.
use async_agreement_protocol.Base.{
  ℕ, zero, suc, refl, Option, some, none, List, [], ◌∷◌, nat_comparable, ltb,
}
use async_agreement_protocol.Base.Maps
use async_agreement_protocol.Base.Maps.{lookup}
use async_agreement_protocol.ACast.{or_else}
use async_agreement_protocol.Vote.{VoteMessage, start_round, on_vote_message}
use async_agreement_protocol.Aba.Types.{
  AbaMsgType, AbaMessage, aba_vote, aba_icc, aba_complete, IccOperations, AbaOutside, AbaService,
}
use async_agreement_protocol.Aba.Service.{
  Restart, call_vote, answer_icc, on_vote_msg, on_icc_msg, dispatch_as, dispatch_message,
  dispatch_messages, process_buffered, start_aba_round, on_message_as, on_aba_message, buffer,
}
use async_agreement_protocol.Aba.Rules.{Follows, EndsWell, after-EndsWell}
use async_agreement_protocol.Aba.Decided.{on_complete_msg-Follows}
use async_agreement_protocol.Aba.Adapters.{
  stays, idle, if-EndsWell, from_quiet, RestartsWell, call_vote-EndsWell, answer_icc-EndsWell,
}

module _ {S M : Type 0} (outside : AbaOutside) (icc : IccOperations S M) where
  buffered : (m : AbaMessage M) (a : AbaService S M) → Follows a [] (buffer outside icc m a)
  unfolding buffer
  buffered m a = stays a _ refl refl refl refl refl

  vote_msg-EndsWell :
      (round : ℕ) (m : Option VoteMessage) (a : AbaService S M)
      → EndsWell a (on_vote_msg outside icc round m a)
  unfolding on_vote_msg
  vote_msg-EndsWell round none a = idle a
  vote_msg-EndsWell round (some m) a =
      call_vote-EndsWell outside round (on_vote_message outside.vote m) a

  icc_msg-EndsWell :
      (restart : Restart S M)
      → RestartsWell restart
      → (round : ℕ) (s : Option S) (m : Option M) (a : AbaService S M)
      → EndsWell a (on_icc_msg outside icc restart round s m a)
  unfolding on_icc_msg
  icc_msg-EndsWell restart ok round none m a = idle a
  icc_msg-EndsWell restart ok round (some s) none a = idle a
  icc_msg-EndsWell restart ok round (some s) (some m) a =
      answer_icc-EndsWell outside restart ok round (icc.on_message m a.cp s) a

  dispatch-EndsWell :
      (type : AbaMsgType) (restart : Restart S M)
      → RestartsWell restart
      → (m : AbaMessage M) (a : AbaService S M)
      → EndsWell a (dispatch_as outside icc type restart m a)
  unfolding dispatch_as
  dispatch-EndsWell aba_vote restart ok m a = vote_msg-EndsWell m.round m.vote_msg a
  dispatch-EndsWell aba_icc restart ok m a =
      icc_msg-EndsWell restart ok m.round (lookup m.round a.icc) m.icc_msg a
  dispatch-EndsWell aba_complete restart ok m a = on_complete_msg-Follows outside m.complete_msg a

  dispatch_messages-EndsWell :
      (restart : Restart S M)
      → RestartsWell restart
      → (ms : List (AbaMessage M)) (a : AbaService S M)
      → EndsWell a (dispatch_messages outside icc restart ms a)
  unfolding dispatch_messages dispatch_message
  dispatch_messages-EndsWell restart ok [] a = idle a
  dispatch_messages-EndsWell restart ok (m ∷ ms) a =
      after-EndsWell a (dispatch_message outside icc restart m a)
        (dispatch_messages outside icc restart ms) (dispatch-EndsWell m.type restart ok m a)
        (dispatch_messages-EndsWell restart ok ms)

  process_buffered-EndsWell :
      (restart : Restart S M)
      → RestartsWell restart
      → (r : ℕ) (ms : Option (List (AbaMessage M))) (a : AbaService S M)
      → EndsWell a (process_buffered outside icc restart r ms a)
  unfolding process_buffered
  process_buffered-EndsWell restart ok r none a = idle a
  process_buffered-EndsWell restart ok r (some ms) a =
      after-EndsWell a (dispatch_messages outside icc restart ms a) _
        (dispatch_messages-EndsWell restart ok ms a) (λ b. stays b _ refl refl refl refl refl)

  pub start_round-EndsWell : (fuel : ℕ) → RestartsWell (start_aba_round outside icc fuel)
  unfolding start_aba_round
  start_round-EndsWell zero r a = tt
  start_round-EndsWell (suc fuel) r a =
      let restart = start_aba_round outside icc fuel in
      let fresh = icc.new_icc_service a.id a.n a.t r in
      let a' = record a {
        round = r;
        vote_result = none;
        icc_result = none;
        icc = Maps.insert r fresh a.icc;
      } in
      from_quiet (start_aba_round outside icc (suc fuel) r a) (stays a a' refl refl refl refl refl)
        (after-EndsWell a' (call_vote outside r (start_round outside.vote r a.estimate) a') _
          (call_vote-EndsWell outside r (start_round outside.vote r a.estimate) a')
          (λ b.
            after-EndsWell b
              (answer_icc outside restart r (icc.start b.cp (or_else fresh (lookup r b.icc))) b) _
              (answer_icc-EndsWell outside restart (start_round-EndsWell fuel) r
                (icc.start b.cp (or_else fresh (lookup r b.icc))) b)
              (λ d.
                process_buffered-EndsWell restart (start_round-EndsWell fuel) r
                  (lookup r d.future_msgs) d)))

  message_as-EndsWell :
      (type : AbaMsgType) (fuel : ℕ) (m : AbaMessage M) (a : AbaService S M)
      → EndsWell a (dispatch_message outside icc (start_aba_round outside icc fuel) m a)
      → EndsWell a (on_message_as outside icc type fuel m a)
  unfolding on_message_as
  message_as-EndsWell aba_complete fuel m a now = now
  message_as-EndsWell aba_vote fuel m a now =
      if-EndsWell a (ltb a.round m.round) _ _ (buffered m a) now
  message_as-EndsWell aba_icc fuel m a now =
      if-EndsWell a (ltb a.round m.round) _ _ (buffered m a) now

  pub on_aba_message-EndsWell :
      (fuel : ℕ) (m : AbaMessage M) (a : AbaService S M)
      → EndsWell a (on_aba_message outside icc fuel m a)
  unfolding on_aba_message dispatch_message
  on_aba_message-EndsWell fuel m a =
      message_as-EndsWell m.type fuel m a (
        dispatch-EndsWell m.type (start_aba_round outside icc fuel) (start_round-EndsWell fuel) m a)

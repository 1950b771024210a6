-- ===== src/Aba/Service.antt =====
-- services/aba.go, the rounds: `Start`, `startRound`, `OnMessage`, `dispatchMessage`,
-- `checkRoundProgress` and the adapters of Vote and the coin.
use async_agreement_protocol.Base.{
  ℕ, zero, suc, Option, none, some, List, [], ◌∷◌, ◌++◌, nat_comparable, ◌==◌, eqb, ltb,
  if◌then◌else◌,
}
use async_agreement_protocol.Base.Maps.{lookup, insert, erase}
use async_agreement_protocol.Context.{Effect, broadcast, send_result}
use async_agreement_protocol.Attempt.{returns, panics, waits}
use async_agreement_protocol.ACast.{or_else}
use async_agreement_protocol.Vote.{
  VoteMessage, VoteResult, VoteService, Outcome, start_round, on_vote_message,
}
use async_agreement_protocol.Icc.{IccResult}
use async_agreement_protocol.Aba.Types.{
  AbaMsgType, AbaMessage, aba_vote, aba_icc, aba_complete, IccCall, IccAnswer, IccOperations,
  AbaOutside, AbaService, AbaEffects,
}
use async_agreement_protocol.Aba.Complete.{ensure_complete, on_complete_msg}

-- How a call ends. `blocked` waits for ever for a mutex that its own goroutine holds, and
-- keeps nothing of what went out before; `crashed` has panicked;
-- `out_of_fuel` has begun more rounds than the model follows.
pub data Ending (S M : Type 0) : Type 0 where
  done : AbaService S M → AbaEffects M → Ending S M
  blocked crashed : Ending S M
  out_of_fuel : Ending S M

abbrev pub wrap_vote : (M : Type 0) → ℕ → VoteMessage → AbaMessage M
wrap_vote M round m = record {
  type = aba_vote;
  round = round;
  vote_msg = some m;
  icc_msg = none;
  complete_msg = none;
}

abbrev pub wrap_icc : (M : Type 0) → ℕ → M → AbaMessage M
wrap_icc M round m = record {
  type = aba_icc;
  round = round;
  vote_msg = none;
  icc_msg = some m;
  complete_msg = none;
}

-- How a round is started from where the call stands.
abbrev pub Restart : Type 0 → Type 0 → Type 0
Restart S M = ℕ → AbaService S M → Ending S M

module _ {S M : Type 0} where
  -- Earlier effects in front of those of a call.
  unfoldable pub emit : AbaEffects M → Ending S M → Ending S M
  emit es (done a rest) = done a (es ++ rest)
  emit es blocked = blocked
  emit es crashed = crashed
  emit es out_of_fuel = out_of_fuel

  -- One call after another.
  unfoldable pub after : Ending S M → (AbaService S M → Ending S M) → Ending S M
  after (done a es) next = emit es (next a)
  after blocked next = blocked
  after crashed next = crashed
  after out_of_fuel next = out_of_fuel

  abbrev pub finished : AbaService S M × AbaEffects M → Ending S M
  finished (a, es) = done a es

  -- `startRound` under the mutex of Vote, which it takes itself before anything can be seen of it.
  abbrev pub held : Restart S M
  held round a = blocked

  module _ (outside : AbaOutside) where
    -- "Logic" of `checkRoundProgress`
    unfoldable pub settle : VoteResult → IccResult → AbaService S M → AbaService S M × AbaEffects M
    settle v c a =
        if a.decided
        then (record a { estimate = a.decision }, [])
        else if eqb v.conf 2
        then ensure_complete outside v.value (record a { estimate = v.value })
        else if eqb v.conf 1
        then (record a { estimate = v.value }, [])
        else (record a { estimate = c.coin }, [])

    -- `checkRoundProgress`, on the two results of the round.
    unfoldable pub complete_round :
        Restart S M → Option VoteResult → Option IccResult → AbaService S M → Ending S M
    complete_round restart none c a = done a []
    complete_round restart (some v) none a = done a []
    complete_round restart (some v) (some c) a =
        let (a', es) = settle v c a in emit es (restart (suc a'.round) a')

    unfoldable pub check_round_progress : Restart S M → AbaService S M → Ending S M
    check_round_progress restart a = complete_round restart a.vote_result a.icc_result a

    -- `abaVoteAdapter.SendResult`. Vote calls it under its own mutex.
    unfoldable pub take_vote_result : ℕ → VoteResult → AbaService S M → Ending S M
    take_vote_result round res a =
        let checked = check_round_progress held (record a { vote_result = some res }) in
        if round == a.round then checked else done a []

    -- The calls that Vote makes on its adapter, in turn.
    unfoldable pub adapt_vote :
        ℕ → List (Effect VoteMessage VoteResult) → AbaService S M → Ending S M
    adapt_vote round [] a = done a []
    adapt_vote round (broadcast m ∷ es) a =
        emit (broadcast (wrap_vote M round m) ∷ []) (adapt_vote round es a)
    adapt_vote round (send_result res ∷ es) a =
        after (take_vote_result round res a) (adapt_vote round es)

    unfoldable pub call_vote : ℕ → (VoteService → Outcome) → AbaService S M → Ending S M
    call_vote round call a =
        let (vote, es) = call a.vote in adapt_vote round es (record a { vote = vote })

    -- `abaICCAdapter.SendResult`
    unfoldable pub take_icc_result : Restart S M → ℕ → IccResult → AbaService S M → Ending S M
    take_icc_result restart round res a =
        let checked = check_round_progress restart (record a { icc_result = some res }) in
        if round == a.round then checked else done a []

    -- The calls that the coin makes on its adapter, in turn.
    unfoldable pub adapt_icc :
        Restart S M → ℕ → List (Effect M IccResult) → AbaService S M → Ending S M
    adapt_icc restart round [] a = done a []
    adapt_icc restart round (broadcast m ∷ es) a =
        emit (broadcast (wrap_icc M round m) ∷ []) (adapt_icc restart round es a)
    adapt_icc restart round (send_result res ∷ es) a =
        after (take_icc_result restart round res a) (adapt_icc restart round es)

    unfoldable pub call_icc : Restart S M → ℕ → IccCall S M → AbaService S M → Ending S M
    call_icc restart round (coin, (cp, es)) a =
        adapt_icc restart round es (record a { icc = insert round coin a.icc; cp = cp })

    abbrev pub answer_icc : Restart S M → ℕ → IccAnswer S M → AbaService S M → Ending S M
    answer_icc restart round (returns (coin, cp) es) a = call_icc restart round (coin, (cp, es)) a
    answer_icc restart round panics a = crashed
    answer_icc restart round waits a = blocked

    module _ (icc : IccOperations S M) where
      -- `case ABA_Vote` of `dispatchMessage`
      unfoldable pub on_vote_msg : ℕ → Option VoteMessage → AbaService S M → Ending S M
      on_vote_msg round none a = done a []
      on_vote_msg round (some m) a = call_vote round (on_vote_message outside.vote m) a

      -- `case ABA_ICC` of `dispatchMessage`, on the coin of the round, if it has been started.
      unfoldable pub on_icc_msg :
          Restart S M → ℕ → Option S → Option M → AbaService S M → Ending S M
      on_icc_msg restart round none m a = done a []
      on_icc_msg restart round (some coin) none a = done a []
      on_icc_msg restart round (some coin) (some m) a =
          answer_icc restart round (icc.on_message m a.cp coin) a

      -- `dispatchMessage`
      unfoldable pub dispatch_as :
          AbaMsgType → Restart S M → AbaMessage M → AbaService S M → Ending S M
      dispatch_as aba_vote restart m a = on_vote_msg m.round m.vote_msg a
      dispatch_as aba_icc restart m a =
          on_icc_msg restart m.round (lookup m.round a.icc) m.icc_msg a
      dispatch_as aba_complete restart m a = finished (on_complete_msg outside m.complete_msg a)

      unfoldable pub dispatch_message : Restart S M → AbaMessage M → AbaService S M → Ending S M
      dispatch_message restart m a = dispatch_as m.type restart m a

      unfoldable pub dispatch_messages :
          Restart S M → List (AbaMessage M) → AbaService S M → Ending S M
      dispatch_messages restart [] a = done a []
      dispatch_messages restart (m ∷ ms) a =
          after (dispatch_message restart m a) (dispatch_messages restart ms)

      -- "Process buffered messages for this round"
      unfoldable pub process_buffered :
          Restart S M → ℕ → Option (List (AbaMessage M)) → AbaService S M → Ending S M
      process_buffered restart r none a = done a []
      process_buffered restart r (some msgs) a =
          after (dispatch_messages restart msgs a)
            (λ a'. done (record a' { future_msgs = erase r a'.future_msgs }) [])

      -- `startRound`, with the rounds that may begin within one call as fuel.
      unfoldable pub start_aba_round : ℕ → Restart S M
      start_aba_round zero r a = out_of_fuel
      start_aba_round (suc fuel) r a =
          let restart = start_aba_round fuel in
          let fresh = icc.new_icc_service a.id a.n a.t r in
          let a' = record a {
            round = r;
            vote_result = none;
            icc_result = none;
            icc = insert r fresh a.icc;
          } in
          after (call_vote r (start_round outside.vote r a.estimate) a') (λ b.
            after (answer_icc restart r (icc.start b.cp (or_else fresh (lookup r b.icc))) b)
              (λ d. process_buffered restart r (lookup r d.future_msgs) d))

      -- `Start`
      unfoldable pub start : ℕ → AbaService S M → Ending S M
      start fuel a = start_aba_round fuel 1 a

      -- The append to `futureMsgs[msg.Round]`.
      unfoldable pub buffer : AbaMessage M → AbaService S M → AbaService S M
      buffer m a = record a {
        future_msgs =
            insert m.round (or_else [] (lookup m.round a.future_msgs) ++ m ∷ []) a.future_msgs;
      }

      unfoldable pub on_message_as : AbaMsgType → ℕ → AbaMessage M → AbaService S M → Ending S M
      on_message_as aba_complete fuel m a = dispatch_message (start_aba_round fuel) m a
      on_message_as aba_vote fuel m a =
          let now = dispatch_message (start_aba_round fuel) m a in
          if ltb a.round m.round then done (buffer m a) [] else now
      on_message_as aba_icc fuel m a =
          let now = dispatch_message (start_aba_round fuel) m a in
          if ltb a.round m.round then done (buffer m a) [] else now

      -- `OnMessage`
      unfoldable pub on_aba_message : ℕ → AbaMessage M → AbaService S M → Ending S M
      on_aba_message fuel m a = on_message_as m.type fuel m a

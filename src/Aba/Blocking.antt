-- ===== src/Aba/Blocking.antt =====
-- services/aba.go: the mutex of Vote when its result comes after that of the coin.
use async_agreement_protocol.Base.{
  ℕ, ◌≡◌, refl, Bool, true, false, some, List, [], ◌∷◌, arith, nat_comparable,
}
use async_agreement_protocol.Context.{Effect, broadcast, send_result}
use async_agreement_protocol.Vote.{VoteMessage, VoteResult, on_vote_message}
use async_agreement_protocol.Icc.{IccResult}
use async_agreement_protocol.Aba.Types.{IccOperations, AbaOutside, AbaService}
use async_agreement_protocol.Aba.Service.{
  blocked, after, emit, held, wrap_vote, complete_round, check_round_progress, take_vote_result,
  adapt_vote, call_vote, on_vote_msg, dispatch_as, dispatch_message, on_message_as, on_aba_message,
}

-- Whether a result is among the effects.
abbrev pub has_result : List (Effect VoteMessage VoteResult) → Bool
has_result [] = false
has_result (broadcast m ∷ es) = has_result es
has_result (send_result res ∷ es) = true

module _ {S M : Type 0} (outside : AbaOutside) where
  complete_round-blocked :
      (v : VoteResult) (c : IccResult) (a : AbaService S M)
      → complete_round outside held (some v) (some c) a ≡ blocked
  unfolding complete_round emit
  complete_round-blocked v c a = refl

  take_vote_result-blocked :
      (res : VoteResult) (c : IccResult) (a : AbaService S M)
      → a.icc_result ≡ some c
      → take_vote_result outside a.round res a ≡ blocked
  unfolding take_vote_result check_round_progress
  take_vote_result-blocked res c a coin =
      ground (arith, complete_round-blocked res c (record a { vote_result = some res }), coin)

  adapt_vote-blocked :
      (es : List (Effect VoteMessage VoteResult)) (c : IccResult) (a : AbaService S M)
      → a.icc_result ≡ some c
      → has_result es ≡ true
      → adapt_vote outside a.round es a ≡ blocked
  unfolding adapt_vote emit after
  adapt_vote-blocked [] c a coin has = ground arith
  adapt_vote-blocked (broadcast m ∷ es) c a coin has = rw (adapt_vote-blocked es c a coin has) refl
  adapt_vote-blocked (send_result res ∷ es) c a coin has =
      rw (take_vote_result-blocked res c a coin) refl

  -- When the coin of the round is there first, the message of the round on which Vote hands out its
  -- result never returns: it starts the next round, which waits for the mutex that Vote holds.
  pub vote_after_coin-blocked :
      (icc : IccOperations S M) (fuel : ℕ) (m : VoteMessage) (c : IccResult) (a : AbaService S M)
      → a.icc_result ≡ some c
      → has_result ((on_vote_message outside.vote m a.vote).1) ≡ true
      → on_aba_message outside icc fuel (wrap_vote M a.round m) a ≡ blocked
  unfolding on_aba_message on_message_as dispatch_message dispatch_as on_vote_msg call_vote
  vote_after_coin-blocked icc fuel m c a coin has = ground (
    arith,
    adapt_vote-blocked ((on_vote_message outside.vote m a.vote).1) c
        (record a { vote = (on_vote_message outside.vote m a.vote).0 }) coin has,
  )

-- ===== src/Aba/Adapters.antt =====
-- services/aba.go: the calls of Vote and of the coin keep to the rules of Aba/Rules.
use async_agreement_protocol.Base.{
  ℕ, suc, ◌≡◌, refl, Bool, true, false, Option, some, none, List, [], ◌∷◌, arith, nat_comparable,
  ◌==◌, eqb, if◌then◌else◌,
}
use async_agreement_protocol.Base.Maps
use async_agreement_protocol.Base.Maps.{lookup}
use async_agreement_protocol.Context.{Effect, broadcast, send_result}
use async_agreement_protocol.Attempt.{returns, panics, waits}
use async_agreement_protocol.Vote.{VoteMessage, VoteResult, VoteService, Outcome}
use async_agreement_protocol.Icc.{IccResult}
use async_agreement_protocol.Aba.Types.{IccCall, IccAnswer, AbaOutside, AbaService}
use async_agreement_protocol.Aba.Service.{
  Ending, done, blocked, crashed, out_of_fuel, Restart, held, wrap_vote, wrap_icc, settle,
  complete_round, check_round_progress, take_vote_result, adapt_vote, call_vote, take_icc_result,
  adapt_icc, call_icc, answer_icc,
}
use async_agreement_protocol.Aba.Rules.{
  Follows, follows_if, follows_quiet, follows_trans, EndsWell, emit-EndsWell, after-EndsWell,
}
use async_agreement_protocol.Aba.Decided.{ensure_complete-Follows}

module _ {S M : Type 0} where
  -- The same decision and COMPLETE vote, and nothing of either handed out.
  abbrev pub stays :
      (a a' : AbaService S M)
      → a'.t ≡ a.t
      → a'.decided ≡ a.decided
      → a'.decision ≡ a.decision
      → a'.complete_counts ≡ a.complete_counts
      → a'.has_broadcast_complete ≡ a.has_broadcast_complete
      → Follows a [] a'
  stays a a' t d e c f = follows_quiet a a' t d e c [] refl f refl

  pub idle : (a : AbaService S M) → Follows a [] a
  idle a = stays a a refl refl refl refl refl

  pub if-EndsWell :
      (a : AbaService S M) (test : Bool) (x y : Ending S M)
      → EndsWell a x
      → EndsWell a y
      → EndsWell a (if test then x else y)
  if-EndsWell a true x y p q = p
  if-EndsWell a false x y p q = q

  -- A call from a state that only differs in what the rules do not speak of.
  pub from_quiet :
      {a b : AbaService S M} → (e : Ending S M) → Follows a [] b → EndsWell b e → EndsWell a e
  from_quiet (done c es) p q = follows_trans p q
  from_quiet blocked p q = tt
  from_quiet crashed p q = tt
  from_quiet out_of_fuel p q = tt

  abbrev pub RestartsWell : Restart S M → Type 0
  RestartsWell restart = (r : ℕ) (a : AbaService S M) → EndsWell a (restart r a)

  module _ (outside : AbaOutside) where
    settle-Follows :
        (v : VoteResult) (c : IccResult) (a : AbaService S M)
        → Follows a ((settle outside v c a).1) ((settle outside v c a).0)
    unfolding settle
    settle-Follows v c a =
        follows_if a a.decided _ _ (λ h. stays a _ refl refl refl refl refl)
          (λ h.
            follows_if a (eqb v.conf 2) _ _
              (λ h'.
                let b = record a { estimate = v.value } in
                follows_trans (stays a b refl refl refl refl refl)
                  (ensure_complete-Follows outside v.value b))
              (λ h'.
                follows_if a (eqb v.conf 1) _ _ (λ k. stays a _ refl refl refl refl refl)
                  (λ k. stays a _ refl refl refl refl refl)))

    pub complete_round-EndsWell :
        (restart : Restart S M)
        → RestartsWell restart
        → (v : Option VoteResult) (c : Option IccResult) (a : AbaService S M)
        → EndsWell a (complete_round outside restart v c a)
    unfolding complete_round
    complete_round-EndsWell restart ok none c a = idle a
    complete_round-EndsWell restart ok (some v) none a = idle a
    complete_round-EndsWell restart ok (some v) (some c) a =
        let a' = (settle outside v c a).0 in
        emit-EndsWell a (restart (suc a'.round) a') (settle-Follows v c a) (ok (suc a'.round) a')

    adapt_vote-EndsWell :
        (round : ℕ) (es : List (Effect VoteMessage VoteResult)) (a : AbaService S M)
        → EndsWell a (adapt_vote outside round es a)
    unfolding adapt_vote take_vote_result check_round_progress
    adapt_vote-EndsWell round [] a = idle a
    adapt_vote-EndsWell round (broadcast m ∷ es) a =
        emit-EndsWell a (adapt_vote outside round es a)
          (follows_quiet a a refl refl refl refl (broadcast (wrap_vote M round m) ∷ []) refl refl
            (omega arith))
          (adapt_vote-EndsWell round es a)
    adapt_vote-EndsWell round (send_result res ∷ es) a =
        let b = record a { vote_result = some res } in
        after-EndsWell a (take_vote_result outside round res a) (adapt_vote outside round es)
          (if-EndsWell a (round == a.round) (check_round_progress outside held b) (done a [])
            (from_quiet (check_round_progress outside held b) (stays a b refl refl refl refl refl)
              (complete_round-EndsWell held (λ r d. tt) (some res) b.icc_result b))
            (idle a))
          (adapt_vote-EndsWell round es)

    pub call_vote-EndsWell :
        (round : ℕ) (call : VoteService → Outcome) (a : AbaService S M)
        → EndsWell a (call_vote outside round call a)
    unfolding call_vote
    call_vote-EndsWell round call a =
        let b = record a { vote = (call a.vote).0 } in
        from_quiet (adapt_vote outside round ((call a.vote).1) b)
          (stays a b refl refl refl refl refl) (adapt_vote-EndsWell round ((call a.vote).1) b)

    adapt_icc-EndsWell :
        (restart : Restart S M)
        → RestartsWell restart
        → (round : ℕ) (es : List (Effect M IccResult)) (a : AbaService S M)
        → EndsWell a (adapt_icc outside restart round es a)
    unfolding adapt_icc take_icc_result check_round_progress
    adapt_icc-EndsWell restart ok round [] a = idle a
    adapt_icc-EndsWell restart ok round (broadcast m ∷ es) a =
        emit-EndsWell a (adapt_icc outside restart round es a)
          (follows_quiet a a refl refl refl refl (broadcast (wrap_icc M round m) ∷ []) refl refl
            (omega arith))
          (adapt_icc-EndsWell restart ok round es a)
    adapt_icc-EndsWell restart ok round (send_result res ∷ es) a =
        let b = record a { icc_result = some res } in
        after-EndsWell a (take_icc_result outside restart round res a)
          (adapt_icc outside restart round es)
          (if-EndsWell a (round == a.round) (check_round_progress outside restart b) (done a [])
            (from_quiet (check_round_progress outside restart b)
              (stays a b refl refl refl refl refl)
              (complete_round-EndsWell restart ok b.vote_result (some res) b))
            (idle a))
          (adapt_icc-EndsWell restart ok round es)

    pub call_icc-EndsWell :
        (restart : Restart S M)
        → RestartsWell restart
        → (round : ℕ) (call : IccCall S M) (a : AbaService S M)
        → EndsWell a (call_icc outside restart round call a)
    unfolding call_icc
    call_icc-EndsWell restart ok round (coin, (cp, es)) a =
        let b = record a { icc = Maps.insert round coin a.icc; cp = cp } in
        from_quiet (adapt_icc outside restart round es b) (stays a b refl refl refl refl refl)
          (adapt_icc-EndsWell restart ok round es b)

    pub answer_icc-EndsWell :
        (restart : Restart S M)
        → RestartsWell restart
        → (round : ℕ) (answer : IccAnswer S M) (a : AbaService S M)
        → EndsWell a (answer_icc outside restart round answer a)
    answer_icc-EndsWell restart ok round (returns (coin, cp) es) a =
        call_icc-EndsWell restart ok round (coin, (cp, es)) a
    answer_icc-EndsWell restart ok round panics a = tt
    answer_icc-EndsWell restart ok round waits a = tt

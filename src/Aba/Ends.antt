-- ===== src/Aba/Ends.antt =====
-- services/aba.go: the calls of Vote, of the coin and of the COMPLETE votes end, where the rounds
-- that they begin do.
use async_agreement_protocol.Base.{
  ℕ, suc, ◌+◌, ◌≡◌, refl, Bool, true, false, not, ◌&&◌, Option, some, none, List, [], ◌∷◌, arith,
  String, nat_comparable, string_comparable, ◌==◌, eqb, leb, length, if◌then◌else◌, ◌∙◌,
}
use async_agreement_protocol.Base.Members.{add}
use async_agreement_protocol.Context.{Effect, broadcast, send_result}
use async_agreement_protocol.ACast.{ACastMessage, on_message}
use async_agreement_protocol.Vote.{VoteMessage, VoteResult, VoteService, Outcome}
use async_agreement_protocol.Base.Int.{ℤ}
use async_agreement_protocol.Icc.{IccResult}
use async_agreement_protocol.Aba.Types.{AbaOutside, AbaService, AbaEffects, CompletePayload}
use async_agreement_protocol.Aba.Complete.{
  ensure_complete, on_complete_msg, broadcast_complete, decide, count_complete,
  handle_complete_delivery, adapt_complete, backers,
}
use async_agreement_protocol.Aba.Service.{
  done, emit, Restart, held, settle, complete_round, check_round_progress, take_vote_result,
  adapt_vote, call_vote, take_icc_result, adapt_icc,
}
use async_agreement_protocol.Aba.Pending.{
  EndsIn, same_Advances, from_Advances, emit-EndsIn, after-EndsIn, if-EndsIn, idle, HasFuel,
  RestartsIn, HasFuel-Advances,
}

-- Whether the coin hands out its result.
abbrev pub has_coin : {M : Type 0} → List (Effect M IccResult) → Bool
has_coin [] = false
has_coin (broadcast m ∷ es) = has_coin es
has_coin (send_result res ∷ es) = true

module _ {S M : Type 0} (outside : AbaOutside) where
  -- The COMPLETE votes touch neither the round nor the buffer.
  abbrev pub Unmoved : AbaService S M → AbaService S M → Type 0
  Unmoved a b = (b.round ≡ a.round) × (b.future_msgs ≡ a.future_msgs)

  if-Unmoved :
      (a : AbaService S M) (test : Bool) (x y : AbaService S M × AbaEffects M)
      → Unmoved a x.0
      → Unmoved a y.0
      → Unmoved a ((if test then x else y).0)
  if-Unmoved a true x y p q = p
  if-Unmoved a false x y p q = q

  ensure_complete-Unmoved :
      (val : ℤ) (a : AbaService S M) → Unmoved a ((ensure_complete outside val a).0)
  unfolding ensure_complete broadcast_complete
  ensure_complete-Unmoved val a =
      if-Unmoved a (not a.has_broadcast_complete) _ _ (refl, refl) (refl, refl)

  delivery-Unmoved :
      (p : Option CompletePayload) (a : AbaService S M)
      → Unmoved a ((handle_complete_delivery outside p a).0)
  unfolding handle_complete_delivery count_complete decide
  delivery-Unmoved none a = (refl, refl)
  delivery-Unmoved (some p) a =
      if-Unmoved a (leb (a.t + 1) (length (add p.sender (backers a p.value))) && not a.decided) _ _
        (ensure_complete-Unmoved p.value _) (refl, refl)

  adapt_complete-Unmoved :
      (es : List (Effect (ACastMessage String) String)) (a : AbaService S M)
      → Unmoved a ((adapt_complete outside es a).0)
  unfolding adapt_complete
  adapt_complete-Unmoved [] a = (refl, refl)
  adapt_complete-Unmoved (broadcast m ∷ es) a = adapt_complete-Unmoved es a
  adapt_complete-Unmoved (send_result res ∷ es) a =
      let b = (handle_complete_delivery outside (outside.unmarshal res) a).0 in
      let p = delivery-Unmoved (outside.unmarshal res) a in
      let q = adapt_complete-Unmoved es b in (q.0 ∙ p.0, q.1 ∙ p.1)

  pub on_complete_msg-Unmoved :
      (m : Option (ACastMessage String)) (a : AbaService S M)
      → Unmoved a ((on_complete_msg outside m a).0)
  unfolding on_complete_msg
  on_complete_msg-Unmoved none a = (refl, refl)
  on_complete_msg-Unmoved (some m) a =
      adapt_complete-Unmoved ((on_message a.acast_complete m).1)
        (record a { acast_complete = (on_message a.acast_complete m).0 })

  settle-Unmoved :
      (v : VoteResult) (c : IccResult) (a : AbaService S M) → Unmoved a ((settle outside v c a).0)
  unfolding settle
  settle-Unmoved v c a =
      if-Unmoved a a.decided _ _ (refl, refl)
        (if-Unmoved a (eqb v.conf 2) _ _
          (ensure_complete-Unmoved v.value (record a { estimate = v.value }))
          (if-Unmoved a (eqb v.conf 1) _ _ (refl, refl) (refl, refl)))

  complete_round-EndsIn :
      (restart : Restart S M) (r fuel : ℕ)
      → RestartsIn restart r fuel
      → (v : Option VoteResult) (c : Option IccResult) (a : AbaService S M) → HasFuel r fuel a
      → EndsIn a (complete_round outside restart v c a)
  unfolding complete_round
  complete_round-EndsIn restart r fuel ok none c a h = idle a
  complete_round-EndsIn restart r fuel ok (some v) none a h = idle a
  complete_round-EndsIn restart r fuel ok (some v) (some c) a h =
      let (b, es) = settle outside v c a in
      let u = settle-Unmoved v c a in
      let p = same_Advances a b u.0 u.1 in
      emit-EndsIn a es (restart (suc b.round) b)
        (from_Advances a b (restart (suc b.round) b) p (ok b (HasFuel-Advances r fuel a b h p)))

  -- Vote never begins a round: a result of it either waits for the coin or blocks.
  complete_round-held :
      (v : Option VoteResult) (c : Option IccResult) (a : AbaService S M)
      → EndsIn a (complete_round outside held v c a)
  unfolding complete_round emit
  complete_round-held none c a = idle a
  complete_round-held (some v) none a = idle a
  complete_round-held (some v) (some c) a = tt

  adapt_vote-EndsIn :
      (round : ℕ) (es : List (Effect VoteMessage VoteResult)) (a : AbaService S M)
      → EndsIn a (adapt_vote outside round es a)
  unfolding adapt_vote take_vote_result check_round_progress
  adapt_vote-EndsIn round [] a = idle a
  adapt_vote-EndsIn round (broadcast m ∷ es) a =
      emit-EndsIn a _ (adapt_vote outside round es a) (adapt_vote-EndsIn round es a)
  adapt_vote-EndsIn round (send_result res ∷ es) a =
      let b = record a { vote_result = some res } in
      after-EndsIn a (take_vote_result outside round res a) (adapt_vote outside round es)
        (if-EndsIn a (round == a.round) (check_round_progress outside held b) (done a [])
          (from_Advances a b (check_round_progress outside held b) (same_Advances a b refl refl)
            (complete_round-held (some res) b.icc_result b))
          (idle a))
        (λ d p. adapt_vote-EndsIn round es d)

  pub call_vote-EndsIn :
      (round : ℕ) (call : VoteService → Outcome) (a : AbaService S M)
      → EndsIn a (call_vote outside round call a)
  unfolding call_vote
  call_vote-EndsIn round call a =
      let b = record a { vote = (call a.vote).0 } in
      from_Advances a b (adapt_vote outside round ((call a.vote).1) b) (same_Advances a b refl refl)
        (adapt_vote-EndsIn round ((call a.vote).1) b)

  pub adapt_icc-EndsIn :
      (restart : Restart S M) (r fuel : ℕ)
      → RestartsIn restart r fuel
      → (round : ℕ) (es : List (Effect M IccResult)) (a : AbaService S M) → HasFuel r fuel a
      → EndsIn a (adapt_icc outside restart round es a)
  unfolding adapt_icc take_icc_result check_round_progress
  adapt_icc-EndsIn restart r fuel ok round [] a h = idle a
  adapt_icc-EndsIn restart r fuel ok round (broadcast m ∷ es) a h =
      emit-EndsIn a _ (adapt_icc outside restart round es a)
        (adapt_icc-EndsIn restart r fuel ok round es a h)
  adapt_icc-EndsIn restart r fuel ok round (send_result res ∷ es) a h =
      let b = record a { icc_result = some res } in
      after-EndsIn a (take_icc_result outside restart round res a)
        (adapt_icc outside restart round es)
        (if-EndsIn a (round == a.round) (check_round_progress outside restart b) (done a [])
          (from_Advances a b (check_round_progress outside restart b) (same_Advances a b refl refl)
            (complete_round-EndsIn restart r fuel ok b.vote_result (some res) b h))
          (idle a))
        (λ d p. adapt_icc-EndsIn restart r fuel ok round es d (HasFuel-Advances r fuel a d h p))

  pub quiet_icc-EndsIn :
      (restart : Restart S M) (round : ℕ) (es : List (Effect M IccResult)) (a : AbaService S M)
      → has_coin es ≡ false
      → EndsIn a (adapt_icc outside restart round es a)
  unfolding adapt_icc
  quiet_icc-EndsIn restart round [] a quiet = idle a
  quiet_icc-EndsIn restart round (broadcast m ∷ es) a quiet =
      emit-EndsIn a _ (adapt_icc outside restart round es a)
        (quiet_icc-EndsIn restart round es a quiet)
  quiet_icc-EndsIn restart round (send_result res ∷ es) a quiet = ground arith

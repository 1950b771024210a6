-- ===== src/Vote/Moves.antt =====
-- services/vote.go: how the flags of a round move, and the results that go with it.
use async_agreement_protocol.Base.{
  ℕ, ◌+◌, ◌-◌, ◌≡◌, refl, sym, ap, ◌∙◌, inl, inr, Bool, true, false, not, ◌&&◌, List, [], ◌∷◌, ◌++◌,
  String, nat_comparable, string_comparable, eqb, leb, length, if◌then◌else◌, arith, Bool-cases,
}
use async_agreement_protocol.Base.Sorting.{sort}
use async_agreement_protocol.Base.Int.{ℤ}
use async_agreement_protocol.Context.{Effect, broadcast, send_result}
use async_agreement_protocol.ACast.{ACastMessage, on_message, new_acast_message}
use async_agreement_protocol.Vote.Types.{
  VotePayload, vote1, revote, VoteMessage, VoteResult, VoteRoundState, Outside,
}
use async_agreement_protocol.Vote.Progress.{
  keys, input_bits, majority, bits_of, Work, wrap_broadcasts, finish, decision, valid_senders,
  valid_vote1s, phase1, phase2, phase3, start_acast, check_progress,
}

abbrev pub flag : Bool → ℕ
flag true = 1
flag false = 0

-- How many results of the round there are.
unfoldable pub results_of : ℕ → List (Effect VoteMessage VoteResult) → ℕ
results_of r [] = 0
results_of r (broadcast m ∷ es) = results_of r es
results_of r (send_result v ∷ es) = (if eqb v.round r then 1 else 0) + results_of r es

pub results_of-append :
    (r : ℕ) (xs ys : List (Effect VoteMessage VoteResult))
    → results_of r (xs ++ ys) ≡ results_of r xs + results_of r ys
unfolding results_of
results_of-append r [] ys = omega arith
results_of-append r (broadcast m ∷ xs) ys = results_of-append r xs ys
results_of-append r (send_result v ∷ xs) ys = omega (arith, results_of-append r xs ys)

results_of-wrap_broadcasts :
    (r : ℕ) (es : List (Effect (ACastMessage String) String))
    → results_of r (wrap_broadcasts es) ≡ 0
unfolding results_of wrap_broadcasts
results_of-wrap_broadcasts r [] = refl
results_of-wrap_broadcasts r (broadcast m ∷ es) = results_of-wrap_broadcasts r es
results_of-wrap_broadcasts r (send_result v ∷ es) = results_of-wrap_broadcasts r es

-- The flags are set in order.
pub record Ordered (st : VoteRoundState) : Type 0 where
  pub revote_after : st.sent_revote ≡ true → st.sent_vote1 ≡ true
  pub result_after : st.finished ≡ true → st.sent_revote ≡ true

-- From one state of a round to a later one with `c` results between them.
pub record Moves (a : VoteRoundState) (c : ℕ) (b : VoteRoundState) : Type 0 where
  pub same_round : b.round ≡ a.round
  pub counted : flag a.finished + c ≡ flag b.finished
  pub in_order : Ordered a → Ordered b

pub Moves-refl : (a : VoteRoundState) → Moves a 0 a
Moves-refl a = record { same_round = refl; counted = omega arith; in_order = λ o. o }

pub Moves-trans : (a b d : VoteRoundState) (k l : ℕ) → Moves a k b → Moves b l d → Moves a (k + l) d
Moves-trans a b d k l p q = record {
  same_round = q.same_round ∙ p.same_round;
  counted = omega (arith, p.counted, q.counted);
  in_order = λ o. q.in_order (p.in_order o);
}

-- A step of the work on a round.
pub record WorkMoves (v w : Work) : Type 0 where
  pub results : ℕ
  pub moves : Moves v.state results w.state
  pub emitted :
      (r : ℕ)
      → results_of r w.effects
        ≡ results_of r v.effects + (if eqb v.state.round r then results else 0)

pub WorkMoves-trans : (u v w : Work) → WorkMoves u v → WorkMoves v w → WorkMoves u w
WorkMoves-trans u v w p q = record {
  results = p.results + q.results;
  moves = Moves-trans u.state v.state w.state p.results q.results p.moves q.moves;
  emitted = λ r. ground (arith, p.emitted r, q.emitted r, p.moves.same_round);
}

pub WorkMoves-refl : (w : Work) → WorkMoves w w
WorkMoves-refl w = record { results = 0; moves = Moves-refl w.state; emitted = λ r. ground arith }

either_zero : (b : Bool) → if◌then◌else◌ {A = ℕ} b 0 0 ≡ 0
either_zero true = refl
either_zero false = refl

pub state-WorkMoves :
    (w : Work) (st : VoteRoundState) → Moves w.state 0 st → WorkMoves w (record w { state = st })
state-WorkMoves w st m = record { results = 0; moves = m; emitted = λ r. ground arith }

one_result :
    (r : ℕ) (w : Work) (v : VoteResult)
    → v.round ≡ w.state.round
    → results_of r (w.effects ++ send_result v ∷ [])
      ≡ results_of r w.effects + (if eqb w.state.round r then 1 else 0)
unfolding results_of
one_result r w v same =
    results_of-append r w.effects (send_result v ∷ [])
    ∙ ap (λ k. results_of r w.effects + k)
        (ap (λ k. (if eqb k r then 1 else 0) + 0) same ∙ omega arith)

module _ (outside : Outside) (id n t : ℕ) where
  -- Nothing goes out but broadcasts.
  pub start_acast-WorkMoves :
      (payload : VotePayload) (v w : Work)
      → w.effects ≡ v.effects
      → Moves v.state 0 w.state
      → WorkMoves v (start_acast outside id n t payload w)
  unfolding start_acast results_of
  start_acast-WorkMoves payload v w same m = record {
    results = 0;
    moves = m;
    emitted = λ r.
        let m = new_acast_message outside.new_uuid (outside.marshal payload) id w.clock in
        results_of-append r w.effects _
        ∙ ap (λ k. results_of r w.effects + k)
            (results_of-wrap_broadcasts r ((on_message w.acast m).1) ∙ sym (either_zero _))
        ∙ ap (λ es. results_of r es + (if eqb v.state.round r then 0 else 0)) same;
  }

  -- A phase that is not due does nothing.
  if_due : (w x : Work) (b : Bool) → (b ≡ true → WorkMoves w x) → WorkMoves w (if b then x else w)
  if_due w x true h = h refl
  if_due w x false h = WorkMoves-refl w

  phase1-WorkMoves : (w : Work) → WorkMoves w (phase1 outside id n t w)
  unfolding phase1
  phase1-WorkMoves w =
      let inputs = w.state.received_inputs in
      let a = sort (keys inputs) in
      let sent : Work = record w { state = record (w.state) { my_a = a; sent_vote1 = true } } in
      let payload : VotePayload = record {
        type = vote1;
        sender = id;
        bit = majority (input_bits inputs);
        set = a;
        round = w.state.round;
      } in
      if_due w (start_acast outside id n t payload sent)
        (not w.state.sent_vote1 && leb (n - t) (length inputs))
        (λ e. start_acast-WorkMoves payload w sent refl (record {
          same_round = refl;
          counted = omega arith;
          in_order = λ o. record { revote_after = λ h. refl; result_after = o.result_after };
        }))

  phase2-WorkMoves : (w : Work) → WorkMoves w (phase2 outside id n t w)
  unfolding phase2
  phase2-WorkMoves w =
      let valid = valid_vote1s w.state in
      let b = sort valid in
      let sent : Work = record w { state = record (w.state) { my_b = b; sent_revote = true } } in
      let payload : VotePayload = record {
        type = revote;
        sender = id;
        bit = majority (bits_of w.state.received_vote1 valid);
        set = b;
        round = w.state.round;
      } in
      if_due w (start_acast outside id n t payload sent)
        (w.state.sent_vote1 && not w.state.sent_revote && leb (n - t) (length valid))
        (λ e. start_acast-WorkMoves payload w sent refl (record {
          same_round = refl;
          counted = omega arith;
          in_order =
              λ o. record { revote_after = λ h. ground (arith, e); result_after = λ h. refl };
        }))

  finish-WorkMoves :
      (val : ℤ) (conf : ℕ) (c : List ℕ) (w : Work)
      → w.state.finished ≡ false
      → w.state.sent_revote ≡ true
      → WorkMoves w (finish val conf (record w { state = record (w.state) { my_c = c } }))
  unfolding finish
  finish-WorkMoves val conf c w running sent = record {
    results = 1;
    moves = record {
      same_round = refl;
      counted = ap (λ b. flag b + 1) running;
      in_order = λ o. record { revote_after = o.revote_after; result_after = λ h. sent };
    };
    emitted = λ r. one_result r w (record { value = val; conf = conf; round = w.state.round }) refl;
  }

  phase3-WorkMoves : (w : Work) → w.state.finished ≡ false → WorkMoves w (phase3 n t w)
  unfolding phase3
  phase3-WorkMoves w running =
      let valid = valid_senders w.state.received_revote (valid_vote1s w.state) in
      let (val, conf) = decision w.state in
      if_due w (finish val conf (record w { state = record (w.state) { my_c = sort valid } }))
        (w.state.sent_revote && leb (n - t) (length valid))
        (λ e. finish-WorkMoves val conf (sort valid) w running (ground (arith, e)))

  finished-phase1 : (w : Work) → (phase1 outside id n t w).state.finished ≡ w.state.finished
  unfolding phase1 start_acast
  finished-phase1 w =
      elim (Bool-cases (not w.state.sent_vote1 && leb (n - t) (length w.state.received_inputs))) [
        | inl e ↦ rw e refl
        | inr e ↦ rw e refl
      ]

  finished-phase2 : (w : Work) → (phase2 outside id n t w).state.finished ≡ w.state.finished
  unfolding phase2 start_acast
  finished-phase2 w =
      elim (Bool-cases (
        w.state.sent_vote1
        && not w.state.sent_revote
        && leb (n - t) (length (valid_vote1s w.state)))) [ inl e ↦ rw e refl | inr e ↦ rw e refl ]

  -- While the round runs, `checkProgress` hands out a result exactly if it finishes the round.
  pub check_progress-WorkMoves :
      (w : Work) → w.state.finished ≡ false → WorkMoves w (check_progress outside id n t w)
  unfolding check_progress
  check_progress-WorkMoves w running =
      let a = phase1 outside id n t w in
      let b = phase2 outside id n t a in
      WorkMoves-trans w b (phase3 n t b)
        (WorkMoves-trans w a b (phase1-WorkMoves w) (phase2-WorkMoves a))
        (phase3-WorkMoves b (finished-phase2 a ∙ finished-phase1 w ∙ running))

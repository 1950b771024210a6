-- ===== src/Vote/Runs.antt =====
-- services/vote.go: runs of the service, in which `StartRound` and `OnMessage` are called in any order.
use async_agreement_protocol.Base.{
  ℕ, ◌+◌, ◌≡◌, refl, sym, ap, ◌∙◌, subst, inl, inr, Bool, true, false, Option, none, some, List, [],
  ◌∷◌, ◌++◌, String, nat_comparable, string_comparable, eqb, if◌then◌else◌, arith, Bool-cases,
  eq_of_beq,
}
use async_agreement_protocol.Base.Int.{ℤ}
use async_agreement_protocol.Base.Maps.{lookup, lookup-insert}
use async_agreement_protocol.Context.{Effect, broadcast, send_result}
use async_agreement_protocol.ACast.{ACastMessage, on_message, or_else}
use async_agreement_protocol.Vote.Types.{
  VotePayloadType, VotePayload, input, vote1, revote, VoteMessage, VoteResult, VoteRoundState,
  new_vote_round_state, VoteService, new_vote_service, Outside,
}
use async_agreement_protocol.Vote.Progress.{Work, start_acast, check_progress}
use async_agreement_protocol.Vote.Service.{
  Outcome, get_round_state, open_round, close_round, store, start_round, process_delivered_payload,
  on_delivered, adapt, on_acast_msg, on_vote_message,
}
use async_agreement_protocol.Vote.Moves.{
  flag, results_of, results_of-append, Ordered, Moves, Moves-refl, Moves-trans, WorkMoves,
  WorkMoves-refl, WorkMoves-trans, state-WorkMoves, start_acast-WorkMoves, check_progress-WorkMoves,
}

-- Every round is stored under its number.
abbrev RoundsKnown : VoteService → Type 0
RoundsKnown s = (r : ℕ) → (get_round_state s r).round ≡ r

abbrev ServiceMoves : VoteService → Outcome → Type 0
ServiceMoves s o = (r : ℕ) → Moves (get_round_state s r) (results_of r o.1) (get_round_state o.0 r)

still_RoundsKnown :
    (s : VoteService) (o : Outcome) → RoundsKnown s → ServiceMoves s o → RoundsKnown o.0
still_RoundsKnown s o known h r = (h r).same_round ∙ known r

ServiceMoves-trans :
    (s : VoteService) (o p : Outcome)
    → ServiceMoves s o
    → ServiceMoves o.0 p
    → ServiceMoves s (p.0, o.1 ++ p.1)
ServiceMoves-trans s o p h k r =
    subst (λ c. Moves (get_round_state s r) c (get_round_state p.0 r))
      (sym (results_of-append r o.1 p.1))
      (Moves-trans (get_round_state s r) (get_round_state o.0 r) (get_round_state p.0 r) _ _ (h r)
        (k r))

idle : (s s' : VoteService) → s'.rounds ≡ s.rounds → ServiceMoves s (s', [])
unfolding get_round_state results_of
idle s s' same r =
    subst
      (λ rounds. Moves (get_round_state s r) 0 (or_else (new_vote_round_state r) (lookup r rounds)))
      (sym same) (Moves-refl (get_round_state s r))

Moves-subst : (a b c : VoteRoundState) (k l : ℕ) → Moves a k b → l ≡ k → c ≡ b → Moves a l c
Moves-subst a b c k l m count state =
    subst (λ c. Moves a l c) (sym state) (subst (λ k. Moves a k b) (sym count) m)

close_round-ServiceMoves :
    (s : VoteService) (round : ℕ) (w : Work)
    → RoundsKnown s
    → WorkMoves (open_round s round) w
    → ServiceMoves s (close_round s round w)
unfolding close_round get_round_state open_round results_of
close_round-ServiceMoves s round w known m r =
    let count = m.emitted r ∙ ap (λ k. 0 + (if eqb k r then m.results else 0)) (known round) in
    let stored = ap (or_else (new_vote_round_state r)) (lookup-insert round r w.state s.rounds) in
    elim (Bool-cases (eqb round r)) [
      | inl e ↦
          Moves-subst (get_round_state s r) w.state _ m.results (results_of r w.effects)
            (subst (λ k. Moves (get_round_state s k) m.results w.state)
              (eq_of_beq {a = round} {b = r} e) m.moves)
            (count ∙ ap (λ b. 0 + (if b then m.results else 0)) e ∙ omega arith)
            (stored
              ∙ ap
                  (λ b.
                    or_else (new_vote_round_state r)
                      (if b then some w.state else lookup r s.rounds))
                  e)
      | inr e ↦
          Moves-subst (get_round_state s r) (get_round_state s r) _ 0 (results_of r w.effects)
            (Moves-refl (get_round_state s r))
            (count ∙ ap (λ b. 0 + (if b then m.results else 0)) e)
            (stored
              ∙ ap
                  (λ b.
                    or_else (new_vote_round_state r)
                      (if b then some w.state else lookup r s.rounds))
                  e)
    ]

-- Whatever is done to a round that runs, nothing is done to one that is finished.
unless_finished :
    (v x : Work)
    → (v.state.finished ≡ false → WorkMoves v x)
    → WorkMoves v (if v.state.finished then v else x)
unless_finished v x h = at_flag v.state.finished h
  where
    at_flag : (b : Bool) → (b ≡ false → WorkMoves v x) → WorkMoves v (if b then v else x)
    at_flag true h = WorkMoves-refl v
    at_flag false h = h refl

store-Moves :
    (type : VotePayloadType) (p : VotePayload) (st : VoteRoundState) → Moves st 0 (store type p st)
unfolding store
store-Moves input p st = record {
  same_round = refl;
  counted = omega arith;
  in_order = λ o. record { revote_after = o.revote_after; result_after = o.result_after };
}
store-Moves vote1 p st = record {
  same_round = refl;
  counted = omega arith;
  in_order = λ o. record { revote_after = o.revote_after; result_after = o.result_after };
}
store-Moves revote p st = record {
  same_round = refl;
  counted = omega arith;
  in_order = λ o. record { revote_after = o.revote_after; result_after = o.result_after };
}

finished-store :
    (type : VotePayloadType) (p : VotePayload) (st : VoteRoundState)
    → (store type p st).finished ≡ st.finished
unfolding store
finished-store input p st = refl
finished-store vote1 p st = refl
finished-store revote p st = refl

module _ (outside : Outside) where
  start_round-ServiceMoves :
      (round : ℕ) (bit : ℤ) (s : VoteService)
      → RoundsKnown s
      → ServiceMoves s (start_round outside round bit s)
  unfolding start_round start_acast
  start_round-ServiceMoves round bit s known =
      let v = open_round s round in
      let payload : VotePayload = record {
        type = input;
        sender = s.id;
        bit = bit;
        set = [];
        round = round;
      } in
      let w = start_acast outside s.id s.n s.t payload v in
      close_round-ServiceMoves s round _ known (
        unless_finished v (check_progress outside s.id s.n s.t w) (λ running.
          WorkMoves-trans v w (check_progress outside s.id s.n s.t w)
            (start_acast-WorkMoves outside s.id s.n s.t payload v v refl (Moves-refl v.state))
            (check_progress-WorkMoves outside s.id s.n s.t w running)))

  delivered-ServiceMoves :
      (p : Option VotePayload) (s : VoteService)
      → RoundsKnown s
      → ServiceMoves s (on_delivered outside p s)
  unfolding on_delivered process_delivered_payload
  delivered-ServiceMoves none s known = idle s s refl
  delivered-ServiceMoves (some p) s known =
      let v = open_round s p.round in
      let w : Work = record v { state = store p.type p v.state } in
      close_round-ServiceMoves s p.round _ known (
        unless_finished v (check_progress outside s.id s.n s.t w) (λ running.
          WorkMoves-trans v w (check_progress outside s.id s.n s.t w)
            (state-WorkMoves v (store p.type p v.state) (store-Moves p.type p v.state))
            (check_progress-WorkMoves outside s.id s.n s.t w
              (finished-store p.type p v.state ∙ running))))

  adapt-ServiceMoves :
      (es : List (Effect (ACastMessage String) String)) (s : VoteService)
      → RoundsKnown s
      → ServiceMoves s (adapt outside es s)
  unfolding adapt results_of
  adapt-ServiceMoves [] s known = idle s s refl
  adapt-ServiceMoves (broadcast m ∷ es) s known = adapt-ServiceMoves es s known
  adapt-ServiceMoves (send_result res ∷ es) s known =
      let first = on_delivered outside (outside.unmarshal res) s in
      let h = delivered-ServiceMoves (outside.unmarshal res) s known in
      ServiceMoves-trans s first (adapt outside es first.0) h
        (adapt-ServiceMoves es first.0 (still_RoundsKnown s first known h))

  message-ServiceMoves :
      (m : Option (ACastMessage String)) (s : VoteService)
      → RoundsKnown s
      → ServiceMoves s (on_acast_msg outside m s)
  unfolding on_acast_msg get_round_state
  message-ServiceMoves none s known = idle s s refl
  message-ServiceMoves (some m) s known =
      let (acast, effects) = on_message s.acast m in
      adapt-ServiceMoves effects (record s { acast = acast }) known

-- The calls on a service, with what has gone out.
pub data VoteRun (outside : Outside) (first : VoteService)
    : List (Effect VoteMessage VoteResult) → VoteService → Type 0 where
  fresh : VoteRun outside first [] first
  begun :
      (round : ℕ) (bit : ℤ) (es : List (Effect VoteMessage VoteResult)) (s : VoteService)
      → VoteRun outside first es s
      → VoteRun outside first
          (es ++ (start_round outside round bit s).1)
          ((start_round outside round bit s).0)
  handled :
      (m : VoteMessage) (es : List (Effect VoteMessage VoteResult)) (s : VoteService)
      → VoteRun outside first es s
      → VoteRun outside first
          (es ++ (on_vote_message outside m s).1)
          ((on_vote_message outside m s).0)

module _ (outside : Outside) (first : VoteService) (known : RoundsKnown first) where
  run-ServiceMoves :
      (es : List (Effect VoteMessage VoteResult)) (s : VoteService)
      → VoteRun outside first es s
      → ServiceMoves first (s, es)
  unfolding on_vote_message
  run-ServiceMoves _ _ fresh = idle first first refl
  run-ServiceMoves _ _ (begun round bit es s run) =
      let h = run-ServiceMoves es s run in
      ServiceMoves-trans first (s, es) (start_round outside round bit s) h
        (start_round-ServiceMoves outside round bit s (still_RoundsKnown first (s, es) known h))
  run-ServiceMoves _ _ (handled m es s run) =
      let h = run-ServiceMoves es s run in
      ServiceMoves-trans first (s, es) (on_vote_message outside m s) h
        (message-ServiceMoves outside m.acast_msg s (still_RoundsKnown first (s, es) known h))

-- In every run of a new service, whatever rounds are started and whatever messages come, each round
-- has handed out one result if it is finished and none otherwise; a finished round has sent its
-- REVOTE, and a round that has sent its REVOTE has sent its VOTE1.
pub run-counts_results :
    (outside : Outside) (id n t r : ℕ) (es : List (Effect VoteMessage VoteResult)) (s : VoteService)
    → VoteRun outside (new_vote_service id n t) es s
    → (results_of r es ≡ flag (get_round_state s r).finished) × Ordered (get_round_state s r)
unfolding get_round_state new_vote_service new_vote_round_state lookup
run-counts_results outside id n t r es s run =
    let m = run-ServiceMoves outside (new_vote_service id n t) (λ r. refl) es s run r in
    (
      omega (arith, m.counted),
      m.in_order (record { revote_after = λ h. cc; result_after = λ h. cc }),
    )

-- ===== src/Vote/Service.antt =====
-- services/vote.go, the service: `StartRound`, `OnMessage` and what they call.
use async_agreement_protocol.Base.{
  ℕ, Option, none, some, List, [], ◌∷◌, ◌++◌, String, nat_comparable, string_comparable,
  if◌then◌else◌,
}
use async_agreement_protocol.Base.Maps.{lookup, insert}
use async_agreement_protocol.Base.Int.{ℤ}
use async_agreement_protocol.Context.{Effect, broadcast, send_result}
use async_agreement_protocol.ACast.{ACastMessage, on_message, or_else}
use async_agreement_protocol.Vote.Types.{
  VotePayloadType, VotePayload, input, vote1, revote, VoteMessage, VoteResult, VoteRoundState,
  new_vote_round_state, VoteService, Outside,
}
use async_agreement_protocol.Vote.Progress.{Work, wrap, start_acast, check_progress}

abbrev pub Outcome : Type 0
Outcome = VoteService × List (Effect VoteMessage VoteResult)

-- `getRoundState`
unfoldable pub get_round_state : VoteService → ℕ → VoteRoundState
get_round_state s round = or_else (new_vote_round_state round) (lookup round s.rounds)

-- A round taken out of the service to work on, and put back.
unfoldable pub open_round : VoteService → ℕ → Work
open_round s round = record {
  state = get_round_state s round;
  acast = s.acast;
  clock = s.clock;
  effects = [];
}

unfoldable pub close_round : VoteService → ℕ → Work → Outcome
close_round s round w = (
  record s { acast = w.acast; clock = w.clock; rounds = insert round w.state s.rounds },
  w.effects,
)

-- The `switch` of `processDeliveredPayload`
unfoldable pub store : VotePayloadType → VotePayload → VoteRoundState → VoteRoundState
store input p st = record st { received_inputs = insert p.sender p.bit st.received_inputs }
store vote1 p st = record st {
  received_vote1 = insert p.sender (record { set = p.set; bit = p.bit }) st.received_vote1;
}
store revote p st = record st {
  received_revote = insert p.sender (record { set = p.set; bit = p.bit }) st.received_revote;
}

module _ (outside : Outside) where
  -- `StartRound`
  unfoldable pub start_round : ℕ → ℤ → VoteService → Outcome
  start_round round bit s =
      let w = open_round s round in
      let payload : VotePayload = record {
        type = input;
        sender = s.id;
        bit = bit;
        set = [];
        round = round;
      } in
      close_round s round (
        if w.state.finished
        then w
        else check_progress outside s.id s.n s.t (start_acast outside s.id s.n s.t payload w))

  -- `processDeliveredPayload`
  unfoldable pub process_delivered_payload : VotePayload → VoteService → Outcome
  process_delivered_payload p s =
      let w = open_round s p.round in
      close_round s p.round (
        if w.state.finished
        then w
        else check_progress outside s.id s.n s.t (record w { state = store p.type p w.state }))

  -- The adapter's `SendResult`
  unfoldable pub on_delivered : Option VotePayload → VoteService → Outcome
  on_delivered none s = (s, [])
  on_delivered (some p) s = process_delivered_payload p s

  -- The calls that the A-Cast service makes on the adapter, in turn.
  unfoldable pub adapt : List (Effect (ACastMessage String) String) → VoteService → Outcome
  adapt [] s = (s, [])
  adapt (broadcast m ∷ es) s = let (s', rest) = adapt es s in (s', broadcast (wrap m) ∷ rest)
  adapt (send_result res ∷ es) s =
      let (s', first) = on_delivered (outside.unmarshal res) s in
      let (s'', rest) = adapt es s' in (s'', first ++ rest)

  -- `OnMessage`, on the pointer `msg.ACastMsg`
  unfoldable pub on_acast_msg : Option (ACastMessage String) → VoteService → Outcome
  on_acast_msg none s = (s, [])
  on_acast_msg (some m) s =
      let (acast, effects) = on_message s.acast m in adapt effects (record s { acast = acast })

  unfoldable pub on_vote_message : VoteMessage → VoteService → Outcome
  on_vote_message msg s = on_acast_msg msg.acast_msg s

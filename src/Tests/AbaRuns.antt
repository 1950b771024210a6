-- ===== src/Tests/AbaRuns.antt =====
-- services/aba.go with one process, which tolerates no fault, and a coin that answers every message.
use async_agreement_protocol.Base.{
  ℕ, ◌≡◌, ◌≢◌, refl, ◌+◌, ◌≤◌, true, false, some, none, [], ◌∷◌, ◌++◌, String, nat_comparable,
  string_comparable, length, arith,
}
use async_agreement_protocol.Base.Maps
use async_agreement_protocol.Base.Members
use async_agreement_protocol.Base.Members.{Distinct}
use async_agreement_protocol.Base.Sorting
use async_agreement_protocol.Base.Int.{pos, int_comparable}
use async_agreement_protocol.Context.{send_result}
use async_agreement_protocol.Attempt.{returns}
use async_agreement_protocol.ACast
use async_agreement_protocol.ACast.{ACastMessage, ready}
use async_agreement_protocol.Certification.{new_certification_protocol}
use async_agreement_protocol.Vote
use async_agreement_protocol.Vote.{
  Ballot, VoteRoundState, VotePayload, revote, VoteService, VoteMessage, vote_acast,
}
use async_agreement_protocol.Aba
use async_agreement_protocol.Aba.{
  AbaMessage, aba_complete, CompletePayload, IccOperations, AbaOutside, AbaService, AbaEffects,
  Ending, done, blocked, crashed, out_of_fuel, new_aba_service, on_aba_message, backers,
}
use async_agreement_protocol.Aba.Rules.{results, completes, outcome, flag}
use async_agreement_protocol.Aba.Runs.{handle, Run, fresh, called, decides_once, completes_once}
use async_agreement_protocol.Aba.Fuel.{enough_fuel}
use async_agreement_protocol.Icc.{IccMessage, IccService, new_icc_service}
use async_agreement_protocol.Aba.Coin.{icc_operations, icc_operations-StartsQuietly}
use async_agreement_protocol.Tests.CoinRuns
use async_agreement_protocol.Aba.Blocking.{vote_after_coin-blocked}

abbrev ballot : Ballot
ballot = record { set = 1 ∷ []; bit = pos 1 }

abbrev last_revote : VotePayload
last_revote = record { type = revote; sender = 1; bit = pos 1; set = 1 ∷ []; round = 1 }

abbrev outside : AbaOutside
outside = record {
  vote = record {
    marshal = λ p. "vote";
    unmarshal = λ s. some last_revote;
    new_uuid = λ s i k. "uuid";
  };
  marshal = λ p. "complete";
  unmarshal = λ s. some (record { sender = 1; value = pos 1 });
  new_uuid = λ s i k. "uuid";
}

abbrev coin : IccOperations ℕ ℕ
coin = record {
  new_icc_service = λ id n t r. r;
  start = λ cp s. returns (s, cp) [];
  on_message = λ m cp s. returns (s, cp) (send_result (record { coin = pos m }) ∷ []);
}

abbrev initial : AbaService ℕ ℕ
initial = new_aba_service ℕ ℕ 1 1 0 (pos 0) new_certification_protocol

abbrev vote_of_one : ACastMessage String
vote_of_one = record { type = ready; uuid = "last"; val = "value"; from = 1 }

abbrev complete_of_one : AbaMessage ℕ
complete_of_one = record {
  type = aba_complete;
  round = 0;
  vote_msg = none;
  icc_msg = none;
  complete_msg = some vote_of_one;
}

abbrev state_of : Ending ℕ ℕ → AbaService ℕ ℕ
state_of (done a es) = a
state_of blocked = initial
state_of crashed = initial
state_of out_of_fuel = initial

abbrev effects_of : Ending ℕ ℕ → AbaEffects ℕ
effects_of (done a es) = es
effects_of blocked = []
effects_of crashed = []
effects_of out_of_fuel = []

abbrev ending : Ending ℕ ℕ
ending = on_aba_message outside coin 0 complete_of_one initial

ends : ending ≡ done (state_of ending) (effects_of ending)
unfolding on_aba_message Aba.on_message_as Aba.dispatch_message Aba.dispatch_as
ends = refl

one_call : Run outside coin initial ([] ++ effects_of ending) (state_of ending)
one_call = called fresh 0 (handle complete_of_one) ends

decides_once_example :
    (results ([] ++ effects_of ending)
      ≡ outcome (state_of ending).decided (state_of ending).decision)
    × ((state_of ending).decided ≡ true
        → Distinct (backers (state_of ending) (state_of ending).decision)
          × (0 + 1 ≤ length (backers (state_of ending) (state_of ending).decision)))
decides_once_example =
    decides_once outside coin 1 1 0 (pos 0) new_certification_protocol ([] ++ effects_of ending)
      (state_of ending) one_call

completes_once_example :
    completes ([] ++ effects_of ending) ≡ flag (state_of ending).has_broadcast_complete
completes_once_example =
    completes_once outside coin 1 1 0 (pos 0) new_certification_protocol ([] ++ effects_of ending)
      (state_of ending) one_call

-- The message decides 1, and the process joins with its own COMPLETE vote.
decides_one : results (effects_of ending) ≡ pos 1 ∷ []
unfolding on_aba_message Aba.on_message_as Aba.dispatch_message Aba.dispatch_as Aba.on_complete_msg
    Aba.adapt_complete Aba.handle_complete_delivery Aba.count_complete Aba.decide
    Aba.ensure_complete Aba.broadcast_complete Aba.wrap_completes Aba.new_aba_service Aba.backers
    ACast.on_message ACast.on_instance ACast.get_instance ACast.dispatch ACast.on_ready ACast.on_msg
    ACast.amplify ACast.deliver ACast.add_to_set ACast.voters ACast.new_acast_service
    ACast.new_acast_instance ACast.new_acast_message Maps.lookup Maps.insert Members.add
decides_one = refl

-- The coin of round 1 is there, and the last REVOTE is about to be delivered.
abbrev waiting : AbaService ℕ ℕ
waiting = record initial {
  round = 1;
  icc_result = some (record { coin = pos 1 });
  vote = record (initial.vote) {
    rounds =
        (
          1,
          record {
            round = 1;
            received_inputs = (1, pos 1) ∷ [];
            my_a = 1 ∷ [];
            sent_vote1 = true;
            received_vote1 = (1, ballot) ∷ [];
            my_b = 1 ∷ [];
            sent_revote = true;
            received_revote = [];
            my_c = [];
            finished = false;
          },
        )
        ∷ [];
  };
}

abbrev last_vote : VoteMessage
last_vote = record { type = vote_acast; acast_msg = some vote_of_one }

last_vote_finishes :
    Aba.Blocking.has_result ((Vote.on_vote_message outside.vote last_vote waiting.vote).1) ≡ true
unfolding Vote.on_vote_message Vote.on_acast_msg Vote.adapt Vote.on_delivered
    Vote.process_delivered_payload Vote.open_round Vote.close_round Vote.get_round_state Vote.store
    Vote.check_progress Vote.phase1 Vote.phase2 Vote.phase3 Vote.finish Vote.decision
    Vote.decide_vote Vote.same_values Vote.valid_vote1s Vote.valid_senders Vote.is_subset Vote.keys
    Vote.bits_of Vote.bit_of Vote.new_vote_service Vote.start_acast Vote.wrap_broadcasts
    Vote.majority Vote.zeros Vote.ones Vote.input_bits Vote.new_vote_round_state Aba.new_aba_service
    Sorting.sort Sorting.insert_sorted ACast.on_message ACast.on_instance ACast.get_instance
    ACast.dispatch ACast.on_ready ACast.on_msg ACast.amplify ACast.deliver ACast.add_to_set
    ACast.voters ACast.new_acast_service ACast.new_acast_instance ACast.new_acast_message
    Maps.lookup Maps.insert Members.add
last_vote_finishes = refl

vote_after_coin-blocked_example :
    on_aba_message outside coin 9 (Aba.wrap_vote ℕ 1 last_vote) waiting ≡ blocked
vote_after_coin-blocked_example =
    vote_after_coin-blocked outside coin 9 last_vote (record { coin = pos 1 }) waiting refl
      last_vote_finishes

abbrev coin_of : ℕ → AbaMessage ℕ
coin_of round = record {
  type = Aba.aba_icc;
  round = round;
  vote_msg = none;
  icc_msg = some 1;
  complete_msg = none;
}

-- Vote has answered for round 1, and a message of the coin of round 2 is buffered.
abbrev ahead : AbaService ℕ ℕ
ahead = record initial {
  round = 1;
  icc = (1, 1) ∷ [];
  vote_result = some (record { value = pos 1; conf = 1; round = 1 });
  future_msgs = (2, coin_of 2 ∷ []) ∷ [];
}

enough_fuel_example : on_aba_message outside coin 2 (coin_of 1) ahead ≢ out_of_fuel
enough_fuel_example = enough_fuel outside coin (λ cp s. refl) 2 (coin_of 1) ahead (omega arith)

-- The same with the coin of services/icc.go.
abbrev ahead_of_coin : AbaService IccService IccMessage
ahead_of_coin = record (new_aba_service IccService IccMessage 1 1 0 (pos 0) CoinRuns.cp) {
  round = 1;
  icc = (1, new_icc_service CoinRuns.outside 1 1 0 1 CoinRuns.cp) ∷ [];
  vote_result = some (record { value = pos 1; conf = 1; round = 1 });
  future_msgs = (2, Aba.wrap_icc IccMessage 2 CoinRuns.sharing_done ∷ []) ∷ [];
}

ahead_of_coin_ends :
    on_aba_message outside
      (icc_operations CoinRuns.outside)
      2
      (Aba.wrap_icc IccMessage 1 CoinRuns.sharing_done)
      ahead_of_coin
    ≢ out_of_fuel
ahead_of_coin_ends =
    enough_fuel outside (icc_operations CoinRuns.outside)
      (icc_operations-StartsQuietly outside CoinRuns.outside) 2
      (Aba.wrap_icc IccMessage 1 CoinRuns.sharing_done) ahead_of_coin (omega arith)

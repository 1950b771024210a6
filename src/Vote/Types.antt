-- ===== src/Vote/Types.antt =====
-- services/vote.go, the data: payloads, messages, results, and the state of one round.
use async_agreement_protocol.Base.{ℕ, Bool, false, Option, List, [], String}
use async_agreement_protocol.Base.Maps.{Map}
use async_agreement_protocol.Base.Int.{ℤ}
use async_agreement_protocol.ACast.{ACastMessage, AcastService, new_acast_service}

pub data VotePayloadType : Type 0 where
  input vote1 revote : VotePayloadType

pub record VotePayload : Type 0 where
  pub type : VotePayloadType
  pub sender : ℕ
  pub bit : ℤ
  pub set : List ℕ
  pub round : ℕ

pub data VoteMsgType : Type 0 where
  vote_acast : VoteMsgType

-- A nil pointer is `none`.
pub record VoteMessage : Type 0 where
  pub type : VoteMsgType
  pub acast_msg : Option (ACastMessage String)

pub record VoteResult : Type 0 where
  pub value : ℤ
  pub conf : ℕ
  pub round : ℕ

-- The anonymous struct of `receivedVote1` and `receivedRevote`.
pub record Ballot : Type 0 where
  pub set : List ℕ
  pub bit : ℤ

pub record VoteRoundState : Type 0 where
  pub round : ℕ
  pub received_inputs : Map ℕ ℤ
  pub my_a : List ℕ
  pub sent_vote1 : Bool
  pub received_vote1 : Map ℕ Ballot
  pub my_b : List ℕ
  pub sent_revote : Bool
  pub received_revote : Map ℕ Ballot
  pub my_c : List ℕ
  pub finished : Bool

unfoldable pub new_vote_round_state : ℕ → VoteRoundState
new_vote_round_state round = record {
  round = round;
  received_inputs = [];
  my_a = [];
  sent_vote1 = false;
  received_vote1 = [];
  my_b = [];
  sent_revote = false;
  received_revote = [];
  my_c = [];
  finished = false;
}

-- `clock` counts the readings of the clock by `NewACastMessage`.
pub record VoteService : Type 0 where
  pub id : ℕ
  pub n : ℕ
  pub t : ℕ
  pub acast : AcastService String
  pub rounds : Map ℕ VoteRoundState
  pub clock : ℕ

unfoldable pub new_vote_service : ℕ → ℕ → ℕ → VoteService
new_vote_service id n t = record {
  id = id;
  n = n;
  t = t;
  acast = new_acast_service String id n t;
  rounds = [];
  clock = 0;
}

-- What the service takes from outside: `json.Marshal` and `json.Unmarshal` of a payload, and the
-- hash that makes a uuid of a value, a sender and a reading of the clock.
pub record Outside : Type 0 where
  pub marshal : VotePayload → String
  pub unmarshal : String → Option VotePayload
  pub new_uuid : String → ℕ → ℕ → String

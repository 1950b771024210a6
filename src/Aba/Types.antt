-- ===== src/Aba/Types.antt =====
-- services/aba.go, the data: messages, the COMPLETE payload, and the state of the service.
use async_agreement_protocol.Base.{ℕ, Bool, false, Option, none, List, [], String}
use async_agreement_protocol.Base.Maps.{Map}
use async_agreement_protocol.Base.Int.{ℤ, pos}
use async_agreement_protocol.Context.{Effect}
use async_agreement_protocol.Attempt.{Attempt}
use async_agreement_protocol.ACast.{ACastMessage, AcastService, new_acast_service}
use async_agreement_protocol.Certification.{CertificationProtocol}
use async_agreement_protocol.Icc.{IccResult}
use async_agreement_protocol.Vote.{VoteMessage, VoteResult, VoteService, Outside, new_vote_service}

pub data AbaMsgType : Type 0 where
  aba_vote aba_icc aba_complete : AbaMsgType

-- `M` is the type of the messages of the coin. A nil pointer is `none`.
pub record AbaMessage (M : Type 0) : Type 0 where
  pub type : AbaMsgType
  pub round : ℕ
  pub vote_msg : Option VoteMessage
  pub icc_msg : Option M
  pub complete_msg : Option (ACastMessage String)

pub record CompletePayload : Type 0 where
  pub sender : ℕ
  pub value : ℤ

-- What a call of the coin leaves: its state, the shared certification, and its effects.
abbrev pub IccCall : Type 0 → Type 0 → Type 0
IccCall S M = S × (CertificationProtocol × List (Effect M IccResult))

-- What `Start` and a message to the coin lead to, which may be a panic or a wait.
abbrev pub IccAnswer : Type 0 → Type 0 → Type 0
IccAnswer S M = Attempt (S × CertificationProtocol) (Effect M IccResult)

-- The interface of services/icc.go that the rounds use.
pub record IccOperations (S M : Type 0) : Type 0 where
  pub new_icc_service : ℕ → ℕ → ℕ → ℕ → S
  pub start : CertificationProtocol → S → IccAnswer S M
  pub on_message : M → CertificationProtocol → S → IccAnswer S M

-- What the service takes from outside: that of Vote, `json.Marshal` and `json.Unmarshal` of a
-- COMPLETE payload, and the hash that makes a uuid.
pub record AbaOutside : Type 0 where
  pub vote : Outside
  pub marshal : CompletePayload → String
  pub unmarshal : String → Option CompletePayload
  pub new_uuid : String → ℕ → ℕ → String

-- `clock` counts the readings of the clock by `NewACastMessage`.
pub record AbaService (S M : Type 0) : Type 0 where
  pub id : ℕ
  pub n : ℕ
  pub t : ℕ
  pub estimate : ℤ
  pub round : ℕ
  pub cp : CertificationProtocol
  pub vote : VoteService
  pub icc : Map ℕ S
  pub acast_complete : AcastService String
  pub vote_result : Option VoteResult
  pub icc_result : Option IccResult
  pub complete_counts : Map ℤ (List ℕ)
  pub decided : Bool
  pub decision : ℤ
  pub has_broadcast_complete : Bool
  pub future_msgs : Map ℕ (List (AbaMessage M))
  pub clock : ℕ

unfoldable pub new_aba_service :
    (S M : Type 0) → ℕ → ℕ → ℕ → ℤ → CertificationProtocol → AbaService S M
new_aba_service S M id n t initial_estimate cp = record {
  id = id;
  n = n;
  t = t;
  estimate = initial_estimate;
  round = 0;
  cp = cp;
  vote = new_vote_service id n t;
  icc = [];
  acast_complete = new_acast_service String id n t;
  vote_result = none;
  icc_result = none;
  complete_counts = [];
  decided = false;
  decision = pos 0;
  has_broadcast_complete = false;
  future_msgs = [];
  clock = 0;
}

abbrev pub AbaEffects : Type 0 → Type 0
AbaEffects M = List (Effect (AbaMessage M) ℤ)

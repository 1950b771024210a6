-- ===== src/Icc/Types.antt =====
-- services/icc.go, the data: payloads, messages, the result, and the state of the service.
use async_agreement_protocol.Base.{ℕ, Bool, false, Option, List, [], String}
use async_agreement_protocol.Base.Maps.{Map}
use async_agreement_protocol.Base.Int.{ℤ}
use async_agreement_protocol.Context.{Effect}
use async_agreement_protocol.Attempt.{Attempt}
use async_agreement_protocol.ACast.{ACastMessage, AcastService, new_acast_service}
use async_agreement_protocol.Certification.{CertificationProtocol}
use async_agreement_protocol.Ivss.{IvssMessage, IvssService, IvssOutside, new_ivss_service}

pub data IccPayloadType : Type 0 where
  icc_attach icc_accept icc_reconstruct_enabled icc_final_sets : IccPayloadType

-- A nil set reads as an empty one.
pub record IccPayload : Type 0 where
  pub type : IccPayloadType
  pub set_t : List ℕ
  pub set_a : List ℕ
  pub set_h : List ℕ
  pub set_s : List ℕ
  pub sender : ℕ

pub data IccMsgType : Type 0 where
  icc_ivss icc_acast : IccMsgType

-- A nil pointer is `none`.
pub record IccMessage : Type 0 where
  pub type : IccMsgType
  pub ivss_msg : Option IvssMessage
  pub acast_msg : Option (ACastMessage String)

-- `ICCResult`
pub record IccResult : Type 0 where
  pub coin : ℤ

-- The anonymous struct of `receivedFinalSets`.
pub record FinalSet : Type 0 where
  pub from : ℕ
  pub h : List ℕ
  pub s : List ℕ

-- `receivedS` is made and never used, and left out here. `clock` counts the readings of the clock by
-- `NewACastMessage`. `u` is not 0, since n is not.
pub record IccService : Type 0 where
  pub id : ℕ
  pub n : ℕ
  pub t : ℕ
  pub round : ℕ
  pub u : ℕ
  pub ivss : IvssService
  pub acast : AcastService String
  pub completed_secrets_count : Map ℕ ℕ
  pub completed_secrets : Map ℕ (List ℕ)
  pub my_t : List ℕ
  pub sent_attach : Bool
  pub received_t : Map ℕ (List ℕ)
  pub my_a : List ℕ
  pub sent_accept : Bool
  pub received_a : Map ℕ (List ℕ)
  pub my_s : List ℕ
  pub sent_reconstruct : Bool
  pub my_h : List ℕ
  pub reconstructed_values : Map ℕ (Map ℕ (Option ℕ))
  pub received_final_sets : List FinalSet
  pub finished : Bool
  pub clock : ℕ

-- What the service takes from outside: that of secret sharing, `json.Marshal` and `json.Unmarshal`
-- of a payload, the hash that makes a uuid, `fmt.Sprintf` and `fmt.Sscanf` with the format
-- "ICC-%d-%d-%d", `rand.Int` below 1000, and `math.Ceil(0.87 * float64(n))`.
pub record IccOutside : Type 0 where
  pub ivss : IvssOutside
  pub marshal : IccPayload → String
  pub unmarshal : String → Option IccPayload
  pub new_uuid : String → ℕ → ℕ → String
  pub print_instance : ℕ → ℕ → ℕ → String
  pub scan_instance : String → Option (ℕ × (ℕ × ℕ))
  pub random_secret : ℕ → ℕ → ℕ
  pub modulus : ℕ → ℕ

unfoldable pub new_icc_service : IccOutside → ℕ → ℕ → ℕ → ℕ → CertificationProtocol → IccService
new_icc_service outside id n t round cp = record {
  id = id;
  n = n;
  t = t;
  round = round;
  u = outside.modulus n;
  ivss = new_ivss_service id n t cp;
  acast = new_acast_service String id n t;
  completed_secrets_count = [];
  completed_secrets = [];
  my_t = [];
  sent_attach = false;
  received_t = [];
  my_a = [];
  sent_accept = false;
  received_a = [];
  my_s = [];
  sent_reconstruct = false;
  my_h = [];
  reconstructed_values = [];
  received_final_sets = [];
  finished = false;
  clock = 0;
}

abbrev pub IccEffects : Type 0
IccEffects = List (Effect IccMessage IccResult)

abbrev pub IccAttempt : Type 0
IccAttempt = Attempt IccService (Effect IccMessage IccResult)

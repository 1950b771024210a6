-- ===== src/Ivss/Types.antt =====
-- services/ivss.go, the data: payloads, messages, results, and the state of an instance.
use async_agreement_protocol.Base.{ℕ, Bool, false, Option, none, List, [], String}
use async_agreement_protocol.Base.Maps.{Map}
use async_agreement_protocol.Context.{Effect}
use async_agreement_protocol.Attempt.{Attempt}
use async_agreement_protocol.ACast.{ACastMessage, AcastService, new_acast_service}
use async_agreement_protocol.Certification.{CertificationProtocol}
use async_agreement_protocol.Polynomial.{Polynomial}

pub data IvssPayloadType : Type 0 where
  payload_equal payload_m_set payload_reveal payload_ready : IvssPayloadType

-- A nil pointer and a nil slice are `none`.
pub record IvssPayload : Type 0 where
  pub instance_id : String
  pub type : IvssPayloadType
  pub equal_pair : ℕ × ℕ
  pub m_set : Option (List ℕ)
  pub reveal_poly : Option Polynomial
  pub reveal_sender : ℕ

pub data IvssMsgType : Type 0 where
  ivss_direct ivss_acast : IvssMsgType

pub data DirectMsgType : Type 0 where
  direct_share direct_point : DirectMsgType

pub record IvssMessage : Type 0 where
  pub type : IvssMsgType
  pub direct_type : DirectMsgType
  pub to : ℕ
  pub from : ℕ
  pub instance_id : String
  pub poly : Option Polynomial
  pub point : Option ℕ
  pub point_idx : ℕ
  pub acast_msg : Option (ACastMessage String)

-- The two strings that the field `Type` of a result holds.
pub data IvssResultType : Type 0 where
  sharing_complete reconstructed_secret : IvssResultType

pub record IvssResult : Type 0 where
  pub instance_id : String
  pub type : IvssResultType
  pub secret : Option ℕ
  pub m_set : Option (List ℕ)
  pub poly : Option Polynomial

-- `receivedPoints` and `consistentPeers` are made and never used, and left out here.
pub record IvssInstance : Type 0 where
  pub id : String
  pub dealer : ℕ
  pub received_poly : Option Polynomial
  pub early_points : Map ℕ (Option ℕ)
  pub completed_equals : List (ℕ × ℕ)
  pub m_set : Option (List ℕ)
  pub pending_m_set : Option (List ℕ)
  pub sharing_completed : Bool
  pub reconstructed_polys : Map ℕ (Option Polynomial)
  pub ready_to_complete : List ℕ
  pub reconstructed : Bool
  pub secret : Option ℕ

unfoldable pub new_ivss_instance : String → ℕ → IvssInstance
new_ivss_instance id dealer = record {
  id = id;
  dealer = dealer;
  received_poly = none;
  early_points = [];
  completed_equals = [];
  m_set = none;
  pending_m_set = none;
  sharing_completed = false;
  reconstructed_polys = [];
  ready_to_complete = [];
  reconstructed = false;
  secret = none;
}

-- `cp` is a pointer that several services share: who calls a service puts it in and takes it out.
-- `draws` counts the polynomials drawn.
pub record IvssService : Type 0 where
  pub id : ℕ
  pub n : ℕ
  pub t : ℕ
  pub acast : AcastService String
  pub cp : CertificationProtocol
  pub instances : Map String IvssInstance
  pub draws : ℕ

unfoldable pub new_ivss_service : ℕ → ℕ → ℕ → CertificationProtocol → IvssService
new_ivss_service id n t cp = record {
  id = id;
  n = n;
  t = t;
  acast = new_acast_service String id n t;
  cp = cp;
  instances = [];
  draws = 0;
}

-- What the service takes from outside: `json.Marshal` and `json.Unmarshal` of a payload, the
-- formats of `fmt.Sprintf` for a uuid, `ModInverse` by the prime (`none` for nil), and `rand.Int`
-- (`none` for an error), by the polynomial and the coefficient that it is drawn for.
pub record IvssOutside : Type 0 where
  pub marshal : IvssPayload → String
  pub unmarshal : String → Option IvssPayload
  pub equal_uuid : String → ℕ × ℕ → String
  pub m_set_uuid : String → String
  pub reveal_uuid : String → ℕ → String
  pub ready_uuid : String → ℕ → String
  pub mod_inverse : ℕ → Option ℕ
  pub random : ℕ → ℕ → ℕ → Option ℕ

abbrev pub IvssEffects : Type 0
IvssEffects = List (Effect IvssMessage IvssResult)

abbrev pub IvssAttempt : Type 0
IvssAttempt = Attempt IvssService (Effect IvssMessage IvssResult)

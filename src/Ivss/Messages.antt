-- ===== src/Ivss/Messages.antt =====
-- services/ivss.go, what the service sends: messages, payloads, results and their uuids.
use async_agreement_protocol.Base.{
  ℕ, Option, none, some, List, [], ◌∷◌, String, nat_comparable, pair_comparable, string_comparable,
}
use async_agreement_protocol.Base.Maps.{lookup, insert}
use async_agreement_protocol.Context.{broadcast}
use async_agreement_protocol.ACast.{ACastMessage, msg, or_else}
use async_agreement_protocol.Polynomial.{Polynomial}
use async_agreement_protocol.Ivss.Types.{
  IvssPayloadType, payload_equal, payload_m_set, payload_reveal, payload_ready, IvssPayload,
  ivss_direct, ivss_acast, direct_share, direct_point, IvssMessage, sharing_complete,
  reconstructed_secret, IvssResult, IvssInstance, new_ivss_instance, IvssService, IvssOutside,
  IvssEffects,
}

-- `getInstance`: the instance under the id, a new one if there is none. It is stored by who changes it.
unfoldable pub instance_of : IvssService → String → ℕ → IvssInstance
instance_of s id dealer = or_else (new_ivss_instance id dealer) (lookup id s.instances)

unfoldable pub put_instance : IvssInstance → String → IvssService → IvssService
put_instance inst id s = record s { instances = insert id inst s.instances }

abbrev pub wrap_acast : ACastMessage String → IvssMessage
wrap_acast m = record {
  type = ivss_acast;
  direct_type = direct_share;
  to = 0;
  from = 0;
  instance_id = "";
  poly = none;
  point = none;
  point_idx = 0;
  acast_msg = some m;
}

abbrev pub share_message : ℕ → ℕ → String → Polynomial → IvssMessage
share_message to from id poly = record {
  type = ivss_direct;
  direct_type = direct_share;
  to = to;
  from = from;
  instance_id = id;
  poly = some poly;
  point = none;
  point_idx = 0;
  acast_msg = none;
}

abbrev pub point_message : ℕ → ℕ → String → ℕ → IvssMessage
point_message to from id val = record {
  type = ivss_direct;
  direct_type = direct_point;
  to = to;
  from = from;
  instance_id = id;
  poly = none;
  point = some val;
  point_idx = to;
  acast_msg = none;
}

abbrev pub sharing_result : IvssInstance → Option (List ℕ) → IvssResult
sharing_result inst m_set = record {
  instance_id = inst.id;
  type = sharing_complete;
  secret = none;
  m_set = m_set;
  poly = inst.received_poly;
}

abbrev pub secret_result : IvssInstance → ℕ → IvssResult
secret_result inst secret = record {
  instance_id = inst.id;
  type = reconstructed_secret;
  secret = some secret;
  m_set = none;
  poly = none;
}

abbrev pub equal_payload : String → ℕ → ℕ → IvssPayload
equal_payload id i j = record {
  instance_id = id;
  type = payload_equal;
  equal_pair = (i, j);
  m_set = none;
  reveal_poly = none;
  reveal_sender = 0;
}

abbrev pub m_set_payload : String → List ℕ → IvssPayload
m_set_payload id m_set = record {
  instance_id = id;
  type = payload_m_set;
  equal_pair = (0, 0);
  m_set = some m_set;
  reveal_poly = none;
  reveal_sender = 0;
}

abbrev pub reveal_payload : String → Option Polynomial → ℕ → IvssPayload
reveal_payload id poly sender = record {
  instance_id = id;
  type = payload_reveal;
  equal_pair = (0, 0);
  m_set = none;
  reveal_poly = poly;
  reveal_sender = sender;
}

abbrev pub ready_payload : String → ℕ → IvssPayload
ready_payload id sender = record {
  instance_id = id;
  type = payload_ready;
  equal_pair = (0, 0);
  m_set = none;
  reveal_poly = none;
  reveal_sender = sender;
}

module _ (outside : IvssOutside) where
  -- The uuid of `startACast`.
  unfoldable pub uuid_of : ℕ → IvssPayloadType → IvssPayload → String
  uuid_of id payload_equal p = outside.equal_uuid p.instance_id p.equal_pair
  uuid_of id payload_m_set p = outside.m_set_uuid p.instance_id
  uuid_of id payload_reveal p = outside.reveal_uuid p.instance_id id
  uuid_of id payload_ready p = outside.ready_uuid p.instance_id id

  -- `startACast`
  unfoldable pub start_acast : ℕ → IvssPayload → IvssEffects
  start_acast id p =
      broadcast (
        wrap_acast
          (record { type = msg; uuid = uuid_of id p.type p; val = outside.marshal p; from = id }))
      ∷ []

-- ===== src/ACast/Defs.antt =====
-- services/acast.go, from `MessageType` to `OnMessage`. The value type is any comparable type, and
-- a process id is a natural number. The logger has no place in the model.
use async_agreement_protocol.Base.{
  ℕ, ◌+◌, ◌-◌, ◌*◌, String, Bool, true, false, not, ◌&&◌, Option, none, some, List, [], ◌∷◌, ◌++◌,
  Comparable, nat_comparable, string_comparable, leb, if◌then◌else◌, length,
}
use async_agreement_protocol.Base.Maps.{Map, lookup, insert}
use async_agreement_protocol.Base.Members.{add}
use async_agreement_protocol.Context.{Effect, broadcast, send_result}

pub data MessageType : Type 0 where
  msg echo ready : MessageType

pub record ACastMessage {ℓ} (V : Type ℓ) : Type ℓ where
  pub type : MessageType
  pub uuid : String
  pub val : V
  pub from : ℕ

-- `NewACastMessage`. The hash of the printed value, the sender and the clock is the argument
-- `new_uuid`, at the reading `now` of the clock.
unfoldable pub new_acast_message {ℓ} :
    {V : Type ℓ} → (V → ℕ → ℕ → String) → V → ℕ → ℕ → ACastMessage V
new_acast_message new_uuid val from now = record {
  type = msg;
  uuid = new_uuid val from now;
  val = val;
  from = from;
}

-- After delivery the source sets both maps to nil, which reads as an empty map; a write to it
-- would panic, and none happens, because a delivered instance ignores every message.
pub record ACastInstance {ℓ} (V : Type ℓ) : Type ℓ where
  pub received_echo : Map V (List ℕ)
  pub received_ready : Map V (List ℕ)
  pub sent_echo : Bool
  pub sent_ready : Bool
  pub delivered : Bool

pub record AcastService {ℓ} (V : Type ℓ) : Type ℓ where
  pub id : ℕ
  pub n : ℕ
  pub t : ℕ
  pub instances : Map String (ACastInstance V)

unfoldable pub new_acast_instance {ℓ} : (V : Type ℓ) → ACastInstance V
new_acast_instance V = record {
  received_echo = [];
  received_ready = [];
  sent_echo = false;
  sent_ready = false;
  delivered = false;
}

unfoldable pub new_acast_service {ℓ} : (V : Type ℓ) → ℕ → ℕ → ℕ → AcastService V
new_acast_service V id n t = record { id = id; n = n; t = t; instances = [] }

abbrev pub or_else {ℓ} : {A : Type ℓ} → A → Option A → A
or_else d none = d
or_else d (some a) = a

-- `getInstance`: the instance under the uuid, a new one if there is none. The write that stores a
-- new one is that of `on_message`.
unfoldable pub get_instance {ℓ} : {V : Type ℓ} → AcastService V → String → ACastInstance V
get_instance {V} a uuid = or_else (new_acast_instance V) (lookup uuid a.instances)

-- What a handler leaves of an instance, and what it asks of the context.
abbrev pub Handled {ℓ} : Type ℓ → Type ℓ
Handled V = ACastInstance V × List (Effect (ACastMessage V) V)

module _ {ℓ} {V : Type ℓ} ⦃c : Comparable V⦄ where
  -- The processes from which the map holds a vote for the value.
  unfoldable pub voters : Map V (List ℕ) → V → List ℕ
  voters m val = or_else [] (lookup val m)

  -- The closure `addToSet`: the map with the vote, and the number of votes for the value.
  unfoldable pub add_to_set : Map V (List ℕ) → V → ℕ → Map V (List ℕ) × ℕ
  add_to_set m val from = let set = add from (voters m val) in (insert val set m, length set)

  -- `case MSG`
  unfoldable pub on_msg : ℕ → ACastMessage V → ACastInstance V → Handled V
  on_msg id m inst =
      if not inst.sent_echo
      then (
        record inst { sent_echo = true },
        broadcast (record { type = echo; uuid = m.uuid; val = m.val; from = id }) ∷ [],
      )
      else (inst, [])

  -- `case ECHO`
  unfoldable pub on_echo : ℕ → ℕ → ℕ → ACastMessage V → ACastInstance V → Handled V
  on_echo id n t m inst =
      let (received, count) = add_to_set inst.received_echo m.val m.from in
      let inst' = record inst { received_echo = received } in
      if leb (n - t) count && not inst.sent_ready
      then (
        record inst' { sent_ready = true },
        broadcast (record { type = ready; uuid = m.uuid; val = m.val; from = id }) ∷ [],
      )
      else (inst', [])

  -- The first `if` of `case READY`: the early trigger.
  unfoldable pub amplify : ℕ → ℕ → ACastMessage V → ℕ → ACastInstance V → Handled V
  amplify id t m count inst =
      if leb (t + 1) count && not inst.sent_ready
      then (
        record inst { sent_ready = true },
        broadcast (record { type = ready; uuid = m.uuid; val = m.val; from = id }) ∷ [],
      )
      else (inst, [])

  -- The second `if` of `case READY`: the delivery condition.
  unfoldable pub deliver : ℕ → ACastMessage V → ℕ → ACastInstance V → Handled V
  deliver t m count inst =
      if leb (2 * t + 1) count && not inst.delivered
      then (
        record inst { delivered = true; received_echo = []; received_ready = [] },
        send_result m.val ∷ [],
      )
      else (inst, [])

  -- `case READY`
  unfoldable pub on_ready : ℕ → ℕ → ACastMessage V → ACastInstance V → Handled V
  on_ready id t m inst =
      let (received, count) = add_to_set inst.received_ready m.val m.from in
      let (inst', early) = amplify id t m count (record inst { received_ready = received }) in
      let (inst'', last) = deliver t m count inst' in (inst'', early ++ last)

  -- The `switch` of `OnMessage`
  unfoldable pub dispatch : MessageType → ℕ → ℕ → ℕ → ACastMessage V → ACastInstance V → Handled V
  dispatch msg id n t m inst = on_msg id m inst
  dispatch echo id n t m inst = on_echo id n t m inst
  dispatch ready id n t m inst = on_ready id t m inst

  -- `OnMessage`, on the instance that the message names.
  unfoldable pub on_instance : ℕ → ℕ → ℕ → ACastMessage V → ACastInstance V → Handled V
  unfolding dispatch on_msg on_echo on_ready amplify deliver
  on_instance id n t m inst = if inst.delivered then (inst, []) else dispatch m.type id n t m inst

  -- `OnMessage`
  unfoldable pub on_message :
      AcastService V → ACastMessage V → AcastService V × List (Effect (ACastMessage V) V)
  on_message a m =
      let (inst, effects) = on_instance a.id a.n a.t m (get_instance a m.uuid) in
      (record a { instances = insert m.uuid inst a.instances }, effects)

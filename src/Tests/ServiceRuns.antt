-- ===== src/Tests/ServiceRuns.antt =====
-- services/acast.go among four processes with a whole service each: two broadcasts at once, of
-- which one is delivered by processes 1 and 2.
use mathlib.Core.List.{foldl}
use native.Mathlib.Decide.{ℕ_discrete}
use async_agreement_protocol.Base.{
  ℕ, ◌≡◌, refl, ◌≤◌, Bool, true, false, not, ◌&&◌, ◌||◌, List, [], ◌∷◌, ◌++◌, leb, arith,
  Bool-cases, inl, inr, nat_comparable, String, string_comparable,
}
use async_agreement_protocol.Base.Maps
use async_agreement_protocol.Base.Members
use async_agreement_protocol.Base.Counting.{count_ids}
use async_agreement_protocol.ACast
use async_agreement_protocol.ACast.{MessageType, msg, echo, ready, ACastMessage}
use async_agreement_protocol.ACast.System.{sent, result, Reach}
use async_agreement_protocol.ACast.Network.{
  Process, only, views, IsGenuine, ServiceReach, booted, later, on_message, new_message,
  receive_process,
}
use async_agreement_protocol.ACast.Projection.{service_agreement, ServiceReach-views}

abbrev honest : ℕ → Bool
honest i = leb 1 i && leb i 3

abbrev is_genuine : (ℕ → Process ℕ) → ACastMessage ℕ → Bool
is_genuine s m =
    leb 1 m.from
    && leb m.from 4
    && (not (honest m.from) || sent m.type m.val (only m.uuid (s m.from).log))

is_genuine_sound :
    (s : ℕ → Process ℕ) (m : ACastMessage ℕ) → is_genuine s m ≡ true → IsGenuine honest 4 1 s m
is_genuine_sound s m h = record { known = ground arith; genuine = ground arith }

record Run : Type 0 where
  state : ℕ → Process ℕ
  reach : ServiceReach honest 4 1 state

turn : Run → ℕ × ACastMessage ℕ → Run
unfolding is_genuine_sound Bool-cases
turn r (j, m) = elim (Bool-cases (is_genuine r.state m)) [
  | inl e ↦ record {
    state = _;
    reach = later r.reach (on_message j m (is_genuine_sound r.state m e));
  }
  | inr _ ↦ r
]

abbrev at : String → MessageType → ℕ → ℕ → ACastMessage ℕ
at uuid ty v from = record { type = ty; uuid = uuid; val = v; from = from }

first : Run
first = record {
  state = _;
  reach =
      later (later booted (new_message 1 (at "a" msg 7 1) refl))
        (new_message 2 (at "b" msg 9 2) refl);
}

abbrev to_all : ACastMessage ℕ → List (ℕ × ACastMessage ℕ)
to_all m = (1, m) ∷ (2, m) ∷ (3, m) ∷ []

abbrev schedule : List (ℕ × ACastMessage ℕ)
schedule =
    to_all (at "a" msg 7 1)
    ++ to_all (at "b" msg 9 2)
    ++ to_all (at "a" echo 7 1)
    ++ to_all (at "a" echo 7 2)
    ++ to_all (at "b" echo 8 4)
    ++ to_all (at "a" echo 7 3)
    ++ to_all (at "a" ready 7 1)
    ++ to_all (at "a" ready 7 2)
    ++ to_all (at "a" ready 7 3)

run : Run
unfolding turn first count_ids receive_process ACast.on_message ACast.on_instance ACast.get_instance
    ACast.add_to_set ACast.voters Members.add Maps.lookup Maps.insert ACast.new_acast_instance
    ACast.new_acast_service ℕ_discrete
run = foldl turn first schedule

delivered :
    (result 7 (only "a" (run.state 1).log) ≡ true)
    × (result 7 (only "a" (run.state 2).log) ≡ true)
    × (result 9 (only "b" (run.state 2).log) ≡ false)
unfolding run
delivered = (refl, refl, refl)

few : count_ids (λ i. not (honest i)) 4 ≤ 1
unfolding run
few = omega arith

service_agreement_example : ◌≡◌ {A = ℕ} 7 7
service_agreement_example =
    service_agreement honest 4 1 few (omega arith) run.reach "a" 1 2 7 7 delivered.0 delivered.1

ServiceReach-views_example : Reach honest 4 1 (views "b" run.state)
ServiceReach-views_example = ServiceReach-views honest 4 1 "b" run.reach

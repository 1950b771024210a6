-- ===== src/Tests/ACastRuns.antt =====
-- services/acast.go among four processes, of which the fourth is faulty: process 1 broadcasts 7,
-- the faulty one echoes 8, and the three honest ones deliver 7.
use mathlib.Core.List.{foldl}
use native.Mathlib.Decide.{ℕ_discrete}
use async_agreement_protocol.Base.{
  ℕ, zero, suc, ◌≡◌, refl, Bool, true, false, not, ◌&&◌, ◌||◌, List, [], ◌∷◌, ◌++◌, leb, arith,
  Bool-cases, inl, inr, nat_comparable, both, ◌≤◌, subst, eqb_iff, eqb,
}
use async_agreement_protocol.Base.Maps
use async_agreement_protocol.Base.Members
use async_agreement_protocol.Base.Counting.{count_ids}
use async_agreement_protocol.Context.{Effect, broadcast, send_result}
use async_agreement_protocol.ACast
use async_agreement_protocol.ACast.{MessageType, msg, echo, ready, ACastMessage, on_instance}
use async_agreement_protocol.ACast.System.{
  View, fresh_view, same_type, sent, result, heard, receive_view, IsAuthentic, receive, start,
  Reach, here, next,
}
use async_agreement_protocol.ACast.Local.{IsLocal}
use async_agreement_protocol.ACast.LocalSteps.{receive-IsLocal, fresh-IsLocal}
use async_agreement_protocol.ACast.Agreement.{integrity}
use async_agreement_protocol.ACast.Totality.{Settled, totality}
use async_agreement_protocol.ACast.Validity.{OnlyValue, validity}

abbrev honest : ℕ → Bool
honest i = leb 1 i && leb i 3

abbrev is_authentic : (ℕ → View ℕ) → ACastMessage ℕ → Bool
is_authentic s m =
    leb 1 m.from && leb m.from 4 && (not (honest m.from) || sent m.type m.val (s m.from).log)

is_authentic_sound :
    (s : ℕ → View ℕ) (m : ACastMessage ℕ) → is_authentic s m ≡ true → IsAuthentic honest 4 1 s m
is_authentic_sound s m h = record { known = ground arith; genuine = ground arith }

record Run : Type 0 where
  state : ℕ → View ℕ
  reach : Reach honest 4 1 state

turn : Run → ℕ × ACastMessage ℕ → Run
unfolding is_authentic_sound Bool-cases
turn r (j, m) = elim (Bool-cases (is_authentic r.state m)) [
  | inl e ↦ record {
    state = _;
    reach = next r.reach (receive j m (is_authentic_sound r.state m e));
  }
  | inr _ ↦ r
]

abbrev at : MessageType → ℕ → ℕ → ACastMessage ℕ
at ty v from = record { type = ty; uuid = "u"; val = v; from = from }

first : Run
first = record { state = _; reach = next here (start 1 (at msg 7 1) refl) }

abbrev to_all : ACastMessage ℕ → List (ℕ × ACastMessage ℕ)
to_all m = (1, m) ∷ (2, m) ∷ (3, m) ∷ []

abbrev schedule : List (ℕ × ACastMessage ℕ)
schedule =
    to_all (at msg 7 1)
    ++ to_all (at echo 8 4)
    ++ to_all (at echo 7 1)
    ++ to_all (at echo 7 2)
    ++ to_all (at echo 7 3)
    ++ to_all (at ready 7 1)
    ++ to_all (at ready 7 2)
    ++ to_all (at ready 7 3)

run : Run
unfolding turn first count_ids receive_view ACast.add_to_set ACast.voters Members.add Maps.lookup
    Maps.insert ACast.new_acast_instance ℕ_discrete
run = foldl turn first schedule

delivered :
    (result 7 (run.state 1).log ≡ true)
    × (result 7 (run.state 3).log ≡ true)
    × (result 8 (run.state 2).log ≡ false)
unfolding run
delivered = (refl, refl, refl)

few : count_ids (λ i. not (honest i)) 4 ≤ 1
unfolding run
few = omega arith

integrity_example :
    (j : ℕ) × (x : ℕ) × (honest j ≡ true)
    × (heard msg x 7 (run.state j).handled ≡ true)
    × (honest x ≡ true → sent msg 7 (run.state x).log ≡ true)
integrity_example = integrity honest 4 1 few (omega arith) run.reach 3 7 delivered.1

-- What a process broadcast is among the messages that another handled.
all_heard : List (Effect (ACastMessage ℕ) ℕ) → ℕ → List (ACastMessage ℕ) → Bool
all_heard [] i ms = true
all_heard (broadcast m ∷ es) i ms = heard m.type i m.val ms && all_heard es i ms
all_heard (send_result v ∷ es) i ms = all_heard es i ms

eq_of_same_type : (a b : MessageType) → same_type a b ≡ true → a ≡ b
eq_of_same_type a b h = ground arith

all_heard_sound :
    (es : List (Effect (ACastMessage ℕ) ℕ)) (i : ℕ) (ms : List (ACastMessage ℕ))
    → all_heard es i ms ≡ true
    → (ty : MessageType) (v : ℕ) → sent ty v es ≡ true
    → heard ty i v ms ≡ true
unfolding all_heard
all_heard_sound [] i ms a ty v h = cc
all_heard_sound (send_result w ∷ es) i ms a ty v h = all_heard_sound es i ms a ty v h
all_heard_sound (broadcast m ∷ es) i ms a ty v h =
    elim (Bool-cases (same_type m.type ty && eqb m.val v)) [
      | inl now ↦
          subst (λ k. heard k i v ms ≡ true) (eq_of_same_type m.type ty (both now).0)
            (subst (λ w. heard m.type i w ms ≡ true) ((eqb_iff m.val v).0 (both now).1) (both a).0)
      | inr later ↦ all_heard_sound es i ms (both a).1 ty v (rw later at h)
    ]

-- Each of the three honest processes has handled all that they broadcast.
all_heard_run :
    (i j : ℕ)
    → honest i ≡ true
    → honest j ≡ true
    → all_heard (run.state i).log i (run.state j).handled ≡ true
unfolding run all_heard
all_heard_run zero j gi gj = cc
all_heard_run (suc (suc (suc (suc i)))) j gi gj = absurd (ground arith)
all_heard_run (suc zero) zero gi gj = cc
all_heard_run (suc zero) (suc zero) gi gj = refl
all_heard_run (suc zero) (suc (suc zero)) gi gj = refl
all_heard_run (suc zero) (suc (suc (suc zero))) gi gj = refl
all_heard_run (suc zero) (suc (suc (suc (suc j)))) gi gj = absurd (ground arith)
all_heard_run (suc (suc zero)) zero gi gj = cc
all_heard_run (suc (suc zero)) (suc zero) gi gj = refl
all_heard_run (suc (suc zero)) (suc (suc zero)) gi gj = refl
all_heard_run (suc (suc zero)) (suc (suc (suc zero))) gi gj = refl
all_heard_run (suc (suc zero)) (suc (suc (suc (suc j)))) gi gj = absurd (ground arith)
all_heard_run (suc (suc (suc zero))) zero gi gj = cc
all_heard_run (suc (suc (suc zero))) (suc zero) gi gj = refl
all_heard_run (suc (suc (suc zero))) (suc (suc zero)) gi gj = refl
all_heard_run (suc (suc (suc zero))) (suc (suc (suc zero))) gi gj = refl
all_heard_run (suc (suc (suc zero))) (suc (suc (suc (suc j)))) gi gj = absurd (ground arith)

settled : Settled honest 4 1 run.state
settled i j ty v d gi gj h =
    all_heard_sound (run.state i).log i (run.state j).handled (all_heard_run i j gi gj) ty v h

totality_example : result 7 (run.state 2).log ≡ true
totality_example = totality honest 4 1 few (omega arith) run.reach settled 1 2 7 refl delivered.0

-- Every MSG among these messages carries the value.
all_carry : ℕ → List (ACastMessage ℕ) → Bool
all_carry v [] = true
all_carry v (m ∷ ms) = (not (same_type m.type msg) || eqb m.val v) && all_carry v ms

all_carry_sound :
    (v : ℕ) (ms : List (ACastMessage ℕ))
    → all_carry v ms ≡ true
    → (x w : ℕ) → heard msg x w ms ≡ true
    → w ≡ v
unfolding all_carry
all_carry_sound v [] a x w h = cc
all_carry_sound v (m ∷ ms) a x w h = elim (Bool-cases (heard msg x w ms)) [
  | inl past ↦
      all_carry_sound v ms (both {a = not (same_type m.type msg) || eqb m.val v} a).1 x w past
  | inr now ↦ ground arith
]

all_carry_run : (j : ℕ) → honest j ≡ true → all_carry 7 (run.state j).handled ≡ true
unfolding run all_carry
all_carry_run zero g = cc
all_carry_run (suc zero) g = refl
all_carry_run (suc (suc zero)) g = refl
all_carry_run (suc (suc (suc zero))) g = refl
all_carry_run (suc (suc (suc (suc j)))) g = absurd (ground arith)

only_value : OnlyValue honest 4 1 7 run.state
only_value j x w g h = all_carry_sound 7 (run.state j).handled (all_carry_run j g) x w h

sender_sent : sent msg 7 (run.state 1).log ≡ true
unfolding run
sender_sent = refl

validity_example : result 7 (run.state 3).log ≡ true
validity_example =
    validity honest 4 1 few (omega arith) run.reach settled 7 only_value 1 (omega arith) refl
      sender_sent 3 refl

receive-IsLocal_example : IsLocal 4 1 (receive_view 2 4 1 (at echo 7 3) (fresh_view ℕ))
receive-IsLocal_example =
    receive-IsLocal 4 1 2 (at echo 7 3) (fresh_view ℕ) (omega arith)
      (fresh-IsLocal 4 1 (omega arith))

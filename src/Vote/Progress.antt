-- ===== src/Vote/Progress.antt =====
-- services/vote.go, `checkProgress` with `finish` and `startACast`. Go visits a map in an arbitrary
-- order; here it is that of the association list, which may be any.
use async_agreement_protocol.Base.{
  ℕ, suc, ◌-◌, Bool, true, false, not, ◌&&◌, Option, none, some, List, [], ◌∷◌, ◌++◌, String,
  nat_comparable, string_comparable, ◌==◌, leb, ltb, if◌then◌else◌, length,
}
use async_agreement_protocol.Base.Maps.{Map, lookup}
use async_agreement_protocol.Base.Members.{contains}
use async_agreement_protocol.Base.Int.{ℤ, pos, minus_one, int_comparable}
use async_agreement_protocol.Base.Sorting.{sort}
use async_agreement_protocol.Context.{Effect, broadcast, send_result}
use async_agreement_protocol.ACast.{ACastMessage, AcastService, new_acast_message, on_message}
use async_agreement_protocol.Vote.Types.{
  VotePayload, vote1, revote, vote_acast, VoteMessage, VoteResult, Ballot, VoteRoundState, Outside,
}

unfoldable pub keys {ℓ} : {V : Type ℓ} → Map ℕ V → List ℕ
keys [] = []
keys ((k, v) ∷ m) = k ∷ keys m

-- services/icc.go, `isSubset`
unfoldable pub is_subset : List ℕ → List ℕ → Bool
is_subset [] super = true
is_subset (v ∷ sub) super = contains super v && is_subset sub super

-- The counters `zeros` and `ones` over a list of bits.
unfoldable pub zeros : List ℤ → ℕ
zeros [] = 0
zeros (b ∷ bs) = if b == pos 0 then suc (zeros bs) else zeros bs

unfoldable pub ones : List ℤ → ℕ
ones [] = 0
ones (b ∷ bs) = if b == pos 0 then ones bs else suc (ones bs)

-- The majority bit, 0 on a tie.
unfoldable pub majority : List ℤ → ℤ
majority bs = if ltb (zeros bs) (ones bs) then pos 1 else pos 0

-- `m[j].Bit`, which is 0 for a missing key.
abbrev pub bit_or_zero : Option Ballot → ℤ
bit_or_zero none = pos 0
bit_or_zero (some b) = b.bit

unfoldable pub bit_of : Map ℕ Ballot → ℕ → ℤ
bit_of m j = bit_or_zero (lookup j m)

unfoldable pub bits_of : Map ℕ Ballot → List ℕ → List ℤ
bits_of m [] = []
bits_of m (j ∷ js) = bit_of m j ∷ bits_of m js

unfoldable pub input_bits : Map ℕ ℤ → List ℤ
input_bits [] = []
input_bits ((k, b) ∷ m) = b ∷ input_bits m

-- The senders of the ballots whose set is a subset of `known`.
unfoldable pub valid_senders : Map ℕ Ballot → List ℕ → List ℕ
valid_senders [] known = []
valid_senders ((sender, b) ∷ m) known =
    let rest = valid_senders m known in if is_subset b.set known then sender ∷ rest else rest

-- The loops of the decision: the first value that is not -1, and whether all values equal it.
unfoldable pub same_values : ℤ → List ℤ → ℤ × Bool
same_values first [] = (first, true)
same_values first (val ∷ vals) =
    let taken = same_values val vals in
    let kept = same_values first vals in
    if first == minus_one then taken else if not (first == val) then (first, false) else kept

-- What `checkProgress` works on: the round, the A-Cast service, the clock, and the effects so far.
pub record Work : Type 0 where
  pub state : VoteRoundState
  pub acast : AcastService String
  pub clock : ℕ
  pub effects : List (Effect VoteMessage VoteResult)

-- The adapter's `Broadcast`.
abbrev pub wrap : ACastMessage String → VoteMessage
wrap m = record { type = vote_acast; acast_msg = some m }

-- The broadcasts of a handler through the adapter. `startACast` hands the A-Cast service a MSG,
-- which never delivers, so the adapter's `SendResult` has no part in it.
unfoldable pub wrap_broadcasts :
    List (Effect (ACastMessage String) String) → List (Effect VoteMessage VoteResult)
wrap_broadcasts [] = []
wrap_broadcasts (broadcast m ∷ es) = broadcast (wrap m) ∷ wrap_broadcasts es
wrap_broadcasts (send_result v ∷ es) = wrap_broadcasts es

-- `finish`
unfoldable pub finish : ℤ → ℕ → Work → Work
finish val conf w = record w {
  state = record (w.state) { finished = true };
  effects =
      w.effects ++ send_result (record { value = val; conf = conf; round = w.state.round }) ∷ [];
}

-- `validVote1s`
unfoldable pub valid_vote1s : VoteRoundState → List ℕ
valid_vote1s st = valid_senders st.received_vote1 (keys st.received_inputs)

-- "Decision Logic": the value and the confidence.
unfoldable pub decide_vote : List ℤ → List ℤ → ℤ × ℕ
decide_vote bs cs =
    let (first_val, all_same_b) = same_values minus_one bs in
    let (first_val_c, all_same_c) = same_values minus_one cs in
    if all_same_b && not (first_val == minus_one)
    then (first_val, 2)
    else if all_same_c && not (first_val_c == minus_one)
    then (first_val_c, 1)
    else (minus_one, 0)

-- The value and the confidence that the third phase finishes with.
unfoldable pub decision : VoteRoundState → ℤ × ℕ
decision st =
    decide_vote (bits_of st.received_vote1 st.my_b)
      (bits_of st.received_revote (sort (valid_senders st.received_revote (valid_vote1s st))))

-- "Phase 3 Check (Decision)"
unfoldable pub phase3 : ℕ → ℕ → Work → Work
phase3 n t w =
    let valid = valid_senders w.state.received_revote (valid_vote1s w.state) in
    let (val, conf) = decision w.state in
    if w.state.sent_revote && leb (n - t) (length valid)
    then finish val conf (record w { state = record (w.state) { my_c = sort valid } })
    else w

module _ (outside : Outside) (id n t : ℕ) where
  -- `startACast`
  unfoldable pub start_acast : VotePayload → Work → Work
  start_acast payload w =
      let m = new_acast_message outside.new_uuid (outside.marshal payload) id w.clock in
      let (acast, local) = on_message w.acast m in
      record w {
        acast = acast;
        clock = suc w.clock;
        effects = w.effects ++ broadcast (wrap m) ∷ wrap_broadcasts local;
      }

  -- "Phase 1 Check"
  unfoldable pub phase1 : Work → Work
  phase1 w =
      let inputs = w.state.received_inputs in
      let a = sort (keys inputs) in
      if not w.state.sent_vote1 && leb (n - t) (length inputs)
      then start_acast
          (record {
            type = vote1;
            sender = id;
            bit = majority (input_bits inputs);
            set = a;
            round = w.state.round;
          })
          (record w { state = record (w.state) { my_a = a; sent_vote1 = true } })
      else w

  -- "Phase 2 Check"
  unfoldable pub phase2 : Work → Work
  phase2 w =
      let valid = valid_vote1s w.state in
      let b = sort valid in
      if w.state.sent_vote1 && not w.state.sent_revote && leb (n - t) (length valid)
      then start_acast
          (record {
            type = revote;
            sender = id;
            bit = majority (bits_of w.state.received_vote1 valid);
            set = b;
            round = w.state.round;
          })
          (record w { state = record (w.state) { my_b = b; sent_revote = true } })
      else w

  -- `checkProgress`
  unfoldable pub check_progress : Work → Work
  check_progress w = phase3 n t (phase2 (phase1 w))

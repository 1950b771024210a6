-- ===== src/Tests/VoteRuns.antt =====
-- services/vote.go at concrete rounds of four processes, of which the fourth is faulty.
use async_agreement_protocol.Base.{
  ℕ, ◌≡◌, refl, ◌≤◌, inl, inr, Bool, true, false, not, ◌&&◌, Option, some, none, ◌++◌, ◌==◌, List,
  [], ◌∷◌, leb, arith, nat_comparable, if◌then◌else◌, String, string_comparable,
}
use async_agreement_protocol.Base.Maps
use async_agreement_protocol.Base.Sorting
use async_agreement_protocol.Base.Members
use async_agreement_protocol.ACast
use async_agreement_protocol.Base.Int.{ℤ, pos}
use async_agreement_protocol.Base.Counting.{count_ids}
use async_agreement_protocol.ACast.{new_acast_service}
use async_agreement_protocol.ACast.Local.{AreVoters}
use async_agreement_protocol.Vote
use async_agreement_protocol.Vote.{
  vote_acast, VoteMessage, VoteService, get_round_state, start_round, on_vote_message, VotePayload,
  input, vote1, revote, Ballot, VoteRoundState, VoteResult, Work, Outside, new_vote_service,
  new_vote_round_state, majority, store, check_progress, decide_vote, bits_of, valid_vote1s, phase2,
  start_acast,
}
use async_agreement_protocol.ACast.{ready}
use async_agreement_protocol.Context.{Effect}
use async_agreement_protocol.Vote.Moves.{flag, results_of, Ordered}
use async_agreement_protocol.Vote.Runs.{VoteRun, fresh, begun, handled, run-counts_results}
use async_agreement_protocol.Vote.Decision.{Decision, decide_vote-Decision}
use async_agreement_protocol.Vote.Rounds.{IsSound, check_progress-IsSound}
use async_agreement_protocol.Vote.Agreement.{IsJustified, Finishes, outcomes_agree}

decide_vote-Decision_example :
    Decision
      (pos 1 ∷ pos 0 ∷ [])
      (pos 1 ∷ pos 1 ∷ [])
      (decide_vote (pos 1 ∷ pos 0 ∷ []) (pos 1 ∷ pos 1 ∷ []))
decide_vote-Decision_example =
    decide_vote-Decision (pos 1 ∷ pos 0 ∷ []) (pos 1 ∷ pos 1 ∷ []) (inr refl, (inl refl, tt))
      (inr refl, (inr refl, tt)) (λ e. cc) (λ e. cc)

decide_example : decide_vote (pos 1 ∷ pos 0 ∷ []) (pos 1 ∷ pos 1 ∷ []) ≡ (pos 1, 1)
unfolding decide_vote Vote.same_values
decide_example = refl

-- Processes 1, 2 and 3 vote 1, the others 0.
abbrev vote : ℕ → ℤ
vote i = if leb 1 i && leb i 3 then pos 1 else pos 0

abbrev three : List ℕ
three = 1 ∷ 2 ∷ 3 ∷ []

abbrev four : List ℕ
four = 2 ∷ 3 ∷ 1 ∷ 4 ∷ []

three_voters : AreVoters 4 three
three_voters = ((refl, (refl, (refl, tt))), ground arith)

four_voters : AreVoters 4 four
four_voters = ((refl, (refl, (refl, (refl, tt)))), ground arith)

-- A round that has received all inputs and three ballots of each kind.
abbrev ballot : Ballot
ballot = record { set = three; bit = pos 1 }

abbrev ballots : List (ℕ × Ballot)
ballots = (1, ballot) ∷ (2, ballot) ∷ (3, ballot) ∷ []

abbrev late : VoteRoundState
late = record {
  round = 5;
  received_inputs = (1, pos 1) ∷ (2, pos 1) ∷ (3, pos 0) ∷ [];
  my_a = three;
  sent_vote1 = true;
  received_vote1 = ballots;
  my_b = three;
  sent_revote = true;
  received_revote = ballots;
  my_c = [];
  finished = false;
}

keys_voters : AreVoters 4 (Vote.keys ballots)
unfolding Vote.keys
keys_voters = three_voters

late-IsSound : IsSound 4 1 vote vote late
unfolding Maps.lookup Vote.keys
late-IsSound = record {
  vote1_keys = keys_voters;
  revote_keys = keys_voters;
  vote1_bits = λ j b h. ground arith;
  revote_bits = λ j b h. ground arith;
  quorum_b = λ e. record { voters_b = three_voters; enough_b = omega arith; known_b = λ j q. q };
}

abbrev payload : VotePayload
payload = record { type = vote1; sender = 4; bit = pos 0; set = three; round = 5 }

abbrev outside : Outside
outside = record { marshal = λ p. "payload"; unmarshal = λ s. none; new_uuid = λ s i k. "uuid" }

abbrev work : Work
work = record { state = late; acast = new_acast_service String 1 4 1; clock = 0; effects = [] }

check_progress-IsSound_example : IsSound 4 1 vote vote (check_progress outside 1 4 1 work).state
check_progress-IsSound_example = check_progress-IsSound 4 1 vote vote outside 1 work late-IsSound

-- The round and its process before the REVOTE.
abbrev waiting : Work
waiting = record work { state = record late { my_b = []; sent_revote = false } }

abbrev honest : ℕ → Bool
honest i = leb 1 i && leb i 3

few : count_ids (λ i. not (honest i)) 4 ≤ 1
unfolding count_ids
few = omega arith

vote-IsJustified : (i : ℕ) → honest i ≡ true → IsJustified 4 1 vote (vote i)
unfolding majority Vote.zeros Vote.ones
vote-IsJustified i g = record {
  members = three;
  members_ok = three_voters;
  enough = omega arith;
  is_majority = ground arith;
}

abbrev outcome : VoteResult
outcome = record { value = pos 1; conf = 2; round = 5 }

finishes : Finishes 4 1 work outcome
unfolding Vote.phase3 Vote.finish Vote.decision Vote.valid_vote1s Vote.valid_senders Vote.is_subset
    Vote.keys Vote.bits_of Vote.bit_of Maps.lookup Vote.same_values decide_vote Sorting.sort
    Sorting.insert_sorted
finishes = refl

outcomes_agree_example : pos 1 ≡ pos 1
outcomes_agree_example =
    outcomes_agree honest 4 1 vote vote few (omega arith) (λ i. ground arith) (λ i. ground arith)
      vote-IsJustified work work outcome outcome late-IsSound late-IsSound finishes finishes
      (omega arith) (omega arith)

-- A single process, to which its own input, VOTE1 and REVOTE are delivered.
abbrev payload_named : String → Option VotePayload
payload_named v =
    if v == "input"
    then some (record { type = input; sender = 1; bit = pos 1; set = []; round = 3 })
    else if v == "vote1"
    then some (record { type = vote1; sender = 1; bit = pos 1; set = 1 ∷ []; round = 3 })
    else if v == "revote"
    then some (record { type = revote; sender = 1; bit = pos 1; set = 1 ∷ []; round = 3 })
    else none

abbrev speaking : Outside
speaking = record { marshal = λ p. "payload"; unmarshal = payload_named; new_uuid = λ v i k. "own" }

abbrev ready_of : String → VoteMessage
ready_of v = record {
  type = vote_acast;
  acast_msg = some (record { type = ready; uuid = v; val = v; from = 1 });
}

abbrev alone : VoteService
alone = new_vote_service 1 1 0

abbrev State : Type 0
State = VoteService × List (Effect VoteMessage VoteResult)

abbrev hear : String → State → State
hear v (s, es) =
    ((on_vote_message speaking (ready_of v) s).0, es ++ (on_vote_message speaking (ready_of v) s).1)

abbrev opened : State
opened = ((start_round speaking 3 (pos 1) alone).0, (start_round speaking 3 (pos 1) alone).1)

abbrev closed : State
closed = hear "revote" (hear "vote1" (hear "input" opened))

closed_run : VoteRun speaking alone closed.1 closed.0
closed_run = handled (ready_of "revote") _ _ (
    handled (ready_of "vote1") _ _
      (handled (ready_of "input") _ _ (begun 3 (pos 1) [] alone fresh)))

run-counts_results_example :
    (results_of 3 closed.1 ≡ flag (get_round_state closed.0 3).finished)
    × Ordered (get_round_state closed.0 3)
run-counts_results_example = run-counts_results speaking 1 1 0 3 closed.1 closed.0 closed_run

it_finished : (get_round_state closed.0 3).finished ≡ true
unfolding get_round_state start_round on_vote_message Vote.on_acast_msg Vote.adapt Vote.on_delivered
    Vote.process_delivered_payload Vote.open_round Vote.close_round store check_progress Vote.phase1
    Vote.phase2 Vote.phase3 Vote.finish Vote.decision valid_vote1s Vote.valid_senders Vote.is_subset
    Vote.keys Vote.input_bits bits_of Vote.bit_of Vote.same_values decide_vote majority
    Vote.start_acast Vote.wrap_broadcasts new_vote_service new_vote_round_state Maps.lookup
    Maps.insert Sorting.sort Sorting.insert_sorted ACast.on_message ACast.on_instance
    ACast.get_instance ACast.dispatch ACast.on_ready ACast.on_msg ACast.amplify ACast.deliver
    ACast.add_to_set ACast.voters new_acast_service ACast.new_acast_instance Members.add
    ACast.new_acast_message
it_finished = refl

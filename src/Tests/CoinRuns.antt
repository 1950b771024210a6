-- ===== src/Tests/CoinRuns.antt =====
-- services/icc.go, with one process that tolerates no fault, and with one of four that is late.
use mathlib.Core.List.{Memᴰ}
use async_agreement_protocol.Base.{
  ℕ, ◌+◌, ◌≡◌, refl, subst, true, Option, none, some, List, [], ◌∷◌, ◌++◌, String, nat_comparable,
  string_comparable, ◌==◌, ◌&&◌, eqb, if◌then◌else◌, arith,
}
use async_agreement_protocol.Base.Int.{pos}
use async_agreement_protocol.Base.Maps
use async_agreement_protocol.Base.Members
use async_agreement_protocol.Base.Members.{contains}
use async_agreement_protocol.Base.Sorting
use async_agreement_protocol.Context.{send_result}
use async_agreement_protocol.Attempt
use async_agreement_protocol.Attempt.{Attempt, returns, panics, waits}
use async_agreement_protocol.ACast
use async_agreement_protocol.ACast.{ACastMessage, ready}
use async_agreement_protocol.Certification.{CertificationProtocol}
use async_agreement_protocol.Polynomial
use async_agreement_protocol.Vote
use async_agreement_protocol.Ivss
use async_agreement_protocol.Ivss.{
  IvssPayload, IvssResult, sharing_complete, IvssOutside, m_set_payload, reveal_payload,
  ready_payload, new_ivss_service, new_ivss_instance,
}
use async_agreement_protocol.Icc
use async_agreement_protocol.Icc.{
  IccPayload, IccResult, IccMessage, FinalSet, IccService, IccOutside, IccEffects, IccAttempt,
  new_icc_service, attach_payload, accept_payload, final_payload, wrap_acast, wrap_ivss, accepts,
  check_decision, phase_attach, phase_accept, take_ivss_result, handle_ivss_result, on_icc_message,
  start_icc,
}
use async_agreement_protocol.Icc.Phases.{flag, outputs, phases, Ordered}
use async_agreement_protocol.Icc.Invariant.{fresh, handled, run-Ordered, run-keeps_sets}
use async_agreement_protocol.Icc.Values.{
  IsValue, another, nothing, GivesCoin, check_decision-GivesCoin, GivesCoin-check_decision,
}
use async_agreement_protocol.Icc.Dealing.{drawn, Deals, start_icc-Deals}
use async_agreement_protocol.Polynomial.Products.{range}
use async_agreement_protocol.Icc.Locking.{Reenters, handle_ivss_result-waits}

abbrev sharing_payload : String → Option IvssPayload
sharing_payload v =
    if v == "m"
    then some (m_set_payload "1 1" (1 ∷ []))
    else if v == "reveal"
    then some (reveal_payload "1 1" (some (record { coeffs = 5 ∷ [] })) 1)
    else if v == "ready"
    then some (ready_payload "1 1" 1)
    else none

abbrev coin_payload : String → Option IccPayload
coin_payload v =
    if v == "attach"
    then some (attach_payload 1 (1 ∷ []))
    else if v == "accept"
    then some (accept_payload 1 (1 ∷ []))
    else if v == "final"
    then some (final_payload 1 (1 ∷ []) (1 ∷ []))
    else none

-- The names of the instances (1, 1) and (1, 2), of round 1.
abbrev named : String → Option (ℕ × (ℕ × ℕ))
named v = if v == "1 1" then some (1, (1, 1)) else if v == "1 2" then some (1, (1, 2)) else none

abbrev pub outside : IccOutside
outside = record {
  ivss = record {
    marshal = λ p. "payload";
    unmarshal = sharing_payload;
    equal_uuid = λ id p. "equal";
    m_set_uuid = λ id. "m";
    reveal_uuid = λ id i. "reveal";
    ready_uuid = λ id i. "ready";
    mod_inverse = λ a. some a;
    random = λ draw i j. some (i + j);
  };
  marshal = λ p. "payload";
  unmarshal = coin_payload;
  new_uuid = λ v i k. "uuid";
  print_instance =
      λ r k j. if eqb k 1 && eqb j 1 then "1 1" else if eqb k 1 && eqb j 2 then "1 2" else "other";
  scan_instance = named;
  random_secret = λ r j. 7;
  modulus = λ n. 2;
}

abbrev pub cp : CertificationProtocol
cp = record { fp = []; core_invocations = [] }

abbrev first : IccService
first = new_icc_service outside 1 1 0 1 cp

abbrev ready_of : String → String → ACastMessage String
ready_of uuid val = record { type = ready; uuid = uuid; val = val; from = 1 }

abbrev state_of : IccAttempt → IccService
state_of (returns s es) = s
state_of panics = first
state_of waits = first

abbrev effects_of : IccAttempt → IccEffects
effects_of (returns s es) = es
effects_of panics = []
effects_of waits = []

abbrev Handles : IccMessage → IccService → Type 0
Handles m s =
    on_icc_message outside m s
    ≡ returns (state_of (on_icc_message outside m s)) (effects_of (on_icc_message outside m s))

abbrev after : IccMessage → IccService → IccService
after m s = state_of (on_icc_message outside m s)

abbrev sent : IccMessage → IccService → IccEffects
sent m s = effects_of (on_icc_message outside m s)

-- The delivery of the set M of the one secret.
abbrev pub sharing_done : IccMessage
sharing_done = wrap_ivss (Ivss.wrap_acast (ready_of "m" "m"))

sharing_done-handled : Handles sharing_done first
unfolding on_icc_message Icc.on_icc_as Icc.on_ivss_msg Icc.on_acast_msg Icc.adapt_ivss
    Icc.adapt_acast Icc.process_payload Icc.store_payload Icc.handle_ivss_result
    Icc.take_ivss_result Icc.count_sharing Icc.store_value Icc.check_progress Icc.phase_attach
    Icc.phase_accept Icc.phase_reconstruct Icc.complete_dealers Icc.subset_senders Icc.start_acast
    Icc.wrap_acasts Icc.wrap_sharings Icc.check_decision Icc.find_decision Icc.accepts Icc.has_zero
    Icc.value_of Icc.sum_of Icc.reconstructed_value new_icc_service Vote.is_subset Sorting.sort
    Sorting.insert_sorted Ivss.on_ivss_message Ivss.on_ivss_as Ivss.on_acast_msg Ivss.adapt_acast
    Ivss.on_acast_delivered Ivss.deliver_as Ivss.on_m_set Ivss.on_reveal Ivss.on_ready
    Ivss.output_secret Ivss.check_interpolation_set Ivss.candidates Ivss.valid_loop Ivss.scan
    Ivss.values_of Ivss.poly_of Ivss.interpolation_target Ivss.complete_sharing
    Ivss.start_reconstruction Ivss.verify_m_set Ivss.verify_pairs Ivss.verify_with Ivss.instance_of
    Ivss.put_instance Ivss.start_acast Ivss.uuid_of new_ivss_service new_ivss_instance
    Polynomial.interpolate_at_zero Polynomial.interpolate_loop Polynomial.interpolate_step
    Polynomial.lagrange_term Polynomial.basis_loop Polynomial.neg_mod Polynomial.evaluate
    Polynomial.evaluate_coeffs Polynomial.prime ACast.on_message ACast.on_instance
    ACast.get_instance ACast.dispatch ACast.on_ready ACast.on_msg ACast.amplify ACast.deliver
    ACast.add_to_set ACast.voters ACast.new_acast_service ACast.new_acast_instance
    ACast.new_acast_message Maps.lookup Maps.insert Members.add Attempt.prepend Attempt.and_then
sharing_done-handled = refl

run-Ordered_example :
    (outputs ([] ++ sent sharing_done first) ≡ flag (after sharing_done first).finished)
    × Ordered (phases (after sharing_done first))
run-Ordered_example =
    run-Ordered outside 1 1 0 1 cp ([] ++ sent sharing_done first) (after sharing_done first) (
      handled sharing_done [] (sent sharing_done first) first (after sharing_done first) fresh
        sharing_done-handled)

-- The process has sent all its sets, and waits for the last READY of the secret 5.
abbrev waiting : IccService
waiting = record first {
  my_t = 1 ∷ [];
  sent_attach = true;
  received_t = (1, 1 ∷ []) ∷ [];
  my_a = 1 ∷ [];
  sent_accept = true;
  received_a = (1, 1 ∷ []) ∷ [];
  my_s = 1 ∷ [];
  my_h = 1 ∷ [];
  sent_reconstruct = true;
  received_final_sets = record { from = 1; h = 1 ∷ []; s = 1 ∷ [] } ∷ [];
  ivss = record (first.ivss) {
    instances =
        ("1 1", record (new_ivss_instance "1 1" 1) { sharing_completed = true; secret = some 5 })
        ∷ [];
  };
}

abbrev last_ready : IccMessage
last_ready = wrap_ivss (Ivss.wrap_acast (ready_of "ready" "ready"))

last_ready-handled : Handles last_ready waiting
unfolding on_icc_message Icc.on_icc_as Icc.on_ivss_msg Icc.on_acast_msg Icc.adapt_ivss
    Icc.adapt_acast Icc.process_payload Icc.store_payload Icc.handle_ivss_result
    Icc.take_ivss_result Icc.count_sharing Icc.store_value Icc.check_progress Icc.phase_attach
    Icc.phase_accept Icc.phase_reconstruct Icc.reconstruct_rows Icc.reconstruct_row
    Icc.reconstruct_one Icc.complete_dealers Icc.subset_senders Icc.start_acast Icc.wrap_acasts
    Icc.wrap_sharings Icc.check_decision Icc.find_decision Icc.accepts Icc.has_zero Icc.value_of
    Icc.sum_of Icc.reconstructed_value new_icc_service Vote.is_subset Sorting.sort
    Sorting.insert_sorted Ivss.on_ivss_message Ivss.on_ivss_as Ivss.on_acast_msg Ivss.adapt_acast
    Ivss.on_acast_delivered Ivss.deliver_as Ivss.on_m_set Ivss.on_reveal Ivss.on_ready
    Ivss.output_secret Ivss.check_interpolation_set Ivss.candidates Ivss.valid_loop Ivss.scan
    Ivss.values_of Ivss.poly_of Ivss.interpolation_target Ivss.complete_sharing
    Ivss.start_reconstruction Ivss.verify_m_set Ivss.verify_pairs Ivss.verify_with Ivss.instance_of
    Ivss.put_instance Ivss.start_acast Ivss.uuid_of new_ivss_service new_ivss_instance
    Polynomial.interpolate_at_zero Polynomial.interpolate_loop Polynomial.interpolate_step
    Polynomial.lagrange_term Polynomial.basis_loop Polynomial.neg_mod Polynomial.evaluate
    Polynomial.evaluate_coeffs Polynomial.prime ACast.on_message ACast.on_instance
    ACast.get_instance ACast.dispatch ACast.on_ready ACast.on_msg ACast.amplify ACast.deliver
    ACast.add_to_set ACast.voters ACast.new_acast_service ACast.new_acast_instance
    ACast.new_acast_message Maps.lookup Maps.insert Members.add Attempt.prepend Attempt.and_then
last_ready-handled = refl

run-keeps_sets_example :
    (waiting.sent_attach ≡ true → (after last_ready waiting).my_t ≡ waiting.my_t)
    × (waiting.sent_accept ≡ true → (after last_ready waiting).my_a ≡ waiting.my_a)
    × (waiting.sent_reconstruct ≡ true
        → ((after last_ready waiting).my_h ≡ waiting.my_h)
          × ((after last_ready waiting).my_s ≡ waiting.my_s))
run-keeps_sets_example =
    run-keeps_sets outside waiting (after last_ready waiting) ([] ++ sent last_ready waiting) (
      handled last_ready [] (sent last_ready waiting) waiting (after last_ready waiting) fresh
        last_ready-handled)

-- The secret is there.
abbrev computed : IccService
computed = record waiting { reconstructed_values = (1, (1, some 5) ∷ []) ∷ [] }

abbrev pair : FinalSet
pair = record { from = 1; h = 1 ∷ []; s = 1 ∷ [] }

-- The coin is 1, since 5 is 1 modulo 2.
outputs_one : Memᴰ (send_result (record { coin = pos 1 })) (check_decision computed).1
unfolding check_decision Icc.find_decision accepts Icc.has_zero Icc.value_of Icc.sum_of
    Icc.reconstructed_value new_icc_service Vote.is_subset Maps.lookup
outputs_one = Memᴰ.head refl

value_is_one : IsValue computed 1 1
unfolding new_icc_service Maps.lookup
value_is_one = (1 ∷ [], 5, refl, another 1 5 0 [] ((1, some 5) ∷ [], refl, refl) nothing, refl)

computed_values : (j : ℕ) → contains (1 ∷ []) j ≡ true → (v : ℕ) × IsValue computed j v
computed_values j m =
    (1, subst (λ k. IsValue computed k 1) {x = 1} {y = j} (ground (arith, m)) value_is_one)

check_decision-GivesCoin_example :
    (f : FinalSet) × Memᴰ f computed.received_final_sets
    × GivesCoin computed f (record { coin = pos 1 })
check_decision-GivesCoin_example =
    check_decision-GivesCoin computed (record { coin = pos 1 }) outputs_one

GivesCoin-check_decision_example :
    (res : IccResult) × (check_decision computed
      ≡ (record computed { finished = true }, send_result res ∷ []))
    × (g : FinalSet) × Memᴰ g computed.received_final_sets
    × GivesCoin computed g res
unfolding new_icc_service
GivesCoin-check_decision_example =
    GivesCoin-check_decision computed pair refl (Memᴰ.head refl) (refl, refl) (λ i m. m) (λ i m. m)
      computed_values

-- The first of four: everything of the others has come, and the last secret of dealer 1 is done.
abbrev dealers : List ℕ
dealers = 1 ∷ 2 ∷ 3 ∷ []

abbrev senders : List ℕ
senders = 2 ∷ 3 ∷ 4 ∷ []

abbrev late : IccService
late = record (new_icc_service outside 1 4 1 1 cp) {
  completed_secrets = (1, 1 ∷ 3 ∷ 4 ∷ []) ∷ [];
  completed_secrets_count = (1, 3) ∷ (2, 4) ∷ (3, 4) ∷ [];
  received_t = (2, dealers) ∷ (3, dealers) ∷ (4, dealers) ∷ [];
  received_a = (2, senders) ∷ (3, senders) ∷ (4, senders) ∷ [];
}

abbrev last_secret : IvssResult
last_secret = record {
  instance_id = "1 2";
  type = sharing_complete;
  secret = none;
  m_set = some dealers;
  poly = none;
}

late-Reenters :
    Reenters outside "1 2" 2 1 dealers
      (phase_accept outside
        (phase_attach outside (take_ivss_result sharing_complete 1 2 last_secret late)).0).0
unfolding take_ivss_result Icc.count_sharing phase_attach phase_accept Icc.complete_dealers
    Icc.subset_senders Icc.start_acast Icc.wrap_acasts new_icc_service Vote.is_subset Sorting.sort
    Sorting.insert_sorted ACast.on_message ACast.on_instance ACast.get_instance ACast.dispatch
    ACast.on_msg ACast.new_acast_service ACast.new_acast_instance ACast.new_acast_message
    Maps.lookup Maps.insert Members.add
late-Reenters = record {
  ready = refl;
  accepted = refl;
  attached = refl;
  listed = refl;
  same = refl;
}

handle_ivss_result-waits_example : handle_ivss_result outside last_secret late ≡ waits
unfolding new_icc_service
handle_ivss_result-waits_example =
    handle_ivss_result-waits outside last_secret 1 2 dealers late refl late-Reenters

-- Process 1 of four deals.
abbrev dealer : IccService
dealer = new_icc_service outside 1 4 1 1 cp

start_icc-Deals_example :
    (later : ℕ) × (es : IccEffects) × (start_icc outside dealer ≡ returns (drawn dealer later) es)
    × Deals outside dealer (range 1 dealer.n) es
start_icc-Deals_example = start_icc-Deals outside dealer (λ draw i j. (i + j, refl))

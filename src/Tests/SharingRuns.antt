-- ===== src/Tests/SharingRuns.antt =====
-- services/ivss.go and utils/polynomial.go, with a few processes and a polynomial of degree 1.
use async_agreement_protocol.Base.{
  ℕ, ◌+◌, ◌-◌, ◌≤◌, ◌≡◌, refl, true, false, Option, none, some, List, [], ◌∷◌, String,
  nat_comparable, pair_comparable, string_comparable, ◌==◌, if◌then◌else◌, length, arith,
}
use async_agreement_protocol.Base.Maps
use async_agreement_protocol.Base.Members
use async_agreement_protocol.Base.Members.{contains}
use async_agreement_protocol.Base.Counting
use async_agreement_protocol.Base.Sorting.{sort}
use async_agreement_protocol.Context.{broadcast}
use async_agreement_protocol.Attempt
use async_agreement_protocol.Attempt.{Attempt, returns, panics, waits}
use async_agreement_protocol.ACast
use async_agreement_protocol.ACast.{ACastMessage, ready, or_else}
use async_agreement_protocol.Certification
use async_agreement_protocol.Certification.{CertificationProtocol, new_certification_protocol}
use async_agreement_protocol.Polynomial.{
  replicate, SymmetricPolynomial, evaluate, get_univariate_polynomial, coefficient,
  new_random_symmetric_polynomial,
}
use async_agreement_protocol.Polynomial.Slices.{IsSymmetric}
use async_agreement_protocol.Polynomial.Dealing.{new_random_symmetric_polynomial_total}
use async_agreement_protocol.Ivss
use async_agreement_protocol.Ivss.{
  IvssPayload, IvssMessage, IvssInstance, IvssService, IvssOutside, IvssEffects, IvssAttempt,
  new_ivss_instance, new_ivss_service, compatible, candidate_set, verify_m_set, check_candidate_set,
  check_interpolation_set, share_message, point_message, wrap_acast, equal_payload, m_set_payload,
  instance_of, put_instance, start_acast, on_direct, on_ivss_message,
}
use async_agreement_protocol.Ivss.Candidates.{verify_m_set-candidate_set}
use async_agreement_protocol.Ivss.Maximal.{candidate_set_maximal, check_candidate_set_blocked}
use async_agreement_protocol.Ivss.Repeated.{verify_m_set-replicate}
use async_agreement_protocol.Ivss.Faults.{KeepsAfter, honest-KeepsAfter}
use async_agreement_protocol.Ivss.Honest.{AttemptSends, on_share-AttemptSends, on_point-equal}
use async_agreement_protocol.Ivss.Verified.{PairsEqual}
use async_agreement_protocol.Ivss.Invariant.{IvssRun, starts, handled, run-PairsEqual}
use async_agreement_protocol.Tests.PartRuns.{shared, shared-IsSymmetric}

-- A value of a uuid names its payload.
abbrev payload_in : String → Option IvssPayload
payload_in v =
    if v == "equal 1 2"
    then some (equal_payload "x" 1 2)
    else if v == "equal 2 1"
    then some (equal_payload "x" 2 1)
    else if v == "m"
    then some (m_set_payload "x" (1 ∷ 2 ∷ []))
    else none

abbrev pub outside : IvssOutside
outside = record {
  marshal = λ p. "payload";
  unmarshal = payload_in;
  equal_uuid = λ id p. "equal";
  m_set_uuid = λ id. "m";
  reveal_uuid = λ id i. "reveal";
  ready_uuid = λ id i. "ready";
  mod_inverse = λ a. some a;
  random = λ draw i j. some (i + j);
}

-- Everyone of 2, 3 and 4 has an EQUAL with everyone else of them.
abbrev equals : List (ℕ × ℕ)
equals = (2, 3) ∷ (3, 2) ∷ (2, 4) ∷ (4, 2) ∷ (3, 4) ∷ (4, 3) ∷ []

abbrev more_equals : List (ℕ × ℕ)
more_equals = (1, 2) ∷ (2, 1) ∷ (1, 3) ∷ (3, 1) ∷ (2, 3) ∷ (3, 2) ∷ []

abbrev cp : CertificationProtocol
cp = record { fp = []; core_invocations = [] }

verify_m_set-candidate_set_example :
    verify_m_set 4 1 more_equals cp (sort (candidate_set more_equals cp 4)) ≡ true
unfolding candidate_set Ivss.candidate_loop Ivss.can_add compatible Certification.is_faulty_pair
verify_m_set-candidate_set_example = verify_m_set-candidate_set more_equals cp 4 1 (omega arith)

candidate_set_maximal_example :
    (v : ℕ) × (contains (candidate_set more_equals cp 4) v ≡ true)
    × (compatible more_equals cp 4 v ≡ false)
unfolding candidate_set Ivss.candidate_loop Ivss.can_add compatible Certification.is_faulty_pair
candidate_set_maximal_example =
    candidate_set_maximal more_equals cp 4 4 (omega arith, omega arith) refl

verify_m_set-replicate_example : verify_m_set 4 1 ((2, 2) ∷ []) cp (replicate (4 - 1) 2) ≡ true
unfolding Certification.is_faulty_pair
verify_m_set-replicate_example = verify_m_set-replicate 4 1 2 ((2, 2) ∷ []) cp refl refl

abbrev dealer : IvssService
dealer = new_ivss_service 1 4 1 cp

abbrev split : IvssInstance
split = record (new_ivss_instance "x" 1) { completed_equals = equals }

check_candidate_set_blocked_example : check_candidate_set outside dealer split ≡ []
unfolding new_ivss_service new_ivss_instance compatible Counting.count_ids
check_candidate_set_blocked_example = check_candidate_set_blocked outside dealer split (omega arith)

-- Processes 1 and 2 reveal their slices, process 3 another polynomial.
abbrev revealed : IvssInstance
revealed = record (new_ivss_instance "x" 1) {
  reconstructed_polys =
      (3, some (record { coeffs = 1 ∷ 1 ∷ [] }))
      ∷ (1, some (get_univariate_polynomial shared 1))
      ∷ (2, some (get_univariate_polynomial shared 2))
      ∷ [];
}

honest-KeepsAfter_example :
    KeepsAfter 1 2 dealer.cp
      (check_interpolation_set outside dealer (some (1 ∷ 2 ∷ 3 ∷ [])) revealed)
unfolding Ivss.poly_of Maps.lookup new_ivss_instance
honest-KeepsAfter_example =
    honest-KeepsAfter outside 1 2 dealer (some (1 ∷ 2 ∷ 3 ∷ [])) revealed shared shared-IsSymmetric
      refl refl

on_share-AttemptSends_example :
    AttemptSends
      (broadcast
        (point_message 3 dealer.id "x" (evaluate (get_univariate_polynomial shared dealer.id) 3)))
      (on_direct outside
        (share_message dealer.id 2 "x" (get_univariate_polynomial shared dealer.id))
        dealer)
unfolding instance_of Maps.lookup new_ivss_instance new_ivss_service
on_share-AttemptSends_example =
    on_share-AttemptSends outside dealer 2 3 "x" (get_univariate_polynomial shared dealer.id)
      (omega arith, omega arith) tt

-- Process 1 with its share.
abbrev holder : IvssService
holder = record dealer {
  instances =
      (
        "x",
        record (new_ivss_instance "x" 2) {
          received_poly = some (get_univariate_polynomial shared 1);
        },
      )
      ∷ [];
}

on_point-equal_example :
    on_direct outside
      (point_message holder.id 3 "x" (evaluate (get_univariate_polynomial shared 3) holder.id))
      holder
    ≡ returns
        (put_instance (instance_of holder "x" 3) "x" holder)
        (start_acast outside holder.id (equal_payload (instance_of holder "x" 3).id holder.id 3))
unfolding instance_of Maps.lookup new_ivss_instance new_ivss_service
on_point-equal_example = on_point-equal outside holder 3 "x" shared shared-IsSymmetric refl

new_random_symmetric_polynomial_total_example :
    (sp : SymmetricPolynomial) × (new_random_symmetric_polynomial (λ i j. some (i + j)) 1 5
      ≡ some sp)
    × IsSymmetric sp
    × (coefficient sp 0 0 ≡ 5)
    × (sp.degree ≡ 1)
new_random_symmetric_polynomial_total_example =
    new_random_symmetric_polynomial_total (λ i j. some (i + j)) (λ i j. (i + j, refl)) 1 5

-- Process 1 of two, which tolerates no fault, hears that EQUALs and the set M are delivered.
abbrev ready_of : String → String → IvssMessage
ready_of uuid val = wrap_acast (record { type = ready; uuid = uuid; val = val; from = 2 })

abbrev heard : IvssService → String → String → IvssAttempt
heard s uuid val = on_ivss_message outside (ready_of uuid val) s

abbrev state_of : IvssAttempt → IvssService
state_of (returns s es) = s
state_of panics = new_ivss_service 1 2 0 cp
state_of waits = new_ivss_service 1 2 0 cp

abbrev effects_of : IvssAttempt → IvssEffects
effects_of (returns s es) = es
effects_of panics = []
effects_of waits = []

abbrev first : IvssService
first = new_ivss_service 1 2 0 cp

abbrev second : IvssService
second = state_of (heard first "a" "equal 1 2")

abbrev third : IvssService
third = state_of (heard second "b" "equal 2 1")

abbrev fourth : IvssService
fourth = state_of (heard third "c" "m")

abbrev Hears : IvssService → String → String → Type 0
Hears s uuid val =
    heard s uuid val ≡ returns (state_of (heard s uuid val)) (effects_of (heard s uuid val))

hear :
    (s : IvssService) (uuid val : String)
    → IvssRun outside first s
    → Hears s uuid val
    → IvssRun outside first (state_of (heard s uuid val))
hear s uuid val r e =
    handled (ready_of uuid val) s (state_of (heard s uuid val)) (effects_of (heard s uuid val)) r e

three_heard :
    Hears first "a" "equal 1 2"
    × Hears second "b" "equal 2 1"
    × Hears third "c" "m"
    × ((instance_of fourth "x" 0).sharing_completed ≡ true)
unfolding on_ivss_message Ivss.on_ivss_as Ivss.on_acast_msg Ivss.adapt_acast Ivss.on_acast_delivered
    Ivss.deliver_as Ivss.on_equal Ivss.on_m_set Ivss.retry_pending Ivss.complete_sharing
    Ivss.check_candidate_set Ivss.candidate_set Ivss.candidate_loop Ivss.can_add Ivss.compatible
    Ivss.verify_m_set Ivss.verify_pairs Ivss.verify_with Ivss.instance_of Ivss.put_instance
    Ivss.start_acast Ivss.uuid_of new_ivss_service new_ivss_instance Certification.is_faulty_pair
    ACast.on_message ACast.on_instance ACast.get_instance ACast.dispatch ACast.on_ready ACast.on_msg
    ACast.amplify ACast.deliver ACast.add_to_set ACast.voters ACast.new_acast_service
    ACast.new_acast_instance Maps.lookup Maps.insert Members.add Attempt.prepend Attempt.and_then
three_heard = (refl, refl, refl, refl)

run-PairsEqual_example :
    (2 - 0 ≤ length (or_else [] (instance_of fourth "x" 0).m_set))
    × PairsEqual
        (instance_of fourth "x" 0).completed_equals
        (or_else [] (instance_of fourth "x" 0).m_set)
run-PairsEqual_example =
    run-PairsEqual outside 1 2 0 cp fourth "x"
      (hear third "c" "m"
        (hear second "b" "equal 2 1" (hear first "a" "equal 1 2" starts three_heard.0)
          three_heard.1)
        three_heard.2)
      three_heard.3

-- ===== src/Tests/PartRuns.antt =====
-- The smaller components at concrete inputs: services/certification.go, services/service.go and
-- utils/polynomial.go.
use async_agreement_protocol.Base.{
  ℕ, zero, suc, ◌≡◌, refl, ◌+◌, true, false, ◌||◌, List, [], ◌∷◌, arith, nat_comparable,
  pair_comparable,
}
use async_agreement_protocol.Context.{Effect, broadcast, send_result}
use async_agreement_protocol.Certification.{
  CertificationProtocol, add_faulty_pair, is_faulty_pair, ordered,
}
use async_agreement_protocol.Certification.Pairs.{same_pair, is_faulty_pair-add_faulty_pair}
use async_agreement_protocol.Manager
use async_agreement_protocol.Manager.{round, to_outbox, from_inbox}
use async_agreement_protocol.Manager.Order.{
  World, WorldReach, IsOrderly, results_in_order, made, later, handles, gives, arrives, reads,
}
use async_agreement_protocol.Polynomial.{evaluate, SymmetricPolynomial, get_univariate_polynomial}
use async_agreement_protocol.Polynomial.Slices.{IsSymmetric, slices_agree}

abbrev pairs : CertificationProtocol
pairs = record { fp = (2, 5) ∷ []; core_invocations = [] }

is_faulty_pair-add_faulty_pair_example :
    is_faulty_pair 4 1 (add_faulty_pair 1 4 pairs) ≡ (same_pair 1 4 4 1 || is_faulty_pair 4 1 pairs)
is_faulty_pair-add_faulty_pair_example = is_faulty_pair-add_faulty_pair 1 4 4 1 pairs

pair_found : is_faulty_pair 5 2 pairs ≡ true
unfolding is_faulty_pair ordered
pair_found = refl

-- 3 + 2x at 5
-- 7 + 4x + 4y + 9xy
abbrev pub shared : SymmetricPolynomial
shared = record { coeffs = (7 ∷ 4 ∷ []) ∷ (4 ∷ 9 ∷ []) ∷ []; degree = 1 }

pub shared-IsSymmetric : IsSymmetric shared
shared-IsSymmetric zero zero = refl
shared-IsSymmetric zero (suc zero) = refl
shared-IsSymmetric zero (suc (suc j)) = refl
shared-IsSymmetric (suc zero) zero = refl
shared-IsSymmetric (suc zero) (suc zero) = refl
shared-IsSymmetric (suc zero) (suc (suc j)) = refl
shared-IsSymmetric (suc (suc i)) zero = refl
shared-IsSymmetric (suc (suc i)) (suc zero) = refl
shared-IsSymmetric (suc (suc i)) (suc (suc j)) = refl

slices_agree_example :
    evaluate (get_univariate_polynomial shared 2) 3
    ≡ evaluate (get_univariate_polynomial shared 3) 2
slices_agree_example = slices_agree shared 2 3 shared-IsSymmetric

-- A service that counts its messages, and sends the count.
abbrev counter : ℕ → ℕ → ℕ × List (Effect ℕ ℕ)
counter s m = (s + m, send_result (s + m) ∷ broadcast m ∷ [])

one_result : World ℕ ℕ ℕ
one_result = record {
  manager = record {
    service = 7;
    inbox = [];
    outbox = [];
    awaiting_msgs = [];
    network = 7 ∷ [];
    stop = false;
  };
  sent = 7 ∷ [];
  taken = 7 ∷ [];
}

one_result_reached : WorldReach counter 0 one_result
unfolding one_result round Manager.take_message Manager.give_result Manager.perform
    Manager.new_service_manager
one_result_reached =
    later
      (later (later (later made (arrives 7 (omega arith))) (handles 7 [] refl refl)) (gives refl))
      (reads 7 [] refl)

results_in_order_example : IsOrderly one_result
results_in_order_example = results_in_order counter one_result_reached

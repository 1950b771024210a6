-- ===== src/Tests/SecretRuns.antt =====
-- utils/polynomial.go and services/ivss.go: a secret is shared among four processes, and found again.
use async_agreement_protocol.Base.{
  ◌++◌, leb, length, ℕ, zero, suc, ◌+◌, ◌-◌, ◌/◌, ◌%◌, ◌≡◌, refl, sym, ◌∙◌, Bool, true, false, not,
  Option, some, List, [], ◌∷◌, nat_comparable, ◌==◌, if◌then◌else◌, map, arith,
}
use async_agreement_protocol.Base.Members
use async_agreement_protocol.Base.Members.{contains}
use async_agreement_protocol.Base.Maps
use async_agreement_protocol.Base.Counting
use async_agreement_protocol.Certification
use async_agreement_protocol.Certification.{CertificationProtocol, new_certification_protocol}
use async_agreement_protocol.Polynomial
use async_agreement_protocol.Polynomial.{
  Polynomial, SymmetricPolynomial, evaluate, interpolate_at_zero, get_univariate_polynomial, prime,
  new_random_symmetric_polynomial,
}
use async_agreement_protocol.Polynomial.Reconstruction.{
  InvertsDenominators, interpolate_at_zero-evaluate,
}
use async_agreement_protocol.Ivss
use async_agreement_protocol.Ivss.{
  IvssInstance, IvssService, IvssOutside, new_ivss_instance, new_ivss_service, poly_of, candidates,
  valid_loop, check_interpolation_set, instance_of, secret_result, start_acast, ready_payload,
}
use async_agreement_protocol.Ivss.Recovery.{IsShort, recovered, check_interpolation_set-recovered}
use async_agreement_protocol.Attempt.{returns, and_then}
use async_agreement_protocol.Ivss.Reveals.{deliver_reveals}
use async_agreement_protocol.Ivss.Readies.{ready_senders, deliver_readies, reconstruction_outputs}
use async_agreement_protocol.Context.{send_result}
use async_agreement_protocol.Tests.PartRuns.{shared}
use async_agreement_protocol.Tests.SharingRuns.{outside}

-- At the points 1 and 2 the denominators are -1 and 1, each its own inverse.
inverts_two : InvertsDenominators (λ a. some a) (1 ∷ 2 ∷ [])
unfolding Polynomial.basis_loop Polynomial.neg_mod prime
inverts_two zero h = (_, refl, refl)
inverts_two (suc zero) h = (_, refl, refl)
inverts_two (suc (suc k)) h = absurd (omega arith)

abbrev line : Polynomial
line = record { coeffs = 7 ∷ 4 ∷ [] }

interpolate_at_zero-evaluate_example :
    interpolate_at_zero (λ a. some a) (1 ∷ 2 ∷ []) (map (evaluate line) (1 ∷ 2 ∷ []))
    ≡ some (evaluate line 0)
interpolate_at_zero-evaluate_example =
    interpolate_at_zero-evaluate (λ a. some a) (1 ∷ 2 ∷ []) line inverts_two (omega arith)

-- The coefficients that the dealer draws.
abbrev drawn : ℕ → ℕ → Option ℕ
drawn i j = some (if i + j == 1 then 4 else 9)

dealt : new_random_symmetric_polynomial drawn 1 7 ≡ some shared
unfolding new_random_symmetric_polynomial Polynomial.fill_rows Polynomial.fill_row
    Polynomial.fill_step Polynomial.set_cell Polynomial.set Polynomial.replicate
dealt = refl

abbrev node : IvssService
node = new_ivss_service 1 4 1 (record { fp = []; core_invocations = [] })

-- Processes 1 and 2 reveal their slices, process 3 another polynomial.
abbrev revealing : IvssInstance
revealing = record (new_ivss_instance "x" 1) {
  reconstructed_polys =
      (1, some (get_univariate_polynomial shared 1))
      ∷ (2, some (get_univariate_polynomial shared 2))
      ∷ (3, some (record { coeffs = 1 ∷ 1 ∷ [] }))
      ∷ [];
}

abbrev blamed : CertificationProtocol
blamed = record { fp = (1, 3) ∷ []; core_invocations = [] }

abbrev m_of : List ℕ
m_of = 1 ∷ 2 ∷ 3 ∷ []

abbrev good : ℕ → Bool
good u = not (u == 3)

abbrev revealed_by : List ℕ
revealed_by = candidates revealing.reconstructed_polys m_of

two_valid :
    valid_loop revealing.reconstructed_polys revealed_by (some ([], node.cp))
    ≡ some (1 ∷ 2 ∷ [], blamed)
unfolding valid_loop candidates Ivss.scan Ivss.is_consistent poly_of Maps.lookup evaluate
    Polynomial.evaluate_coeffs get_univariate_polynomial Polynomial.coeffs_loop
    Polynomial.coeff_loop Polynomial.term prime Certification.add_faulty_pair Certification.ordered
    Members.add new_ivss_service new_ivss_instance
two_valid = refl

not_listed : {A : Type 0} → false ≡ true → A
not_listed h = absurd cc

above_three : (u : ℕ) → contains m_of (suc (suc (suc (suc u)))) ≡ false
above_three u = ground arith

good_slices :
    (u : ℕ)
    → contains revealed_by u ≡ true
    → good u ≡ true
    → poly_of revealing.reconstructed_polys u ≡ some (get_univariate_polynomial shared u)
unfolding candidates poly_of Maps.lookup new_ivss_instance
good_slices zero i g = not_listed i
good_slices (suc zero) i g = refl
good_slices (suc (suc zero)) i g = refl
good_slices (suc (suc (suc zero))) i g = not_listed g
good_slices (suc (suc (suc (suc u)))) i g = not_listed (sym (above_three u) ∙ i)

all-IsShort :
    (u : ℕ)
    → contains revealed_by u ≡ true
    → IsShort node.t (poly_of revealing.reconstructed_polys u)
unfolding candidates poly_of Maps.lookup new_ivss_instance new_ivss_service
    get_univariate_polynomial Polynomial.coeffs_loop
all-IsShort zero i = not_listed i
all-IsShort (suc zero) i = (get_univariate_polynomial shared 1, refl, omega arith)
all-IsShort (suc (suc zero)) i = (get_univariate_polynomial shared 2, refl, omega arith)
all-IsShort (suc (suc (suc zero))) i = (record { coeffs = 1 ∷ 1 ∷ [] }, refl, omega arith)
all-IsShort (suc (suc (suc (suc u)))) i = not_listed (sym (above_three u) ∙ i)

check_interpolation_set-recovered_example :
    check_interpolation_set outside node (some m_of) revealing
    ≡ recovered outside node revealing (7 % prime) blamed
unfolding Counting.count_list Ivss.interpolation_target new_ivss_service
check_interpolation_set-recovered_example =
    check_interpolation_set-recovered outside node revealing m_of (1 ∷ 2 ∷ []) blamed shared good
      drawn 7 dealt good_slices all-IsShort two_valid (omega arith) (omega arith) inverts_two

-- A process that knows M = {1, 2, 3}, and to which nothing is revealed yet.
abbrev waiting : IvssService
waiting = record node {
  instances = ("x", record (new_ivss_instance "x" 1) { m_set = some m_of }) ∷ [];
}

listed_two : (u : ℕ) → contains (1 ∷ 2 ∷ []) u ≡ true → contains m_of u ≡ true
listed_two u i = ground (arith, i)

reconstruction_outputs_example :
    (s' : IvssService) × (and_then
        (deliver_reveals shared outside "x" (1 ∷ 2 ∷ []) waiting)
        (deliver_readies outside "x" (4 ∷ 2 ∷ 4 ∷ 1 ∷ []))
      ≡ returns s' (
          start_acast outside waiting.id (ready_payload (instance_of waiting "x" 0).id waiting.id)
          ++ (if leb (waiting.n - waiting.t) (length (ready_senders (4 ∷ 2 ∷ 4 ∷ 1 ∷ []) []))
              then send_result (secret_result (instance_of waiting "x" 0) (7 % prime)) ∷ []
              else [])))
unfolding instance_of Maps.lookup new_ivss_instance new_ivss_service
reconstruction_outputs_example =
    reconstruction_outputs outside waiting "x" m_of (1 ∷ 2 ∷ []) (4 ∷ 2 ∷ 4 ∷ 1 ∷ []) drawn 7 shared
      (omega arith) dealt refl refl refl refl (refl, (refl, tt)) listed_two (omega arith)
      inverts_two

-- Process 3 reveals a polynomial of degree 3, which has the values of its slice at 1, 2 and 3.
abbrev too_long : IvssInstance
too_long = record (new_ivss_instance "x" 1) {
  reconstructed_polys =
      (1, some (get_univariate_polynomial shared 1))
      ∷ (2, some (get_univariate_polynomial shared 2))
      ∷ (3, some (record { coeffs = 13 ∷ 42 ∷ (prime - 6) ∷ 1 ∷ [] }))
      ∷ [];
}

-- The inverses of 2, 1 and -1.
abbrev halving : IvssOutside
halving = record outside { mod_inverse = λ a. some (if a == 2 then (prime + 1) / 2 else a) }

-- It is taken for a slice, no pair becomes faulty, and the secret found is 1 in place of 7.
wrong_secret :
    check_interpolation_set halving node (some m_of) too_long
    ≡ recovered halving node too_long 1 node.cp
unfolding check_interpolation_set valid_loop candidates Ivss.scan Ivss.is_consistent poly_of
    Maps.lookup evaluate Polynomial.evaluate_coeffs get_univariate_polynomial Polynomial.coeffs_loop
    Polynomial.coeff_loop Polynomial.term prime Ivss.values_of Ivss.interpolation_target
    interpolate_at_zero Polynomial.interpolate_loop Polynomial.interpolate_step
    Polynomial.basis_loop Polynomial.neg_mod Polynomial.lagrange_term new_ivss_service
    new_ivss_instance start_acast
wrong_secret = refl

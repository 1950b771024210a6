-- ===== src/Ivss/Sets.antt =====
-- services/ivss.go, the sets: the candidate set M of the dealer, its verification, and the set of
-- polynomials that agree. Go visits a map in an arbitrary order; here it is that of the association
-- list, which may be any.
use async_agreement_protocol.Base.{
  ℕ, zero, suc, ◌-◌, ◌*◌, Bool, true, false, not, ◌&&◌, Option, none, some, List, [], ◌∷◌, ◌++◌,
  nat_comparable, pair_comparable, ◌==◌, leb, ltb, if◌then◌else◌, length,
}
use async_agreement_protocol.Base.Maps.{Map, lookup}
use async_agreement_protocol.Base.Members.{contains}
use async_agreement_protocol.ACast.{or_else}
use async_agreement_protocol.Certification.{CertificationProtocol, add_faulty_pair, is_faulty_pair}
use async_agreement_protocol.Polynomial.{Polynomial, evaluate}

-- The EQUALs of both directions are complete, and the pair is not known as faulty.
unfoldable pub compatible : List (ℕ × ℕ) → CertificationProtocol → ℕ → ℕ → Bool
compatible equals cp u v =
    contains equals (u, v) && contains equals (v, u) && not (is_faulty_pair u v cp)

-- The inner loop of `checkCandidateSet`, over the nodes that are in the set.
unfoldable pub can_add : List (ℕ × ℕ) → CertificationProtocol → ℕ → List ℕ → Bool
can_add equals cp candidate [] = true
can_add equals cp candidate (v ∷ vs) =
    compatible equals cp candidate v && can_add equals cp candidate vs

-- The outer loop, with the number of rounds left and the candidate.
unfoldable pub candidate_loop : List (ℕ × ℕ) → CertificationProtocol → ℕ → ℕ → List ℕ → List ℕ
candidate_loop equals cp zero candidate m_set = m_set
candidate_loop equals cp (suc rounds) candidate m_set =
    candidate_loop equals cp rounds (suc candidate)
      (if can_add equals cp candidate m_set then m_set ++ candidate ∷ [] else m_set)

unfoldable pub candidate_set : List (ℕ × ℕ) → CertificationProtocol → ℕ → List ℕ
candidate_set equals cp n = candidate_loop equals cp n 1 []

-- The inner loop of `verifyMSet`, over the nodes after `u`.
unfoldable pub verify_with : List (ℕ × ℕ) → CertificationProtocol → ℕ → List ℕ → Bool
verify_with equals cp u [] = true
verify_with equals cp u (v ∷ vs) = compatible equals cp u v && verify_with equals cp u vs

unfoldable pub verify_pairs : List (ℕ × ℕ) → CertificationProtocol → List ℕ → Bool
verify_pairs equals cp [] = true
verify_pairs equals cp (u ∷ us) = verify_with equals cp u us && verify_pairs equals cp us

-- `verifyMSet`
unfoldable pub verify_m_set : ℕ → ℕ → List (ℕ × ℕ) → CertificationProtocol → List ℕ → Bool
verify_m_set n t equals cp m_set = not (ltb (length m_set) (n - t)) && verify_pairs equals cp m_set

-- `Evaluate` through a pointer: `none` is the panic at a nil pointer.
abbrev pub evaluate_at : Option Polynomial → ℕ → Option ℕ
evaluate_at none x = none
evaluate_at (some p) x = some (evaluate p x)

-- `inst.reconstructedPolys[u]`, nil for a missing key.
unfoldable pub poly_of : Map ℕ (Option Polynomial) → ℕ → Option Polynomial
poly_of polys u = or_else none (lookup u polys)

abbrev pub same_values : Option ℕ → Option ℕ → Option Bool
same_values none b = none
same_values (some a) none = none
same_values (some a) (some b) = some (a == b)

-- `isConsistent`
unfoldable pub is_consistent : Map ℕ (Option Polynomial) → ℕ → ℕ → Option Bool
is_consistent polys u v =
    same_values (evaluate_at (poly_of polys u) v) (evaluate_at (poly_of polys v) u)

-- The keys of the received polynomials that are in M.
unfoldable pub candidates : Map ℕ (Option Polynomial) → List ℕ → List ℕ
candidates [] nodes_in_m = []
candidates ((k, p) ∷ polys) nodes_in_m =
    let rest = candidates polys nodes_in_m in if contains nodes_in_m k then k ∷ rest else rest

-- What the inner loop of `checkInterpolationSet` finds.
pub data Scan : Type 0 where
  agrees : Scan
  disagrees_with : ℕ → Scan
  panics_at : ℕ → Scan

abbrev pub scan_next : ℕ → Option Bool → Scan → Scan
scan_next v none rest = panics_at v
scan_next v (some true) rest = rest
scan_next v (some false) rest = disagrees_with v

unfoldable pub scan : Map ℕ (Option Polynomial) → ℕ → List ℕ → Scan
scan polys candidate [] = agrees
scan polys candidate (v ∷ vs) =
    scan_next v (is_consistent polys candidate v) (scan polys candidate vs)

-- The set of polynomials that agree, and the certification.
abbrev pub Agreeing : Type 0
Agreeing = Option (List ℕ × CertificationProtocol)

abbrev pub take_scan : ℕ → List ℕ → CertificationProtocol → Scan → Agreeing
take_scan candidate valid cp agrees = some (valid ++ candidate ∷ [], cp)
take_scan candidate valid cp (disagrees_with v) = some (valid, add_faulty_pair candidate v cp)
take_scan candidate valid cp (panics_at v) = none

-- The outer loop, over the candidates.
unfoldable pub valid_loop : Map ℕ (Option Polynomial) → List ℕ → Agreeing → Agreeing
valid_loop polys [] found = found
valid_loop polys (c ∷ cs) none = none
valid_loop polys (c ∷ cs) (some (valid, cp)) =
    valid_loop polys cs (take_scan c valid cp (scan polys c valid))

-- `values`, the polynomials at 0.
abbrev pub cons_value : Option ℕ → Option (List ℕ) → Option (List ℕ)
cons_value none rest = none
cons_value (some v) none = none
cons_value (some v) (some vs) = some (v ∷ vs)

unfoldable pub values_of : Map ℕ (Option Polynomial) → List ℕ → Option (List ℕ)
values_of polys [] = some []
values_of polys (u ∷ us) = cons_value (evaluate_at (poly_of polys u) 0) (values_of polys us)

-- The `target` of `checkInterpolationSet`.
unfoldable pub interpolation_target : ℕ → ℕ → ℕ
interpolation_target n t = if leb n (2 * t) then 1 else n - 2 * t

-- ===== src/Certification/Defs.antt =====
-- services/certification.go, as the source writes it.
use async_agreement_protocol.Base.{
  ℕ, Bool, List, [], ◌∷◌, ◌++◌, String, nat_comparable, pair_comparable, ltb, if◌then◌else◌,
}
use async_agreement_protocol.Base.Members.{add, contains}

-- `fp` is the set of the keys of `map[[2]int]bool`.
pub record CertificationProtocol : Type 0 where
  pub fp : List (ℕ × ℕ)
  pub core_invocations : List String

unfoldable pub new_certification_protocol : CertificationProtocol
new_certification_protocol = record { fp = []; core_invocations = [] }

-- The swap that both methods begin with.
unfoldable pub ordered : ℕ → ℕ → ℕ × ℕ
ordered i j = if ltb j i then (j, i) else (i, j)

unfoldable pub add_faulty_pair : ℕ → ℕ → CertificationProtocol → CertificationProtocol
add_faulty_pair i j cp = record cp { fp = add (ordered i j) cp.fp }

unfoldable pub is_faulty_pair : ℕ → ℕ → CertificationProtocol → Bool
is_faulty_pair i j cp = contains cp.fp (ordered i j)

unfoldable pub add_core_invocation : String → CertificationProtocol → CertificationProtocol
add_core_invocation id cp = record cp { core_invocations = cp.core_invocations ++ id ∷ [] }

unfoldable pub get_core_invocations : CertificationProtocol → List String
get_core_invocations cp = cp.core_invocations

-- ===== src/Certification/Pairs.antt =====
-- The set of faulty pairs is a set of unordered pairs that only grows.
use async_agreement_protocol.Base.{
  ℕ, ◌≡◌, Bool, ◌&&◌, ◌||◌, arith, nat_comparable, pair_comparable, eqb,
}
use async_agreement_protocol.Base.Members.{contains-add}
use async_agreement_protocol.Certification.Defs.{
  CertificationProtocol, ordered, add_faulty_pair, is_faulty_pair,
}

-- {i, j} and {a, b} are the same unordered pair.
abbrev pub same_pair : ℕ → ℕ → ℕ → ℕ → Bool
same_pair i j a b = (eqb i a && eqb j b) || (eqb i b && eqb j a)

-- A pair is faulty in one order exactly when it is in the other.
pub is_faulty_pair_comm :
    (i j : ℕ) (cp : CertificationProtocol) → is_faulty_pair i j cp ≡ is_faulty_pair j i cp
unfolding is_faulty_pair ordered
is_faulty_pair_comm i j cp = ground arith

ordered_eq : (i j a b : ℕ) → pair_comparable.equal (ordered i j) (ordered a b) ≡ same_pair i j a b
unfolding ordered
ordered_eq i j a b = ground arith

-- After {i, j} is added, a pair is faulty exactly when it is {i, j} in either order or was faulty.
pub is_faulty_pair-add_faulty_pair :
    (i j a b : ℕ) (cp : CertificationProtocol)
    → is_faulty_pair a b (add_faulty_pair i j cp) ≡ (same_pair i j a b || is_faulty_pair a b cp)
unfolding is_faulty_pair add_faulty_pair
is_faulty_pair-add_faulty_pair i j a b cp =
    ground (arith, contains-add (ordered i j) (ordered a b) cp.fp, ordered_eq i j a b)

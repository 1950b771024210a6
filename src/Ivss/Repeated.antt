-- ===== src/Ivss/Repeated.antt =====
-- services/ivss.go, `verifyMSet`, on a list M with one entry many times.
use async_agreement_protocol.Base.{
  ℕ, zero, suc, ◌-◌, ◌≡◌, refl, true, false, List, nat_comparable, pair_comparable, length, arith,
}
use async_agreement_protocol.Base.Members.{contains}
use async_agreement_protocol.Certification.{CertificationProtocol, is_faulty_pair}
use async_agreement_protocol.Polynomial.{replicate}
use async_agreement_protocol.Ivss.Sets.{compatible, verify_with, verify_pairs, verify_m_set}

length-replicate : (k p : ℕ) → length (replicate k p) ≡ k
unfolding replicate
length-replicate zero p = refl
length-replicate (suc k) p = omega (arith, length-replicate k p)

module _ (equals : List (ℕ × ℕ)) (cp : CertificationProtocol) (p : ℕ)
    (self : compatible equals cp p p ≡ true) where
  verify_with-replicate : (k : ℕ) → verify_with equals cp p (replicate k p) ≡ true
  unfolding replicate verify_with
  verify_with-replicate zero = refl
  verify_with-replicate (suc k) = ground (arith, self, verify_with-replicate k)

  verify_pairs-replicate : (k : ℕ) → verify_pairs equals cp (replicate k p) ≡ true
  unfolding replicate verify_pairs
  verify_pairs-replicate zero = refl
  verify_pairs-replicate (suc k) = ground (arith, verify_with-replicate k, verify_pairs-replicate k)

-- Once the EQUAL of a process with itself is delivered, `verifyMSet` accepts the list that names this
-- one process n - t times, unless the process makes a faulty pair with itself.
pub verify_m_set-replicate :
    (n t p : ℕ) (equals : List (ℕ × ℕ)) (cp : CertificationProtocol)
    → contains equals (p, p) ≡ true
    → is_faulty_pair p p cp ≡ false
    → verify_m_set n t equals cp (replicate (n - t) p) ≡ true
unfolding verify_m_set compatible
verify_m_set-replicate n t p equals cp self sound = ground (
  arith,
  length-replicate (n - t) p,
  verify_pairs-replicate equals cp p (ground (arith, self, sound)) (n - t),
)

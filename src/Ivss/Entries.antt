-- ===== src/Ivss/Entries.antt =====
-- services/ivss.go: the map of the revealed polynomials, when each is a slice.
use async_agreement_protocol.Base.{
  ℕ, ◌≡◌, refl, ap, inl, inr, true, false, Option, some, List, [], ◌∷◌, ◌++◌, nat_comparable,
  string_comparable, arith, ◌==◌, String, beq_refl, eq_of_beq, Bool-cases,
}
use async_agreement_protocol.Base.Maps.{Map, lookup, insert, lookup-insert}
use async_agreement_protocol.Base.Members.{contains}
use async_agreement_protocol.Polynomial.{Polynomial, SymmetricPolynomial, get_univariate_polynomial}
use async_agreement_protocol.Ivss.Types.{IvssInstance, IvssService}
use async_agreement_protocol.Ivss.Sets.{poly_of, candidates}
use async_agreement_protocol.Ivss.Messages.{instance_of, put_instance}

pub instance_of-put_instance :
    (inst : IvssInstance) (id : String) (s : IvssService)
    → instance_of (put_instance inst id s) id 0 ≡ inst
unfolding instance_of put_instance
instance_of-put_instance inst id s = rw (lookup-insert id id inst s.instances, beq_refl id) refl

module _ (sp : SymmetricPolynomial) where
  -- What the map of the revealed polynomials holds after these reveals.
  abbrev pub entries : List ℕ → Map ℕ (Option Polynomial)
  entries [] = []
  entries (u ∷ us) = (u, some (get_univariate_polynomial sp u)) ∷ entries us

  pub insert-entries :
      (us : List ℕ) (u : ℕ)
      → contains us u ≡ false
      → insert u (some (get_univariate_polynomial sp u)) (entries us) ≡ entries (us ++ u ∷ [])
  unfolding insert
  insert-entries [] u h = refl
  insert-entries (v ∷ us) u h = elim (Bool-cases (v == u)) [
    | inl e ↦ absurd (ground (arith, e, h))
    | inr e ↦ rw e (
        ap (λ l. (v, some (get_univariate_polynomial sp v)) ∷ l)
          (insert-entries us u (ground (arith, h))))
  ]

  pub candidates-entries :
      (us m_set : List ℕ)
      → ((u : ℕ) → contains us u ≡ true → contains m_set u ≡ true)
      → candidates (entries us) m_set ≡ us
  unfolding candidates
  candidates-entries [] m_set h = refl
  candidates-entries (u ∷ us) m_set h =
      rw (h u (ground arith))
        (ap (λ l. u ∷ l) (candidates-entries us m_set (λ v i. h v (ground arith))))

  pub poly_of-entries :
      (us : List ℕ) (u : ℕ)
      → contains us u ≡ true
      → poly_of (entries us) u ≡ some (get_univariate_polynomial sp u)
  unfolding poly_of lookup
  poly_of-entries [] u h = cc
  poly_of-entries (v ∷ us) u h = elim (Bool-cases (v == u)) [
    | inl e ↦ rw e (ap (λ w. some (get_univariate_polynomial sp w)) (eq_of_beq {a = v} {b = u} e))
    | inr e ↦ rw e (poly_of-entries us u (ground (arith, h)))
  ]

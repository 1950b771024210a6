-- ===== src/Ivss/Candidates.antt =====
-- services/ivss.go, `checkCandidateSet` and `verifyMSet`: the pairs of the candidate set M.
use async_agreement_protocol.Base.{
  ℕ, zero, suc, ◌-◌, ◌≤◌, ◌≡◌, refl, inl, inr, true, ◌&&◌, List, [], ◌∷◌, ◌++◌, nat_comparable,
  pair_comparable, length, arith, Bool-cases,
}
use async_agreement_protocol.Base.Sorting.{sort, insert_sorted, length-sort}
use async_agreement_protocol.Certification.{CertificationProtocol}
use async_agreement_protocol.Certification.Pairs.{is_faulty_pair_comm}
use async_agreement_protocol.Ivss.Sets.{
  compatible, can_add, candidate_loop, candidate_set, verify_with, verify_pairs, verify_m_set,
}

module _ (equals : List (ℕ × ℕ)) (cp : CertificationProtocol) where
  compatible_comm : (u v : ℕ) → compatible equals cp u v ≡ compatible equals cp v u
  unfolding compatible
  compatible_comm u v = ground (arith, is_faulty_pair_comm u v cp)

  can_add-verify_with : (c : ℕ) (xs : List ℕ) → can_add equals cp c xs ≡ verify_with equals cp c xs
  unfolding can_add verify_with
  can_add-verify_with c [] = refl
  can_add-verify_with c (v ∷ vs) = ground (arith, can_add-verify_with c vs)

  verify_with-append :
      (u c : ℕ) (xs : List ℕ)
      → verify_with equals cp u (xs ++ c ∷ [])
        ≡ (verify_with equals cp u xs && compatible equals cp u c)
  unfolding verify_with
  verify_with-append u c [] = ground arith
  verify_with-append u c (v ∷ vs) = ground (arith, verify_with-append u c vs)

  verify_pairs-append :
      (c : ℕ) (xs : List ℕ)
      → verify_pairs equals cp (xs ++ c ∷ [])
        ≡ (verify_pairs equals cp xs && can_add equals cp c xs)
  unfolding verify_pairs can_add verify_with
  verify_pairs-append c [] = ground arith
  verify_pairs-append c (v ∷ vs) =
      ground (arith, verify_pairs-append c vs, verify_with-append v c vs, compatible_comm v c)

  verify_with-insert_sorted :
      (u a : ℕ) (xs : List ℕ)
      → verify_with equals cp u (insert_sorted a xs)
        ≡ (compatible equals cp u a && verify_with equals cp u xs)
  unfolding insert_sorted verify_with
  verify_with-insert_sorted u a [] = refl
  verify_with-insert_sorted u a (x ∷ xs) = ground (arith, verify_with-insert_sorted u a xs)

  verify_pairs-insert_sorted :
      (a : ℕ) (xs : List ℕ)
      → verify_pairs equals cp (insert_sorted a xs)
        ≡ (verify_with equals cp a xs && verify_pairs equals cp xs)
  unfolding insert_sorted verify_pairs verify_with
  verify_pairs-insert_sorted a [] = refl
  verify_pairs-insert_sorted a (x ∷ xs) = ground (
    arith,
    verify_pairs-insert_sorted a xs,
    verify_with-insert_sorted x a xs,
    compatible_comm x a,
  )

  verify_with-sort :
      (u : ℕ) (xs : List ℕ) → verify_with equals cp u (sort xs) ≡ verify_with equals cp u xs
  unfolding sort verify_with
  verify_with-sort u [] = refl
  verify_with-sort u (x ∷ xs) =
      ground (arith, verify_with-insert_sorted u x (sort xs), verify_with-sort u xs)

  verify_pairs-sort : (xs : List ℕ) → verify_pairs equals cp (sort xs) ≡ verify_pairs equals cp xs
  unfolding sort verify_pairs
  verify_pairs-sort [] = refl
  verify_pairs-sort (x ∷ xs) =
      ground
        (arith, verify_pairs-insert_sorted x (sort xs), verify_pairs-sort xs, verify_with-sort x xs)

  -- The loop keeps a set whose pairs are all compatible.
  loop_pairs :
      (rounds c : ℕ) (xs : List ℕ)
      → verify_pairs equals cp xs ≡ true
      → verify_pairs equals cp (candidate_loop equals cp rounds c xs) ≡ true
  unfolding candidate_loop
  loop_pairs zero c xs h = h
  loop_pairs (suc rounds) c xs h =
      loop_pairs rounds (suc c) _ (elim (Bool-cases (can_add equals cp c xs)) [
        | inl e ↦ rw e (rw (verify_pairs-append c xs, h, e) refl)
        | inr e ↦ rw e h
      ])

  pub candidate_set-pairs : (n : ℕ) → verify_pairs equals cp (candidate_set equals cp n) ≡ true
  unfolding candidate_set verify_pairs
  candidate_set-pairs n = loop_pairs n 1 [] refl

  -- With the same EQUALs and faulty pairs, `verifyMSet` accepts the sorted candidate set of the dealer,
  -- provided that it has at least n - t members.
  pub verify_m_set-candidate_set :
      (n t : ℕ)
      → n - t ≤ length (candidate_set equals cp n)
      → verify_m_set n t equals cp (sort (candidate_set equals cp n)) ≡ true
  unfolding verify_m_set candidate_set verify_pairs
  verify_m_set-candidate_set n t enough = ground (
    arith,
    length-sort (candidate_loop equals cp n 1 []),
    verify_pairs-sort (candidate_loop equals cp n 1 []),
    loop_pairs n 1 [] refl,
  )

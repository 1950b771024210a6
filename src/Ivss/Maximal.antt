-- ===== src/Ivss/Maximal.antt =====
-- services/ivss.go, `checkCandidateSet`: which processes the candidate set M leaves out.
use async_agreement_protocol.Base.{
  ℕ, zero, suc, ◌+◌, ◌-◌, ◌≤◌, ◌<◌, ◌≡◌, refl, sym, subst, inl, inr, true, false, List, [], ◌∷◌,
  ◌++◌, nat_comparable, pair_comparable, string_comparable, ltb, if◌then◌else◌, length, arith,
  Bool-cases,
}
use async_agreement_protocol.Base.Members.{contains, contains-append, Distinct}
use async_agreement_protocol.Base.Counting.{
  IsId, count_ids, count_ids_mono, count_ids-contains, AllIds,
}
use async_agreement_protocol.Certification.{CertificationProtocol}
use async_agreement_protocol.Ivss.Types.{IvssService, IvssInstance, IvssOutside}
use async_agreement_protocol.Ivss.Sets.{
  compatible, can_add, candidate_loop, candidate_set, verify_with, verify_pairs,
}
use async_agreement_protocol.Ivss.Service.{check_candidate_set}
use async_agreement_protocol.Ivss.Candidates.{candidate_set-pairs}

append_one-Distinct :
    (c : ℕ) (xs : List ℕ) → contains xs c ≡ false → Distinct xs → Distinct (xs ++ c ∷ [])
append_one-Distinct c [] h d = (refl, tt)
append_one-Distinct c (x ∷ xs) h d =
    ground (arith, append_one-Distinct c xs, contains-append xs (c ∷ []) x)

append_one-AllIds : (n c : ℕ) (xs : List ℕ) → IsId n c → AllIds n xs → AllIds n (xs ++ c ∷ [])
append_one-AllIds n c [] h d = (h, tt)
append_one-AllIds n c (x ∷ xs) h d = (d.0, append_one-AllIds n c xs h d.1)

AllIds-weaken : (n : ℕ) (xs : List ℕ) → AllIds n xs → AllIds (suc n) xs
AllIds-weaken n [] d = tt
AllIds-weaken n (x ∷ xs) d = ((d.0.0, omega (arith, d.0.1)), AllIds-weaken n xs d.1)

AllIds-no-suc : (n : ℕ) (xs : List ℕ) → AllIds n xs → contains xs (suc n) ≡ false
AllIds-no-suc n [] d = refl
AllIds-no-suc n (x ∷ xs) d = ground (arith, AllIds-no-suc n xs d.1)

module _ (equals : List (ℕ × ℕ)) (cp : CertificationProtocol) where
  can_add-append :
      (i c : ℕ) (xs : List ℕ)
      → can_add equals cp i xs ≡ false
      → can_add equals cp i (xs ++ c ∷ []) ≡ false
  unfolding can_add
  can_add-append i c [] h = cc
  can_add-append i c (x ∷ xs) h = ground (arith, can_add-append i c xs)

  loop_refuses :
      (i rounds c : ℕ) (xs : List ℕ)
      → can_add equals cp i xs ≡ false
      → can_add equals cp i (candidate_loop equals cp rounds c xs) ≡ false
  unfolding candidate_loop
  loop_refuses i zero c xs h = h
  loop_refuses i (suc rounds) c xs h =
      loop_refuses i rounds (suc c) _ (elim (Bool-cases (can_add equals cp c xs)) [
        | inl e ↦ rw e (can_add-append i c xs h)
        | inr e ↦ rw e h
      ])

  loop_keeps :
      (i rounds c : ℕ) (xs : List ℕ)
      → contains xs i ≡ true
      → contains (candidate_loop equals cp rounds c xs) i ≡ true
  unfolding candidate_loop
  loop_keeps i zero c xs h = h
  loop_keeps i (suc rounds) c xs h =
      loop_keeps i rounds (suc c) _ (elim (Bool-cases (can_add equals cp c xs)) [
        | inl e ↦ rw e (rw (contains-append xs (c ∷ []) i, h) refl)
        | inr e ↦ rw e h
      ])

  -- A candidate that is not taken stays refused.
  loop_refused :
      (rounds i : ℕ) (xs : List ℕ)
      → contains (candidate_loop equals cp (suc rounds) i xs) i ≡ false
      → can_add equals cp i (candidate_loop equals cp (suc rounds) i xs) ≡ false
  unfolding candidate_loop
  loop_refused rounds i xs h = elim (Bool-cases (can_add equals cp i xs)) [
    | inl e ↦ absurd (
        ground (
          arith,
          e,
          loop_keeps i rounds (suc i) (xs ++ i ∷ [])
              (rw (contains-append xs (i ∷ []) i) (ground arith)),
        ))
    | inr e ↦ rw e (loop_refuses i rounds (suc i) xs e)
  ]

  loop_decides :
      (i rounds c : ℕ) (xs : List ℕ)
      → c ≤ i
      → i < c + rounds
      → contains (candidate_loop equals cp rounds c xs) i ≡ false
      → can_add equals cp i (candidate_loop equals cp rounds c xs) ≡ false
  unfolding candidate_loop
  loop_decides i zero c xs low high h = absurd (omega arith)
  loop_decides i (suc rounds) c xs low high h = elim (Bool-cases (ltb c i)) [
    | inl less ↦ loop_decides i rounds (suc c) _ (ground arith) (omega arith) h
    | inr same ↦
        let e : c ≡ i = ground arith in
        subst
          (λ k.
            contains (candidate_loop equals cp (suc rounds) k xs) i ≡ false
            → can_add equals cp i (candidate_loop equals cp (suc rounds) k xs) ≡ false)
          (sym e) (loop_refused rounds i xs) h
  ]

  can_add_witness :
      (i : ℕ) (xs : List ℕ)
      → can_add equals cp i xs ≡ false
      → (v : ℕ) × (contains xs v ≡ true) × (compatible equals cp i v ≡ false)
  unfolding can_add
  can_add_witness i [] h = absurd (ground arith)
  can_add_witness i (x ∷ xs) h = elim (Bool-cases (compatible equals cp i x)) [
    | inl e ↦ let (v, m, q) = can_add_witness i xs (ground arith) in (v, ground arith, q)
    | inr e ↦ (x, ground arith, e)
  ]

  -- Each process of 1..n that the candidate set leaves out is incompatible with a member of it: an EQUAL
  -- of the two is missing in one direction, or the pair is known as faulty.
  pub candidate_set_maximal :
      (n i : ℕ)
      → IsId n i
      → contains (candidate_set equals cp n) i ≡ false
      → (v : ℕ) × (contains (candidate_set equals cp n) v ≡ true)
        × (compatible equals cp i v ≡ false)
  unfolding candidate_set
  candidate_set_maximal n i known out =
      can_add_witness i (candidate_loop equals cp n 1 [])
        (loop_decides i n 1 [] known.0 (omega (arith, known.1)) out)

  loop-Distinct :
      (rounds k : ℕ) (xs : List ℕ)
      → Distinct xs
      → AllIds k xs
      → Distinct (candidate_loop equals cp rounds (suc k) xs)
        × AllIds (k + rounds) (candidate_loop equals cp rounds (suc k) xs)
  unfolding candidate_loop
  loop-Distinct zero k xs d a = (d, subst (λ m. AllIds m xs) (omega arith) a)
  loop-Distinct (suc rounds) k xs d a =
      let step = if can_add equals cp (suc k) xs then xs ++ suc k ∷ [] else xs in
      let p : Distinct step × AllIds (suc k) step =
        elim (Bool-cases (can_add equals cp (suc k) xs)) [
          | inl e ↦ rw e (
            append_one-Distinct (suc k) xs (AllIds-no-suc k xs a) d,
            append_one-AllIds (suc k) (suc k) xs (omega arith) (AllIds-weaken k xs a),
          )
          | inr e ↦ rw e (d, AllIds-weaken k xs a)
        ] in
      let q = loop-Distinct rounds (suc k) step p.0 p.1 in
      (
        q.0,
        subst (λ m. AllIds m (candidate_loop equals cp rounds (suc (suc k)) step)) (omega arith)
            q.1,
      )

  loop_head :
      (rounds c x : ℕ) (xs : List ℕ)
      → (ys : List ℕ) × (candidate_loop equals cp rounds c (x ∷ xs) ≡ x ∷ ys)
  unfolding candidate_loop
  loop_head zero c x xs = (xs, refl)
  loop_head (suc rounds) c x xs = elim (Bool-cases (can_add equals cp c (x ∷ xs))) [
    | inl e ↦ rw e (loop_head rounds (suc c) x (xs ++ c ∷ []))
    | inr e ↦ rw e (loop_head rounds (suc c) x xs)
  ]

  verify_with-contains :
      (u i : ℕ) (xs : List ℕ)
      → verify_with equals cp u xs ≡ true
      → contains xs i ≡ true
      → compatible equals cp u i ≡ true
  unfolding verify_with
  verify_with-contains u i [] h m = absurd (ground arith)
  verify_with-contains u i (x ∷ xs) h m = ground (arith, verify_with-contains u i xs)

  -- With process 1 in the set, all others in it are compatible with process 1.
  few_compatible :
      (n : ℕ) (xs : List ℕ)
      → Distinct xs
      → AllIds n xs
      → verify_with equals cp 1 xs ≡ true
      → length xs ≤ count_ids (compatible equals cp 1) n
  few_compatible n xs d a h = omega (
    arith,
    count_ids-contains xs n d a,
    count_ids_mono (contains xs) (compatible equals cp 1) n
        (λ i k m. verify_with-contains 1 i xs h m),
  )

  -- At most the process 1 and those that are compatible with it.
  abbrev HasFew : ℕ → List ℕ → Type 0
  HasFew n xs =
      Distinct xs × AllIds n xs
      → verify_pairs equals cp xs ≡ true
      → length xs ≤ suc (count_ids (compatible equals cp 1) n)

  head_few : (n : ℕ) (ys : List ℕ) → HasFew n (1 ∷ ys)
  unfolding verify_pairs
  head_few n ys v h = omega (arith, few_compatible n ys v.0.1 v.1.1 (ground arith))

  length-candidate_set-le :
      (n : ℕ) → length (candidate_set equals cp n) ≤ suc (count_ids (compatible equals cp 1) n)
  unfolding candidate_set candidate_loop can_add
  length-candidate_set-le zero = omega arith
  length-candidate_set-le (suc n) =
      let (ys, e) = loop_head n 2 1 [] in
      let v = loop-Distinct (suc n) 0 [] tt tt in
      subst (HasFew (suc n)) (sym e) (head_few (suc n) ys)
        (v.0, subst (λ m. AllIds m (candidate_loop equals cp (suc n) 1 [])) (omega arith) v.1)
        (candidate_set-pairs equals cp (suc n))

-- As long as process 1 is compatible with fewer than n - t - 1 of 1..n (itself counted, if it is),
-- `checkCandidateSet` sends nothing, whatever EQUALs the others have.
pub check_candidate_set_blocked :
    (outside : IvssOutside) (s : IvssService) (inst : IvssInstance)
    → suc (count_ids (compatible inst.completed_equals s.cp 1) s.n) < s.n - s.t
    → check_candidate_set outside s inst ≡ []
unfolding check_candidate_set
check_candidate_set_blocked outside s inst few =
    ground (arith, length-candidate_set-le inst.completed_equals s.cp s.n)

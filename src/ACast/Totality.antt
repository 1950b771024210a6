-- ===== src/ACast/Totality.antt =====
-- What is sure once every honest process has handled what the honest ones broadcast.
use async_agreement_protocol.Base.{
  ℕ, ◌*◌, ◌+◌, ◌≤◌, ◌<◌, ◌≡◌, Bool, true, false, not, List, Comparable, nat_comparable, length,
  arith, inl, inr, subst, Bool-cases, ◌&&◌, ◌||◌, both,
}
use async_agreement_protocol.Base.Members.{contains}
use async_agreement_protocol.Base.Counting.{
  IsId, count_ids, count_ids_mono, count_ids-contains, count_ids-not, count_ids-and-or,
  count_ids-le,
}
use async_agreement_protocol.ACast.Defs.{MessageType, ready, voters}
use async_agreement_protocol.ACast.System.{View, sent, result, heard, Reach}
use async_agreement_protocol.ACast.Local.{AreVoters}
use async_agreement_protocol.ACast.Quorums.{Quorum, IsConsistent, Reach-IsConsistent}
use async_agreement_protocol.ACast.Agreement.{honest_ready, readies_agree}

module _ {ℓ} {V : Type ℓ} ⦃c : Comparable V⦄ (honest : ℕ → Bool) (n t : ℕ) where
  -- Every honest process has handled what the honest processes broadcast.
  abbrev pub Settled : (ℕ → View V) → Type ℓ
  Settled s =
      (i j : ℕ) (ty : MessageType) (v : V)
      → IsId n i
      → honest i ≡ true
      → honest j ≡ true
      → sent ty v (s i).log ≡ true
      → heard ty i v (s j).handled ≡ true

  module _ {s : ℕ → View V} (few : count_ids (λ i. not (honest i)) n ≤ t) (big : 3 * t < n)
      (k : IsConsistent honest n t s) where
    open k use {local, echo_backed, ready_backed, ready_quorum, result_quorum, heard_genuine}

    -- In a settled state a READY or ECHO of all honest processes is a vote of each.
    pub honest_votes :
        (votes : List ℕ)
        → AreVoters n votes
        → (p : ℕ → Bool) → ((i : ℕ) → IsId n i → p i ≡ true → contains votes i ≡ true)
        → count_ids p n ≤ length votes
    honest_votes votes ok p h =
        omega (arith, count_ids_mono p (contains votes) n h, count_ids-contains votes n ok.0 ok.1)

    pub honest_count : n ≤ count_ids honest n + t
    honest_count = omega (arith, few, count_ids-not honest n)

    member_count :
        (votes : List ℕ)
        → AreVoters n votes
        → length votes ≤ count_ids (λ i. contains votes i && honest i) n + t
    member_count votes ok = omega (
      arith,
      few,
      count_ids-and-or (contains votes) honest n,
      count_ids-not honest n,
      count_ids-le (λ i. contains votes i || honest i) n,
      count_ids-contains votes n ok.0 ok.1,
    )

    module _ (settled : Settled s) where
      -- Some READYs: t + 1 processes that were heard make an honest process send its own.
      ready_spreads :
          (v : V) (a : Quorum honest n t ready v (2 * t + 1) s) (j : ℕ)
          → honest j ≡ true
          → (s j).inst.sent_ready ≡ true
      ready_spreads v a j g = elim (Bool-cases (s j).inst.sent_ready) [
        | inl yes' ↦ yes'
        | inr no' ↦ absurd (
            omega (
              arith,
              (local j).acted.ready_short v no',
              a.enough,
              member_count a.members a.voters_ok,
              honest_votes (voters (s j).inst.received_ready v) ((local j).votes.ready_voters v)
                  (λ i. contains a.members i && honest i)
                  (λ i d e.
                    (local j).heard_all.ready_heard i v (undelivered no')
                      (settled i j ready v d (both e).1 g (a.backed i (both e).0 (both e).1))),
            ))
      ]
        where
          undelivered : (s j).inst.sent_ready ≡ false → (s j).inst.delivered ≡ false
          undelivered e = ground (arith, (local j).acted.ready_first)

      -- Where every honest process has sent READY for the value, every honest process delivers it.
      pub all_deliver :
          (v : V)
          → ((i : ℕ) → IsId n i → honest i ≡ true → sent ready v (s i).log ≡ true)
          → (j : ℕ) → honest j ≡ true
          → (s j).inst.delivered ≡ true
      all_deliver v all j g = elim (Bool-cases (s j).inst.delivered) [
        | inl yes' ↦ yes'
        | inr no' ↦ absurd (
            omega (
              arith,
              big,
              (local j).acted.result_short v no',
              honest_count,
              honest_votes (voters (s j).inst.received_ready v) ((local j).votes.ready_voters v)
                  honest
                  (λ i d e.
                    (local j).heard_all.ready_heard i v no'
                      (settled i j ready v d e g (all i d e))),
            ))
      ]

      -- The value that a process delivered is the one of any READY.
      delivers_it :
          (j i : ℕ) (v : V)
          → sent ready v (s i).log ≡ true
          → (s j).inst.delivered ≡ true
          → result v (s j).log ≡ true
      delivers_it j i v r d =
          let (w, h) = (local j).said.result_said d in
          let (x, g, rx) = honest_ready honest n t few big k j w h in
          subst (λ u. result u (s j).log ≡ true) (readies_agree honest n t few big k x i w v rx r) h

      pub total :
          (i j : ℕ) (v : V)
          → honest j ≡ true
          → result v (s i).log ≡ true
          → result v (s j).log ≡ true
      total i j v g h =
          let a = result_quorum i v h in
          let (x, gx, rx) = honest_ready honest n t few big k i v h in
          delivers_it j x v rx (
            all_deliver v
              (λ y d gy.
                let (w, r) = (local y).said.ready_said (ready_spreads v a y gy) in
                subst (λ u. sent ready u (s y).log ≡ true)
                  (readies_agree honest n t few big k y x w v r rx) r)
              j g)

  -- In a settled run of one broadcast of n processes, of which at most t are not honest and 3t < n,
  -- a value that one process delivers every honest process delivers.
  pub totality :
      {s : ℕ → View V}
      → count_ids (λ i. not (honest i)) n ≤ t
      → 3 * t < n
      → Reach honest n t s
      → Settled s
      → (i j : ℕ) (v : V) → honest j ≡ true
      → result v (s i).log ≡ true
      → result v (s j).log ≡ true
  totality few big r settled =
      total few big (Reach-IsConsistent honest n t few (omega arith) r) settled

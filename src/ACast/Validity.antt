-- ===== src/ACast/Validity.antt =====
-- An honest sender is heard: what it broadcasts under an identifier that nobody else uses is
-- delivered by every honest process.
use native.Mathlib.Decide.{ℕ_discrete}
use async_agreement_protocol.Base.{
  ℕ, ◌*◌, ◌≤◌, ◌<◌, ◌≡◌, Bool, true, false, not, Comparable, nat_comparable, arith, inl, inr, subst,
  Bool-cases, ◌&&◌, both,
}
use async_agreement_protocol.Base.Counting.{
  IsId, count_ids, honest_listed, count_ids_zero, count_ids_witness,
}
use async_agreement_protocol.ACast.Defs.{msg, echo, ready, voters}
use async_agreement_protocol.ACast.System.{View, sent, result, heard, Reach}
use async_agreement_protocol.ACast.Quorums.{IsConsistent, Reach-IsConsistent}
use async_agreement_protocol.ACast.Agreement.{honest_ready}
use async_agreement_protocol.ACast.Totality.{
  Settled, honest_votes, honest_count, all_deliver, total,
}

module _ {ℓ} {V : Type ℓ} ⦃c : Comparable V⦄ (honest : ℕ → Bool) (n t : ℕ) where
  -- Every MSG that an honest process handled carries this value.
  abbrev pub OnlyValue : V → (ℕ → View V) → Type ℓ
  OnlyValue v s = (j x : ℕ) (w : V) → honest j ≡ true → heard msg x w (s j).handled ≡ true → w ≡ v

  abbrev Undelivered : (ℕ → View V) → Type 0
  Undelivered s = (j : ℕ) → IsId n j → honest j ≡ true → (s j).inst.delivered ≡ false

  module _ {s : ℕ → View V} (few : count_ids (λ i. not (honest i)) n ≤ t) (big : 3 * t < n)
      (k : IsConsistent honest n t s) (settled : Settled honest n t s) where
    open k use {local, echo_backed, ready_backed, ready_quorum, result_quorum, heard_genuine}

    module _ (v : V) (only : OnlyValue v s) (i : ℕ) (known : IsId n i) (gi : honest i ≡ true)
        (sender : sent msg v (s i).log ≡ true) where
      -- No other value can be delivered, and none can be sent READY.
      only_value : (j : ℕ) (w : V) → sent ready w (s j).log ≡ true → w ≡ v
      only_value j w r =
          let a = ready_quorum j w r in
          let (y, d, e, gy) =
            honest_listed honest n t few a.members a.voters_ok.0 a.voters_ok.1
              (omega (arith, a.enough, big)) in
          let (x, hx) = (local y).heard_all.echo_origin w (a.backed y e gy) in only y x w gy hx

      all_echo : Undelivered s → (j : ℕ) → IsId n j → honest j ≡ true → sent echo v (s j).log ≡ true
      all_echo none' j d g =
          let (w, e) = (local j).said.echo_said (
            (local j).heard_all.msg_heard i v (none' j d g)
              (settled i j msg v known gi g sender)) in
          let (x, hx) = (local j).heard_all.echo_origin w e in
          subst (λ u. sent echo u (s j).log ≡ true) (only j x w g hx) e

      all_ready :
          Undelivered s → (j : ℕ) → IsId n j → honest j ≡ true → sent ready v (s j).log ≡ true
      all_ready none' j d g = elim (Bool-cases (s j).inst.sent_ready) [
        | inl yes' ↦
            let (w, r) = (local j).said.ready_said yes' in
            subst (λ u. sent ready u (s j).log ≡ true) (only_value j w r) r
        | inr no' ↦ absurd (
            omega (
              arith,
              (local j).acted.echo_short v no',
              honest_count honest n t few big k,
              honest_votes honest n t few big k (voters (s j).inst.received_echo v)
                  ((local j).votes.echo_voters v) honest
                  (λ y dy e.
                    (local j).heard_all.echo_heard y v (none' j d g)
                      (settled y j echo v dy e g (all_echo none' y dy e))),
            ))
      ]

      all_result : (j : ℕ) → honest j ≡ true → result v (s j).log ≡ true
      all_result j g = elim (ℕ_discrete (count_ids (λ y. honest y && (s y).inst.delivered) n) 0) [
        | yes e ↦ of_none (λ y d gy. ground (arith, count_ids_zero _ n y e d))
        | no e ↦
            let (y, d, h) =
              count_ids_witness (λ y. honest y && (s y).inst.delivered) n (omega arith) in
            of_one y (both h).1
      ]
        where
          of_one : (y : ℕ) → (s y).inst.delivered ≡ true → result v (s j).log ≡ true
          of_one y d =
              let (w, h) = (local y).said.result_said d in
              let (x, gx, rx) = honest_ready honest n t few big k y w h in
              total honest n t few big k settled y j v g
                (subst (λ u. result u (s y).log ≡ true) (only_value x w rx) h)

          of_none : Undelivered s → result v (s j).log ≡ true
          of_none none' =
              let d =
                all_deliver honest n t few big k settled v (λ y d gy. all_ready none' y d gy) j g in
              of_one j d

  -- In a settled run of one broadcast of n processes, of which at most t are not honest and 3t < n,
  -- if an honest process with an id in 1..n broadcast a MSG for the value and no MSG that an honest
  -- process handled carries another value, then every honest process delivers the value.
  pub validity :
      {s : ℕ → View V}
      → count_ids (λ i. not (honest i)) n ≤ t
      → 3 * t < n
      → Reach honest n t s
      → Settled honest n t s
      → (v : V) → OnlyValue v s
      → (i : ℕ) → IsId n i
      → honest i ≡ true
      → sent msg v (s i).log ≡ true
      → (j : ℕ) → honest j ≡ true
      → result v (s j).log ≡ true
  validity few big r settled =
      all_result few big (Reach-IsConsistent honest n t few (omega arith) r) settled

-- ===== src/ACast/Agreement.antt =====
-- The promises of the broadcast (pseudocode/acast.md, "Properties"), for every run of the code by
-- n processes of which at most t < n/3 are faulty.
use async_agreement_protocol.Base.{
  ℕ, ◌-◌, ◌*◌, ◌≤◌, ◌<◌, ◌≡◌, Bool, true, not, Comparable, nat_comparable, arith,
}
use async_agreement_protocol.Base.Counting.{count_ids, honest_listed, honest_shared}
use async_agreement_protocol.ACast.Defs.{msg, echo, ready}
use async_agreement_protocol.ACast.System.{View, sent, result, heard, Reach}
use async_agreement_protocol.ACast.Quorums.{Quorum, IsConsistent, Reach-IsConsistent}

module _ {ℓ} {V : Type ℓ} ⦃c : Comparable V⦄ (honest : ℕ → Bool) (n t : ℕ) where
  module _ {s : ℕ → View V} (few : count_ids (λ i. not (honest i)) n ≤ t) (big : 3 * t < n)
      (k : IsConsistent honest n t s) where
    open k use {local, echo_backed, ready_backed, ready_quorum, result_quorum, heard_genuine}

    -- Two quorums of ECHOs share an honest process, which sent one ECHO only.
    echo_quorums_agree :
        (v w : V) → Quorum honest n t echo v (n - t) s → Quorum honest n t echo w (n - t) s → v ≡ w
    echo_quorums_agree v w a b =
        let (i, in_a, in_b, g) =
          honest_shared honest n t few a.members b.members a.voters_ok.0 a.voters_ok.1 b.voters_ok.0
            b.voters_ok.1 big a.enough b.enough in
        (local i).said.echo_once v w (a.backed i in_a g) (b.backed i in_b g)

    pub readies_agree :
        (i j : ℕ) (v w : V) → sent ready v (s i).log ≡ true → sent ready w (s j).log ≡ true → v ≡ w
    readies_agree i j v w a b = echo_quorums_agree v w (ready_quorum i v a) (ready_quorum j w b)

    -- Behind a delivery stands an honest READY.
    pub honest_ready :
        (i : ℕ) (v : V)
        → result v (s i).log ≡ true
        → (j : ℕ) × (honest j ≡ true) × (sent ready v (s j).log ≡ true)
    honest_ready i v h =
        let a = result_quorum i v h in
        let (j, d, e, g) =
          honest_listed honest n t few a.members a.voters_ok.0 a.voters_ok.1
            (omega (arith, a.enough)) in
        (j, g, a.backed j e g)

    pub results_agree :
        (i j : ℕ) (v w : V) → result v (s i).log ≡ true → result w (s j).log ≡ true → v ≡ w
    results_agree i j v w a b =
        let (x, gx, rx) = honest_ready i v a in
        let (y, gy, ry) = honest_ready j w b in readies_agree x y v w rx ry

    -- Behind a delivery stands a MSG that an honest process handled.
    pub result_origin :
        (i : ℕ) (v : V)
        → result v (s i).log ≡ true
        → (j : ℕ) × (x : ℕ) × (honest j ≡ true)
          × (heard msg x v (s j).handled ≡ true)
          × (honest x ≡ true → sent msg v (s x).log ≡ true)
    result_origin i v h =
        let (j, g, r) = honest_ready i v h in
        let a = ready_quorum j v r in
        let (y, d, e, gy) =
          honest_listed honest n t few a.members a.voters_ok.0 a.voters_ok.1
            (omega (arith, a.enough)) in
        let (x, hx) = (local y).heard_all.echo_origin v (a.backed y e gy) in
        (y, x, gy, hx, heard_genuine y x msg v hx)

  -- In a run of one broadcast of n processes, of which at most t are not honest and 3t < n, if two
  -- processes deliver v and w, then v is w.
  pub agreement :
      {s : ℕ → View V}
      → count_ids (λ i. not (honest i)) n ≤ t
      → 3 * t < n
      → Reach honest n t s
      → (i j : ℕ) (v w : V) → result v (s i).log ≡ true
      → result w (s j).log ≡ true
      → v ≡ w
  agreement few big r = results_agree few big (Reach-IsConsistent honest n t few (omega arith) r)

  -- In a run of one broadcast of n processes, of which at most t are not honest and 3t < n, a
  -- delivered value came in a MSG that an honest process handled, and if that MSG names an honest
  -- process, then that process broadcast it.
  pub integrity :
      {s : ℕ → View V}
      → count_ids (λ i. not (honest i)) n ≤ t
      → 3 * t < n
      → Reach honest n t s
      → (i : ℕ) (v : V) → result v (s i).log ≡ true
      → (j : ℕ) × (x : ℕ) × (honest j ≡ true)
        × (heard msg x v (s j).handled ≡ true)
        × (honest x ≡ true → sent msg v (s x).log ≡ true)
  integrity few big r = result_origin few big (Reach-IsConsistent honest n t few (omega arith) r)

-- ===== src/ACast/Thresholds.antt =====
-- What one message can add to a process: a vote, a READY or a delivery that rests on a threshold.
use async_agreement_protocol.Base.{
  ℕ, ◌-◌, ◌*◌, ◌≤◌, ◌<◌, ◌≡◌, true, List, Comparable, nat_comparable, ◌==◌, length, arith,
  Bool-cases, inl, inr, ◌⊎◌,
}
use async_agreement_protocol.Base.Maps.{Map}
use async_agreement_protocol.Base.Members.{contains, contains-add}
use async_agreement_protocol.Base.Counting.{IsId}
use async_agreement_protocol.ACast.Defs.{MessageType, echo, ready, ACastMessage, voters, add_to_set}
use async_agreement_protocol.ACast.Votes.{voters-add_to_set, count-add_to_set}
use async_agreement_protocol.ACast.System.{View, sent, result, receive_view}
use async_agreement_protocol.ACast.Local.{AreVoters, add-AreVoters}
use async_agreement_protocol.ACast.LocalSteps.{receive-echo_map, receive-ready_map, voters_nil}

module _ {ℓ} {V : Type ℓ} ⦃c : Comparable V⦄ (n t : ℕ) (id : ℕ) (m : ACastMessage V)
    (p : View V) where
  abbrev pub q : View V
  q = receive_view id n t m p

  -- The votes for a value with that of the message.
  abbrev pub with_vote : Map V (List ℕ) → V → List ℕ
  with_vote votes v = voters (add_to_set votes m.val m.from).0 v

  -- A new READY rests on one of the two thresholds.
  pub receive-ready :
      (v : V)
      → sent ready v q.log ≡ true
      → (sent ready v p.log ≡ true)
        ⊎ ((m.type ≡ echo) × (n - t ≤ length (with_vote p.inst.received_echo v)))
        ⊎ ((m.type ≡ ready) × (t < length (with_vote p.inst.received_ready v)))
  unfolding receive_view
  receive-ready v h = ground (
    arith,
    c.equal_iff m.val v,
    voters-add_to_set p.inst.received_ready m.val v m.from,
    count-add_to_set p.inst.received_ready m.val m.from,
    voters-add_to_set p.inst.received_echo m.val v m.from,
    count-add_to_set p.inst.received_echo m.val m.from,
  )

  -- A new delivery rests on 2t + 1 READYs.
  pub receive-result :
      (v : V)
      → result v q.log ≡ true
      → (result v p.log ≡ true)
        ⊎ ((m.type ≡ ready) × (2 * t < length (with_vote p.inst.received_ready v)))
  unfolding receive_view
  receive-result v h = ground (
    arith,
    c.equal_iff m.val v,
    voters-add_to_set p.inst.received_ready m.val v m.from,
    count-add_to_set p.inst.received_ready m.val m.from,
  )

  pub sent-receive : (ty : MessageType) (v : V) → sent ty v p.log ≡ true → sent ty v q.log ≡ true
  unfolding receive_view
  sent-receive ty v h = ground arith

  pub with_vote_new :
      (votes : Map V (List ℕ)) (v : V) (i : ℕ)
      → contains (with_vote votes v) i ≡ true
      → (contains (voters votes v) i ≡ true) ⊎ ((m.val ≡ v) × (m.from ≡ i))
  with_vote_new votes v i h = ground (
    arith,
    c.equal_iff m.val v,
    voters-add_to_set votes m.val v m.from,
    contains-add m.from i (voters votes v),
  )

  pub with_vote-AreVoters :
      (votes : Map V (List ℕ)) (v : V)
      → IsId n m.from
      → AreVoters n (voters votes v)
      → AreVoters n (with_vote votes v)
  with_vote-AreVoters votes v k h = rw voters-add_to_set (elim (Bool-cases (m.val == v)) [
    | inl e ↦ rw e (add-AreVoters n m.from _ k h)
    | inr e ↦ rw e h
  ])

  -- A vote after the message is an old one, or that of the message.
  pub receive-echo_voter :
      (v : V) (i : ℕ)
      → contains (voters q.inst.received_echo v) i ≡ true
      → (contains (voters p.inst.received_echo v) i ≡ true)
        ⊎ ((m.type ≡ echo) × (contains (with_vote p.inst.received_echo v) i ≡ true))
  receive-echo_voter v i h = ground (arith, receive-echo_map n t id m p, voters_nil n t id m p v)

  pub receive-ready_voter :
      (v : V) (i : ℕ)
      → contains (voters q.inst.received_ready v) i ≡ true
      → (contains (voters p.inst.received_ready v) i ≡ true)
        ⊎ ((m.type ≡ ready) × (contains (with_vote p.inst.received_ready v) i ≡ true))
  receive-ready_voter v i h = ground (arith, receive-ready_map n t id m p, voters_nil n t id m p v)

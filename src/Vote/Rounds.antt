-- ===== src/Vote/Rounds.antt =====
-- What holds of the state of a round while its messages arrive, when every process has one VOTE1
-- bit and one REVOTE bit, the same for all receivers (this is what A-Cast is for).
use async_agreement_protocol.Base.{
  ℕ, ◌-◌, ◌≤◌, ◌≡◌, refl, inl, inr, true, not, ◌&&◌, List, arith, Bool-cases, length,
  nat_comparable, leb, leb→le, both,
}
use async_agreement_protocol.Base.Maps.{insert}
use async_agreement_protocol.Base.Int.{ℤ}
use async_agreement_protocol.Base.Counting.{IsId}
use async_agreement_protocol.Base.Sorting.{
  sort, contains-sort, length-sort, sort-Distinct, sort-AllIds,
}
use async_agreement_protocol.ACast.Local.{AreVoters}
use async_agreement_protocol.Vote.{
  VotePayloadType, VotePayload, input, vote1, revote, Ballot, VoteRoundState, Outside, Work, keys,
  valid_senders, valid_vote1s, store, phase1, phase2, phase3, check_progress, start_acast, finish,
}
use async_agreement_protocol.Vote.Ballots.{
  contains-keys-insert, keys-insert-AreVoters, valid_senders-keys, valid_senders-AreVoters, Carries,
  Subset, insert-Carries,
}

module _ (n t : ℕ) (vote rebit : ℕ → ℤ) where
  -- `myB` is a quorum of senders of VOTE1.
  pub record HasQuorum (st : VoteRoundState) : Type 0 where
    pub voters_b : AreVoters n st.my_b
    pub enough_b : n - t ≤ length st.my_b
    pub known_b : Subset st.my_b (keys st.received_vote1)

  pub record IsSound (st : VoteRoundState) : Type 0 where
    pub vote1_keys : AreVoters n (keys st.received_vote1)
    pub revote_keys : AreVoters n (keys st.received_revote)
    pub vote1_bits : Carries vote st.received_vote1
    pub revote_bits : Carries rebit st.received_revote
    pub quorum_b : st.sent_revote ≡ true → HasQuorum st

  -- A payload of a known sender with the bits of that sender.
  pub record IsFair (p : VotePayload) : Type 0 where
    pub known : IsId n p.sender
    pub vote1_bit : p.type ≡ vote1 → p.bit ≡ vote p.sender
    pub revote_bit : p.type ≡ revote → p.bit ≡ rebit p.sender

  store-quorum :
      (st : VoteRoundState) (k : ℕ) (b : Ballot)
      → HasQuorum st
      → HasQuorum (record st { received_vote1 = insert k b st.received_vote1 })
  store-quorum st k b h = record {
    voters_b = h.voters_b;
    enough_b = h.enough_b;
    known_b = λ j e. ground (arith, h.known_b j e, contains-keys-insert k j b st.received_vote1);
  }

  -- One case for each type of payload.
  store-at :
      (ty : VotePayloadType) (p : VotePayload) (st : VoteRoundState)
      → IsId n p.sender
      → (ty ≡ vote1 → p.bit ≡ vote p.sender)
      → (ty ≡ revote → p.bit ≡ rebit p.sender)
      → IsSound st
      → IsSound (store ty p st)
  unfolding store
  store-at input p st k v r h = record {
    vote1_keys = h.vote1_keys;
    revote_keys = h.revote_keys;
    vote1_bits = h.vote1_bits;
    revote_bits = h.revote_bits;
    quorum_b = λ s.
        let q = h.quorum_b s in
        record { voters_b = q.voters_b; enough_b = q.enough_b; known_b = q.known_b };
  }
  store-at vote1 p st k v r h = record {
    vote1_keys = keys-insert-AreVoters n p.sender _ st.received_vote1 k h.vote1_keys;
    revote_keys = h.revote_keys;
    vote1_bits = insert-Carries vote st.received_vote1 p.sender _ (v refl) h.vote1_bits;
    revote_bits = h.revote_bits;
    quorum_b = λ s. store-quorum st p.sender _ (h.quorum_b s);
  }
  store-at revote p st k v r h = record {
    vote1_keys = h.vote1_keys;
    revote_keys = keys-insert-AreVoters n p.sender _ st.received_revote k h.revote_keys;
    vote1_bits = h.vote1_bits;
    revote_bits = insert-Carries rebit st.received_revote p.sender _ (r refl) h.revote_bits;
    quorum_b = λ s.
        let q = h.quorum_b s in
        record { voters_b = q.voters_b; enough_b = q.enough_b; known_b = q.known_b };
  }

  -- Recording a payload of a known sender with the bits that it votes keeps a sound round sound.
  pub store-IsSound :
      (p : VotePayload) (st : VoteRoundState) → IsFair p → IsSound st → IsSound (store p.type p st)
  store-IsSound p st f h = store-at p.type p st f.known f.vote1_bit f.revote_bit h

  -- The votes that count are those of known senders.
  pub valid_vote1s-Subset :
      (st : VoteRoundState) → Subset (valid_vote1s st) (keys st.received_vote1)
  unfolding valid_vote1s
  valid_vote1s-Subset st j = valid_senders-keys st.received_vote1 (keys st.received_inputs) j

  pub valid_vote1s-AreVoters : (st : VoteRoundState) → IsSound st → AreVoters n (valid_vote1s st)
  unfolding valid_vote1s
  valid_vote1s-AreVoters st h = valid_senders-AreVoters n st.received_vote1 _ h.vote1_keys

  pub sort-AreVoters : (xs : List ℕ) → AreVoters n xs → AreVoters n (sort xs)
  sort-AreVoters xs h = (sort-Distinct xs h.0, sort-AllIds n xs h.1)

  -- The quorum that the second phase forms.
  new_quorum :
      (st : VoteRoundState)
      → IsSound st
      → n - t ≤ length (valid_vote1s st)
      → HasQuorum (record st { my_b = sort (valid_vote1s st); sent_revote = true })
  new_quorum st h e = record {
    voters_b = sort-AreVoters _ (valid_vote1s-AreVoters st h);
    enough_b = omega (arith, length-sort (valid_vote1s st));
    known_b = λ j q. valid_vote1s-Subset st j (rw contains-sort at q);
  }

  module _ (outside : Outside) (id : ℕ) (w : Work) (h : IsSound w.state) where
    phase1-IsSound : IsSound (phase1 outside id n t w).state
    unfolding phase1 start_acast
    phase1-IsSound =
        elim (Bool-cases (not w.state.sent_vote1 && leb (n - t) (length w.state.received_inputs))) [
          | inl e ↦ rw e (record {
            vote1_keys = h.vote1_keys;
            revote_keys = h.revote_keys;
            vote1_bits = h.vote1_bits;
            revote_bits = h.revote_bits;
            quorum_b = λ s.
                let q = h.quorum_b s in
                record { voters_b = q.voters_b; enough_b = q.enough_b; known_b = q.known_b };
          })
          | inr e ↦ rw e h
        ]

    phase2-IsSound : IsSound (phase2 outside id n t w).state
    unfolding phase2 start_acast
    phase2-IsSound =
        elim (Bool-cases (
          w.state.sent_vote1
          && not w.state.sent_revote
          && leb (n - t) (length (valid_vote1s w.state)))) [
            | inl e ↦ rw e (record {
              vote1_keys = h.vote1_keys;
              revote_keys = h.revote_keys;
              vote1_bits = h.vote1_bits;
              revote_bits = h.revote_bits;
              quorum_b = λ s.
                  let q = new_quorum w.state h (leb→le _ _ (both e).1) in
                  record { voters_b = q.voters_b; enough_b = q.enough_b; known_b = q.known_b };
            })
            | inr e ↦ rw e h
          ]

    phase3-IsSound : IsSound (phase3 n t w).state
    unfolding phase3 finish
    phase3-IsSound =
        elim (Bool-cases (
          w.state.sent_revote
          && leb (n - t) (length (valid_senders w.state.received_revote (valid_vote1s w.state))))) [
            | inl e ↦ rw e (record {
              vote1_keys = h.vote1_keys;
              revote_keys = h.revote_keys;
              vote1_bits = h.vote1_bits;
              revote_bits = h.revote_bits;
              quorum_b = λ s.
                  let q = h.quorum_b s in
                  record { voters_b = q.voters_b; enough_b = q.enough_b; known_b = q.known_b };
            })
            | inr e ↦ rw e h
          ]

  -- `checkProgress` keeps a sound round sound: known senders, each once, with the bits that they
  -- vote, and a quorum of them in myB once the REVOTE is sent.
  pub check_progress-IsSound :
      (outside : Outside) (id : ℕ) (w : Work)
      → IsSound w.state
      → IsSound (check_progress outside id n t w).state
  unfolding check_progress
  check_progress-IsSound outside id w h =
      let h1 = phase1-IsSound outside id w h in
      let h2 = phase2-IsSound outside id (phase1 outside id n t w) h1 in
      phase3-IsSound outside id (phase2 outside id n t (phase1 outside id n t w)) h2

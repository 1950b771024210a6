-- ===== src/Vote/Agreement.antt =====
-- Two processes that both leave a round with a value leave it with the same value.
use async_agreement_protocol.Base.{
  ℕ, ◌-◌, ◌*◌, ◌≤◌, ◌<◌, ◌≡◌, refl, sym, ◌∙◌, ◌≢◌, inl, inr, Bool, true, not, ◌&&◌, List, [], ◌∷◌,
  arith, Bool-cases, length, nat_comparable, leb, subst, ◌++◌, both, leb→le,
}
use async_agreement_protocol.Base.Int.{ℤ, minus_one}
use async_agreement_protocol.Base.Counting.{count_ids, honest_shared}
use async_agreement_protocol.Base.Sorting.{sort, contains-sort, length-sort}
use async_agreement_protocol.Context.{send_result}
use async_agreement_protocol.ACast.Local.{AreVoters}
use async_agreement_protocol.Vote.{
  VoteRoundState, VoteResult, Work, keys, valid_senders, valid_vote1s, decision, majority, phase3,
  finish,
}
use async_agreement_protocol.Vote.Decision.{
  AllEqual, IsBit, AreBits, Decision, strong, weak, null, decide_vote-Decision,
}
use async_agreement_protocol.Vote.Majority.{votes_of, majority_of_quorum, AllEqual-vote}
use async_agreement_protocol.Vote.Ballots.{
  Subset, bits_of-votes_of, valid_senders-AreVoters, valid_senders-keys,
}
use async_agreement_protocol.Vote.Rounds.{HasQuorum, IsSound, sort-AreVoters}

-- A REVOTE bit that is the majority of the votes of a quorum.
pub record IsJustified (n t : ℕ) (vote : ℕ → ℤ) (bit : ℤ) : Type 0 where
  pub members : List ℕ
  pub members_ok : AreVoters n members
  pub enough : n - t ≤ length members
  pub is_majority : bit ≡ majority (votes_of vote members)

votes_of-AreBits :
    (vote : ℕ → ℤ) (xs : List ℕ) → ((i : ℕ) → IsBit (vote i)) → AreBits (votes_of vote xs)
votes_of-AreBits vote [] h = tt
votes_of-AreBits vote (x ∷ xs) h = (h x, votes_of-AreBits vote xs h)

votes_of-ne-nil : (vote : ℕ → ℤ) (xs : List ℕ) → 0 < length xs → votes_of vote xs ≢ []
votes_of-ne-nil vote [] h e = absurd (omega arith)
votes_of-ne-nil vote (x ∷ xs) h e = cc

-- How a round with quorums B and C may end, by the bits that the processes sent.
data Ending (vote rebit : ℕ → ℤ) (b c : List ℕ) : ℤ × ℕ → Type 0 where
  by_votes : {σ : ℤ} → IsBit σ → AllEqual σ (votes_of vote b) → Ending vote rebit b c (σ, 2)
  by_revotes : {σ : ℤ} → IsBit σ → AllEqual σ (votes_of rebit c) → Ending vote rebit b c (σ, 1)
  by_nothing : Ending vote rebit b c (minus_one, 0)

AllEqual-IsBit : (σ : ℤ) (bs : List ℤ) → bs ≢ [] → AreBits bs → AllEqual σ bs → IsBit σ
AllEqual-IsBit σ [] n h a = absurd (n refl)
AllEqual-IsBit σ (b ∷ bs) n h a = subst IsBit a.0 h.0

append_last {ℓ} : {A : Type ℓ} (xs : List A) (a b : A) → xs ++ a ∷ [] ≡ xs ++ b ∷ [] → a ≡ b
append_last [] a b h = cc
append_last (x ∷ xs) a b h = append_last xs a b (cc)

append_more {ℓ} : {A : Type ℓ} (xs : List A) (a : A) → xs ≢ xs ++ a ∷ []
append_more [] a h = cc
append_more (x ∷ xs) a h = append_more xs a (cc)

-- The third phase finishes the round with this result.
abbrev pub Finishes : ℕ → ℕ → Work → VoteResult → Type 0
Finishes n t w r = (phase3 n t w).effects ≡ w.effects ++ send_result r ∷ []

Finishes-inv :
    (n t : ℕ) (w : Work) (r : VoteResult)
    → Finishes n t w r
    → (w.state.sent_revote ≡ true)
      × (n - t ≤ length (valid_senders w.state.received_revote (valid_vote1s w.state)))
      × ((decision w.state).0 ≡ r.value)
      × ((decision w.state).1 ≡ r.conf)
unfolding phase3 finish
Finishes-inv n t w r h =
    elim (Bool-cases (
      w.state.sent_revote
      && leb (n - t) (length (valid_senders w.state.received_revote (valid_vote1s w.state))))) [
        | inl e ↦
            let p = append_last w.effects _ _ (rw e at h) in
            ((both e).0, leb→le _ _ (both e).1, cc, cc)
        | inr e ↦ absurd (append_more w.effects _ (rw e at h))
      ]

module _ (honest : ℕ → Bool) (n t : ℕ) (vote rebit : ℕ → ℤ)
    (few : count_ids (λ i. not (honest i)) n ≤ t) (big : 3 * t < n)
    (vote_bits : (i : ℕ) → IsBit (vote i)) (rebit_bits : (i : ℕ) → IsBit (rebit i))
    (justified : (i : ℕ) → honest i ≡ true → IsJustified n t vote (rebit i)) where
  -- The senders of the REVOTEs that the third phase counts.
  abbrev revoters : VoteRoundState → List ℕ
  revoters st = sort (valid_senders st.received_revote (valid_vote1s st))

  -- The round is at its end: the condition of the third phase holds.
  pub record IsReady (st : VoteRoundState) : Type 0 where
    pub sound : IsSound n t vote rebit st
    pub sent : st.sent_revote ≡ true
    pub enough_c : n - t ≤ length (valid_senders st.received_revote (valid_vote1s st))

  module _ (st : VoteRoundState) (r : IsReady st) where
    b_ok : HasQuorum n t vote rebit st
    b_ok = r.sound.quorum_b r.sent

    c_voters : AreVoters n (revoters st)
    c_voters = sort-AreVoters n t vote rebit _ (valid_senders-AreVoters n _ _ r.sound.revote_keys)

    c_enough : n - t ≤ length (revoters st)
    c_enough =
        omega (arith, r.enough_c, length-sort (valid_senders st.received_revote (valid_vote1s st)))

    c_known : Subset (revoters st) (keys st.received_revote)
    c_known j e = valid_senders-keys st.received_revote (valid_vote1s st) j (rw contains-sort at e)

    of_Decision :
        {d : ℤ × ℕ}
        → Decision (votes_of vote st.my_b) (votes_of rebit (revoters st)) d
        → Ending vote rebit st.my_b (revoters st) d
    of_Decision (strong {σ} a) =
        by_votes
          (AllEqual-IsBit σ _ (votes_of-ne-nil vote _ (omega (arith, b_ok.enough_b, big)))
            (votes_of-AreBits vote _ vote_bits) a)
          a
    of_Decision (weak {σ} no' a) =
        by_revotes
          (AllEqual-IsBit σ _ (votes_of-ne-nil rebit _ (omega (arith, c_enough, big)))
            (votes_of-AreBits rebit _ rebit_bits) a)
          a
    of_Decision (null no' no'') = by_nothing

    ending : Ending vote rebit st.my_b (revoters st) (decision st)
    unfolding decision
    ending =
        rw
          (
            bits_of-votes_of vote st.received_vote1 st.my_b r.sound.vote1_bits b_ok.known_b,
            bits_of-votes_of rebit st.received_revote (revoters st) r.sound.revote_bits c_known,
          )
          (of_Decision (
            decide_vote-Decision _ _ (votes_of-AreBits vote _ vote_bits)
              (votes_of-AreBits rebit _ rebit_bits)
              (votes_of-ne-nil vote _ (omega (arith, b_ok.enough_b, big)))
              (votes_of-ne-nil rebit _ (omega (arith, c_enough, big)))))

  abbrev IsQuorum : List ℕ → Type 0
  IsQuorum xs = AreVoters n xs × (n - t ≤ length xs)

  -- Two quorums share an honest process.
  votes_meet :
      (bit : ℕ → ℤ) (b c : List ℕ) (σ τ : ℤ)
      → IsQuorum b
      → IsQuorum c
      → AllEqual σ (votes_of bit b)
      → AllEqual τ (votes_of bit c)
      → σ ≡ τ
  votes_meet bit b c σ τ q r x y =
      let (i, in_b, in_c, g) =
        honest_shared honest n t few b c q.0.0 q.0.1 r.0.0 r.0.1 big q.1 r.1 in
      sym (AllEqual-vote bit σ b i x in_b) ∙ AllEqual-vote bit τ c i y in_c

  -- The REVOTE of an honest process in the one quorum is the majority of the other.
  vote_meets_revote :
      (b c : List ℕ) (σ τ : ℤ)
      → IsQuorum b
      → IsQuorum c
      → IsBit σ
      → AllEqual σ (votes_of vote b)
      → AllEqual τ (votes_of rebit c)
      → σ ≡ τ
  vote_meets_revote b c σ τ q r bit x y =
      let (i, in_c, _, g) = honest_shared honest n t few c c r.0.0 r.0.1 r.0.0 r.0.1 big r.1 r.1 in
      let j = justified i g in
      sym (majority_of_quorum n t vote σ j.members b big j.members_ok j.enough q.0 q.1 x bit)
      ∙ sym j.is_majority
      ∙ AllEqual-vote rebit τ c i y in_c

  endings_agree :
      {b c b' c' : List ℕ} {d d' : ℤ × ℕ}
      → IsQuorum b × IsQuorum c
      → IsQuorum b' × IsQuorum c'
      → Ending vote rebit b c d
      → Ending vote rebit b' c' d'
      → 0 < d.1
      → 0 < d'.1
      → d.0 ≡ d'.0
  endings_agree q r (by_votes i x) (by_votes j y) p p' = votes_meet vote _ _ _ _ q.0 r.0 x y
  endings_agree q r (by_votes i x) (by_revotes j y) p p' = vote_meets_revote _ _ _ _ q.0 r.1 i x y
  endings_agree q r (by_revotes i x) (by_votes j y) p p' =
      sym (vote_meets_revote _ _ _ _ r.0 q.1 j y x)
  endings_agree q r (by_revotes i x) (by_revotes j y) p p' = votes_meet rebit _ _ _ _ q.1 r.1 x y
  endings_agree q r by_nothing e p p' = absurd (omega arith)
  endings_agree q r (by_votes i x) by_nothing p p' = absurd (omega arith)
  endings_agree q r (by_revotes i x) by_nothing p p' = absurd (omega arith)

  -- Where two processes end a round with a confidence above 0, their values are the same.
  decisions_agree :
      (st st' : VoteRoundState)
      → IsReady st
      → IsReady st'
      → 0 < (decision st).1
      → 0 < (decision st').1
      → (decision st).0 ≡ (decision st').0
  decisions_agree st st' r r' p p' =
      endings_agree (((b_ok st r).voters_b, (b_ok st r).enough_b), (c_voters st r, c_enough st r))
        (((b_ok st' r').voters_b, (b_ok st' r').enough_b), (c_voters st' r', c_enough st' r'))
        (ending st r) (ending st' r') p p'

  -- Where two processes with sound rounds finish with a confidence above 0, their values are the
  -- same. Of n processes at most t are not honest and 3t < n; each has one vote and one revote, all
  -- of them bits, the same for both rounds; and the revote of an honest process is the majority of
  -- the votes of a quorum.
  pub outcomes_agree :
      (w w' : Work) (r r' : VoteResult)
      → IsSound n t vote rebit w.state
      → IsSound n t vote rebit w'.state
      → Finishes n t w r
      → Finishes n t w' r'
      → 0 < r.conf
      → 0 < r'.conf
      → r.value ≡ r'.value
  outcomes_agree w w' r r' h h' f f' p p' =
      let (s, e, v, k) = Finishes-inv n t w r f in
      let (s', e', v', k') = Finishes-inv n t w' r' f' in
      sym v
      ∙ decisions_agree w.state w'.state (record { sound = h; sent = s; enough_c = e })
          (record { sound = h'; sent = s'; enough_c = e' }) (omega (arith, k)) (omega (arith, k'))
      ∙ v'

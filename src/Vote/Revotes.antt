-- ===== src/Vote/Revotes.antt =====
-- services/vote.go: the REVOTE that the second phase sends.
use async_agreement_protocol.Base.{
  ℕ, ◌-◌, ◌*◌, ◌≤◌, ◌<◌, ◌≡◌, ◌⊎◌, true, not, List, length, nat_comparable, ap,
}
use async_agreement_protocol.Base.Int.{ℤ, pos}
use async_agreement_protocol.Base.Counting.{count_list}
use async_agreement_protocol.Base.Sorting.{sort}
use async_agreement_protocol.Vote.{
  VoteRoundState, bits_of, valid_vote1s, majority, VotePayload, revote,
}
use async_agreement_protocol.Vote.Majority.{is_zero}
use async_agreement_protocol.Vote.Ballots.{bits_of-votes_of}
use async_agreement_protocol.Vote.Rounds.{IsSound, valid_vote1s-AreVoters, valid_vote1s-Subset}
use async_agreement_protocol.Vote.Agreement.{IsJustified}

justified_bit :
    (n t : ℕ) (vote rebit : ℕ → ℤ) (st : VoteRoundState)
    → IsSound n t vote rebit st
    → n - t ≤ length (valid_vote1s st)
    → IsJustified n t vote (majority (bits_of st.received_vote1 (valid_vote1s st)))
justified_bit n t vote rebit st h e = record {
  members = valid_vote1s st;
  members_ok = valid_vote1s-AreVoters n t vote rebit st h;
  enough = e;
  is_majority = ap majority (
      bits_of-votes_of vote st.received_vote1 (valid_vote1s st) h.vote1_bits
        (valid_vote1s-Subset n t vote rebit st));
}

-- More than half of the processes `xs` vote 1 if `bit` is 1, and at most half of them if it is 0.
abbrev pub IsMajority : (ℕ → ℤ) → List ℕ → ℤ → Type 0
IsMajority vote xs bit =
    ((bit ≡ pos 1) × (length xs < 2 * count_list (λ i. not (is_zero vote i)) xs))
    ⊎ ((bit ≡ pos 0) × (2 * count_list (λ i. not (is_zero vote i)) xs ≤ length xs))

-- The REVOTE of the process `id` with this bit, and the round after it is sent.
abbrev pub revote_of : ℕ → VoteRoundState → ℤ → VotePayload
revote_of id st bit = record {
  type = revote;
  sender = id;
  bit = bit;
  set = sort (valid_vote1s st);
  round = st.round;
}

abbrev pub revoted : VoteRoundState → VoteRoundState
revoted st = record st { my_b = sort (valid_vote1s st); sent_revote = true }

-- ===== src/Vote/Majority.antt =====
-- Majorities over quorums: a quorum that votes as one fixes the majority of every other quorum.
use async_agreement_protocol.Base.{
  ℕ, ◌+◌, ◌-◌, ◌*◌, ◌≤◌, ◌<◌, ◌≡◌, refl, inl, inr, Bool, true, false, not, ◌&&◌, List, [], ◌∷◌,
  arith, Bool-cases, length, nat_comparable, both,
}
use async_agreement_protocol.Base.Int.{ℤ, pos, int_comparable, int_eq}
use async_agreement_protocol.Base.Members.{contains}
use async_agreement_protocol.Base.Counting.{
  IsId, count_list, count_ids-count_list, count_ids_mono, count_ids-not, count_ids-contains,
}
use async_agreement_protocol.ACast.Local.{AreVoters}
use async_agreement_protocol.Vote.{zeros, ones, majority}
use async_agreement_protocol.Vote.Decision.{AllEqual, IsBit}

-- The votes of these processes, where process `i` votes `vote i`.
abbrev pub votes_of : (ℕ → ℤ) → List ℕ → List ℤ
votes_of vote [] = []
votes_of vote (i ∷ is) = vote i ∷ votes_of vote is

abbrev pub is_zero : (ℕ → ℤ) → ℕ → Bool
is_zero vote i = int_eq (vote i) (pos 0)

pub zeros-votes_of :
    (vote : ℕ → ℤ) (xs : List ℕ) → zeros (votes_of vote xs) ≡ count_list (is_zero vote) xs
unfolding zeros count_list
zeros-votes_of vote [] = refl
zeros-votes_of vote (x ∷ xs) = ground (arith, zeros-votes_of vote xs)

pub ones-votes_of :
    (vote : ℕ → ℤ) (xs : List ℕ)
    → ones (votes_of vote xs) ≡ count_list (λ i. not (is_zero vote i)) xs
unfolding ones count_list
ones-votes_of vote [] = refl
ones-votes_of vote (x ∷ xs) = ground (arith, ones-votes_of vote xs)

pub count_list-split :
    (p : ℕ → Bool) (xs : List ℕ) → count_list p xs + count_list (λ i. not (p i)) xs ≡ length xs
unfolding count_list
count_list-split p [] = refl
count_list-split p (x ∷ xs) = ground (arith, count_list-split p xs)

pub AllEqual-vote :
    (vote : ℕ → ℤ) (σ : ℤ) (ys : List ℕ) (i : ℕ)
    → AllEqual σ (votes_of vote ys)
    → contains ys i ≡ true
    → vote i ≡ σ
AllEqual-vote vote σ [] i a h = ground arith
AllEqual-vote vote σ (y ∷ ys) i a h = ground (arith, AllEqual-vote vote σ ys i a.1)

-- Few processes of a quorum vote otherwise than another quorum that votes as one.
few_others :
    (n t : ℕ) (vote : ℕ → ℤ) (σ : ℤ) (xs ys : List ℕ) (other : ℕ → Bool)
    → AreVoters n xs
    → AreVoters n ys
    → n - t ≤ length ys
    → AllEqual σ (votes_of vote ys)
    → ((i : ℕ) → vote i ≡ σ → other i ≡ false)
    → count_list other xs ≤ t
few_others n t vote σ xs ys other vx vy enough all h = omega (
  arith,
  count_ids-count_list other xs n vx.0 vx.1,
  count_ids_mono (λ i. contains xs i && other i) (λ i. not (contains ys i)) n outside,
  count_ids-not (contains ys) n,
  count_ids-contains ys n vy.0 vy.1,
)
  where
    outside : (i : ℕ) → IsId n i → (contains xs i && other i) ≡ true → not (contains ys i) ≡ true
    outside i d q = elim (Bool-cases (contains ys i)) [
      | inl e ↦ absurd (contradiction (h i (AllEqual-vote vote σ ys i all e)))
      | inr e ↦ rw e
    ]
      where
        contradiction : other i ≡ false → ⊥
        contradiction e = let p : other i ≡ true = (both {a = contains xs i} q).1 in cc

-- If 3t < n and n - t different processes all vote the bit σ, then the majority of the votes of any
-- n - t different processes is σ.
pub majority_of_quorum :
    (n t : ℕ) (vote : ℕ → ℤ) (σ : ℤ) (xs ys : List ℕ)
    → 3 * t < n
    → AreVoters n xs
    → n - t ≤ length xs
    → AreVoters n ys
    → n - t ≤ length ys
    → AllEqual σ (votes_of vote ys)
    → IsBit σ
    → majority (votes_of vote xs) ≡ σ
unfolding majority
majority_of_quorum n t vote σ xs ys big vx nx vy ny all (inl e) = ground (
  arith,
  zeros-votes_of vote xs,
  ones-votes_of vote xs,
  count_list-split (is_zero vote) xs,
  few_others n t vote σ xs ys (λ i. not (is_zero vote i)) vx vy ny all (λ i q. ground arith),
)
majority_of_quorum n t vote σ xs ys big vx nx vy ny all (inr e) = ground (
  arith,
  zeros-votes_of vote xs,
  ones-votes_of vote xs,
  count_list-split (is_zero vote) xs,
  few_others n t vote σ xs ys (is_zero vote) vx vy ny all (λ i q. ground arith),
)

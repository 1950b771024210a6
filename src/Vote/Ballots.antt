-- ===== src/Vote/Ballots.antt =====
-- services/vote.go: the ballots that a round stores, and the bits of their senders.
use async_agreement_protocol.Base.{
  ℕ, ◌≡◌, refl, inl, inr, true, ◌||◌, List, [], ◌∷◌, arith, Bool-cases, nat_comparable, some, eqb,
}
use async_agreement_protocol.Base.Maps.{Map, lookup, insert, lookup-insert}
use async_agreement_protocol.Base.Int.{ℤ}
use async_agreement_protocol.Base.Members.{contains}
use async_agreement_protocol.Base.Counting.{IsId}
use async_agreement_protocol.ACast.Local.{AreVoters}
use async_agreement_protocol.Vote.{Ballot, keys, bit_of, bits_of, valid_senders}
use async_agreement_protocol.Vote.Majority.{votes_of}

module _ {ℓ} {V : Type ℓ} where
  pub contains-keys-insert :
      (k j : ℕ) (v : V) (m : Map ℕ V)
      → contains (keys (insert k v m)) j ≡ (eqb k j || contains (keys m) j)
  unfolding keys insert
  contains-keys-insert k j v [] = refl
  contains-keys-insert k j v ((i, w) ∷ m) = ground (arith, contains-keys-insert k j v m)

  pub keys-insert-AreVoters :
      (n k : ℕ) (v : V) (m : Map ℕ V)
      → IsId n k
      → AreVoters n (keys m)
      → AreVoters n (keys (insert k v m))
  unfolding keys insert
  keys-insert-AreVoters n k v [] d h = ((refl, tt), (d, tt))
  keys-insert-AreVoters n k v ((i, w) ∷ m) d h =
      ground (arith, keys-insert-AreVoters n k v m d (h.0.1, h.1.1), contains-keys-insert k i v m)

  lookup-keys : (m : Map ℕ V) (j : ℕ) → contains (keys m) j ≡ true → (v : V) × (lookup j m ≡ some v)
  unfolding keys lookup
  lookup-keys [] j h = absurd (ground arith)
  lookup-keys ((i, w) ∷ m) j h = elim (Bool-cases (eqb i j)) [
    | inl e ↦ (w, ground arith)
    | inr e ↦ let (v, q) = lookup-keys m j (ground arith) in (v, ground arith)
  ]

pub valid_senders-keys :
    (m : Map ℕ Ballot) (known : List ℕ) (j : ℕ)
    → contains (valid_senders m known) j ≡ true
    → contains (keys m) j ≡ true
unfolding valid_senders keys
valid_senders-keys [] known j h = h
valid_senders-keys ((i, b) ∷ m) known j h = ground (arith, valid_senders-keys m known j)

pub valid_senders-AreVoters :
    (n : ℕ) (m : Map ℕ Ballot) (known : List ℕ)
    → AreVoters n (keys m)
    → AreVoters n (valid_senders m known)
unfolding valid_senders keys
valid_senders-AreVoters n [] known h = (tt, tt)
valid_senders-AreVoters n ((i, b) ∷ m) known h =
    ground (arith, valid_senders-AreVoters n m known (h.0.1, h.1.1), valid_senders-keys m known i)

-- The ballots of a map carry these bits.
abbrev pub Carries : (ℕ → ℤ) → Map ℕ Ballot → Type 0
Carries vote m = (j : ℕ) (b : Ballot) → lookup j m ≡ some b → b.bit ≡ vote j

abbrev pub Subset : List ℕ → List ℕ → Type 0
Subset xs ys = (j : ℕ) → contains xs j ≡ true → contains ys j ≡ true

pub insert-Carries :
    (vote : ℕ → ℤ) (m : Map ℕ Ballot) (k : ℕ) (b : Ballot)
    → b.bit ≡ vote k
    → Carries vote m
    → Carries vote (insert k b m)
insert-Carries vote m k b e h j c q = ground (arith, h j c, lookup-insert k j b m)

pub bits_of-votes_of :
    (vote : ℕ → ℤ) (m : Map ℕ Ballot) (xs : List ℕ)
    → Carries vote m
    → Subset xs (keys m)
    → bits_of m xs ≡ votes_of vote xs
unfolding bits_of bit_of
bits_of-votes_of vote m [] h s = refl
bits_of-votes_of vote m (x ∷ xs) h s =
    let (b, q) = lookup-keys m x (s x (ground arith)) in
    ground (arith, q, h x b, bits_of-votes_of vote m xs h (λ j e. s j (ground arith)))

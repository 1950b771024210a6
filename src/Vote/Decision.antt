-- ===== src/Vote/Decision.antt =====
-- The decision logic of a round, against the description in pseudocode/vote.md.
use async_agreement_protocol.Base.{
  ℕ, ◌≡◌, refl, ◌≢◌, ◌⊎◌, inl, inr, true, false, List, [], ◌∷◌, arith, Bool-cases, sym,
}
use async_agreement_protocol.Base.Int.{ℤ, pos, minus_one, int_comparable, int_eq_iff, int_eq}
use async_agreement_protocol.Vote.{same_values, decide_vote}

abbrev pub AllEqual : ℤ → List ℤ → Type 0
AllEqual σ [] = Unit {0}
AllEqual σ (b ∷ bs) = (b ≡ σ) × AllEqual σ bs

-- Every value is 0 or 1, and there is one.
abbrev pub IsBit : ℤ → Type 0
IsBit b = (b ≡ pos 0) ⊎ (b ≡ pos 1)

abbrev pub AreBits : List ℤ → Type 0
AreBits [] = Unit {0}
AreBits (b ∷ bs) = IsBit b × AreBits bs

-- What pseudocode/vote.md returns for the votes in B and the revotes in C.
pub data Decision (bs cs : List ℤ) : ℤ × ℕ → Type 0 where
  strong : {σ : ℤ} → AllEqual σ bs → Decision bs cs (σ, 2)
  weak : {σ : ℤ} → ((τ : ℤ) → ¬ (AllEqual τ bs)) → AllEqual σ cs → Decision bs cs (σ, 1)
  null :
      ((τ : ℤ) → ¬ (AllEqual τ bs)) → ((τ : ℤ) → ¬ (AllEqual τ cs)) → Decision bs cs (minus_one, 0)

Bit-ne-minus_one : (b : ℤ) → IsBit b → int_eq b minus_one ≡ false
Bit-ne-minus_one b h = ground arith

same_values_lem :
    (first : ℤ) (bs : List ℤ)
    → int_eq first minus_one ≡ false
    → ((same_values first bs ≡ (first, true)) × AllEqual first bs)
      ⊎ ((same_values first bs ≡ (first, false)) × ¬ (AllEqual first bs))
unfolding same_values
same_values_lem first [] h = inl (refl, tt)
same_values_lem first (b ∷ bs) h = elim (Bool-cases (int_eq first b)) [
  | inl e ↦ elim (same_values_lem first bs h) [
    | inl (r, a) ↦ inl (rw (h, e) r, (sym ((int_eq_iff first b).0 e), a))
    | inr (r, a) ↦ inr (rw (h, e) r, λ k. a k.1)
  ]
  | inr e ↦ inr (rw (h, e) refl, λ k. ground (arith, int_eq_iff first b))
]

-- The loop over at least one bit: the common value, or the news that there is none.
values_lem :
    (b : ℤ) (bs : List ℤ)
    → AreBits (b ∷ bs)
    → (AllEqual b (b ∷ bs) × (same_values minus_one (b ∷ bs) ≡ (b, true)))
      ⊎ (((τ : ℤ) → ¬ (AllEqual τ (b ∷ bs))) × (same_values minus_one (b ∷ bs) ≡ (b, false)))
values_lem b bs h = elim (same_values_lem b bs (Bit-ne-minus_one b h.0)) [
  | inl (r, a) ↦ inl ((refl, a), unfold same_values in r)
  | inr (r, a) ↦ inr (λ τ k. a (rw k.0 k.1), unfold same_values in r)
]

decide_strong :
    (b : ℤ) (bs cs : List ℤ)
    → IsBit b
    → same_values minus_one bs ≡ (b, true)
    → decide_vote bs cs ≡ (b, 2)
unfolding decide_vote
decide_strong b bs cs h r = rw (r, Bit-ne-minus_one b h)

decide_weak :
    (b d : ℤ) (bs cs : List ℤ)
    → IsBit d
    → same_values minus_one bs ≡ (b, false)
    → same_values minus_one cs ≡ (d, true)
    → decide_vote bs cs ≡ (d, 1)
unfolding decide_vote
decide_weak b d bs cs h r q = rw (r, q, Bit-ne-minus_one d h)

decide_null :
    (b d : ℤ) (bs cs : List ℤ)
    → same_values minus_one bs ≡ (b, false)
    → same_values minus_one cs ≡ (d, false)
    → decide_vote bs cs ≡ (minus_one, 0)
unfolding decide_vote
decide_null b d bs cs r q = rw (r, q)

-- For at least one vote and one revote, all of them bits, the code returns what the pseudocode
-- describes: (σ, 2) where all votes are σ; else (σ, 1) where all revotes are σ; else no value.
pub decide_vote-Decision :
    (bs cs : List ℤ)
    → AreBits bs
    → AreBits cs
    → bs ≢ []
    → cs ≢ []
    → Decision bs cs (decide_vote bs cs)
decide_vote-Decision [] cs hb hc b c = absurd (b refl)
decide_vote-Decision (b ∷ bs) [] hb hc nb nc = absurd (nc refl)
decide_vote-Decision (b ∷ bs) (d ∷ cs) hb hc nb nc = elim (values_lem b bs hb) [
  | inl (all, r) ↦ rw (decide_strong b _ (d ∷ cs) hb.0 r) (strong all)
  | inr (mixed, r) ↦ elim (values_lem d cs hc) [
    | inl (all, q) ↦ rw (decide_weak b d _ _ hc.0 r q) (weak mixed all)
    | inr (mixed_c, q) ↦ rw (decide_null b d _ _ r q) (null mixed mixed_c)
  ]
]

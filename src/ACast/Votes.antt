-- ===== src/ACast/Votes.antt =====
-- The vote maps of `addToSet`: what a vote changes, and what stays true of the voters.
use async_agreement_protocol.Base.{
  ℕ, ◌≡◌, refl, true, List, [], ◌∷◌, Comparable, nat_comparable, ◌==◌, if◌then◌else◌, length, arith,
}
use async_agreement_protocol.Base.Maps.{Map, lookup-insert}
use async_agreement_protocol.Base.Members.{add, contains}
use async_agreement_protocol.Base.Counting.{IsId, AllIds}
use async_agreement_protocol.ACast.Defs.{voters, add_to_set}

pub add-AllIds : (n i : ℕ) (xs : List ℕ) → IsId n i → AllIds n xs → AllIds n (add i xs)
unfolding add
add-AllIds n i xs h a = ground arith

AllIds-member : (n i : ℕ) (xs : List ℕ) → AllIds n xs → contains xs i ≡ true → IsId n i
AllIds-member n i [] a h = ground arith
AllIds-member n i (x ∷ xs) a h = ground (arith, AllIds-member n i xs a.1)

module _ {ℓ} {V : Type ℓ} ⦃c : Comparable V⦄ where
  -- A vote reaches the voters of its own value, and no others.
  pub voters-add_to_set :
      (m : Map V (List ℕ)) (val w : V) (i : ℕ)
      → voters (add_to_set m val i).0 w ≡ (if val == w then add i (voters m w) else voters m w)
  unfolding voters add_to_set
  voters-add_to_set m val w i =
      ground (arith, lookup-insert val w (add i (voters m val)) m, c.equal_iff val w)

  pub count-add_to_set :
      (m : Map V (List ℕ)) (val : V) (i : ℕ)
      → (add_to_set m val i).1 ≡ length (add i (voters m val))
  unfolding add_to_set
  count-add_to_set m val i = refl

-- ===== src/Aba/Pending.antt =====
-- services/aba.go: how many rounds can begin within one call. Only buffered messages of a round
-- bring its coin before the call that began it ends, so each round but the last has such messages.
use async_agreement_protocol.Base.{
  ℕ, suc, ◌≤◌, ◌<◌, ◌≡◌, refl, Bool, true, false, some, [], ◌∷◌, arith, nat_comparable, leb, length,
  if◌then◌else◌,
}
use async_agreement_protocol.Base.Maps.{Map, lookup, erase}
use async_agreement_protocol.Aba.Types.{AbaService, AbaEffects}
use async_agreement_protocol.Aba.Service.{
  Ending, done, blocked, crashed, out_of_fuel, after, emit, Restart,
}

-- The entries under the keys from `r` on.
abbrev pub pending {ℓ} : {V : Type ℓ} → ℕ → Map ℕ V → ℕ
pending r [] = 0
pending r ((k, v) ∷ m) = let rest = pending r m in if leb r k then suc rest else rest

pub pending-erase {ℓ} : {V : Type ℓ} (r k : ℕ) (m : Map ℕ V) → pending r (erase k m) ≤ pending r m
unfolding erase
pending-erase r k [] = omega arith
pending-erase r k ((j, v) ∷ m) = ground (arith, pending-erase r k m)

pub pending_le {ℓ} : {V : Type ℓ} (r s : ℕ) (m : Map ℕ V) → r ≤ s → pending s m ≤ pending r m
pending_le r s [] h = omega arith
pending_le r s ((j, v) ∷ m) h = ground (arith, pending_le r s m h)

pub pending-suc {ℓ} :
    {V : Type ℓ} (r : ℕ) (v : V) (m : Map ℕ V)
    → lookup r m ≡ some v
    → pending (suc r) m < pending r m
unfolding lookup
pending-suc r v [] h = ground arith
pending-suc r v ((j, w) ∷ m) h = ground (arith, pending-suc r v m, pending_le r (suc r) m, h)

pub pending-length {ℓ} : {V : Type ℓ} (r : ℕ) (m : Map ℕ V) → pending r m ≤ length m
pending-length r [] = omega arith
pending-length r ((j, w) ∷ m) = ground (arith, pending-length r m)

module _ {S M : Type 0} where
  -- The round goes on, and buffered messages only become fewer.
  abbrev pub Advances : AbaService S M → AbaService S M → Type 0
  Advances a b = (a.round ≤ b.round) × ((r : ℕ) → pending r b.future_msgs ≤ pending r a.future_msgs)

  abbrev pub EndsIn : AbaService S M → Ending S M → Type 0
  EndsIn a (done b es) = Advances a b
  EndsIn a blocked = Unit {0}
  EndsIn a crashed = Unit {0}
  EndsIn a out_of_fuel = 1 ≤ 0

  pub same_Advances :
      (a b : AbaService S M) → b.round ≡ a.round → b.future_msgs ≡ a.future_msgs → Advances a b
  same_Advances a b e f = (omega (arith, e), λ r. rw f (omega arith))

  pub Advances-trans : (a b c : AbaService S M) → Advances a b → Advances b c → Advances a c
  Advances-trans a b c p q = (omega (arith, p.0, q.0), λ r. omega (arith, p.1 r, q.1 r))

  pub from_Advances :
      (a b : AbaService S M) (e : Ending S M) → Advances a b → EndsIn b e → EndsIn a e
  from_Advances a b (done c es) p q = Advances-trans a b c p q
  from_Advances a b blocked p q = tt
  from_Advances a b crashed p q = tt
  from_Advances a b out_of_fuel p q = q

  pub emit-EndsIn :
      (a : AbaService S M) (es : AbaEffects M) (e : Ending S M) → EndsIn a e → EndsIn a (emit es e)
  unfolding emit
  emit-EndsIn a es (done b rest) p = p
  emit-EndsIn a es blocked p = tt
  emit-EndsIn a es crashed p = tt
  emit-EndsIn a es out_of_fuel p = p

  pub after-EndsIn :
      (a : AbaService S M) (e : Ending S M) (next : AbaService S M → Ending S M)
      → EndsIn a e
      → ((b : AbaService S M) → Advances a b → EndsIn b (next b))
      → EndsIn a (after e next)
  unfolding after
  after-EndsIn a (done b es) next p q =
      emit-EndsIn a es (next b) (from_Advances a b (next b) p (q b p))
  after-EndsIn a blocked next p q = tt
  after-EndsIn a crashed next p q = tt
  after-EndsIn a out_of_fuel next p q = p

  pub if-EndsIn :
      (a : AbaService S M) (test : Bool) (x y : Ending S M)
      → EndsIn a x
      → EndsIn a y
      → EndsIn a (if test then x else y)
  if-EndsIn a true x y p q = p
  if-EndsIn a false x y p q = q

  pub idle : (a : AbaService S M) → EndsIn a (done a [])
  idle a = same_Advances a a refl refl

  -- What is left for the rounds after `r`.
  abbrev pub HasFuel : ℕ → ℕ → AbaService S M → Type 0
  HasFuel r fuel a = (r ≤ a.round) × (pending (suc r) a.future_msgs < fuel)

  abbrev pub RestartsIn : Restart S M → ℕ → ℕ → Type 0
  RestartsIn restart r fuel =
      (a : AbaService S M) → HasFuel r fuel a → EndsIn a (restart (suc a.round) a)

  pub HasFuel-Advances :
      (r fuel : ℕ) (a b : AbaService S M) → HasFuel r fuel a → Advances a b → HasFuel r fuel b
  HasFuel-Advances r fuel a b h p = (omega (arith, h.0, p.0), omega (arith, h.1, p.1 (suc r)))

-- ===== src/ACast/Local.antt =====
-- What holds of one process at any time, whatever it was sent: its flags, its votes and what it
-- broadcast fit together.
use async_agreement_protocol.Base.{
  ℕ, ◌-◌, ◌*◌, ◌≤◌, ◌<◌, ◌≡◌, true, false, List, Comparable, nat_comparable, length,
}
use async_agreement_protocol.Base.Members.{add, contains, Distinct, add-Distinct}
use async_agreement_protocol.Base.Counting.{IsId, AllIds}
use async_agreement_protocol.ACast.Defs.{msg, echo, ready, voters}
use async_agreement_protocol.ACast.Votes.{add-AllIds}
use async_agreement_protocol.ACast.System.{View, sent, result, heard}

abbrev pub AreVoters : ℕ → List ℕ → Type 0
AreVoters n xs = Distinct xs × AllIds n xs

pub add-AreVoters : (n i : ℕ) (xs : List ℕ) → IsId n i → AreVoters n xs → AreVoters n (add i xs)
add-AreVoters n i xs k h = (add-Distinct i xs h.0, add-AllIds n i xs k h.1)

module _ {ℓ} {V : Type ℓ} ⦃c : Comparable V⦄ (n t : ℕ) where
  -- What was broadcast, by the flags.
  pub record HasSaid (p : View V) : Type ℓ where
    pub echo_flag : (v : V) → sent echo v p.log ≡ true → p.inst.sent_echo ≡ true
    pub ready_flag : (v : V) → sent ready v p.log ≡ true → p.inst.sent_ready ≡ true
    pub result_flag : (v : V) → result v p.log ≡ true → p.inst.delivered ≡ true
    pub echo_once : (v w : V) → sent echo v p.log ≡ true → sent echo w p.log ≡ true → v ≡ w
    pub ready_once : (v w : V) → sent ready v p.log ≡ true → sent ready w p.log ≡ true → v ≡ w
    pub result_once : (v w : V) → result v p.log ≡ true → result w p.log ≡ true → v ≡ w
    pub echo_said : p.inst.sent_echo ≡ true → (v : V) × (sent echo v p.log ≡ true)
    pub ready_said : p.inst.sent_ready ≡ true → (v : V) × (sent ready v p.log ≡ true)
    pub result_said : p.inst.delivered ≡ true → (v : V) × (result v p.log ≡ true)

  -- The votes for a value are those of distinct processes.
  pub record HasVotes (p : View V) : Type ℓ where
    pub echo_voters : (v : V) → AreVoters n (voters p.inst.received_echo v)
    pub ready_voters : (v : V) → AreVoters n (voters p.inst.received_ready v)

  -- No threshold is passed in silence.
  pub record HasActed (p : View V) : Type ℓ where
    pub ready_first : p.inst.delivered ≡ true → p.inst.sent_ready ≡ true
    pub echo_short :
        (v : V) → p.inst.sent_ready ≡ false → length (voters p.inst.received_echo v) < n - t
    pub ready_short :
        (v : V) → p.inst.sent_ready ≡ false → length (voters p.inst.received_ready v) ≤ t
    pub result_short :
        (v : V) → p.inst.delivered ≡ false → length (voters p.inst.received_ready v) ≤ 2 * t

  -- Until delivery every message is on record, and no ECHO comes of itself.
  pub record HasHeard (p : View V) : Type ℓ where
    pub msg_heard :
        (i : ℕ) (v : V)
        → p.inst.delivered ≡ false
        → heard msg i v p.handled ≡ true
        → p.inst.sent_echo ≡ true
    pub echo_heard :
        (i : ℕ) (v : V)
        → p.inst.delivered ≡ false
        → heard echo i v p.handled ≡ true
        → contains (voters p.inst.received_echo v) i ≡ true
    pub ready_heard :
        (i : ℕ) (v : V)
        → p.inst.delivered ≡ false
        → heard ready i v p.handled ≡ true
        → contains (voters p.inst.received_ready v) i ≡ true
    pub echo_origin :
        (v : V) → sent echo v p.log ≡ true → (i : ℕ) × (heard msg i v p.handled ≡ true)

  pub record IsLocal (p : View V) : Type ℓ where
    pub said : HasSaid p
    pub votes : HasVotes p
    pub acted : HasActed p
    pub heard_all : HasHeard p

-- ===== src/ACast/LocalSteps.antt =====
-- Handling a message, and starting a broadcast, keep what `Local` states of a process.
use async_agreement_protocol.Base.{
  ℕ, ◌+◌, ◌*◌, ◌<◌, ◌≡◌, refl, Bool, true, false, List, [], Comparable, nat_comparable, ◌==◌,
  if◌then◌else◌, arith, beq_refl, leb, Bool-cases, inl, inr,
}
use async_agreement_protocol.Base.Maps
use async_agreement_protocol.Base.Maps.{Map}
use async_agreement_protocol.Base.Members.{contains-add}
use async_agreement_protocol.Base.Counting.{IsId}
use async_agreement_protocol.ACast.Defs.{
  MessageType, msg, echo, ready, ACastMessage, voters, add_to_set, new_acast_instance,
}
use async_agreement_protocol.ACast.Votes.{voters-add_to_set, count-add_to_set}
use async_agreement_protocol.ACast.System.{View, sent, receive_view, start_view, fresh_view}
use async_agreement_protocol.ACast.Local.{
  AreVoters, add-AreVoters, HasSaid, HasVotes, HasActed, HasHeard, IsLocal,
}

module _ {ℓ} {V : Type ℓ} ⦃c : Comparable V⦄ (n t : ℕ) where
  module _ (id : ℕ) (m : ACastMessage V) (p : View V) where
    abbrev pub q : View V
    q = receive_view id n t m p

    abbrev pub new_echoes : Map V (List ℕ) × ℕ
    new_echoes = add_to_set p.inst.received_echo m.val m.from

    abbrev pub new_readies : Map V (List ℕ) × ℕ
    new_readies = add_to_set p.inst.received_ready m.val m.from

    abbrev pub delivers : Bool
    delivers = leb (2 * t + 1) new_readies.1

    -- The vote maps after the message.
    abbrev pub echo_map : MessageType → Bool → Map V (List ℕ)
    echo_map ty true = p.inst.received_echo
    echo_map echo false = new_echoes.0
    echo_map ready false = if delivers then [] else p.inst.received_echo
    echo_map msg false = p.inst.received_echo

    abbrev pub ready_map : MessageType → Bool → Map V (List ℕ)
    ready_map ty true = p.inst.received_ready
    ready_map ready false = if delivers then [] else new_readies.0
    ready_map _ false = p.inst.received_ready

    pub receive-echo_map : q.inst.received_echo ≡ echo_map m.type p.inst.delivered
    unfolding receive_view
    receive-echo_map = ground arith

    pub receive-ready_map : q.inst.received_ready ≡ ready_map m.type p.inst.delivered
    unfolding receive_view
    receive-ready_map = ground arith

    pub voters_nil : (v : V) → voters {V = V} [] v ≡ []
    unfolding voters Maps.lookup
    voters_nil v = refl

    receive-HasSaid : HasSaid n t p → HasSaid n t q
    unfolding receive_view
    receive-HasSaid h = record {
      echo_flag = λ v. ground (arith, h.echo_flag v);
      ready_flag = λ v. ground (arith, h.ready_flag v);
      result_flag = λ v. ground (arith, h.result_flag v);
      echo_once = λ v w. ground (
        arith,
        h.echo_flag v,
        h.echo_flag w,
        h.echo_once v w,
        c.equal_iff m.val v,
        c.equal_iff m.val w,
      );
      ready_once = λ v w. ground (
        arith,
        h.ready_flag v,
        h.ready_flag w,
        h.ready_once v w,
        c.equal_iff m.val v,
        c.equal_iff m.val w,
      );
      result_once = λ v w. ground (
        arith,
        h.result_flag v,
        h.result_flag w,
        h.result_once v w,
        c.equal_iff m.val v,
        c.equal_iff m.val w,
      );
      echo_said = elim (Bool-cases p.inst.sent_echo) [
        | inl old ↦ λ _. let (v, e) = h.echo_said old in (v, ground arith)
        | inr new ↦ λ now. (m.val, ground (arith, beq_refl m.val))
      ];
      ready_said = elim (Bool-cases p.inst.sent_ready) [
        | inl old ↦ λ _. let (v, e) = h.ready_said old in (v, ground arith)
        | inr new ↦ λ now. (m.val, ground (arith, beq_refl m.val))
      ];
      result_said = elim (Bool-cases p.inst.delivered) [
        | inl old ↦ λ _. let (v, e) = h.result_said old in (v, ground arith)
        | inr new ↦ λ now. (m.val, ground (arith, beq_refl m.val))
      ];
    }

    receive-HasVotes : IsId n m.from → HasVotes n t p → HasVotes n t q
    receive-HasVotes k h = record {
      echo_voters = λ v. rw receive-echo_map (echo v m.type p.inst.delivered);
      ready_voters = λ v. rw receive-ready_map (ready v m.type p.inst.delivered);
    }
      where
        one :
            (v : V) (votes : Map V (List ℕ))
            → AreVoters n (voters votes v)
            → AreVoters n (voters (add_to_set votes m.val m.from).0 v)
        one v votes h = rw voters-add_to_set (elim (Bool-cases (m.val == v)) [
          | inl e ↦ rw e (add-AreVoters n m.from _ k h)
          | inr e ↦ rw e h
        ])

        none :
            (v : V) (b : Bool) (votes : Map V (List ℕ))
            → AreVoters n (voters votes v)
            → AreVoters n (voters (if b then [] else votes) v)
        none v true votes h = rw voters_nil (tt, tt)
        none v false votes h = h

        echo : (v : V) (ty : MessageType) (d : Bool) → AreVoters n (voters (echo_map ty d) v)
        echo v msg true = h.echo_voters v
        echo v ty true = h.echo_voters v
        echo v MessageType.echo false = one v p.inst.received_echo (h.echo_voters v)
        echo v MessageType.ready false = none v delivers p.inst.received_echo (h.echo_voters v)
        echo v msg false = h.echo_voters v

        ready : (v : V) (ty : MessageType) (d : Bool) → AreVoters n (voters (ready_map ty d) v)
        ready v msg true = h.ready_voters v
        ready v ty true = h.ready_voters v
        ready v MessageType.ready false =
            none v delivers _ (one v p.inst.received_ready (h.ready_voters v))
        ready v MessageType.echo false = h.ready_voters v
        ready v msg false = h.ready_voters v

    receive-HasActed : HasActed n t p → HasActed n t q
    unfolding receive_view
    receive-HasActed h = record {
      ready_first =
          ground (arith, h.ready_first, count-add_to_set p.inst.received_ready m.val m.from);
      echo_short = λ v. ground (
        arith,
        h.echo_short v,
        receive-echo_map,
        voters_nil v,
        c.equal_iff m.val v,
        voters-add_to_set p.inst.received_echo m.val v m.from,
        count-add_to_set p.inst.received_echo m.val m.from,
      );
      ready_short = λ v. ground (
        arith,
        h.ready_short v,
        receive-ready_map,
        voters_nil v,
        c.equal_iff m.val v,
        voters-add_to_set p.inst.received_ready m.val v m.from,
        count-add_to_set p.inst.received_ready m.val m.from,
      );
      result_short = λ v. ground (
        arith,
        h.result_short v,
        receive-ready_map,
        voters_nil v,
        c.equal_iff m.val v,
        voters-add_to_set p.inst.received_ready m.val v m.from,
        count-add_to_set p.inst.received_ready m.val m.from,
      );
    }

    receive-HasHeard : HasHeard n t p → HasHeard n t q
    unfolding receive_view
    receive-HasHeard h = record {
      msg_heard = λ i v. ground (arith, h.msg_heard i v);
      echo_heard = λ i v. ground (
        arith,
        h.echo_heard i v,
        receive-echo_map,
        c.equal_iff m.val v,
        voters-add_to_set p.inst.received_echo m.val v m.from,
        contains-add m.from i (voters p.inst.received_echo v),
      );
      ready_heard = λ i v. ground (
        arith,
        h.ready_heard i v,
        receive-ready_map,
        c.equal_iff m.val v,
        voters-add_to_set p.inst.received_ready m.val v m.from,
        contains-add m.from i (voters p.inst.received_ready v),
      );
      echo_origin = λ v e. elim (Bool-cases (sent echo v p.log)) [
        | inl old ↦ let (i, said) = h.echo_origin v old in (i, ground arith)
        | inr new ↦ (m.from, ground (arith, beq_refl m.from))
      ];
    }

    -- Handling a message that names one of the n processes keeps the invariant of a process: its
    -- flags, its votes, the thresholds and its record of messages.
    pub receive-IsLocal : IsId n m.from → IsLocal n t p → IsLocal n t q
    receive-IsLocal k h = record {
      said = receive-HasSaid h.said;
      votes = receive-HasVotes k h.votes;
      acted = receive-HasActed h.acted;
      heard_all = receive-HasHeard h.heard_all;
    }

    -- So does starting a broadcast.
    pub start-IsLocal : m.type ≡ msg → IsLocal n t p → IsLocal n t (start_view m p)
    start-IsLocal e h = record {
      said = record {
        echo_flag = λ v. ground (arith, h.said.echo_flag v);
        ready_flag = λ v. ground (arith, h.said.ready_flag v);
        result_flag = λ v. ground (arith, h.said.result_flag v);
        echo_once = λ v w. ground (arith, h.said.echo_once v w);
        ready_once = λ v w. ground (arith, h.said.ready_once v w);
        result_once = λ v w. ground (arith, h.said.result_once v w);
        echo_said = λ d. let (v, q) = h.said.echo_said d in (v, ground arith);
        ready_said = λ d. let (v, q) = h.said.ready_said d in (v, ground arith);
        result_said = λ d. let (v, q) = h.said.result_said d in (v, ground arith);
      };
      votes = record { echo_voters = h.votes.echo_voters; ready_voters = h.votes.ready_voters };
      acted = record {
        ready_first = h.acted.ready_first;
        echo_short = h.acted.echo_short;
        ready_short = h.acted.ready_short;
        result_short = h.acted.result_short;
      };
      heard_all = record {
        msg_heard = h.heard_all.msg_heard;
        echo_heard = h.heard_all.echo_heard;
        ready_heard = h.heard_all.ready_heard;
        echo_origin = λ v q. h.heard_all.echo_origin v (ground arith);
      };
    }

  pub fresh-IsLocal : t < n → IsLocal n t (fresh_view V)
  unfolding voters Maps.lookup new_acast_instance
  fresh-IsLocal small = record {
    said = record {
      echo_flag = λ v. cc;
      ready_flag = λ v. cc;
      result_flag = λ v. cc;
      echo_once = λ v w. cc;
      ready_once = λ v w. cc;
      result_once = λ v w. cc;
      echo_said = λ e. absurd (ground arith);
      ready_said = λ e. absurd (ground arith);
      result_said = λ e. absurd (ground arith);
    };
    votes = record { echo_voters = λ v. (tt, tt); ready_voters = λ v. (tt, tt) };
    acted = record {
      ready_first = λ e. cc;
      echo_short = λ v e. omega arith;
      ready_short = λ v e. omega arith;
      result_short = λ v e. omega arith;
    };
    heard_all = record {
      msg_heard = λ i v e. cc;
      echo_heard = λ i v e. cc;
      ready_heard = λ i v e. cc;
      echo_origin = λ v e. absurd (ground arith);
    };
  }

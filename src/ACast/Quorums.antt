-- ===== src/ACast/Quorums.antt =====
-- How the processes of one broadcast depend on each other: every vote of an honest process is
-- backed by its broadcast, and every READY and every delivery by a quorum.
use mathlib.Core.Logic.{ite}
use native.Mathlib.Decide.{ℕ_discrete}
use async_agreement_protocol.Base.{
  ℕ, ◌-◌, ◌*◌, ◌+◌, ◌≤◌, ◌<◌, ◌≡◌, Bool, true, not, List, Comparable, nat_comparable, length, arith,
  inl, inr, subst, Bool-cases, ◌==◌, ◌&&◌, ◌↔◌, eqb, eqb_iff, both,
}
use async_agreement_protocol.Base.Maps
use async_agreement_protocol.Base.Maps.{Map}
use async_agreement_protocol.Base.Members.{contains}
use async_agreement_protocol.Base.Counting.{count_ids, honest_listed}
use async_agreement_protocol.ACast.Defs.{
  MessageType, msg, echo, ready, ACastMessage, voters, new_acast_instance,
}
use async_agreement_protocol.ACast.System.{
  View, sent, result, heard, same_type, receive_view, start_view, fresh_view, update, IsAuthentic,
  Step, receive, start, Reach, here, next,
}
use async_agreement_protocol.ACast.Local.{AreVoters, IsLocal}
use async_agreement_protocol.ACast.LocalSteps.{receive-IsLocal, start-IsLocal, fresh-IsLocal}
use async_agreement_protocol.ACast.Thresholds.{
  with_vote, receive-ready, receive-result, sent-receive, with_vote_new, with_vote-AreVoters,
  receive-echo_voter, receive-ready_voter,
}

eq_of_same_type : (a b : MessageType) → same_type a b ≡ true → a ≡ b
eq_of_same_type a b h = ground arith

module _ {ℓ} {V : Type ℓ} ⦃c : Comparable V⦄ (honest : ℕ → Bool) (n t : ℕ) where
  -- The honest ones among these processes broadcast a message of this type and value.
  abbrev pub Backed : MessageType → V → (ℕ → View V) → List ℕ → Type 0
  Backed ty v s xs = (i : ℕ) → contains xs i ≡ true → honest i ≡ true → sent ty v (s i).log ≡ true

  -- At least `k` distinct processes, the honest ones among which broadcast such a message.
  pub record Quorum (ty : MessageType) (v : V) (k : ℕ) (s : ℕ → View V) : Type 0 where
    pub members : List ℕ
    pub voters_ok : AreVoters n members
    pub enough : k ≤ length members
    pub backed : Backed ty v s members

  pub record IsConsistent (s : ℕ → View V) : Type ℓ where
    pub local : (j : ℕ) → IsLocal n t (s j)
    pub echo_backed : (j : ℕ) (v : V) → Backed echo v s (voters (s j).inst.received_echo v)
    pub ready_backed : (j : ℕ) (v : V) → Backed ready v s (voters (s j).inst.received_ready v)
    pub ready_quorum : (j : ℕ) (v : V) → sent ready v (s j).log ≡ true → Quorum echo v (n - t) s
    pub result_quorum : (j : ℕ) (v : V) → result v (s j).log ≡ true → Quorum ready v (2 * t + 1) s
    pub heard_genuine :
        (j i : ℕ) (ty : MessageType) (v : V)
        → heard ty i v (s j).handled ≡ true
        → honest i ≡ true
        → sent ty v (s i).log ≡ true

  -- Nothing that was broadcast is taken back.
  abbrev Grows : (ℕ → View V) → (ℕ → View V) → Type ℓ
  Grows s s' =
      (i : ℕ) (ty : MessageType) (v : V) → sent ty v (s i).log ≡ true → sent ty v (s' i).log ≡ true

  Quorum-Grows :
      {s s' : ℕ → View V} (ty : MessageType) (v : V) (k : ℕ)
      → Grows s s'
      → Quorum ty v k s
      → Quorum ty v k s'
  Quorum-Grows ty v k g w = record {
    members = w.members;
    voters_ok = w.voters_ok;
    enough = w.enough;
    backed = λ i e h. g i ty v (w.backed i e h);
  }

  -- A property of every process, kept where one of them moves.
  at_update {κ} :
      {s : ℕ → View V} (P : ℕ → View V → Type κ) (j : ℕ) (p : View V)
      → P j p
      → ((i : ℕ) → P i (s i))
      → (i : ℕ) → P i (update j p s i)
  at_update {s} P j p new old i = elim (ℕ_discrete j i) as (λ d. P i (ite d p (s i))) [
    | yes e ↦ subst (λ k. P k p) e new
    | no e ↦ old i
  ]

  module _ (few : count_ids (λ i. not (honest i)) n ≤ t) {s : ℕ → View V}
      (old : IsConsistent s) where
    open old use {local, echo_backed, ready_backed, ready_quorum, result_quorum, heard_genuine}

    module _ (j : ℕ) (m : ACastMessage V) (a : IsAuthentic honest n t s m) where
      p : View V
      p = s j

      s' : ℕ → View V
      s' = update j (receive_view j n t m (s j)) s

      grows : Grows s s'
      unfolding s'
      grows i ty v h =
          at_update {s = s} (λ i q. sent ty v (s i).log ≡ true → sent ty v q.log ≡ true) j _
            (sent-receive n t j m (s j) ty v) (λ i e. e) i h

      -- The vote of the message is genuine.
      with_vote-Backed :
          (ty : MessageType) (votes : Map V (List ℕ)) (v : V)
          → m.type ≡ ty
          → Backed ty v s (voters votes v)
          → Backed ty v s (with_vote n t j m (s j) votes v)
      with_vote-Backed ty votes v e b i h g = elim (with_vote_new n t j m (s j) votes v i h) [
        | inl known ↦ b i known g
        | inr (same, from) ↦ ground (arith, same, from, a.genuine)
      ]

      -- A READY of the moving process has a quorum of ECHOs behind it: its own, or that of an
      -- honest process among the t + 1 whose READY it repeats.
      new_ready-Quorum :
          (v : V) → sent ready v (receive_view j n t m (s j)).log ≡ true → Quorum echo v (n - t) s
      new_ready-Quorum v h = elim (receive-ready n t j m (s j) v h) [
        | inl old ↦ ready_quorum j v old
        | inr (inl (ty, e)) ↦ record {
          members = with_vote n t j m (s j) (s j).inst.received_echo v;
          voters_ok = with_vote-AreVoters n t j m (s j) _ v a.known ((local j).votes.echo_voters v);
          enough = e;
          backed = with_vote-Backed echo _ v ty (echo_backed j v);
        }
        | inr (inr (ty, e)) ↦
            let ok =
              with_vote-AreVoters n t j m (s j) _ v a.known ((local j).votes.ready_voters v) in
            let (i, d, voted, g) = honest_listed honest n t few _ ok.0 ok.1 e in
            ready_quorum i v (with_vote-Backed ready _ v ty (ready_backed j v) i voted g)
      ]

      new_result-Quorum :
          (v : V) → result v (receive_view j n t m (s j)).log ≡ true → Quorum ready v (2 * t + 1) s
      new_result-Quorum v h = elim (receive-result n t j m (s j) v h) [
        | inl old ↦ result_quorum j v old
        | inr (ty, e) ↦ record {
          members = with_vote n t j m (s j) (s j).inst.received_ready v;
          voters_ok =
              with_vote-AreVoters n t j m (s j) _ v a.known ((local j).votes.ready_voters v);
          enough = omega (arith, e);
          backed = with_vote-Backed ready _ v ty (ready_backed j v);
        }
      ]

      new_echo-Backed :
          (v : V) → Backed echo v s (voters (receive_view j n t m (s j)).inst.received_echo v)
      new_echo-Backed v i h g = elim (receive-echo_voter n t j m (s j) v i h) [
        | inl old ↦ echo_backed j v i old g
        | inr (ty, e) ↦ with_vote-Backed echo _ v ty (echo_backed j v) i e g
      ]

      new_ready-Backed :
          (v : V) → Backed ready v s (voters (receive_view j n t m (s j)).inst.received_ready v)
      new_ready-Backed v i h g = elim (receive-ready_voter n t j m (s j) v i h) [
        | inl old ↦ ready_backed j v i old g
        | inr (ty, e) ↦ with_vote-Backed ready _ v ty (ready_backed j v) i e g
      ]

      new_heard_genuine :
          (i : ℕ) (ty : MessageType) (v : V)
          → heard ty i v (receive_view j n t m (s j)).handled ≡ true
          → honest i ≡ true
          → sent ty v (s i).log ≡ true
      unfolding receive_view
      new_heard_genuine i ty v h g =
          elim (Bool-cases (same_type m.type ty && m.from == i && m.val == v)) [
            | inl now ↦
                said (eq_of_same_type m.type ty (both (both now).0).0) (eqb_iff m.from i)
                  (c.equal_iff m.val v) now
            | inr past ↦ heard_genuine j i ty v (ground arith) g
          ]
        where
          said :
              m.type ≡ ty
              → ((eqb m.from i ≡ true) ↔ (m.from ≡ i))
              → ((m.val == v ≡ true) ↔ (m.val ≡ v))
              → (same_type m.type ty && m.from == i && m.val == v) ≡ true
              → sent ty v (s i).log ≡ true
          said e1 e2 e3 now = ground (arith, e1, e2, e3, a.genuine)

      receive-IsConsistent : IsConsistent s'
      unfolding s'
      receive-IsConsistent = record {
        local =
            at_update (λ i q. IsLocal n t q) j _ (receive-IsLocal n t j m (s j) a.known (local j))
              local;
        echo_backed =
            at_update (λ i q. (v : V) → Backed echo v s' (voters q.inst.received_echo v)) j _
              (λ v i h g. grows i echo v (new_echo-Backed v i h g))
              (λ k v i h g. grows i echo v (echo_backed k v i h g));
        ready_backed =
            at_update (λ i q. (v : V) → Backed ready v s' (voters q.inst.received_ready v)) j _
              (λ v i h g. grows i ready v (new_ready-Backed v i h g))
              (λ k v i h g. grows i ready v (ready_backed k v i h g));
        ready_quorum =
            at_update (λ i q. (v : V) → sent ready v q.log ≡ true → Quorum echo v (n - t) s') j _
              (λ v h. Quorum-Grows echo v (n - t) grows (new_ready-Quorum v h))
              (λ k v h. Quorum-Grows echo v (n - t) grows (ready_quorum k v h));
        result_quorum =
            at_update (λ i q. (v : V) → result v q.log ≡ true → Quorum ready v (2 * t + 1) s') j _
              (λ v h. Quorum-Grows ready v _ grows (new_result-Quorum v h))
              (λ k v h. Quorum-Grows ready v _ grows (result_quorum k v h));
        heard_genuine =
            at_update
              (λ k q.
                (i : ℕ) (ty : MessageType) (v : V)
                → heard ty i v q.handled ≡ true
                → honest i ≡ true
                → sent ty v (s' i).log ≡ true)
              j _ (λ i ty v h g. grows i ty v (new_heard_genuine i ty v h g))
              (λ k i ty v h g. grows i ty v (heard_genuine k i ty v h g));
      }

    module _ (j : ℕ) (m : ACastMessage V) (e : m.type ≡ msg) where
      started : ℕ → View V
      started = update j (start_view m (s j)) s

      started-Grows : Grows s started
      unfolding started
      started-Grows i ty v h =
          at_update {s = s} (λ i q. sent ty v (s i).log ≡ true → sent ty v q.log ≡ true) j _
            (λ h. ground arith) (λ i e. e) i h

      start-IsConsistent : IsConsistent started
      unfolding started
      start-IsConsistent = record {
        local =
            at_update (λ i q. IsLocal n t q) j _ (start-IsLocal n t j m (s j) e (local j)) local;
        echo_backed =
            at_update (λ i q. (v : V) → Backed echo v started (voters q.inst.received_echo v)) j _
              (λ v i h g. started-Grows i echo v (echo_backed j v i h g))
              (λ k v i h g. started-Grows i echo v (echo_backed k v i h g));
        ready_backed =
            at_update (λ i q. (v : V) → Backed ready v started (voters q.inst.received_ready v)) j _
              (λ v i h g. started-Grows i ready v (ready_backed j v i h g))
              (λ k v i h g. started-Grows i ready v (ready_backed k v i h g));
        ready_quorum =
            at_update (λ i q. (v : V) → sent ready v q.log ≡ true → Quorum echo v (n - t) started) j
              _ (λ v h. Quorum-Grows echo v (n - t) started-Grows (ready_quorum j v (ground arith)))
              (λ k v h. Quorum-Grows echo v (n - t) started-Grows (ready_quorum k v h));
        result_quorum =
            at_update (λ i q. (v : V) → result v q.log ≡ true → Quorum ready v (2 * t + 1) started)
              j _ (λ v h. Quorum-Grows ready v _ started-Grows (result_quorum j v (ground arith)))
              (λ k v h. Quorum-Grows ready v _ started-Grows (result_quorum k v h));
        heard_genuine =
            at_update
              (λ k q.
                (i : ℕ) (ty : MessageType) (v : V)
                → heard ty i v q.handled ≡ true
                → honest i ≡ true
                → sent ty v (started i).log ≡ true)
              j _ (λ i ty v h g. started-Grows i ty v (heard_genuine j i ty v h g))
              (λ k i ty v h g. started-Grows i ty v (heard_genuine k i ty v h g));
      }

  fresh-IsConsistent : t < n → IsConsistent (λ _. fresh_view V)
  unfolding voters Maps.lookup new_acast_instance
  fresh-IsConsistent small = record {
    local = λ j. fresh-IsLocal n t small;
    echo_backed = λ j v i h g. absurd (ground arith);
    ready_backed = λ j v i h g. absurd (ground arith);
    ready_quorum = λ j v h. absurd (ground arith);
    result_quorum = λ j v h. absurd (ground arith);
    heard_genuine = λ j i ty v h g. absurd (ground arith);
  }

  pub Step-IsConsistent :
      {s s' : ℕ → View V}
      → count_ids (λ i. not (honest i)) n ≤ t
      → Step honest n t s s'
      → IsConsistent s
      → IsConsistent s'
  unfolding s' started
  Step-IsConsistent few (receive j m a) old = receive-IsConsistent few old j m a
  Step-IsConsistent few (start j m e) old = start-IsConsistent few old j m e

  pub Reach-IsConsistent :
      {s : ℕ → View V}
      → count_ids (λ i. not (honest i)) n ≤ t
      → t < n
      → Reach honest n t s
      → IsConsistent s
  Reach-IsConsistent few small here = fresh-IsConsistent small
  Reach-IsConsistent few small (next r st) =
      Step-IsConsistent few st (Reach-IsConsistent few small r)

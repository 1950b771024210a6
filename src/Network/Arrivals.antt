-- ===== src/Network/Arrivals.antt =====
-- services/network.go, `Broadcast`: what was sent, what waits to be written, and what has arrived.
use async_agreement_protocol.Base.{
  ℕ, ◌+◌, ◌≡◌, refl, ◌∙◌, subst, inl, inr, Bool-cases, Bool, true, false, List, [], ◌∷◌, ◌++◌,
  nat_comparable, eqb, if◌then◌else◌, arith,
}
use async_agreement_protocol.Base.Maps.{Map}
use async_agreement_protocol.Network.Defs.{Network, spawn, broadcast_to_peers}

-- How often a channel is registered.
abbrev pub times : ℕ → Map ℕ ℕ → ℕ
times channel [] = 0
times channel ((id, c) ∷ peers) = (if eqb c channel then 1 else 0) + times channel peers

-- The network with what was broadcast and what was written to each channel.
pub record Traffic {ℓ} (M : Type ℓ) : Type ℓ where
  pub network : Network M
  pub sent : List M
  pub arrived : ℕ → List M

module _ {ℓ} {M : Type ℓ} where
  abbrev pub write : ℕ → M → (ℕ → List M) → ℕ → List M
  write channel m arrived c = if eqb channel c then m ∷ arrived c else arrived c

  pub data TrafficRun (peers : Map ℕ ℕ) : Traffic M → Type ℓ where
    ready :
        TrafficRun peers (record {
          network = record { peers = peers; writers = [] };
          sent = [];
          arrived = λ c. [];
        })
    broadcasts :
        (m : M) (w : Traffic M)
        → TrafficRun peers w
        → TrafficRun peers
            (record w { network = broadcast_to_peers m w.network; sent = m ∷ w.sent })
    -- Some goroutine gets to write.
    writes :
        (channel : ℕ) (m : M) (before behind : List (ℕ × M)) (w : Traffic M)
        → TrafficRun peers w
        → w.network.writers ≡ before ++ (channel, m) ∷ behind
        → TrafficRun peers (record w {
          network = record (w.network) { writers = before ++ behind };
          arrived = write channel m w.arrived;
        })

  module _ (test : M → Bool) where
    abbrev pub count : List M → ℕ
    count [] = 0
    count (m ∷ ms) = (if test m then 1 else 0) + count ms

    -- The messages of the kind that wait to be written to a channel.
    abbrev pub waiting : ℕ → List (ℕ × M) → ℕ
    waiting channel [] = 0
    waiting channel ((c, m) ∷ ws) =
        (if eqb c channel then if test m then 1 else 0 else 0) + waiting channel ws

    waiting-append :
        (channel : ℕ) (xs ys : List (ℕ × M))
        → waiting channel (xs ++ ys) ≡ waiting channel xs + waiting channel ys
    waiting-append channel [] ys = omega arith
    waiting-append channel ((c, m) ∷ xs) ys = omega (arith, waiting-append channel xs ys)

    waiting-spawn_none :
        (channel : ℕ) (m : M) (peers : Map ℕ ℕ)
        → test m ≡ false
        → waiting channel (spawn m peers) ≡ 0
    unfolding spawn
    waiting-spawn_none channel m [] h = refl
    waiting-spawn_none channel m ((id, c) ∷ peers) h =
        ground (arith, h, waiting-spawn_none channel m peers h)

    waiting-spawn_all :
        (channel : ℕ) (m : M) (peers : Map ℕ ℕ)
        → test m ≡ true
        → waiting channel (spawn m peers) ≡ times channel peers
    unfolding spawn
    waiting-spawn_all channel m [] h = refl
    waiting-spawn_all channel m ((id, c) ∷ peers) h =
        ground (arith, h, waiting-spawn_all channel m peers h)

    waiting-spawn :
        (channel : ℕ) (m : M) (peers : Map ℕ ℕ)
        → times channel peers ≡ 1
        → waiting channel (spawn m peers) ≡ (if test m then 1 else 0)
    waiting-spawn channel m peers once = elim (Bool-cases (test m)) [
      | inl e ↦ rw e (waiting-spawn_all channel m peers e ∙ once)
      | inr e ↦ rw e (waiting-spawn_none channel m peers e)
    ]

    run-peers : {peers : Map ℕ ℕ} {w : Traffic M} → TrafficRun peers w → w.network.peers ≡ peers
    unfolding broadcast_to_peers
    run-peers ready = refl
    run-peers (broadcasts m w r) = run-peers r
    run-peers (writes channel m before behind w r e) = run-peers r

    count-write :
        (c channel : ℕ) (m : M) (arrived : ℕ → List M)
        → count (write c m arrived channel)
          ≡ (if eqb c channel then if test m then 1 else 0 else 0) + count (arrived channel)
    count-write c channel m arrived = elim (Bool-cases (eqb c channel)) [
      | inl e ↦ rw e refl
      | inr e ↦ rw e (omega arith)
    ]

    -- Whatever is broadcast after the peers have registered, and in whatever order the goroutines get to
    -- write: of the messages of any kind (`test`), a channel that is registered once has got, or is yet
    -- to get, exactly as many as were broadcast.
    pub arrives_once :
        (peers : Map ℕ ℕ) (channel : ℕ) (w : Traffic M)
        → times channel peers ≡ 1
        → TrafficRun peers w
        → count (w.arrived channel) + waiting channel w.network.writers ≡ count w.sent
    unfolding broadcast_to_peers
    arrives_once peers channel w once ready = refl
    arrives_once peers channel _ once (broadcasts m w r) =
        let new = waiting-spawn channel m w.network.peers (rw (run-peers {w = w} r) once) in
        omega (
          arith,
          new,
          arrives_once peers channel w once r,
          waiting-append channel w.network.writers (spawn m w.network.peers),
        )
    arrives_once peers channel _ once (writes c m before behind w r e) =
        let earlier =
          subst (λ ws. count (w.arrived channel) + waiting channel ws ≡ count w.sent) e
            (arrives_once peers channel w once r) in
        omega (
          arith,
          earlier,
          count-write c channel m w.arrived,
          waiting-append channel before ((c, m) ∷ behind),
          waiting-append channel before behind,
        )

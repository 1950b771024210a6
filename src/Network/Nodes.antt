-- ===== src/Network/Nodes.antt =====
-- main.go and node.go: the nodes of the simulation, and their registration in the network.
use async_agreement_protocol.Base.{
  ℕ, zero, suc, ◌+◌, ◌≤◌, ◌<◌, ◌≡◌, refl, inl, inr, Bool-cases, Bool, Option, none, some, [], ◌∷◌,
  nat_comparable, ◌==◌, eqb, if◌then◌else◌, arith,
}
use async_agreement_protocol.Base.Int.{ℤ}
use async_agreement_protocol.Base.Maps.{Map, insert}
use async_agreement_protocol.Base.Counting.{IsId}
use async_agreement_protocol.Certification.{CertificationProtocol}
use async_agreement_protocol.Aba.{
  AbaMessage, IccOperations, AbaOutside, AbaService, Ending, done, blocked, crashed, out_of_fuel,
  new_aba_service,
}
use async_agreement_protocol.Aba
use async_agreement_protocol.Manager.{ServiceManager, new_service_manager, perform}
use async_agreement_protocol.Network.Defs.{Network, new_network, register}
use async_agreement_protocol.Network.Arrivals.{
  times, count, waiting, Traffic, TrafficRun, arrives_once,
}

-- `Node`, without the pointer to its service, which stands in the manager.
pub record Node (S M : Type 0) : Type 0 where
  pub id : ℕ
  pub manager : ServiceManager (AbaService S M) (AbaMessage M) ℤ

-- `NewNode`
unfoldable pub new_node : (S M : Type 0) → ℕ → ℕ → ℕ → ℤ → CertificationProtocol → Node S M
new_node S M id n t estimate cp = record {
  id = id;
  manager = new_service_manager (new_aba_service S M id n t estimate cp);
}

-- `Node.Start`: the loop of the manager starts, and `Start` of the service runs with the manager as
-- its context; `none` if it does not return.
abbrev pub started : {S M : Type 0} → Node S M → Ending S M → Option (Node S M)
started node (done a es) =
    some (record node { manager = perform es (record (node.manager) { service = a }) })
started node blocked = none
started node crashed = none
started node out_of_fuel = none

unfoldable pub start_node :
    {S M : Type 0} → AbaOutside → IccOperations S M → ℕ → Node S M → Option (Node S M)
start_node outside icc fuel node = started node (Aba.start outside icc fuel node.manager.service)

-- The loop of `main` that registers the inbox of each node under its id, from node `id` on. An inbox
-- has the id of its node as its name.
unfoldable pub register_nodes : {M : Type 0} → ℕ → ℕ → Network M → Network M
register_nodes zero id network = network
register_nodes (suc rounds) id network = register_nodes rounds (suc id) (register id id network)

-- The peers are nodes below `k`, each with its own inbox.
abbrev Below : ℕ → Map ℕ ℕ → Type 0
Below k [] = Unit
Below k ((i, c) ∷ peers) = (i < k) × (c ≡ i) × Below k peers

Below-insert : (k : ℕ) (peers : Map ℕ ℕ) → Below k peers → Below (suc k) (insert k k peers)
unfolding insert
Below-insert k [] h = (omega arith, refl, tt)
Below-insert k ((i, c) ∷ peers) h = elim (Bool-cases (i == k)) [
  | inl e ↦ absurd (ground (arith, h.0, e))
  | inr e ↦ rw e (omega (arith, h.0), h.1, Below-insert k peers h.2)
]

times-insert :
    (channel k : ℕ) (peers : Map ℕ ℕ)
    → Below k peers
    → times channel (insert k k peers) ≡ times channel peers + (if eqb k channel then 1 else 0)
unfolding insert
times-insert channel k [] h = omega arith
times-insert channel k ((i, c) ∷ peers) h = elim (Bool-cases (i == k)) [
  | inl e ↦ absurd (ground (arith, h.0, e))
  | inr e ↦ rw e (omega (arith, times-insert channel k peers h.2))
]

times-register_nodes_before :
    {M : Type 0}
    → (channel rounds k : ℕ) (network : Network M) → Below k network.peers
    → channel < k
    → times channel (register_nodes rounds k network).peers ≡ times channel network.peers
unfolding register_nodes register
times-register_nodes_before channel zero k network h less = refl
times-register_nodes_before channel (suc rounds) k network h less = ground (
  arith,
  less,
  times-register_nodes_before channel rounds (suc k) (register k k network)
      (Below-insert k network.peers h) (omega (arith, less)),
  times-insert channel k network.peers h,
)

times-register_nodes :
    {M : Type 0}
    → (channel rounds k : ℕ) (network : Network M) → Below k network.peers
    → k ≤ channel
    → channel < k + rounds
    → times channel (register_nodes rounds k network).peers ≡ suc (times channel network.peers)
unfolding register_nodes register
times-register_nodes channel zero k network h low high = absurd (omega (arith, low, high))
times-register_nodes channel (suc rounds) k network h low high = elim (Bool-cases (eqb k channel)) [
  | inl e ↦ ground (
    arith,
    e,
    times-register_nodes_before channel rounds (suc k) (register k k network)
        (Below-insert k network.peers h) (ground (arith, e)),
    times-insert channel k network.peers h,
  )
  | inr e ↦ ground (
    arith,
    e,
    times-register_nodes channel rounds (suc k) (register k k network)
        (Below-insert k network.peers h) (ground (arith, e, low)) (omega (arith, high)),
    times-insert channel k network.peers h,
  )
]

-- With the nodes 1..honest registered as `main` does it, whatever is broadcast from then on and in
-- whatever order the goroutines get to write: of the messages of any kind (`test`), the inbox of each
-- node has got, or is yet to get, exactly as many as were broadcast.
pub arrives_once_at_node :
    {M : Type 0}
    → (test : M → Bool) (honest i : ℕ) (w : Traffic M) → IsId honest i
    → TrafficRun (register_nodes honest 1 (new_network {M = M})).peers w
    → count test (w.arrived i) + waiting test i w.network.writers ≡ count test w.sent
unfolding new_network
arrives_once_at_node {M} test honest i w known r =
    arrives_once test (register_nodes honest 1 (new_network {M = M})).peers i w
      (times-register_nodes i honest 1 (new_network {M = M}) tt known.0 (omega (arith, known.1))) r

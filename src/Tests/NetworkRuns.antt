-- ===== src/Tests/NetworkRuns.antt =====
-- services/network.go with the inboxes of two nodes, and main.go with an input of gen.go.
use async_agreement_protocol.Base.{
  ℕ, ◌+◌, ◌-◌, ◌%◌, some, none, ◌*◌, ◌≤◌, ◌<◌, ◌≡◌, refl, [], ◌∷◌, String, nat_comparable, eqb,
  if◌then◌else◌, arith,
}
use async_agreement_protocol.Base.Int.{negsuc}
use async_agreement_protocol.Base.Maps
use async_agreement_protocol.Base.Maps.{Map}
use async_agreement_protocol.Network
use async_agreement_protocol.Simulation.{print_generated, generate, random_sizes}
use async_agreement_protocol.Simulation
use async_agreement_protocol.Simulation.Text
use async_agreement_protocol.Simulation.Text.{scan_number}
use async_agreement_protocol.Simulation.Resilience.{draws, StartsWith, set_up-generate}
use async_agreement_protocol.Network.{new_network}
use async_agreement_protocol.Network.Arrivals.{
  Traffic, TrafficRun, ready, broadcasts, writes, count, waiting,
}
use async_agreement_protocol.Network.Nodes.{register_nodes, arrives_once_at_node}

abbrev peers : Map ℕ ℕ
peers = (register_nodes 2 1 (new_network {M = ℕ})).peers

abbrev silent : Traffic ℕ
silent = record { network = record { peers = peers; writers = [] }; sent = []; arrived = λ c. [] }

-- The number 5 is broadcast, and has reached the first node.
abbrev half : Traffic ℕ
half = record {
  network = record { peers = peers; writers = (2, 5) ∷ [] };
  sent = 5 ∷ [];
  arrived = λ c. if eqb 1 c then 5 ∷ [] else [];
}

half_run : TrafficRun peers half
unfolding Network.broadcast_to_peers Network.spawn register_nodes Network.register new_network
    Maps.insert
half_run = writes 1 5 [] ((2, 5) ∷ []) _ (broadcasts 5 silent ready) refl

arrives_once_at_node_example :
    count (λ m. eqb m 5) (half.arrived 2) + waiting (λ m. eqb m 5) 2 half.network.writers
    ≡ count (λ m. eqb m 5) half.sent
arrives_once_at_node_example =
    arrives_once_at_node (λ m. eqb m 5) 2 2 half (omega arith, omega arith) half_run

-- The largest numbers are drawn.
abbrev largest : ℕ → ℕ → ℕ
largest draw bound = bound - 1

abbrev no_numbers : String → ℕ
no_numbers word = 0

set_up-generate_example :
    (n : ℕ) × (t : ℕ) × (random_sizes largest ≡ (n, t))
    × (4 ≤ n)
    × (n ≤ 13)
    × (3 * t < n)
    × (2 * t < n - t)
    × StartsWith ℕ ℕ n t (draws largest (n - t) 2) (generate largest no_numbers [])
set_up-generate_example =
    set_up-generate ℕ ℕ largest no_numbers (λ draw bound positive. omega (arith, positive))

-- The words are `4 1`, `0 1 0` on the next line.
print_smallest :
    print_generated (λ draw bound. draw % bound) (4, 1)
    ≡ b'4' ∷ b' ' ∷ b'1' ∷ b'\n' ∷ b'0' ∷ b' ' ∷ b'1' ∷ b' ' ∷ b'0' ∷ b' ' ∷ b'\n' ∷ []
unfolding print_generated Simulation.print_inputs Text.print_number Text.print_digits
print_smallest = refl

-- A sign, spaces, a missing number, and a word that is none.
scan_words :
    (scan_number (b'\n' ∷ b'-' ∷ b'1' ∷ b'0' ∷ b'x' ∷ []) ≡ (some (negsuc 9), b'x' ∷ []))
    × (scan_number (b' ' ∷ []) ≡ (none, []))
    × (scan_number (b'x' ∷ []) ≡ (none, b'x' ∷ []))
unfolding scan_number Text.skip_spaces Text.scan_signed Text.scan_digits Text.read_digits
scan_words = (refl, refl, refl)

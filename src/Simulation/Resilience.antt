-- ===== src/Simulation/Resilience.antt =====
-- gen.go and main.go: the simulation that the printed text starts.
use async_agreement_protocol.Base.{
  ℕ, zero, suc, ◌+◌, ◌-◌, ◌*◌, ◌/◌, ◌≤◌, ◌<◌, ◌≡◌, refl, ap, ◌∙◌, false, some, List, [], ◌∷◌,
  String, ltb, length, map, arith,
}
use async_agreement_protocol.Base.Int.{ℤ, pos}
use async_agreement_protocol.Aba.{AbaMessage, new_aba_service}
use async_agreement_protocol.Manager.{new_service_manager}
use async_agreement_protocol.Network.{Network, new_network, register}
use async_agreement_protocol.Network.Nodes.{Node, new_node, register_nodes}
use async_agreement_protocol.Simulation.Generator.{
  random_sizes, print_inputs, print_generated, generate,
}
use async_agreement_protocol.Simulation.Text.{
  Text, space, newline, print_number, end_call, scan_number-print_number, scan_number-space,
}
use async_agreement_protocol.Simulation.Setup.{
  or_default, read_inputs, Simulation, create_nodes, set_up_sizes, set_up,
}

-- The numbers that are drawn for the inputs.
abbrev pub draws : (ℕ → ℕ → ℕ) → ℕ → ℕ → List ℕ
draws intn zero draw = []
draws intn (suc rounds) draw = intn draw 2 ∷ draws intn rounds (suc draw)

-- Nodes with these ids and sizes, one for each input, which is a bit.
abbrev pub AreNodes : {S M : Type 0} → ℕ → ℕ → ℕ → List ℕ → List (Node S M) → Type 0
AreNodes n t id [] [] = Unit {0}
AreNodes n t id [] (node ∷ nodes) = ⊥
AreNodes n t id (bit ∷ bits) [] = ⊥
AreNodes n t id (bit ∷ bits) (node ∷ nodes) =
    (bit < 2)
    × (node.id ≡ id)
    × (node.manager.service.id ≡ id)
    × (node.manager.service.n ≡ n)
    × (node.manager.service.t ≡ t)
    × (node.manager.service.estimate ≡ pos bit)
    × AreNodes n t (suc id) bits nodes

module _ (intn : ℕ → ℕ → ℕ) (bounded : (draw bound : ℕ) → 0 < bound → intn draw bound < bound) where
  random_sizes-resilient :
      (4 ≤ (random_sizes intn).0)
      × ((random_sizes intn).0 ≤ 13)
      × (3 * (random_sizes intn).1 < (random_sizes intn).0)
  unfolding random_sizes
  random_sizes-resilient =
      let a = bounded 0 10 (omega arith) in
      let b = bounded 1 ((intn 0 10 + 4 - 1) / 3 + 1) (omega arith) in
      (omega arith, omega (arith, a), ground (arith, a, b))

  length-draws : (rounds draw : ℕ) → length (map pos (draws intn rounds draw)) ≡ rounds
  length-draws zero draw = refl
  length-draws (suc rounds) draw = ap suc (length-draws rounds (suc draw))

  module _ (S M : Type 0) (n t : ℕ) where
    create_nodes-AreNodes :
        (rounds draw id : ℕ) (network : Network (AbaMessage M))
        → AreNodes n t id
            (draws intn rounds draw)
            (create_nodes S M n t (map pos (draws intn rounds draw)) id network).nodes
    unfolding create_nodes new_node new_aba_service new_service_manager
    create_nodes-AreNodes zero draw id network = tt
    create_nodes-AreNodes (suc rounds) draw id network = (
      bounded draw 2 (omega arith),
      refl,
      refl,
      refl,
      refl,
      refl,
      create_nodes-AreNodes rounds (suc draw) (suc id) (register id id network),
    )

module _ (S M : Type 0) (n t : ℕ) where
  create_nodes-register_nodes :
      (inputs : List ℤ) (id : ℕ) (network : Network (AbaMessage M))
      → (create_nodes S M n t inputs id network).network ≡ register_nodes (length inputs) id network
  unfolding create_nodes register_nodes
  create_nodes-register_nodes [] id network = refl
  create_nodes-register_nodes (input ∷ inputs) id network =
      create_nodes-register_nodes inputs (suc id) (register id id network)

  length-create_nodes :
      (inputs : List ℤ) (id : ℕ) (network : Network (AbaMessage M))
      → length (create_nodes S M n t inputs id network).nodes ≡ length inputs
  unfolding create_nodes
  length-create_nodes [] id network = refl
  length-create_nodes (input ∷ inputs) id network =
      ap suc (length-create_nodes inputs (suc id) (register id id network))

-- The inputs that are printed are read back one by one.
read_inputs-print_inputs :
    (intn : ℕ → ℕ → ℕ) (rounds draw : ℕ)
    → read_inputs rounds (print_inputs intn rounds draw) ≡ map pos (draws intn rounds draw)
unfolding read_inputs print_inputs
read_inputs-print_inputs intn zero draw = refl
read_inputs-print_inputs intn (suc rounds) draw =
    let scanned =
      scan_number-print_number (intn draw 2) space (print_inputs intn rounds (suc draw)) refl in
    ap (λ o. or_default o.0 ∷ read_inputs rounds (end_call o.1)) scanned
    ∙ ap (λ l. pos (intn draw 2) ∷ l) (read_inputs-print_inputs intn rounds (suc draw))

module _ (S M : Type 0) where
  -- `main` reads these sizes, whatever text follows them.
  set_up-sizes :
      (n t : ℕ) (text : Text)
      → set_up S M (print_number n (space ∷ print_number t (newline ∷ text)))
        ≡ set_up_sizes S M (some (pos n)) (some (pos t)) text
  unfolding set_up
  set_up-sizes n t text =
      let after = print_number t (newline ∷ text) in
      rw
        (
          scan_number-print_number n space after refl,
          scan_number-space after,
          scan_number-print_number t newline text refl,
        )
        refl

  -- What `main` makes of a text with these sizes and inputs.
  abbrev pub StartsWith : ℕ → ℕ → List ℕ → Text → Type 0
  StartsWith n t bits text =
      (sim : Simulation S M) × (set_up S M text ≡ some sim)
      × AreNodes n t 1 bits sim.nodes
      × (length sim.nodes ≡ n - t)
      × (sim.network ≡ register_nodes (n - t) 1 new_network)

  printed-StartsWith :
      (intn : ℕ → ℕ → ℕ)
      → ((draw bound : ℕ) → 0 < bound → intn draw bound < bound)
      → (n t : ℕ) → t ≤ n
      → StartsWith n t (draws intn (n - t) 2) (print_generated intn (n, t))
  unfolding print_generated set_up_sizes
  printed-StartsWith intn bounded n t less =
      let words : List ℤ = map pos (draws intn (n - t) 2) in
      let size = length-draws intn bounded (n - t) 2 in
      let fits : ltb n t ≡ false = ground (arith, less) in
      (
        create_nodes S M n t words 1 new_network,
        set_up-sizes n t (print_inputs intn (n - t) 2)
            ∙ rw (fits, read_inputs-print_inputs intn (n - t) 2) refl,
        create_nodes-AreNodes intn bounded S M n t (n - t) 2 1 new_network,
        length-create_nodes S M n t words 1 new_network ∙ size,
        create_nodes-register_nodes S M n t words 1 new_network
            ∙ ap (λ k. register_nodes k 1 new_network) size,
      )

-- If `rand.Intn` stays below its bound, the generator without arguments draws 4 to 13 processes of
-- which less than a third are faulty, and `main` reads the text that it prints back: the nodes that
-- it creates have the ids from 1 on, the sizes and the inputs that were drawn, which are bits, there
-- are more than 2t of them, and the network is the one with their inboxes registered.
pub set_up-generate :
    (S M : Type 0) (intn : ℕ → ℕ → ℕ) (atoi : String → ℕ)
    → ((draw bound : ℕ) → 0 < bound → intn draw bound < bound)
    → (n : ℕ) × (t : ℕ) × (random_sizes intn ≡ (n, t))
      × (4 ≤ n)
      × (n ≤ 13)
      × (3 * t < n)
      × (2 * t < n - t)
      × StartsWith S M n t (draws intn (n - t) 2) (generate intn atoi [])
unfolding generate
set_up-generate S M intn atoi bounded =
    let (low, high, third) = random_sizes-resilient intn bounded in
    (
      (random_sizes intn).0,
      (random_sizes intn).1,
      refl,
      low,
      high,
      third,
      omega (arith, third),
      printed-StartsWith S M intn bounded _ _ (omega (arith, third)),
    )

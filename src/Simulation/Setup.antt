-- ===== src/Simulation/Setup.antt =====
-- main.go, up to the start of the nodes. The input is a text; negative sizes are left out.
use async_agreement_protocol.Base.{
  ℕ, zero, suc, ◌-◌, Option, none, some, List, [], ◌∷◌, ltb, if◌then◌else◌,
}
use async_agreement_protocol.Base.Int.{ℤ, pos, negsuc}
use async_agreement_protocol.Certification.{new_certification_protocol}
use async_agreement_protocol.Aba.{AbaMessage}
use async_agreement_protocol.Network.{Network, new_network, register}
use async_agreement_protocol.Network.Nodes.{Node, new_node}
use async_agreement_protocol.Simulation.Text.{Text, scan_number, end_call}

-- "If input missing, default to 0"
abbrev pub or_default : Option ℤ → ℤ
or_default none = pos 0
or_default (some word) = word

-- The loop that reads the inputs of the honest nodes, each by a call of Scan.
unfoldable pub read_inputs : ℕ → Text → List ℤ
read_inputs zero text = []
read_inputs (suc rounds) text =
    let (word, rest) = scan_number text in or_default word ∷ read_inputs rounds (end_call rest)

-- The nodes, and the network of their inboxes.
pub record Simulation (S M : Type 0) : Type 0 where
  pub nodes : List (Node S M)
  pub network : Network (AbaMessage M)

-- "Create Nodes", from the node `id` on; each has its own certification.
unfoldable pub create_nodes :
    (S M : Type 0) → ℕ → ℕ → List ℤ → ℕ → Network (AbaMessage M) → Simulation S M
create_nodes S M n t [] id network = record { nodes = []; network = network }
create_nodes S M n t (input ∷ inputs) id network =
    let rest = create_nodes S M n t inputs (suc id) (register id id network) in
    record rest { nodes = new_node S M id n t input new_certification_protocol ∷ rest.nodes }

-- `main` after the sizes are read; `none` if it ends before "Start Nodes", at a size that could not
-- be read or at a negative number of honest nodes.
unfoldable pub set_up_sizes : (S M : Type 0) → Option ℤ → Option ℤ → Text → Option (Simulation S M)
set_up_sizes S M (some (pos n)) (some (pos t)) text =
    if ltb n t then none else some (create_nodes S M n t (read_inputs (n - t) text) 1 new_network)
set_up_sizes S M (some (pos n)) (some (negsuc t)) text = none
set_up_sizes S M (some (pos n)) none text = none
set_up_sizes S M (some (negsuc n)) t text = none
set_up_sizes S M none t text = none

-- `main` up to "Start Nodes". One call of Scan reads both sizes.
unfoldable pub set_up : (S M : Type 0) → Text → Option (Simulation S M)
set_up S M text =
    let (n, rest) = scan_number text in
    let (t, rest') = scan_number rest in set_up_sizes S M n t (end_call rest')

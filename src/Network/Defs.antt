-- ===== src/Network/Defs.antt =====
-- services/network.go, `Network`. A channel has a number as its name; each operation is atomic under
-- the mutex.
use async_agreement_protocol.Base.{ℕ, List, [], ◌∷◌, ◌++◌, nat_comparable}
use async_agreement_protocol.Base.Maps.{Map, insert}

-- `writers` are the goroutines that have a message to write, with the channels that they write to.
pub record Network {ℓ} (M : Type ℓ) : Type ℓ where
  pub peers : Map ℕ ℕ
  pub writers : List (ℕ × M)

unfoldable pub new_network {ℓ} : {M : Type ℓ} → Network M
new_network = record { peers = []; writers = [] }

module _ {ℓ} {M : Type ℓ} where
  -- `Register`
  unfoldable pub register : ℕ → ℕ → Network M → Network M
  register id channel network = record network { peers = insert id channel network.peers }

  -- The loop of `Broadcast`.
  unfoldable pub spawn : M → Map ℕ ℕ → List (ℕ × M)
  spawn m [] = []
  spawn m ((id, channel) ∷ peers) = (channel, m) ∷ spawn m peers

  -- `Broadcast`
  unfoldable pub broadcast_to_peers : M → Network M → Network M
  broadcast_to_peers m network = record network {
    writers = network.writers ++ spawn m network.peers;
  }

-- ===== src/ACast/System.antt =====
-- One broadcast (one uuid) among n processes: each honest process runs `on_instance` on the
-- messages that reach it, in any order, any number of times, and the faulty ones say anything.
-- A message that names an honest sender was broadcast by it: the code takes `From` as given.
use mathlib.Core.Logic.{ite}
use native.Mathlib.Decide.{ℕ_discrete}
use async_agreement_protocol.Base.{
  ℕ, ◌≡◌, Bool, true, false, ◌&&◌, ◌||◌, List, [], ◌∷◌, ◌++◌, Comparable, nat_comparable, ◌==◌,
}
use async_agreement_protocol.Base.Counting.{IsId}
use async_agreement_protocol.Context.{Effect, broadcast, send_result}
use async_agreement_protocol.ACast.Defs.{
  MessageType, msg, echo, ready, ACastMessage, ACastInstance, new_acast_instance, on_instance,
}

-- What one process holds of the broadcast: its instance, all effects it ever asked for, and all
-- messages that it has handled, the newest first.
pub record View {ℓ} (V : Type ℓ) : Type ℓ where
  pub inst : ACastInstance V
  pub log : List (Effect (ACastMessage V) V)
  pub handled : List (ACastMessage V)

abbrev pub same_type : MessageType → MessageType → Bool
same_type msg msg = true
same_type echo echo = true
same_type ready ready = true
same_type _ _ = false

module _ {ℓ} {V : Type ℓ} ⦃c : Comparable V⦄ where
  abbrev pub is_broadcast : MessageType → V → Effect (ACastMessage V) V → Bool
  is_broadcast ty v (broadcast m) = same_type m.type ty && m.val == v
  is_broadcast ty v (send_result w) = false

  abbrev pub is_result : V → Effect (ACastMessage V) V → Bool
  is_result v (broadcast m) = false
  is_result v (send_result w) = w == v

  -- The process broadcast a message of this type and value.
  abbrev pub sent : MessageType → V → List (Effect (ACastMessage V) V) → Bool
  sent ty v [] = false
  sent ty v (e ∷ es) = is_broadcast ty v e || sent ty v es

  -- The process delivered the value.
  abbrev pub result : V → List (Effect (ACastMessage V) V) → Bool
  result v [] = false
  result v (e ∷ es) = is_result v e || result v es

  -- The process handled a message of this type and value from this sender.
  abbrev pub heard : MessageType → ℕ → V → List (ACastMessage V) → Bool
  heard ty i v [] = false
  heard ty i v (m ∷ ms) = (same_type m.type ty && m.from == i && m.val == v) || heard ty i v ms

  -- Process `id` handles a message.
  unfoldable pub receive_view : ℕ → ℕ → ℕ → ACastMessage V → View V → View V
  unfolding on_instance
  receive_view id n t m p =
      let (inst, effects) = on_instance id n t m p.inst in
      record { inst = inst; log = effects ++ p.log; handled = m ∷ p.handled }

  -- A process starts the broadcast: `NewACastMessage`, then `Broadcast`.
  abbrev pub start_view : ACastMessage V → View V → View V
  start_view m p = record p { log = broadcast m ∷ p.log }

abbrev pub fresh_view {ℓ} : (V : Type ℓ) → View V
fresh_view V = record { inst = new_acast_instance V; log = []; handled = [] }

abbrev pub update {ℓ} : {A : Type ℓ} → ℕ → A → (ℕ → A) → ℕ → A
update j a f i = ite (ℕ_discrete j i) a (f i)

module _ {ℓ} {V : Type ℓ} ⦃c : Comparable V⦄ (honest : ℕ → Bool) (n t : ℕ) where
  -- The message names one of the processes, and an honest one really broadcast it.
  pub record IsAuthentic (s : ℕ → View V) (m : ACastMessage V) : Type ℓ where
    pub known : IsId n m.from
    pub genuine : honest m.from ≡ true → sent m.type m.val (s m.from).log ≡ true

  pub data Step (s : ℕ → View V) : (ℕ → View V) → Type ℓ where
    receive :
        (j : ℕ) (m : ACastMessage V)
        → IsAuthentic s m
        → Step s (update j (receive_view j n t m (s j)) s)
    start : (j : ℕ) (m : ACastMessage V) → m.type ≡ msg → Step s (update j (start_view m (s j)) s)

  pub data Reach : (ℕ → View V) → Type ℓ where
    here : Reach (λ _. fresh_view V)
    next : {s s' : ℕ → View V} → Reach s → Step s s' → Reach s'

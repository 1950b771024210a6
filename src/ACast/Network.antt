-- ===== src/ACast/Network.antt =====
-- The whole service among n processes: any number of broadcasts at once, each under its uuid.
use async_agreement_protocol.Base.{
  ℕ, ◌≡◌, Bool, true, List, [], ◌∷◌, ◌++◌, Comparable, nat_comparable, String, string_comparable,
  ◌==◌, if◌then◌else◌,
}
use async_agreement_protocol.Base.Counting.{IsId}
use async_agreement_protocol.Context.{Effect, broadcast}
use async_agreement_protocol.ACast.Defs
use async_agreement_protocol.ACast.Defs.{
  msg, ACastMessage, AcastService, new_acast_service, get_instance, on_instance, or_else,
}
use async_agreement_protocol.ACast.System.{View, sent, update}

-- A process with its service, the effects that it asked for, each under the uuid of the message
-- that it was handling, and the messages that it handled, the newest first.
pub record Process {ℓ} (V : Type ℓ) : Type ℓ where
  pub service : AcastService V
  pub log : List (String × Effect (ACastMessage V) V)
  pub handled : List (ACastMessage V)

module _ {ℓ} {V : Type ℓ} where
  abbrev pub tag :
      String → List (Effect (ACastMessage V) V) → List (String × Effect (ACastMessage V) V)
  tag uuid [] = []
  tag uuid (e ∷ es) = (uuid, e) ∷ tag uuid es

  -- The effects under one uuid.
  abbrev pub only :
      String → List (String × Effect (ACastMessage V) V) → List (Effect (ACastMessage V) V)
  only uuid [] = []
  only uuid ((k, e) ∷ l) = let rest = only uuid l in if k == uuid then e ∷ rest else rest

  abbrev pub only_messages : String → List (ACastMessage V) → List (ACastMessage V)
  only_messages uuid [] = []
  only_messages uuid (m ∷ l) =
      let rest = only_messages uuid l in if m.uuid == uuid then m ∷ rest else rest

  -- What a process holds of one broadcast.
  abbrev pub view : String → Process V → View V
  view uuid p = record {
    inst = get_instance p.service uuid;
    log = only uuid p.log;
    handled = only_messages uuid p.handled;
  }

  -- All processes, seen through one uuid.
  abbrev pub views : String → (ℕ → Process V) → ℕ → View V
  views uuid s j = view uuid (s j)

module _ {ℓ} {V : Type ℓ} ⦃c : Comparable V⦄ where
  unfoldable pub receive_process : ACastMessage V → Process V → Process V
  receive_process m p =
      let (service, effects) = Defs.on_message p.service m in
      record { service = service; log = tag m.uuid effects ++ p.log; handled = m ∷ p.handled }

  abbrev pub start_process : ACastMessage V → Process V → Process V
  start_process m p = record p { log = (m.uuid, broadcast m) ∷ p.log }

module _ {ℓ} {V : Type ℓ} ⦃c : Comparable V⦄ (honest : ℕ → Bool) (n t : ℕ) where
  -- `NewAcastService` at each process.
  abbrev pub boot : ℕ → Process V
  boot j = record { service = new_acast_service V j n t; log = []; handled = [] }

  -- The message names one of the processes, and an honest one really broadcast it.
  pub record IsGenuine (s : ℕ → Process V) (m : ACastMessage V) : Type ℓ where
    pub known : IsId n m.from
    pub genuine : honest m.from ≡ true → sent m.type m.val (only m.uuid (s m.from).log) ≡ true

  pub data ServiceStep (s : ℕ → Process V) : (ℕ → Process V) → Type ℓ where
    on_message :
        (j : ℕ) (m : ACastMessage V)
        → IsGenuine s m
        → ServiceStep s (update j (receive_process m (s j)) s)
    new_message :
        (j : ℕ) (m : ACastMessage V)
        → m.type ≡ msg
        → ServiceStep s (update j (start_process m (s j)) s)

  pub data ServiceReach : (ℕ → Process V) → Type ℓ where
    booted : ServiceReach boot
    later : {s s' : ℕ → Process V} → ServiceReach s → ServiceStep s s' → ServiceReach s'

-- ===== src/ACast/Origins.antt =====
-- services/acast.go: a service that is handed a MSG, its own above all, delivers nothing at once.
use async_agreement_protocol.Base.{
  ℕ, ◌≡◌, Bool, true, false, List, [], ◌∷◌, Comparable, string_comparable, arith,
}
use async_agreement_protocol.Context.{Effect, broadcast, send_result}
use async_agreement_protocol.ACast.Defs.{
  MessageType, msg, ACastMessage, ACastInstance, AcastService, get_instance, on_msg, dispatch,
  on_instance, on_message,
}

abbrev pub no_results {ℓ κ} : {M : Type ℓ} {R : Type κ} → List (Effect M R) → Bool
no_results [] = true
no_results (broadcast m ∷ es) = no_results es
no_results (send_result r ∷ es) = false

module _ {ℓ} {V : Type ℓ} ⦃c : Comparable V⦄ where
  dispatch-no_results :
      (type : MessageType) (id n t : ℕ) (m : ACastMessage V) (inst : ACastInstance V)
      → type ≡ msg
      → no_results ((dispatch type id n t m inst).1) ≡ true
  unfolding dispatch on_msg
  dispatch-no_results type id n t m inst e = rw e (ground arith)

  pub on_message-no_results :
      (a : AcastService V) (m : ACastMessage V)
      → m.type ≡ msg
      → no_results ((on_message a m).1) ≡ true
  unfolding on_message on_instance
  on_message-no_results a m e =
      ground (arith, dispatch-no_results m.type a.id a.n a.t m (get_instance a m.uuid) e)

-- ===== src/Context.antt =====
-- services/service.go, `ServiceContext`: what a service asks of the outside while it handles one
-- message. The calls that a handler makes are the list of its effects, in the order of the calls.
pub data Effect {ℓ κ} (M : Type ℓ) (R : Type κ) : Type (ℓ ⊔ κ) where
  broadcast : M → Effect M R
  send_result : R → Effect M R

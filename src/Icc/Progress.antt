-- ===== src/Icc/Progress.antt =====
-- services/icc.go, `checkProgress`: the phases, each of which sends one A-Cast. Go visits a map in an
-- arbitrary order; here it is that of the association list, which may be any.
use async_agreement_protocol.Base.{
  ℕ, suc, ◌-◌, Bool, true, false, not, ◌&&◌, Option, none, some, List, [], ◌∷◌, String,
  nat_comparable, string_comparable, ◌==◌, eqb, leb, if◌then◌else◌, length,
}
use async_agreement_protocol.Base.Maps.{Map, lookup}
use async_agreement_protocol.Base.Sorting.{sort}
use async_agreement_protocol.Context.{Effect, broadcast, send_result}
use async_agreement_protocol.Attempt.{returns, waits, prepend, and_then}
use async_agreement_protocol.ACast.{ACastMessage, new_acast_message, on_message}
use async_agreement_protocol.Vote.{is_subset}
use async_agreement_protocol.Ivss.{IvssMessage, IvssEffects, start_reconstruction}
use async_agreement_protocol.Icc.Types.{
  icc_attach, icc_accept, icc_final_sets, IccPayload, icc_ivss, icc_acast, IccMessage, IccService,
  IccOutside, IccEffects, IccAttempt,
}
use async_agreement_protocol.Icc.Coin.{check_decision}

abbrev pub wrap_acast : ACastMessage String → IccMessage
wrap_acast m = record { type = icc_acast; ivss_msg = none; acast_msg = some m }

abbrev pub wrap_ivss : IvssMessage → IccMessage
wrap_ivss m = record { type = icc_ivss; ivss_msg = some m; acast_msg = none }

-- The broadcasts of a handler through the adapter. `startACast` hands the A-Cast service a MSG,
-- which never delivers, so the adapter's `SendResult` has no part in it.
unfoldable pub wrap_acasts : List (Effect (ACastMessage String) String) → IccEffects
wrap_acasts [] = []
wrap_acasts (broadcast m ∷ es) = broadcast (wrap_acast m) ∷ wrap_acasts es
wrap_acasts (send_result v ∷ es) = wrap_acasts es

-- The same for `StartReconstruction`, which hands its adapter broadcasts only (Icc/Sharings).
unfoldable pub wrap_sharings : IvssEffects → IccEffects
wrap_sharings [] = []
wrap_sharings (broadcast m ∷ es) = broadcast (wrap_ivss m) ∷ wrap_sharings es
wrap_sharings (send_result res ∷ es) = wrap_sharings es

-- The dealers of whom all n secrets are complete.
unfoldable pub complete_dealers : ℕ → Map ℕ ℕ → List ℕ
complete_dealers n [] = []
complete_dealers n ((dealer, count) ∷ counts) =
    let rest = complete_dealers n counts in if eqb count n then dealer ∷ rest else rest

-- The processes whose set is a subset of ours.
unfoldable pub subset_senders : Map ℕ (List ℕ) → List ℕ → List ℕ
subset_senders [] ours = []
subset_senders ((j, set) ∷ sets) ours =
    let rest = subset_senders sets ours in if is_subset set ours then j ∷ rest else rest

abbrev pub attach_payload : ℕ → List ℕ → IccPayload
attach_payload sender set = record {
  type = icc_attach;
  set_t = set;
  set_a = [];
  set_h = [];
  set_s = [];
  sender = sender;
}

abbrev pub accept_payload : ℕ → List ℕ → IccPayload
accept_payload sender set = record {
  type = icc_accept;
  set_t = [];
  set_a = set;
  set_h = [];
  set_s = [];
  sender = sender;
}

abbrev pub final_payload : ℕ → List ℕ → List ℕ → IccPayload
final_payload sender h s = record {
  type = icc_final_sets;
  set_t = [];
  set_a = [];
  set_h = h;
  set_s = s;
  sender = sender;
}

-- Whether the caller has locked the instance.
abbrev pub locks : Option String → String → Bool
locks none instance_id = false
locks (some held) instance_id = held == instance_id

module _ (outside : IccOutside) where
  -- `startACast`
  unfoldable pub start_acast : IccPayload → IccService → IccService × IccEffects
  start_acast p s =
      let m = new_acast_message outside.new_uuid (outside.marshal p) s.id s.clock in
      let (acast, local) = on_message s.acast m in
      (
        record s { acast = acast; clock = suc s.clock },
        broadcast (wrap_acast m) ∷ wrap_acasts local,
      )

  -- "Step 2"
  unfoldable pub phase_attach : IccService → IccService × IccEffects
  phase_attach s =
      let dealers = complete_dealers s.n s.completed_secrets_count in
      if not s.sent_attach && leb (s.n - s.t) (length dealers)
      then start_acast (attach_payload s.id (sort dealers))
          (record s { my_t = sort dealers; sent_attach = true })
      else (s, [])

  -- "Step 3"
  unfoldable pub phase_accept : IccService → IccService × IccEffects
  phase_accept s =
      let senders = subset_senders s.received_t s.my_t in
      if not s.sent_accept && s.sent_attach && leb (s.n - s.t) (length senders)
      then start_acast (accept_payload s.id (sort senders))
          (record s { my_a = sort senders; sent_accept = true })
      else (s, [])

  -- One call of `StartReconstruction`, which locks its instance. `held` is the instance that the
  -- caller has locked already.
  unfoldable pub reconstruct_one : Option String → ℕ → ℕ → IccService → IccAttempt
  reconstruct_one held j k s =
      let instance_id = outside.print_instance s.round k j in
      let (ivss, es) = start_reconstruction outside.ivss instance_id s.ivss in
      if locks held instance_id
      then waits
      else returns (record s { ivss = ivss }) (wrap_sharings es)

  -- The inner loop of `startReconstruction`, over the dealers of T_j.
  unfoldable pub reconstruct_row : Option String → ℕ → List ℕ → IccService → IccAttempt
  reconstruct_row held j [] s = returns s []
  reconstruct_row held j (k ∷ ks) s =
      and_then (reconstruct_one held j k s) (reconstruct_row held j ks)

  abbrev pub reconstruct_from : Option String → ℕ → Option (List ℕ) → IccService → IccAttempt
  reconstruct_from held j none s = returns s []
  reconstruct_from held j (some dealers) s = reconstruct_row held j dealers s

  -- The outer loop of `startReconstruction`.
  unfoldable pub reconstruct_rows : Option String → List ℕ → IccService → IccAttempt
  reconstruct_rows held [] s = returns s []
  reconstruct_rows held (j ∷ js) s =
      and_then (reconstruct_from held j (lookup j s.received_t) s) (reconstruct_rows held js)

  -- "Step 4"
  unfoldable pub phase_reconstruct : Option String → IccService → IccAttempt
  phase_reconstruct held s =
      let senders = subset_senders s.received_a s.my_a in
      let s' = record s { my_s = sort senders; my_h = s.my_a; sent_reconstruct = true } in
      let (s'', es) = start_acast (final_payload s.id s.my_a (sort senders)) s' in
      if not s.sent_reconstruct && s.sent_accept && leb (s.n - s.t) (length senders)
      then prepend es (reconstruct_rows held s''.my_a s'')
      else returns s []

  abbrev pub done : IccService × IccEffects → IccAttempt
  done (s, es) = returns s es

  -- `checkProgress`
  unfoldable pub check_progress : Option String → IccService → IccAttempt
  check_progress held s =
      let (s1, attach) = phase_attach s in
      let (s2, accept) = phase_accept s1 in
      prepend attach
        (prepend accept (and_then (phase_reconstruct held s2) (λ d. done (check_decision d))))

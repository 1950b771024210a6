-- ===== src/ACast/Projection.antt =====
-- Seen through one uuid, a run of the services is a run of `System`.
use mathlib.Core.Path.{fun_ext}
use mathlib.Core.Logic.{ite}
use native.Mathlib.Decide.{ℕ_discrete}
use async_agreement_protocol.Base.{
  ℕ, ◌≡◌, refl, sym, subst, Bool, true, false, List, [], ◌∷◌, ◌++◌, Comparable, nat_comparable,
  String, string_comparable, ◌==◌, if◌then◌else◌, arith, not, ◌<◌, ◌*◌, ◌≤◌, Bool-cases, inl, inr,
  eq_of_beq, beq_refl, ap, ◌∙◌,
}
use async_agreement_protocol.Base.Maps
use async_agreement_protocol.Base.Maps.{lookup-insert}
use async_agreement_protocol.Base.Counting.{count_ids}
use async_agreement_protocol.Context.{Effect}
use async_agreement_protocol.ACast.Defs
use async_agreement_protocol.ACast.Defs.{
  msg, ACastMessage, AcastService, new_acast_service, get_instance, on_instance, or_else,
}
use async_agreement_protocol.ACast.System.{
  View, result, receive_view, start_view, update, receive, start, Reach, here, next,
}
use async_agreement_protocol.ACast.Agreement
use async_agreement_protocol.ACast.Network.{
  Process, tag, only, view, views, receive_process, start_process, ServiceStep, on_message,
  new_message, ServiceReach, booted, later,
}

module _ {ℓ} {V : Type ℓ} where
  only-tag :
      (uuid k : String) (es : List (Effect (ACastMessage V) V))
      (l : List (String × Effect (ACastMessage V) V))
      → only uuid (tag k es ++ l) ≡ (if k == uuid then es ++ only uuid l else only uuid l)
  only-tag uuid k [] l = ground arith
  only-tag uuid k (e ∷ es) l = ground (arith, only-tag uuid k es l)

module _ {ℓ} {V : Type ℓ} ⦃c : Comparable V⦄ where
  -- A service handles messages of other uuids without touching this one.
  view-receive_other :
      (uuid : String) (m : ACastMessage V) (p : Process V)
      → (m.uuid == uuid) ≡ false
      → view uuid (receive_process m p) ≡ view uuid p
  unfolding receive_process Defs.on_message get_instance
  view-receive_other uuid m p e = ground (
    arith,
    lookup-insert m.uuid uuid
        (on_instance p.service.id p.service.n p.service.t m (get_instance p.service m.uuid)).0
        p.service.instances,
    only-tag uuid m.uuid
        (on_instance p.service.id p.service.n p.service.t m (get_instance p.service m.uuid)).1
        p.log,
  )

  -- On its own uuid it does what one instance does.
  view-receive_same :
      (m : ACastMessage V) (p : Process V)
      → view m.uuid (receive_process m p)
        ≡ receive_view p.service.id p.service.n p.service.t m (view m.uuid p)
  unfolding receive_process Defs.on_message get_instance receive_view
  view-receive_same m p = ground (
    arith,
    beq_refl m.uuid,
    lookup-insert m.uuid m.uuid
        (on_instance p.service.id p.service.n p.service.t m (get_instance p.service m.uuid)).0
        p.service.instances,
    only-tag m.uuid m.uuid
        (on_instance p.service.id p.service.n p.service.t m (get_instance p.service m.uuid)).1
        p.log,
  )

module _ {ℓ} {V : Type ℓ} ⦃c : Comparable V⦄ (honest : ℕ → Bool) (n t : ℕ) where
  -- A service keeps the parameters that it was made with.
  abbrev HasParams : (ℕ → Process V) → Type 0
  HasParams s = (j : ℕ) → ((s j).service.id ≡ j) × ((s j).service.n ≡ n) × ((s j).service.t ≡ t)

  views-update :
      (uuid : String) (s : ℕ → Process V) (j : ℕ) (p : Process V)
      → views uuid (update j p s) ≡ update j (view uuid p) (views uuid s)
  views-update uuid s j p = fun_ext (λ i.
      elim (ℕ_discrete j i)
        as (λ d. view uuid (ite d p (s i)) ≡ ite d (view uuid p) (view uuid (s i))) [
          | yes e ↦ refl
          | no e ↦ refl
        ])

  update_self : (s : ℕ → View V) (j : ℕ) → update j (s j) s ≡ s
  update_self s j = fun_ext (λ i. elim (ℕ_discrete j i) as (λ d. ite d (s j) (s i) ≡ s i) [
    | yes e ↦ ap s e
    | no e ↦ refl
  ])

  module _ (s : ℕ → Process V) (params : HasParams s) (j : ℕ) where
    update-HasParams :
        (p : Process V)
        → ((p.service.id ≡ j) × (p.service.n ≡ n) × (p.service.t ≡ t))
        → HasParams (update j p s)
    update-HasParams p h i =
        elim (ℕ_discrete j i)
          as (λ d.
            let q = ite d p (s i) in (q.service.id ≡ i) × (q.service.n ≡ n) × (q.service.t ≡ t)) [
              | yes e ↦ subst (λ k. (p.service.id ≡ k) × (p.service.n ≡ n) × (p.service.t ≡ t)) e h
              | no e ↦ params i
            ]

    receive-view :
        (m : ACastMessage V)
        → view m.uuid (receive_process m (s j)) ≡ receive_view j n t m (view m.uuid (s j))
    receive-view m =
        view-receive_same m (s j) ∙ (rw ((params j).0, (params j).1, (params j).2) refl)

  receive-params :
      (m : ACastMessage V) (p : Process V)
      → ((receive_process m p).service.id ≡ p.service.id)
        × ((receive_process m p).service.n ≡ p.service.n)
        × ((receive_process m p).service.t ≡ p.service.t)
  unfolding receive_process Defs.on_message
  receive-params m p = (refl, refl, refl)

  ServiceStep-HasParams :
      {s s' : ℕ → Process V} → ServiceStep honest n t s s' → HasParams s → HasParams s'
  ServiceStep-HasParams {s} (on_message j m a) h =
      let p = receive-params m (s j) in
      update-HasParams _ h j _ (p.0 ∙ (h j).0, p.1 ∙ (h j).1, p.2 ∙ (h j).2)
  ServiceStep-HasParams (new_message j m e) h = update-HasParams _ h j _ (h j)

  ServiceReach-HasParams : {s : ℕ → Process V} → ServiceReach honest n t s → HasParams s
  unfolding new_acast_service
  ServiceReach-HasParams booted = λ j. (refl, refl, refl)
  ServiceReach-HasParams (later r st) = ServiceStep-HasParams st (ServiceReach-HasParams r)

  -- Seen through a uuid, a step of the services is a step of that broadcast, or none.
  ServiceStep-views :
      (uuid : String) {s s' : ℕ → Process V}
      → HasParams s
      → ServiceStep honest n t s s'
      → Reach honest n t (views uuid s)
      → Reach honest n t (views uuid s')
  ServiceStep-views uuid {s} h (on_message j m a) r = elim (Bool-cases (m.uuid == uuid)) [
    | inl e ↦
        subst
          (λ u.
            Reach honest n t (views u s)
            → Reach honest n t (views u (update j (receive_process m (s j)) s)))
          (eq_of_beq {a = m.uuid} {b = uuid} e)
          (λ r.
            subst (Reach honest n t)
              (sym (
                views-update m.uuid s j _
                ∙ ap (λ p. update j p (views m.uuid s)) (receive-view s h j m)))
              (next r (receive j m (record { known = a.known; genuine = a.genuine }))))
          r
    | inr e ↦
        subst (Reach honest n t)
          (sym (
            views-update uuid s j _
            ∙ ap (λ p. update j p (views uuid s)) (view-receive_other uuid m (s j) e)
            ∙ update_self (views uuid s) j))
          r
  ]
  ServiceStep-views uuid {s} h (new_message j m ty) r = elim (Bool-cases (m.uuid == uuid)) [
    | inl e ↦
        subst (Reach honest n t)
          (sym (views-update uuid s j _ ∙ ap (λ p. update j p (views uuid s)) (start_same e)))
          (next r (start j m ty))
    | inr e ↦
        subst (Reach honest n t)
          (sym (
            views-update uuid s j _
            ∙ ap (λ p. update j p (views uuid s)) (start_other e)
            ∙ update_self (views uuid s) j))
          r
  ]
    where
      start_same :
          (m.uuid == uuid) ≡ true
          → view uuid (start_process m (s j)) ≡ start_view m (view uuid (s j))
      start_same e = rw e

      start_other : (m.uuid == uuid) ≡ false → view uuid (start_process m (s j)) ≡ view uuid (s j)
      start_other e = rw e

  -- A run of n services, seen through any uuid, is a run of the protocol for one broadcast.
  pub ServiceReach-views :
      (uuid : String) {s : ℕ → Process V}
      → ServiceReach honest n t s
      → Reach honest n t (views uuid s)
  unfolding get_instance new_acast_service Maps.lookup
  ServiceReach-views uuid booted = here
  ServiceReach-views uuid (later r st) =
      ServiceStep-views uuid (ServiceReach-HasParams r) st (ServiceReach-views uuid r)

  -- In a run of services of n processes, of which at most t are not honest and 3t < n, if two
  -- processes deliver v and w under one uuid, then v is w.
  pub service_agreement :
      {s : ℕ → Process V}
      → count_ids (λ i. not (honest i)) n ≤ t
      → 3 * t < n
      → ServiceReach honest n t s
      → (uuid : String) (i j : ℕ) (v w : V) → result v (only uuid (s i).log) ≡ true
      → result w (only uuid (s j).log) ≡ true
      → v ≡ w
  service_agreement few big r uuid =
      Agreement.agreement honest n t few big (ServiceReach-views uuid r)

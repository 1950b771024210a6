-- ===== src/Icc/Decision.antt =====
-- services/icc.go, `checkDecision`: which coin is output, and when one is.
use mathlib.Core.List.{Memᴰ}
use mathlib.Core.Option.{some-injective}
use async_agreement_protocol.Base.{
  ℕ, ◌≡◌, ◌≢◌, ◌⊎◌, refl, sym, ◌∙◌, ap, subst, inl, inr, Bool, true, false, ◌||◌, Option, none,
  some, List, [], ◌∷◌, nat_comparable, eqb, if◌then◌else◌, arith, Bool-cases,
}
use async_agreement_protocol.Base.Int.{ℤ, pos}
use async_agreement_protocol.Base.Members.{contains}
use async_agreement_protocol.Context.{Effect, broadcast, send_result}
use async_agreement_protocol.Icc.Types.{IccMessage, IccResult, FinalSet, IccService, IccEffects}
use async_agreement_protocol.Icc.Coin.{
  value_of, has_zero, or_zero, accepts, first_decided, find_decision, output_coin, check_decision,
}

module _ (s : IccService) where
  -- Every v_j of a set is computed.
  abbrev pub Computed : List ℕ → Type 0
  Computed h = (j : ℕ) → contains h j ≡ true → (v : ℕ) × (value_of s j ≡ some v)

  -- Some v_j of a set is 0.
  abbrev pub HasZero : List ℕ → Type 0
  HasZero h = (j : ℕ) × (contains h j ≡ true) × (value_of s j ≡ some 0)

  or_zero-inv :
      (a : Option ℕ) (b : Option Bool) (z : Bool)
      → or_zero a b ≡ some z
      → (v : ℕ) × (w : Bool) × (a ≡ some v) × (b ≡ some w) × ((eqb v 0 || w) ≡ z)
  or_zero-inv none b z e = ground (arith, e)
  or_zero-inv (some v) none z e = ground (arith, e)
  or_zero-inv (some v) (some w) z e = (v, w, refl, refl, some-injective _ _ e)

  has_zero-Computed : (h : List ℕ) (z : Bool) → has_zero s h ≡ some z → Computed h
  unfolding has_zero
  has_zero-Computed [] z e j m = ground (arith, m)
  has_zero-Computed (x ∷ xs) z e j m =
      let parts = or_zero-inv (value_of s x) (has_zero s xs) z e in
      elim (Bool-cases (eqb x j)) [
        | inl same ↦ (parts.0, ap (value_of s) (ground (arith, same)) ∙ parts.2)
        | inr other ↦ has_zero-Computed xs parts.1 parts.3 j (ground (arith, m, other))
      ]

  has_zero-HasZero : (h : List ℕ) → has_zero s h ≡ some true → HasZero h
  unfolding has_zero
  has_zero-HasZero [] e = ground (arith, e)
  has_zero-HasZero (x ∷ xs) e =
      let parts = or_zero-inv (value_of s x) (has_zero s xs) true e in
      elim (Bool-cases (eqb parts.0 0)) [
        | inl same ↦ (x, ground arith, parts.2 ∙ ap some (ground (arith, same)))
        | inr other ↦
            let found = has_zero-HasZero xs (parts.3 ∙ ap some (ground (arith, parts.4, other))) in
            (found.0, ground (arith, found.1), found.2)
      ]

  has_zero-only :
      (h : List ℕ) (j : ℕ) (z : Bool)
      → has_zero s h ≡ some z
      → contains h j ≡ true
      → value_of s j ≡ some 0
      → z ≡ true
  unfolding has_zero
  has_zero-only [] j z e m is = ground (arith, m)
  has_zero-only (x ∷ xs) j z e m is =
      let parts = or_zero-inv (value_of s x) (has_zero s xs) z e in
      elim (Bool-cases (eqb x j)) [
        | inl same ↦
            let here : x ≡ j = ground (arith, same) in
            let value : parts.0 ≡ 0 =
              some-injective _ _ (sym parts.2 ∙ ap (value_of s) here ∙ is) in
            ground (arith, parts.4, value)
        | inr other ↦
            let rest = has_zero-only xs j parts.1 parts.3 (ground (arith, m, other)) is in
            ground (arith, parts.4, rest)
      ]

  Computed-has_zero : (h : List ℕ) → Computed h → (z : Bool) × (has_zero s h ≡ some z)
  unfolding has_zero
  Computed-has_zero [] all = (false, refl)
  Computed-has_zero (x ∷ xs) all =
      let here = all x (ground arith) in
      let rest = Computed-has_zero xs (λ j m. all j (ground (arith, m))) in
      (eqb here.0 0 || rest.0, rw (here.1, rest.1) refl)

  -- The coin of a set whose values are computed: 0 if and only if one of them is 0.
  abbrev pub IsCoin : List ℕ → ℕ → Type 0
  IsCoin h coin =
      ((coin ≡ 0) × HasZero h)
      ⊎ ((coin ≡ 1) × ((j : ℕ) → contains h j ≡ true → value_of s j ≢ some 0))

  -- A pair that the coin is taken from.
  abbrev pub Decides : FinalSet → ℕ → Type 0
  Decides f coin = (accepts s f ≡ true) × Computed f.h × IsCoin f.h coin

  abbrev pub coin_of : Bool → ℕ
  coin_of true = 0
  coin_of false = 1

  has_zero-IsCoin : (h : List ℕ) (z : Bool) → has_zero s h ≡ some z → IsCoin h (coin_of z)
  has_zero-IsCoin h true e = inl (refl, has_zero-HasZero h e)
  has_zero-IsCoin h false e = inr (refl, λ j m is. ground (arith, has_zero-only h j false e m is))

  first_decided-cases :
      (ok : Bool) (a b : Option Bool) (z : Bool)
      → (if ok then first_decided a b else b) ≡ some z
      → ((ok ≡ true) × (a ≡ some z)) ⊎ (b ≡ some z)
  first_decided-cases false a b z e = inr e
  first_decided-cases true none b z e = inr e
  first_decided-cases true (some w) b z e = inl (refl, e)

  pub find_decision-Decides :
      (fs : List FinalSet) (z : Bool)
      → find_decision s fs ≡ some z
      → (f : FinalSet) × Memᴰ f fs × Decides f (coin_of z)
  unfolding find_decision
  find_decision-Decides [] z e = ground (arith, e)
  find_decision-Decides (f ∷ fs) z e =
      elim (first_decided-cases (accepts s f) (has_zero s f.h) (find_decision s fs) z e) [
        | inl here ↦ (
          f,
          Memᴰ.head refl,
          (here.0, has_zero-Computed f.h z here.1, has_zero-IsCoin f.h z here.1),
        )
        | inr rest ↦
            let found = find_decision-Decides fs z rest in (found.0, Memᴰ.tail found.1, found.2)
      ]

  if-some :
      (ok : Bool) (a b : Option Bool)
      → ((w : Bool) × (b ≡ some w))
      → (w : Bool) × ((if ok then first_decided a b else b) ≡ some w)
  if-some false a b h = h
  if-some true none b h = h
  if-some true (some z) b h = (z, refl)

  Decides-find_decision :
      (fs : List FinalSet) (f : FinalSet)
      → Memᴰ f fs
      → accepts s f ≡ true
      → Computed f.h
      → (z : Bool) × (find_decision s fs ≡ some z)
  unfolding find_decision
  Decides-find_decision [] f m ok all = elim m [ ]
  Decides-find_decision (g ∷ fs) f (Memᴰ.head e) ok all =
      let known = Computed-has_zero f.h all in
      (
        known.0,
        subst
            (λ g.
              (if accepts s g
                then first_decided (has_zero s g.h) (find_decision s fs)
                else find_decision s fs)
              ≡ some known.0)
            e (rw (ok, known.1) refl),
      )
  Decides-find_decision (g ∷ fs) f (Memᴰ.tail m) ok all =
      if-some (accepts s g) (has_zero s g.h) (find_decision s fs)
        (Decides-find_decision fs f m ok all)

  abbrev coin_in : Effect IccMessage IccResult → ℤ
  coin_in (broadcast m) = pos 0
  coin_in (send_result res) = res.coin

  output_coin-cases :
      (o : Option Bool) (res : IccResult)
      → Memᴰ (send_result res) (output_coin s o).1
      → (z : Bool) × (o ≡ some z) × (res.coin ≡ pos (coin_of z))
  output_coin-cases none res m = elim m [ ]
  output_coin-cases (some true) res (Memᴰ.head e) = (true, refl, ap coin_in e)
  output_coin-cases (some false) res (Memᴰ.head e) = (false, refl, ap coin_in e)
  output_coin-cases (some z) res (Memᴰ.tail m) = elim m [ ]

  output_coin-some :
      (z : Bool)
      → output_coin s (some z)
        ≡ (record s { finished = true }, send_result (record { coin = pos (coin_of z) }) ∷ [])
  output_coin-some true = refl
  output_coin-some false = refl

  if-cases :
      (test : Bool) (rest : IccService × IccEffects) (res : IccResult)
      → Memᴰ (send_result res) (if◌then◌else◌ {A = IccService × IccEffects} test (s, []) rest).1
      → Memᴰ (send_result res) rest.1
  if-cases true rest res m = elim m [ ]
  if-cases false rest res m = m

  pub check_decision-Decides :
      (res : IccResult)
      → Memᴰ (send_result res) (check_decision s).1
      → (f : FinalSet) × (coin : ℕ) × Memᴰ f s.received_final_sets
        × Decides f coin
        × (res.coin ≡ pos coin)
  unfolding check_decision
  check_decision-Decides res m =
      let finish =
        if-cases s.finished (output_coin s (find_decision s s.received_final_sets)) res m in
      let parts = output_coin-cases _ res finish in
      let found = find_decision-Decides s.received_final_sets parts.0 parts.1 in
      (found.0, coin_of parts.0, found.1, found.2, parts.2)

  pub Decides-check_decision :
      (f : FinalSet)
      → s.finished ≡ false
      → Memᴰ f s.received_final_sets
      → accepts s f ≡ true
      → Computed f.h
      → (coin : ℕ) × (check_decision s
          ≡ (record s { finished = true }, send_result (record { coin = pos coin }) ∷ []))
  unfolding check_decision
  Decides-check_decision f running m ok all =
      let found = Decides-find_decision s.received_final_sets f m ok all in
      let decision = output_coin s (find_decision s s.received_final_sets) in
      (
        coin_of found.0,
        ap (λ b. if◌then◌else◌ {A = IccService × IccEffects} b (s, []) decision) running
            ∙ ap (output_coin s) found.1
            ∙ output_coin-some found.0,
      )

-- ===== src/Icc/Values.antt =====
-- services/icc.go, `checkDecision`: the values v_j as sums of reconstructed secrets, and the pairs
-- (H, S) as sets.
use mathlib.Core.List.{Memᴰ}
use mathlib.Core.Option.{some-injective}
use async_agreement_protocol.Base.{
  ℕ, ◌+◌, ◌%◌, ◌≡◌, ◌⊎◌, refl, sym, ◌∙◌, ap, subst, inl, inr, true, false, both, Option, none, some,
  List, [], ◌∷◌, nat_comparable, arith, Bool-cases, eqb,
}
use async_agreement_protocol.Base.Maps.{Map, lookup}
use async_agreement_protocol.Base.Int.{pos}
use async_agreement_protocol.Base.Members.{contains}
use async_agreement_protocol.Context.{send_result}
use async_agreement_protocol.ACast.{or_else}
use async_agreement_protocol.Vote.{is_subset}
use async_agreement_protocol.Icc.Types.{IccResult, FinalSet, IccService}
use async_agreement_protocol.Icc.Coin.{
  reconstructed_value, add_value, sum_of, residue, value_from, value_of, accepts, check_decision,
}
use async_agreement_protocol.Icc.Decision.{IsCoin, check_decision-Decides, Decides-check_decision}

-- Every member of `xs` is one of `ys`.
abbrev pub Within : List ℕ → List ℕ → Type 0
Within xs ys = (i : ℕ) → contains xs i ≡ true → contains ys i ≡ true

is_subset-Within : (xs ys : List ℕ) → is_subset xs ys ≡ true → Within xs ys
unfolding is_subset
is_subset-Within [] ys h i m = ground (arith, m)
is_subset-Within (x ∷ xs) ys h i m = elim (Bool-cases (eqb x i)) [
  | inl e ↦ subst (λ k. contains ys k ≡ true) {x = x} {y = i} (ground (arith, e)) ((both h).0)
  | inr e ↦ is_subset-Within xs ys (both {a = contains ys x} h).1 i (ground (arith, m, e))
]

Within-is_subset : (xs ys : List ℕ) → Within xs ys → is_subset xs ys ≡ true
unfolding is_subset
Within-is_subset [] ys h = refl
Within-is_subset (x ∷ xs) ys h =
    rw (h x (ground arith), Within-is_subset xs ys (λ i m. h i (ground (arith, m)))) refl

module _ (s : IccService) where
  -- The secret `j` of the dealer `k` is reconstructed, and is `y`.
  abbrev pub Reconstructed : ℕ → ℕ → ℕ → Type 0
  Reconstructed k j y =
      (secrets : Map ℕ (Option ℕ)) × (lookup k s.reconstructed_values ≡ some secrets)
      × (lookup j secrets ≡ some (some y))

  -- The secrets `j` of these dealers are all reconstructed, and this is their sum.
  pub data Sums (j : ℕ) : List ℕ → ℕ → Type 0 where
    nothing : Sums j [] 0
    another :
        (k y sum : ℕ) (ks : List ℕ)
        → Reconstructed k j y
        → Sums j ks sum
        → Sums j (k ∷ ks) (y + sum)

  -- `v` is the sum of the secrets `j` of the dealers in T_j, modulo u.
  abbrev pub IsValue : ℕ → ℕ → Type 0
  IsValue j v =
      (dealers : List ℕ) × (sum : ℕ) × (lookup j s.received_t ≡ some dealers)
      × Sums j dealers sum
      × (v ≡ sum % s.u)

  or_else-none : (o : Option (Option ℕ)) (y : ℕ) → or_else none o ≡ some y → o ≡ some (some y)
  or_else-none none y h = cc h
  or_else-none (some o) y h = ap some h

  found-Reconstructed :
      (k j y : ℕ) (o : Option (Map ℕ (Option ℕ)))
      → lookup k s.reconstructed_values ≡ o
      → or_else none (lookup j (or_else [] o)) ≡ some y
      → Reconstructed k j y
  unfolding lookup
  found-Reconstructed k j y none e h = cc h
  found-Reconstructed k j y (some secrets) e h = (secrets, e, or_else-none (lookup j secrets) y h)

  add_value-inv :
      (a b : Option ℕ) (v : ℕ)
      → add_value a b ≡ some v
      → (y : ℕ) × (sum : ℕ) × (a ≡ some y) × (b ≡ some sum) × (y + sum ≡ v)
  add_value-inv none b v h = cc h
  add_value-inv (some y) none v h = cc h
  add_value-inv (some y) (some sum) v h = (y, sum, refl, refl, some-injective _ _ h)

  sum_of-Sums : (j sum : ℕ) (ks : List ℕ) → sum_of s j ks ≡ some sum → Sums j ks sum
  unfolding sum_of reconstructed_value
  sum_of-Sums j sum [] h = subst (Sums j []) (some-injective _ _ h) nothing
  sum_of-Sums j sum (k ∷ ks) h =
      let (y, rest, here, later, total) = add_value-inv _ _ sum h in
      subst (Sums j (k ∷ ks)) total
        (another k y rest ks (found-Reconstructed k j y _ refl here) (sum_of-Sums j rest ks later))

  Sums-sum_of : (j sum : ℕ) (ks : List ℕ) → Sums j ks sum → sum_of s j ks ≡ some sum
  unfolding sum_of reconstructed_value
  Sums-sum_of j _ _ nothing = refl
  Sums-sum_of j _ _ (another k y sum ks (secrets, known, stored) more) =
      rw (known, stored, Sums-sum_of j sum ks more) refl

  residue-inv :
      (o : Option ℕ) (v : ℕ) → residue s.u o ≡ some v → (sum : ℕ) × (o ≡ some sum) × (v ≡ sum % s.u)
  residue-inv none v h = cc h
  residue-inv (some sum) v h = (sum, refl, sym (some-injective _ _ h))

  value_of-IsValue : (j v : ℕ) → value_of s j ≡ some v → IsValue j v
  unfolding value_of
  value_of-IsValue j v h = taken (lookup j s.received_t) refl h
    where
      taken :
          (o : Option (List ℕ))
          → lookup j s.received_t ≡ o
          → value_from s j o ≡ some v
          → IsValue j v
      taken none e h = cc h
      taken (some dealers) e h =
          let (sum, summed, is) = residue-inv (sum_of s j dealers) v h in
          (dealers, sum, e, sum_of-Sums j sum dealers summed, is)

  IsValue-value_of : (j v : ℕ) → IsValue j v → value_of s j ≡ some v
  unfolding value_of
  IsValue-value_of j v (dealers, sum, known, sums, is) =
      rw (known, Sums-sum_of j sum dealers sums, is) refl

  -- The conditions on a pair (H, S), and its coin: 0 if some v_j of H is 0, and 1 if none is.
  pub record GivesCoin (f : FinalSet) (res : IccResult) : Type 0 where
    pub sent : (s.sent_accept ≡ true) × (s.sent_reconstruct ≡ true)
    pub h_within : Within f.h s.my_a
    pub s_within : Within f.s s.my_s
    pub values : (j : ℕ) → contains f.h j ≡ true → (v : ℕ) × IsValue j v
    pub coin :
        ((res.coin ≡ pos 0) × ((j : ℕ) × (contains f.h j ≡ true) × IsValue j 0))
        ⊎ ((res.coin ≡ pos 1) × ((j : ℕ) → contains f.h j ≡ true → IsValue j 0 → ⊥))

  coin_by_values :
      (h : List ℕ) (coin : ℕ) (res : IccResult)
      → res.coin ≡ pos coin
      → IsCoin s h coin
      → ((res.coin ≡ pos 0) × ((j : ℕ) × (contains h j ≡ true) × IsValue j 0))
        ⊎ ((res.coin ≡ pos 1) × ((j : ℕ) → contains h j ≡ true → IsValue j 0 → ⊥))
  coin_by_values h coin res e (inl (zero, (j, m, is))) =
      inl (e ∙ ap pos zero, (j, m, value_of-IsValue j 0 is))
  coin_by_values h coin res e (inr (one, none')) =
      inr (e ∙ ap pos one, λ j m is. none' j m (IsValue-value_of j 0 is))

  accepts-inv :
      (f : FinalSet)
      → accepts s f ≡ true
      → (s.sent_accept ≡ true)
        × (s.sent_reconstruct ≡ true)
        × (is_subset f.h s.my_a ≡ true)
        × (is_subset f.s s.my_s ≡ true)
  unfolding accepts
  accepts-inv f h = ground (arith, h)

  -- A coin that is output comes from a received pair (H, S), after the process has sent its sets A
  -- and S: H is a subset of A and the S of the pair one of the process's own. For every j in H the
  -- set T_j is there, and with it the secret j of each of its dealers; v_j is their sum modulo u. The
  -- coin is 0 if some v_j is 0, and 1 if none is.
  pub check_decision-GivesCoin :
      (res : IccResult)
      → Memᴰ (send_result res) (check_decision s).1
      → (f : FinalSet) × Memᴰ f s.received_final_sets × GivesCoin f res
  check_decision-GivesCoin res m =
      let (f, coin, received, (accepted, computed, decided), e) = check_decision-Decides s res m in
      let (accept, reconstruct, inside_h, inside_s) = accepts-inv f accepted in
      (
        f,
        received,
        record {
          sent = (accept, reconstruct);
          h_within = is_subset-Within f.h s.my_a inside_h;
          s_within = is_subset-Within f.s s.my_s inside_s;
          values = λ j n. let c = computed j n in (c.0, value_of-IsValue j c.0 c.1);
          coin = coin_by_values f.h coin res e decided;
        },
      )

  -- A process that has not finished and has sent its sets A and S, and has received a pair (H, S) of
  -- subsets of these such that for every j in H the set T_j is there, and with it the secret j of each
  -- of its dealers, finishes and outputs one coin, and nothing else; the coin is that of such a pair.
  pub GivesCoin-check_decision :
      (f : FinalSet)
      → s.finished ≡ false
      → Memᴰ f s.received_final_sets
      → (s.sent_accept ≡ true) × (s.sent_reconstruct ≡ true)
      → Within f.h s.my_a
      → Within f.s s.my_s
      → ((j : ℕ) → contains f.h j ≡ true → (v : ℕ) × IsValue j v)
      → (res : IccResult) × (check_decision s
          ≡ (record s { finished = true }, send_result res ∷ []))
        × (g : FinalSet) × Memᴰ g s.received_final_sets
        × GivesCoin g res
  unfolding accepts
  GivesCoin-check_decision f running m sent h_within s_within values =
      let inside_h = Within-is_subset f.h s.my_a h_within in
      let inside_s = Within-is_subset f.s s.my_s s_within in
      let accepted : accepts s f ≡ true = rw (sent.0, sent.1, inside_h, inside_s) refl in
      let (coin, out) =
        Decides-check_decision s f running m accepted
          (λ j n. let c = values j n in (c.0, IsValue-value_of j c.0 c.1)) in
      let res : IccResult = record { coin = pos coin } in
      let (g, received, gives) =
        check_decision-GivesCoin res
          (subst (λ c. Memᴰ (send_result res) c.1) (sym out) (Memᴰ.head refl)) in
      (res, out, g, received, gives)

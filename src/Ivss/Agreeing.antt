-- ===== src/Ivss/Agreeing.antt =====
-- services/ivss.go, `checkInterpolationSet`: the polynomials of the set that it builds.
use async_agreement_protocol.Base.{
  ℕ, ◌≡◌, refl, sym, ap, subst, ◌∙◌, ◌⊎◌, inl, inr, Bool, true, false, Option, none, some, List, [],
  ◌∷◌, ◌++◌, nat_comparable, arith, map,
}
use async_agreement_protocol.Base.Maps.{Map}
use async_agreement_protocol.Base.Members.{contains, contains-append}
use async_agreement_protocol.Certification.{CertificationProtocol}
use async_agreement_protocol.Polynomial.{Polynomial, evaluate}
use async_agreement_protocol.Ivss.Sets.{
  poly_of, evaluate_at, same_values, is_consistent, Scan, agrees, disagrees_with, panics_at,
  scan_next, scan, Agreeing, take_scan, valid_loop, cons_value, values_of,
}

abbrev pub shown : Option Polynomial → Polynomial
shown none = record { coeffs = [] }
shown (some p) = p

member_cons :
    (xs : List ℕ) (x v : ℕ) → contains (x ∷ xs) v ≡ true → (x ≡ v) ⊎ (contains xs v ≡ true)
member_cons xs x v h = ground (arith, h)

member_append :
    (xs : List ℕ) (c v : ℕ) → contains (xs ++ c ∷ []) v ≡ true → (contains xs v ≡ true) ⊎ (c ≡ v)
member_append xs c v h = ground (arith, contains-append xs (c ∷ []) v, h)

module _ (polys : Map ℕ (Option Polynomial)) where
  abbrev pub revealed_poly : ℕ → Polynomial
  revealed_poly u = shown (poly_of polys u)

  consistent_values :
      (a b : Option Polynomial) (u v : ℕ)
      → same_values (evaluate_at a v) (evaluate_at b u) ≡ some true
      → evaluate (shown a) v ≡ evaluate (shown b) u
  consistent_values none b u v h = cc
  consistent_values (some p) none u v h = cc
  consistent_values (some p) (some q) u v h = ground (arith, h)

  scan_next-agrees :
      (v : ℕ) (b : Option Bool) (rest : Scan)
      → scan_next v b rest ≡ agrees
      → (b ≡ some true) × (rest ≡ agrees)
  scan_next-agrees v none rest h = cc
  scan_next-agrees v (some true) rest h = (refl, h)
  scan_next-agrees v (some false) rest h = cc

  -- The members of the list have values that agree pairwise.
  abbrev pub AgreeingValues : List ℕ → Type 0
  AgreeingValues valid =
      (u v : ℕ)
      → contains valid u ≡ true
      → contains valid v ≡ true
      → evaluate (revealed_poly u) v ≡ evaluate (revealed_poly v) u

  scan-agrees :
      (c v : ℕ) (valid : List ℕ)
      → scan polys c valid ≡ agrees
      → contains valid v ≡ true
      → evaluate (revealed_poly c) v ≡ evaluate (revealed_poly v) c
  unfolding scan is_consistent
  scan-agrees c v [] h i = cc
  scan-agrees c v (x ∷ xs) h i =
      let (here, rest) = scan_next-agrees x (is_consistent polys c x) (scan polys c xs) h in
      elim (member_cons xs x v i) [
        | inl e ↦
            subst (λ v. evaluate (revealed_poly c) v ≡ evaluate (revealed_poly v) c) e
              (consistent_values (poly_of polys c) (poly_of polys x) c x here)
        | inr j ↦ scan-agrees c v xs rest j
      ]

  append-AgreeingValues :
      (c : ℕ) (valid : List ℕ)
      → AgreeingValues valid
      → scan polys c valid ≡ agrees
      → AgreeingValues (valid ++ c ∷ [])
  append-AgreeingValues c valid h e u v hu hv = elim (member_append valid c u hu) [
    | inl i ↦ elim (member_append valid c v hv) [
      | inl j ↦ h u v i j
      | inr f ↦
          subst (λ v. evaluate (revealed_poly u) v ≡ evaluate (revealed_poly v) u) f
            (sym (scan-agrees c u valid e i))
    ]
    | inr f ↦
        subst (λ u. evaluate (revealed_poly u) v ≡ evaluate (revealed_poly v) u) f
          (elim (member_append valid c v hv) [
            | inl j ↦ scan-agrees c v valid e j
            | inr g ↦
                subst (λ v. evaluate (revealed_poly c) v ≡ evaluate (revealed_poly v) c) g refl
          ])
  ]

  -- What the loop has found.
  abbrev pub Found : (ℕ → Bool) → Agreeing → Type 0
  Found p none = Unit {0}
  Found p (some (valid, cp)) =
      AgreeingValues valid × ((u : ℕ) → contains valid u ≡ true → p u ≡ true)

  take_scan-Found :
      (p : ℕ → Bool) (c : ℕ) (valid : List ℕ) (cp : CertificationProtocol) (r : Scan)
      → p c ≡ true
      → Found p (some (valid, cp))
      → scan polys c valid ≡ r
      → Found p (take_scan c valid cp r)
  take_scan-Found p c valid cp agrees pc h e = (
    append-AgreeingValues c valid h.0 e,
    λ u i. elim (member_append valid c u i) [
      | inl j ↦ h.1 u j
      | inr f ↦ subst (λ u. p u ≡ true) f pc
    ],
  )
  take_scan-Found p c valid cp (disagrees_with v) pc h e = h
  take_scan-Found p c valid cp (panics_at v) pc h e = tt

  pub valid_loop-Found :
      (p : ℕ → Bool) (cs : List ℕ) (found : Agreeing)
      → ((c : ℕ) → contains cs c ≡ true → p c ≡ true)
      → Found p found
      → Found p (valid_loop polys cs found)
  unfolding valid_loop
  valid_loop-Found p [] found all h = h
  valid_loop-Found p (c ∷ cs) none all h = tt
  valid_loop-Found p (c ∷ cs) (some (valid, cp)) all h =
      valid_loop-Found p cs (take_scan c valid cp (scan polys c valid))
        (λ d i. all d (ground arith))
        (take_scan-Found p c valid cp (scan polys c valid) (all c (ground arith)) h refl)

  pub values_of-map :
      (us : List ℕ)
      → ((u : ℕ) → contains us u ≡ true → poly_of polys u ≡ some (revealed_poly u))
      → values_of polys us ≡ some (map (λ u. evaluate (revealed_poly u) 0) us)
  unfolding values_of
  values_of-map [] h = refl
  values_of-map (u ∷ us) h =
      ap (λ o. cons_value (evaluate_at o 0) (values_of polys us)) (h u (ground arith))
      ∙ ap (cons_value (some (evaluate (revealed_poly u) 0)))
          (values_of-map us (λ v i. h v (ground arith)))

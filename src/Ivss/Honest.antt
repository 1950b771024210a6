-- ===== src/Ivss/Honest.antt =====
-- services/ivss.go: what honest processes do with the shares of an honest dealer.
use mathlib.Core.List.{Memᴰ}
use mathlib.Core.List.Memᴰ
use async_agreement_protocol.Base.{
  ℕ, zero, suc, ◌+◌, ◌≤◌, ◌<◌, ◌≡◌, refl, subst, inl, inr, true, Option, none, some, [], ◌∷◌,
  String, nat_comparable, string_comparable, ◌==◌, eqb, ltb, arith, Bool-cases,
}
use async_agreement_protocol.Base.Maps.{Map}
use async_agreement_protocol.Base.Counting.{IsId}
use async_agreement_protocol.Context.{Effect, broadcast}
use async_agreement_protocol.Attempt.{returns, panics, waits}
use async_agreement_protocol.Polynomial.{
  Polynomial, SymmetricPolynomial, evaluate, get_univariate_polynomial,
}
use async_agreement_protocol.Polynomial.Slices.{IsSymmetric, slices_agree}
use async_agreement_protocol.Ivss.Types.{
  IvssMessage, IvssResult, IvssInstance, IvssService, IvssOutside, IvssEffects, IvssAttempt,
}
use async_agreement_protocol.Ivss.Messages.{
  instance_of, put_instance, share_message, point_message, start_acast, equal_payload,
}
use async_agreement_protocol.Ivss.Direct.{
  append_effects, cons_point, points_loop, process_point, on_share, on_direct_as, on_direct,
  early_loop, with_instance, close,
}

-- The effects of a loop that does not panic, with a given one among them.
abbrev Sends : Effect IvssMessage IvssResult → Option IvssEffects → Type 0
Sends e none = ⊥
Sends e (some es) = Memᴰ e es

abbrev Returns : Option IvssEffects → Type 0
Returns none = ⊥
Returns (some es) = Unit {0}

cons_point-Sends :
    (e : Effect IvssMessage IvssResult) (j id v : ℕ) (iid : String) (rest : Option IvssEffects)
    → Sends e rest
    → Sends e (cons_point j id iid (some v) rest)
cons_point-Sends e j id v iid none h = h
cons_point-Sends e j id v iid (some es) h = Memᴰ.tail h

cons_point-Sends_first :
    (j id v : ℕ) (iid : String) (rest : Option IvssEffects)
    → Returns rest
    → Sends (broadcast (point_message j id iid v)) (cons_point j id iid (some v) rest)
cons_point-Sends_first j id v iid none r = r
cons_point-Sends_first j id v iid (some es) r = Memᴰ.head refl

cons_point-Returns :
    (j id v : ℕ) (iid : String) (rest : Option IvssEffects)
    → Returns rest
    → Returns (cons_point j id iid (some v) rest)
cons_point-Returns j id v iid none r = r
cons_point-Returns j id v iid (some es) r = tt

points_loop-Returns :
    (id : ℕ) (iid : String) (p : Polynomial) (rounds j : ℕ)
    → Returns (points_loop id iid (some p) rounds j)
unfolding points_loop
points_loop-Returns id iid p zero j = tt
points_loop-Returns id iid p (suc rounds) j =
    cons_point-Returns j id (evaluate p j) iid (points_loop id iid (some p) rounds (suc j))
      (points_loop-Returns id iid p rounds (suc j))

points_loop-Sends :
    (id : ℕ) (iid : String) (p : Polynomial) (rounds j i : ℕ)
    → j ≤ i
    → i < j + rounds
    → Sends
        (broadcast (point_message i id iid (evaluate p i)))
        (points_loop id iid (some p) rounds j)
unfolding points_loop
points_loop-Sends id iid p zero j i low high = absurd (omega arith)
points_loop-Sends id iid p (suc rounds) j i low high = elim (Bool-cases (ltb j i)) [
  | inl less ↦
      cons_point-Sends (broadcast (point_message i id iid (evaluate p i))) j id (evaluate p j) iid
        (points_loop id iid (some p) rounds (suc j))
        (points_loop-Sends id iid p rounds (suc j) i (ground arith) (omega arith))
  | inr same ↦
      let e : j ≡ i = ground arith in
      subst
        (λ k.
          Sends (broadcast (point_message k id iid (evaluate p k)))
            (points_loop id iid (some p) (suc rounds) j))
        e
        (cons_point-Sends_first j id (evaluate p j) iid (points_loop id iid (some p) rounds (suc j))
          (points_loop-Returns id iid p rounds (suc j)))
]

append_effects-Sends :
    (e : Effect IvssMessage IvssResult) (a b : Option IvssEffects)
    → Sends e a
    → Returns b
    → Sends e (append_effects a b)
append_effects-Sends e none b h r = h
append_effects-Sends e (some es) none h r = r
append_effects-Sends e (some es) (some more) h r = Memᴰ.append_left _ h

-- No early point is nil.
abbrev pub AllPoints : Map ℕ (Option ℕ) → Type 0
AllPoints [] = Unit {0}
AllPoints ((from, none) ∷ points) = ⊥
AllPoints ((from, some point) ∷ points) = AllPoints points

append_effects-Returns :
    (a b : Option IvssEffects) → Returns a → Returns b → Returns (append_effects a b)
append_effects-Returns none b h r = h
append_effects-Returns (some es) none h r = r
append_effects-Returns (some es) (some more) h r = tt

process_point-Returns :
    (outside : IvssOutside) (id from point : ℕ) (inst : IvssInstance) (p : Polynomial)
    → inst.received_poly ≡ some p
    → Returns (process_point outside id inst from (some point))
unfolding process_point
process_point-Returns outside id from point inst p e =
    rw e (elim (Bool-cases (evaluate p from == point)) [ inl h ↦ rw h tt | inr h ↦ rw h tt ])

early_loop-Returns :
    (outside : IvssOutside) (id : ℕ) (inst : IvssInstance) (p : Polynomial)
    (points : Map ℕ (Option ℕ))
    → inst.received_poly ≡ some p
    → AllPoints points
    → Returns (early_loop outside id inst points)
unfolding early_loop
early_loop-Returns outside id inst p [] e all = tt
early_loop-Returns outside id inst p ((from, none) ∷ points) e all = elim all [ ]
early_loop-Returns outside id inst p ((from, some point) ∷ points) e all =
    append_effects-Returns (process_point outside id inst from (some point))
      (early_loop outside id inst points) (process_point-Returns outside id from point inst p e)
      (early_loop-Returns outside id inst p points e all)

-- A call that returns with a given effect.
abbrev pub AttemptSends : Effect IvssMessage IvssResult → IvssAttempt → Type 0
AttemptSends e (returns s es) = Memᴰ e es
AttemptSends e panics = ⊥
AttemptSends e waits = ⊥

close-AttemptSends :
    (e : Effect IvssMessage IvssResult) (s : IvssService) (iid : String) (inst : IvssInstance)
    (es : Option IvssEffects)
    → Sends e es
    → AttemptSends e (close s iid (with_instance inst es))
close-AttemptSends e s iid inst none h = h
close-AttemptSends e s iid inst (some es) h = h

-- A process that handles its share, no point that came before it being nil, does not panic and sends
-- each process the value of the share at the id of that process.
pub on_share-AttemptSends :
    (outside : IvssOutside) (s : IvssService) (dealer i : ℕ) (iid : String) (p : Polynomial)
    → IsId s.n i
    → AllPoints (instance_of s iid dealer).early_points
    → AttemptSends
        (broadcast (point_message i s.id iid (evaluate p i)))
        (on_direct outside (share_message s.id dealer iid p) s)
unfolding on_direct on_direct_as on_share
on_share-AttemptSends outside s dealer i iid p known all =
    let e : Effect IvssMessage IvssResult = broadcast (point_message i s.id iid (evaluate p i)) in
    let inst = record (instance_of s iid dealer) { received_poly = some p; dealer = dealer } in
    let points = points_loop s.id iid (some p) s.n 1 in
    let self : eqb s.id s.id ≡ true = ground arith in
    rw self (
      close-AttemptSends e s iid _ _ (
        append_effects-Sends e points _
          (points_loop-Sends s.id iid p s.n 1 i known.0 (omega (arith, known.1)))
          (early_loop-Returns outside s.id inst p inst.early_points refl all)))

-- A process that holds its slice of a symmetric polynomial, and gets from process k the value of the
-- slice of k at its own id, returns, keeps its instance, and starts the A-Cast of the EQUAL of both.
pub on_point-equal :
    (outside : IvssOutside) (s : IvssService) (k : ℕ) (iid : String) (sp : SymmetricPolynomial)
    → IsSymmetric sp
    → (instance_of s iid k).received_poly ≡ some (get_univariate_polynomial sp s.id)
    → on_direct outside
        (point_message s.id k iid (evaluate (get_univariate_polynomial sp k) s.id))
        s
      ≡ returns
          (put_instance (instance_of s iid k) iid s)
          (start_acast outside s.id (equal_payload (instance_of s iid k).id s.id k))
unfolding on_direct on_direct_as process_point
on_point-equal outside s k iid sp even h = ground (arith, h, slices_agree sp s.id k even)

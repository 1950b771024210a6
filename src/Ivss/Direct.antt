-- ===== src/Ivss/Direct.antt =====
-- services/ivss.go, the dealer, the direct messages, and the start of the reconstruction.
use async_agreement_protocol.Base.{
  ℕ, zero, suc, not, Option, none, some, [], ◌∷◌, ◌++◌, String, nat_comparable, pair_comparable,
  string_comparable, ◌==◌, eqb, if◌then◌else◌,
}
use async_agreement_protocol.Base.Maps.{Map, insert}
use async_agreement_protocol.Base.Members.{contains}
use async_agreement_protocol.Context.{broadcast}
use async_agreement_protocol.Attempt.{returns, panics}
use async_agreement_protocol.ACast.{or_else}
use async_agreement_protocol.Polynomial.{
  Polynomial, SymmetricPolynomial, get_univariate_polynomial, new_random_symmetric_polynomial,
}
use async_agreement_protocol.Ivss.Types.{
  DirectMsgType, direct_share, direct_point, IvssMessage, IvssInstance, IvssService, IvssOutside,
  IvssEffects, IvssAttempt,
}
use async_agreement_protocol.Ivss.Sets.{evaluate_at}
use async_agreement_protocol.Ivss.Messages.{
  instance_of, put_instance, share_message, point_message, start_acast, equal_payload,
  reveal_payload,
}

-- The result of a call on an instance: the instance and the effects; `none` is a panic.
abbrev pub InstanceCall : Type 0
InstanceCall = Option (IvssInstance × IvssEffects)

abbrev pub append_effects : Option IvssEffects → Option IvssEffects → Option IvssEffects
append_effects none more = none
append_effects (some es) none = none
append_effects (some es) (some more) = some (es ++ more)

-- The polynomials that a dealer sends, from process `k` on.
unfoldable pub share_loop : ℕ → String → SymmetricPolynomial → ℕ → ℕ → IvssEffects
share_loop id instance_id poly zero k = []
share_loop id instance_id poly (suc rounds) k =
    broadcast (share_message k id instance_id (get_univariate_polynomial poly k))
    ∷ share_loop id instance_id poly rounds (suc k)

abbrev pub share_to_all : IvssService → String → Option SymmetricPolynomial → IvssEffects
share_to_all s instance_id none = []
share_to_all s instance_id (some poly) = share_loop s.id instance_id poly s.n 1

abbrev pub cons_point : ℕ → ℕ → String → Option ℕ → Option IvssEffects → Option IvssEffects
cons_point j id instance_id none rest = none
cons_point j id instance_id (some val) none = none
cons_point j id instance_id (some val) (some rest) =
    some (broadcast (point_message j id instance_id val) ∷ rest)

-- The points that a process sends, from process `j` on.
unfoldable pub points_loop : ℕ → String → Option Polynomial → ℕ → ℕ → Option IvssEffects
points_loop id instance_id poly zero j = some []
points_loop id instance_id poly (suc rounds) j =
    cons_point j id instance_id (evaluate_at poly j)
      (points_loop id instance_id poly rounds (suc j))

abbrev pub with_instance : IvssInstance → Option IvssEffects → InstanceCall
with_instance inst none = none
with_instance inst (some es) = some (inst, es)

abbrev pub close : IvssService → String → InstanceCall → IvssAttempt
close s id none = panics
close s id (some (inst, es)) = returns (put_instance inst id s) es

module _ (outside : IvssOutside) where
  -- `StartSharing`. An error of the random reader leaves nothing behind.
  unfoldable pub start_sharing : String → ℕ → IvssService → IvssService × IvssEffects
  start_sharing instance_id secret s =
      let poly = new_random_symmetric_polynomial (outside.random s.draws) s.t secret in
      (record s { draws = suc s.draws }, share_to_all s instance_id poly)

  -- `StartReconstruction`. Its error is dropped by the caller.
  unfoldable pub start_reconstruction : String → IvssService → IvssService × IvssEffects
  start_reconstruction instance_id s =
      let inst = instance_of s instance_id 0 in
      let s' = put_instance inst instance_id s in
      if not inst.sharing_completed
      then (s', [])
      else if contains (or_else [] inst.m_set) s.id
      then (s', start_acast outside s.id (reveal_payload inst.id inst.received_poly s.id))
      else (s', [])

  -- `processPoint`
  abbrev pub compare_point : ℕ → String → ℕ → Option ℕ → Option ℕ → Option IvssEffects
  compare_point id instance_id from none point = none
  compare_point id instance_id from (some val) none = none
  compare_point id instance_id from (some val) (some point) =
      if val == point
      then some (start_acast outside id (equal_payload instance_id id from))
      else some []

  unfoldable pub process_point : ℕ → IvssInstance → ℕ → Option ℕ → Option IvssEffects
  process_point id inst from point =
      compare_point id inst.id from (evaluate_at inst.received_poly from) point

  -- The loop over the early points.
  unfoldable pub early_loop : ℕ → IvssInstance → Map ℕ (Option ℕ) → Option IvssEffects
  early_loop id inst [] = some []
  early_loop id inst ((from, point) ∷ points) =
      append_effects (process_point id inst from point) (early_loop id inst points)

  -- `case Direct_Share`
  unfoldable pub on_share : ℕ → ℕ → IvssMessage → IvssInstance → InstanceCall
  on_share id n m inst =
      let inst' = record inst { received_poly = m.poly; dealer = m.from } in
      with_instance (record inst' { early_points = [] })
        (append_effects (points_loop id m.instance_id m.poly n 1)
          (early_loop id inst' inst'.early_points))

  -- `case Direct_Point`
  abbrev pub on_point_with : Option Polynomial → ℕ → IvssMessage → IvssInstance → InstanceCall
  on_point_with none id m inst =
      some (record inst { early_points = insert m.from m.point inst.early_points }, [])
  on_point_with (some poly) id m inst = with_instance inst (process_point id inst m.from m.point)

  unfoldable pub on_direct_as : DirectMsgType → ℕ → ℕ → IvssMessage → IvssInstance → InstanceCall
  on_direct_as direct_share id n m inst = on_share id n m inst
  on_direct_as direct_point id n m inst = on_point_with inst.received_poly id m inst

  -- `OnMessage`, from "Handle Direct Messages" on
  unfoldable pub on_direct : IvssMessage → IvssService → IvssAttempt
  on_direct m s =
      if eqb m.to s.id
      then close s m.instance_id
          (on_direct_as m.direct_type s.id s.n m (instance_of s m.instance_id m.from))
      else returns s []

-- ===== src/Icc/Coin.antt =====
-- services/icc.go, `checkDecision`: the values v_j of an accepted pair (H, S), and the coin.
use async_agreement_protocol.Base.{
  ℕ, ◌+◌, ◌%◌, Bool, true, false, ◌&&◌, ◌||◌, Option, none, some, List, [], ◌∷◌, nat_comparable,
  eqb, if◌then◌else◌,
}
use async_agreement_protocol.Base.Maps.{lookup}
use async_agreement_protocol.Base.Int.{pos}
use async_agreement_protocol.Context.{send_result}
use async_agreement_protocol.ACast.{or_else}
use async_agreement_protocol.Vote.{is_subset}
use async_agreement_protocol.Icc.Types.{FinalSet, IccService, IccEffects}

-- `s.reconstructedValues[k][j]`, nil for a missing key.
unfoldable pub reconstructed_value : IccService → ℕ → ℕ → Option ℕ
reconstructed_value s k j = or_else none (lookup j (or_else [] (lookup k s.reconstructed_values)))

abbrev pub add_value : Option ℕ → Option ℕ → Option ℕ
add_value none sum = none
add_value (some v) none = none
add_value (some v) (some sum) = some (v + sum)

-- The sum over the dealers of T_j; `none` where a value is missing.
unfoldable pub sum_of : IccService → ℕ → List ℕ → Option ℕ
sum_of s j [] = some 0
sum_of s j (k ∷ ks) = add_value (reconstructed_value s k j) (sum_of s j ks)

abbrev pub residue : ℕ → Option ℕ → Option ℕ
residue u none = none
residue u (some sum) = some (sum % u)

abbrev pub value_from : IccService → ℕ → Option (List ℕ) → Option ℕ
value_from s j none = none
value_from s j (some dealers) = residue s.u (sum_of s j dealers)

-- `v_j`
unfoldable pub value_of : IccService → ℕ → Option ℕ
value_of s j = value_from s j (lookup j s.received_t)

abbrev pub or_zero : Option ℕ → Option Bool → Option Bool
or_zero none rest = none
or_zero (some v) none = none
or_zero (some v) (some found) = some (eqb v 0 || found)

-- `hasZero` over H; `none` where a value is missing.
unfoldable pub has_zero : IccService → List ℕ → Option Bool
has_zero s [] = some false
has_zero s (j ∷ js) = or_zero (value_of s j) (has_zero s js)

-- The conditions on a pair (H, S).
unfoldable pub accepts : IccService → FinalSet → Bool
accepts s f = s.sent_accept && s.sent_reconstruct && is_subset f.h s.my_a && is_subset f.s s.my_s

abbrev pub first_decided : Option Bool → Option Bool → Option Bool
first_decided none rest = rest
first_decided (some zero) rest = some zero

-- The loop over the pairs: `hasZero` of the first one that is accepted and computed.
unfoldable pub find_decision : IccService → List FinalSet → Option Bool
find_decision s [] = none
find_decision s (f ∷ fs) =
    let rest = find_decision s fs in
    if accepts s f then first_decided (has_zero s f.h) rest else rest

abbrev pub output_coin : IccService → Option Bool → IccService × IccEffects
output_coin s none = (s, [])
output_coin s (some zero) = (
  record s { finished = true },
  send_result (record { coin = if zero then pos 0 else pos 1 }) ∷ [],
)

-- `checkDecision`
unfoldable pub check_decision : IccService → IccService × IccEffects
check_decision s =
    if s.finished then (s, []) else output_coin s (find_decision s s.received_final_sets)

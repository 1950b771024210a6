-- ===== src/Aba/Coin.antt =====
-- services/aba.go over services/icc.go: the coin as modelled, behind the interface of the rounds.
use async_agreement_protocol.Base.{◌≡◌, refl, false, [], ◌∷◌, arith}
use async_agreement_protocol.Context.{broadcast, send_result}
use async_agreement_protocol.Attempt.{returns, panics, waits, Ensures}
use async_agreement_protocol.Certification.{CertificationProtocol, new_certification_protocol}
use async_agreement_protocol.Icc.{
  IccMessage, IccService, IccOutside, IccEffects, IccAttempt, new_icc_service, start_icc,
  on_icc_message,
}
use async_agreement_protocol.Aba.Types.{IccAnswer, IccOperations, AbaOutside}
use async_agreement_protocol.Aba.Ends.{has_coin}
use async_agreement_protocol.Icc.Phases.{outputs}
use async_agreement_protocol.Icc.Sharings.{start_icc-Silent}
use async_agreement_protocol.Aba.Fuel.{StartsQuietly}

-- The certification of the node, put into the service for one call.
abbrev pub with_cp : CertificationProtocol → IccService → IccService
with_cp cp s = record s { ivss = record s.ivss { cp = cp } }

abbrev pub answer : IccAttempt → IccAnswer IccService IccMessage
answer (returns s es) = returns (s, s.ivss.cp) es
answer panics = panics
answer waits = waits

-- services/icc.go, with the certification handed in and out.
unfoldable pub icc_operations : IccOutside → IccOperations IccService IccMessage
icc_operations outside = record {
  new_icc_service = λ id n t round. new_icc_service outside id n t round new_certification_protocol;
  start = λ cp s. answer (start_icc outside (with_cp cp s));
  on_message = λ m cp s. answer (on_icc_message outside m (with_cp cp s));
}

has_coin-outputs : (es : IccEffects) → outputs es ≡ 0 → has_coin es ≡ false
unfolding outputs
has_coin-outputs [] h = refl
has_coin-outputs (broadcast m ∷ es) h = has_coin-outputs es h
has_coin-outputs (send_result res ∷ es) h = absurd (omega (arith, h))

answer-Silent :
    (c : IccAttempt)
    → Ensures (λ es s. outputs es ≡ 0) c
    → Ensures (λ es s. has_coin es ≡ false) (answer c)
answer-Silent (returns s es) h = has_coin-outputs es h
answer-Silent panics h = tt
answer-Silent waits h = tt

-- `Start` outputs no coin.
pub icc_operations-StartsQuietly :
    (aba : AbaOutside) (outside : IccOutside) → StartsQuietly aba (icc_operations outside)
unfolding icc_operations
icc_operations-StartsQuietly aba outside cp s =
    answer-Silent (start_icc outside (with_cp cp s)) (start_icc-Silent outside (with_cp cp s))

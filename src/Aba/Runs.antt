-- ===== src/Aba/Runs.antt =====
-- services/aba.go: the runs of one process, over all the calls that are made of it.
use async_agreement_protocol.Base.{
  ℕ, ◌+◌, ◌≤◌, ◌≡◌, refl, sym, subst, true, [], ◌++◌, arith, nat_comparable, length,
}
use async_agreement_protocol.Base.Maps.{lookup}
use async_agreement_protocol.Base.Members.{Distinct}
use async_agreement_protocol.Base.Int.{ℤ, int_comparable}
use async_agreement_protocol.Certification.{CertificationProtocol}
use async_agreement_protocol.Aba.Types.{
  AbaMessage, IccOperations, AbaOutside, AbaService, AbaEffects, new_aba_service,
}
use async_agreement_protocol.Aba.Complete.{backers}
use async_agreement_protocol.Aba.Service.{Ending, done, start, on_aba_message}
use async_agreement_protocol.Aba.Rules.{
  Follows, follows_quiet, follows_trans, EndsWell, results, completes, outcome, flag,
}
use async_agreement_protocol.Aba.Rounds.{start_round-EndsWell, on_aba_message-EndsWell}

-- What is asked of the service.
pub data Call (M : Type 0) : Type 0 where
  begin : Call M
  handle : AbaMessage M → Call M

module _ {S M : Type 0} (outside : AbaOutside) (icc : IccOperations S M) where
  abbrev pub answer : ℕ → Call M → AbaService S M → Ending S M
  answer fuel begin a = start outside icc fuel a
  answer fuel (handle m) a = on_aba_message outside icc fuel m a

  -- The calls that end, in any order and number, and all effects so far.
  pub data Run (first : AbaService S M) : AbaEffects M → AbaService S M → Type 0 where
    fresh : Run first [] first
    called :
        {es rest : AbaEffects M} {a b : AbaService S M}
        → Run first es a
        → (fuel : ℕ) (c : Call M) → answer fuel c a ≡ done b rest
        → Run first (es ++ rest) b

  answer-EndsWell : (fuel : ℕ) (c : Call M) (a : AbaService S M) → EndsWell a (answer fuel c a)
  unfolding start
  answer-EndsWell fuel begin a = start_round-EndsWell outside icc fuel 1 a
  answer-EndsWell fuel (handle m) a = on_aba_message-EndsWell outside icc fuel m a

  Run-Follows : {first a : AbaService S M} {es : AbaEffects M} → Run first es a → Follows first es a
  Run-Follows {first} fresh = follows_quiet first first refl refl refl refl [] refl refl refl
  Run-Follows (called {rest = rest} {a = a} {b = b} r fuel c ends) =
      follows_trans (Run-Follows r) (subst (EndsWell a) ends (answer-EndsWell fuel c a))

  -- In a run from the first state, with any messages and any coin, the results handed out are the
  -- decision if the process has decided, and none otherwise; and behind a decision stand t + 1
  -- different senders of COMPLETE.
  pub decides_once :
      (id n t : ℕ) (estimate : ℤ) (cp : CertificationProtocol) (es : AbaEffects M)
      (a : AbaService S M)
      → Run (new_aba_service S M id n t estimate cp) es a
      → (results es ≡ outcome a.decided a.decision)
        × (a.decided ≡ true
            → Distinct (backers a a.decision) × (t + 1 ≤ length (backers a a.decision)))
  unfolding new_aba_service backers lookup
  decides_once id n t estimate cp es a r =
      let f = Run-Follows r in
      let backed = f.backs ((λ v. tt), λ e. ground (arith, e)) in
      (
        sym f.decides,
        λ e. (
          backed.0 a.decision,
          subst (λ k. k + 1 ≤ length (backers a a.decision)) f.keeps (backed.1 e),
        ),
      )

  -- In a run from the first state, with any messages and any coin, the process broadcasts one
  -- COMPLETE vote of its own if its flag is set, and none otherwise.
  pub completes_once :
      (id n t : ℕ) (estimate : ℤ) (cp : CertificationProtocol) (es : AbaEffects M)
      (a : AbaService S M)
      → Run (new_aba_service S M id n t estimate cp) es a
      → completes es ≡ flag a.has_broadcast_complete
  unfolding new_aba_service
  completes_once id n t estimate cp es a r = let f = Run-Follows r in omega (arith, f.votes)

-- ===== src/Attempt.antt =====
-- How a call of a handler ends: it returns a state and its effects, it panics, or it waits for ever
-- for a mutex that its own goroutine holds. What went out before a panic or a wait is not kept.
use async_agreement_protocol.Base.{List, ◌++◌}

pub data Attempt {ℓ} (S E : Type ℓ) : Type ℓ where
  returns : S → List E → Attempt S E
  panics waits : Attempt S E

module _ {ℓ} {S E : Type ℓ} where
  -- Earlier effects in front of those of a call.
  unfoldable pub prepend : List E → Attempt S E → Attempt S E
  prepend es (returns s rest) = returns s (es ++ rest)
  prepend es panics = panics
  prepend es waits = waits

  -- One call after another.
  unfoldable pub and_then : Attempt S E → (S → Attempt S E) → Attempt S E
  and_then (returns s es) next = prepend es (next s)
  and_then panics next = panics
  and_then waits next = waits

  -- What holds of the state and the effects of a call that returns.
  abbrev pub Ensures {κ} : (List E → S → Type κ) → Attempt S E → Type κ
  Ensures P (returns s es) = P es s
  Ensures P panics = Unit
  Ensures P waits = Unit

  -- A relation of a state, effects and a later state, along two calls.
  module _ {κ} (P : S → List E → S → Type κ)
      (trans : (a b d : S) (xs ys : List E) → P a xs b → P b ys d → P a (xs ++ ys) d) where
    pub prepend-Ensures :
        (s s' : S) (es : List E) (c : Attempt S E)
        → P s es s'
        → Ensures (P s') c
        → Ensures (P s) (prepend es c)
    unfolding prepend
    prepend-Ensures s s' es (returns d ds) p q = trans s s' d es ds p q
    prepend-Ensures s s' es panics p q = tt
    prepend-Ensures s s' es waits p q = tt

    pub and_then-Ensures :
        (s : S) (c : Attempt S E) (next : S → Attempt S E)
        → Ensures (P s) c
        → ((d : S) → Ensures (P d) (next d))
        → Ensures (P s) (and_then c next)
    unfolding and_then
    and_then-Ensures s (returns s' es) next p q = prepend-Ensures s s' es (next s') p (q s')
    and_then-Ensures s panics next p q = tt
    and_then-Ensures s waits next p q = tt

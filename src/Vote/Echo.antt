-- ===== src/Vote/Echo.antt =====
-- services/vote.go, `startACast`: the local handling of the own MSG, through the adapter.
use async_agreement_protocol.Base.{◌≡◌, refl, true, List, [], ◌∷◌, String, string_comparable, arith}
use async_agreement_protocol.Context.{Effect, broadcast, send_result}
use async_agreement_protocol.ACast.{ACastMessage, AcastService, msg, on_message}
use async_agreement_protocol.ACast.Origins.{no_results, on_message-no_results}
use async_agreement_protocol.Vote.{VoteService, Outside, wrap_broadcasts, adapt}

adapt_quiet :
    (outside : Outside) (es : List (Effect (ACastMessage String) String)) (s : VoteService)
    → no_results es ≡ true
    → adapt outside es s ≡ (s, wrap_broadcasts es)
unfolding adapt wrap_broadcasts
adapt_quiet outside [] s h = refl
adapt_quiet outside (broadcast m ∷ es) s h = rw (adapt_quiet outside es s h) refl
adapt_quiet outside (send_result v ∷ es) s h = ground arith

-- The effects of a MSG, taken through the adapter, change nothing of the service and are the wrapped
-- broadcasts.
pub adapt-on_message :
    (outside : Outside) (a : AcastService String) (m : ACastMessage String) (s : VoteService)
    → m.type ≡ msg
    → adapt outside ((on_message a m).1) s ≡ (s, wrap_broadcasts ((on_message a m).1))
adapt-on_message outside a m s e =
    adapt_quiet outside ((on_message a m).1) s (on_message-no_results a m e)

-- ===== src/Aba/Echo.antt =====
-- services/aba.go, `broadcastComplete`: the local handling of the own MSG, through the adapter.
use async_agreement_protocol.Base.{◌≡◌, refl, true, List, [], ◌∷◌, String, string_comparable, arith}
use async_agreement_protocol.Context.{Effect, broadcast, send_result}
use async_agreement_protocol.ACast.{ACastMessage, AcastService, msg, on_message}
use async_agreement_protocol.ACast.Origins.{no_results, on_message-no_results}
use async_agreement_protocol.Aba.{AbaService, AbaOutside, wrap_completes, adapt_complete}

module _ {S M : Type 0} (outside : AbaOutside) where
  adapt_complete_quiet :
      (es : List (Effect (ACastMessage String) String)) (a : AbaService S M)
      → no_results es ≡ true
      → adapt_complete outside es a ≡ (a, wrap_completes M es)
  unfolding adapt_complete wrap_completes
  adapt_complete_quiet [] a h = refl
  adapt_complete_quiet (broadcast m ∷ es) a h = rw (adapt_complete_quiet es a h) refl
  adapt_complete_quiet (send_result v ∷ es) a h = ground arith

  -- The effects of a MSG, taken through the adapter, change nothing of the service and are the
  -- wrapped broadcasts.
  pub adapt_complete-on_message :
      (acast : AcastService String) (m : ACastMessage String) (a : AbaService S M)
      → m.type ≡ msg
      → adapt_complete outside ((on_message acast m).1) a
        ≡ (a, wrap_completes M ((on_message acast m).1))
  adapt_complete-on_message acast m a e =
      adapt_complete_quiet ((on_message acast m).1) a (on_message-no_results acast m e)

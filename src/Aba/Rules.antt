-- ===== src/Aba/Rules.antt =====
-- What a call may do to the decision and to the COMPLETE vote of a process, and the calls of
-- services/aba.go that change nothing of these.
use async_agreement_protocol.Base.{
  ℕ, ◌+◌, ◌≤◌, ◌≡◌, refl, Bool, true, false, List, [], ◌∷◌, ◌++◌, String, arith, nat_comparable,
  length, if◌then◌else◌,
}
use async_agreement_protocol.Base.Members.{Distinct}
use async_agreement_protocol.Base.Int.{ℤ, int_comparable}
use async_agreement_protocol.Context.{Effect, broadcast, send_result}
use async_agreement_protocol.ACast.{MessageType, msg, echo, ready, ACastMessage}
use async_agreement_protocol.Aba.Types.{AbaService, AbaEffects}
use async_agreement_protocol.Aba.Complete.{backers}
use async_agreement_protocol.Aba.Service.{Ending, done, blocked, crashed, out_of_fuel, emit, after}
use async_agreement_protocol.Base.{Option, some, none, sym, ◌∙◌}
use mathlib.Core.List.{append_assoc, append-nil}

-- 1 for a MSG, 0 for its answers.
abbrev pub is_origin : MessageType → ℕ
is_origin msg = 1
is_origin echo = 0
is_origin ready = 0

-- How many broadcasts the effects of an A-Cast handler originate.
abbrev pub origins : List (Effect (ACastMessage String) String) → ℕ
origins [] = 0
origins (broadcast m ∷ es) = is_origin m.type + origins es
origins (send_result v ∷ es) = origins es

abbrev pub is_complete : Option (ACastMessage String) → ℕ
is_complete none = 0
is_complete (some m) = is_origin m.type

-- The results that a process has handed out by deciding.
abbrev pub results {ℓ} : {E : Type ℓ} → List (Effect E ℤ) → List ℤ
results [] = []
results (broadcast m ∷ es) = results es
results (send_result v ∷ es) = v ∷ results es

-- How many COMPLETE votes of its own a process has broadcast.
abbrev pub completes : {M : Type 0} → AbaEffects M → ℕ
completes [] = 0
completes (broadcast m ∷ es) = is_complete m.complete_msg + completes es
completes (send_result v ∷ es) = completes es

abbrev pub outcome : Bool → ℤ → List ℤ
outcome true decision = decision ∷ []
outcome false decision = []

abbrev pub flag : Bool → ℕ
flag true = 1
flag false = 0

results-append {ℓ} :
    {E : Type ℓ} (xs ys : List (Effect E ℤ)) → results (xs ++ ys) ≡ results xs ++ results ys
results-append [] ys = refl
results-append (broadcast m ∷ xs) ys = results-append xs ys
results-append (send_result v ∷ xs) ys = cc (results-append xs ys)

completes-append :
    {M : Type 0} (xs ys : AbaEffects M) → completes (xs ++ ys) ≡ completes xs + completes ys
completes-append [] ys = omega arith
completes-append (broadcast m ∷ xs) ys = omega (arith, completes-append xs ys)
completes-append (send_result v ∷ xs) ys = completes-append xs ys

module _ {S M : Type 0} where
  -- Each value has each sender once, and t + 1 senders are behind a decision.
  abbrev pub IsBacked : AbaService S M → Type 0
  IsBacked a =
      ((v : ℤ) → Distinct (backers a v))
      × (a.decided ≡ true → a.t + 1 ≤ length (backers a a.decision))

  -- The decision is what was handed out, at most once; so is the COMPLETE vote.
  pub record Follows (a : AbaService S M) (es : AbaEffects M) (a' : AbaService S M) : Type 0 where
    pub decides : outcome a'.decided a'.decision ≡ outcome a.decided a.decision ++ results es
    pub votes : flag a'.has_broadcast_complete ≡ flag a.has_broadcast_complete + completes es
    pub backs : IsBacked a → IsBacked a'
    pub keeps : a'.t ≡ a.t

  -- Nothing is decided.
  pub follows_vote :
      (a a' : AbaService S M)
      → a'.t ≡ a.t
      → a'.decided ≡ a.decided
      → a'.decision ≡ a.decision
      → a'.complete_counts ≡ a.complete_counts
      → (es : AbaEffects M) → results es ≡ []
      → flag a'.has_broadcast_complete ≡ flag a.has_broadcast_complete + completes es
      → Follows a es a'
  unfolding backers
  follows_vote a a' same_t same_decided same_decision same_counts es none_out voted = record {
    decides =
        rw (same_decided, same_decision, none_out)
          (sym (append-nil (outcome a.decided a.decision)));
    votes = voted;
    backs = λ h. rw (same_t, same_decided, same_decision, same_counts) h;
    keeps = same_t;
  }

  -- Nothing is decided and no COMPLETE vote is broadcast.
  pub follows_quiet :
      (a a' : AbaService S M)
      → a'.t ≡ a.t
      → a'.decided ≡ a.decided
      → a'.decision ≡ a.decision
      → a'.complete_counts ≡ a.complete_counts
      → (es : AbaEffects M) → results es ≡ []
      → a'.has_broadcast_complete ≡ a.has_broadcast_complete
      → completes es ≡ 0
      → Follows a es a'
  follows_quiet a a' t d e c es none_out same_flag none_sent =
      follows_vote a a' t d e c es none_out (ground arith)

  pub follows_if :
      (a : AbaService S M) (test : Bool) (x y : AbaService S M × AbaEffects M)
      → (test ≡ true → Follows a x.1 x.0)
      → (test ≡ false → Follows a y.1 y.0)
      → Follows a ((if test then x else y).1) ((if test then x else y).0)
  follows_if a true x y p q = p refl
  follows_if a false x y p q = q refl

  pub follows_trans :
      {a b c : AbaService S M} {xs ys : AbaEffects M}
      → Follows a xs b
      → Follows b ys c
      → Follows a (xs ++ ys) c
  follows_trans {a} {b} {c} {xs} {ys} p q = record {
    decides =
        rw (q.decides, p.decides, results-append xs ys)
          (append_assoc (outcome a.decided a.decision) (results xs) (results ys));
    votes = omega (arith, p.votes, q.votes, completes-append xs ys);
    backs = λ h. q.backs (p.backs h);
    keeps = q.keeps ∙ p.keeps;
  }

  -- A call that ends has followed the rules.
  abbrev pub EndsWell : AbaService S M → Ending S M → Type 0
  EndsWell a (done a' es) = Follows a es a'
  EndsWell a blocked = Unit {0}
  EndsWell a crashed = Unit {0}
  EndsWell a out_of_fuel = Unit {0}

  pub emit-EndsWell :
      (a : AbaService S M) {b : AbaService S M} {es : AbaEffects M} (e : Ending S M)
      → Follows a es b
      → EndsWell b e
      → EndsWell a (emit es e)
  unfolding emit
  emit-EndsWell a (done c rest) p q = follows_trans p q
  emit-EndsWell a blocked p q = tt
  emit-EndsWell a crashed p q = tt
  emit-EndsWell a out_of_fuel p q = tt

  pub after-EndsWell :
      (a : AbaService S M) (e : Ending S M) (next : AbaService S M → Ending S M)
      → EndsWell a e
      → ((b : AbaService S M) → EndsWell b (next b))
      → EndsWell a (after e next)
  unfolding after
  after-EndsWell a (done b es) next p q = emit-EndsWell a (next b) p (q b)
  after-EndsWell a blocked next p q = tt
  after-EndsWell a crashed next p q = tt
  after-EndsWell a out_of_fuel next p q = tt

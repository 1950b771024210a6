-- ===== src/Icc/Phases.antt =====
-- services/icc.go: the rules that the phases keep to, about their order, their sets and the coin.
use async_agreement_protocol.Base.{
  ℕ, suc, ◌+◌, ◌-◌, ◌≤◌, ◌≡◌, refl, ◌∙◌, Bool, true, false, List, [], ◌∷◌, ◌++◌, String,
  nat_comparable, string_comparable, length, arith,
}
use async_agreement_protocol.Context.{Effect, broadcast, send_result}
use async_agreement_protocol.ACast.{ACastMessage}
use async_agreement_protocol.Ivss.{IvssEffects}
use async_agreement_protocol.Icc.Types.{IccService, IccEffects}
use async_agreement_protocol.Icc.Progress.{wrap_acasts, wrap_sharings}

-- The part of the state that the phases stand in.
pub record Phases : Type 0 where
  pub n : ℕ
  pub t : ℕ
  pub my_t : List ℕ
  pub sent_attach : Bool
  pub my_a : List ℕ
  pub sent_accept : Bool
  pub my_s : List ℕ
  pub my_h : List ℕ
  pub sent_reconstruct : Bool
  pub finished : Bool

abbrev pub phases : IccService → Phases
phases s = record {
  n = s.n;
  t = s.t;
  my_t = s.my_t;
  sent_attach = s.sent_attach;
  my_a = s.my_a;
  sent_accept = s.sent_accept;
  my_s = s.my_s;
  my_h = s.my_h;
  sent_reconstruct = s.sent_reconstruct;
  finished = s.finished;
}

-- A phase comes after the one before it, with a set of at least n - t processes.
pub record Ordered (s : Phases) : Type 0 where
  pub attached : s.sent_attach ≡ true → s.n - s.t ≤ length s.my_t
  pub accepted : s.sent_accept ≡ true → (s.sent_attach ≡ true) × (s.n - s.t ≤ length s.my_a)
  pub reconstructed :
      s.sent_reconstruct ≡ true
      → (s.sent_accept ≡ true) × (s.n - s.t ≤ length s.my_s) × (s.my_h ≡ s.my_a)
  pub decided : s.finished ≡ true → s.sent_reconstruct ≡ true

abbrev pub flag : Bool → ℕ
flag true = 1
flag false = 0

-- The results among the effects.
unfoldable pub outputs : IccEffects → ℕ
outputs [] = 0
outputs (broadcast m ∷ es) = outputs es
outputs (send_result res ∷ es) = suc (outputs es)

-- From one state to a later one, with `k` results in between.
pub record Follows (a : Phases) (k : ℕ) (b : Phases) : Type 0 where
  pub same_n : b.n ≡ a.n
  pub same_t : b.t ≡ a.t
  pub attach_stays : a.sent_attach ≡ true → (b.sent_attach ≡ true) × (b.my_t ≡ a.my_t)
  pub accept_stays : a.sent_accept ≡ true → (b.sent_accept ≡ true) × (b.my_a ≡ a.my_a)
  pub reconstruct_stays :
      a.sent_reconstruct ≡ true
      → (b.sent_reconstruct ≡ true) × (b.my_h ≡ a.my_h) × (b.my_s ≡ a.my_s)
  pub outputs_once : flag b.finished ≡ flag a.finished + k
  pub ordered : Ordered a → Ordered b

pub Follows_refl : (a : Phases) → Follows a 0 a
Follows_refl a = record {
  same_n = refl;
  same_t = refl;
  attach_stays = λ h. (h, refl);
  accept_stays = λ h. (h, refl);
  reconstruct_stays = λ h. (h, refl, refl);
  outputs_once = omega arith;
  ordered = λ o. o;
}

pub Follows-trans : (a b d : Phases) (j k : ℕ) → Follows a j b → Follows b k d → Follows a (j + k) d
Follows-trans a b d j k p q = record {
  same_n = q.same_n ∙ p.same_n;
  same_t = q.same_t ∙ p.same_t;
  attach_stays = λ h. let x = p.attach_stays h in let y = q.attach_stays x.0 in (y.0, y.1 ∙ x.1);
  accept_stays = λ h. let x = p.accept_stays h in let y = q.accept_stays x.0 in (y.0, y.1 ∙ x.1);
  reconstruct_stays = λ h.
      let x = p.reconstruct_stays h in
      let y = q.reconstruct_stays x.0 in (y.0, y.1 ∙ x.1, y.2 ∙ x.2);
  outputs_once = omega (arith, p.outputs_once, q.outputs_once);
  ordered = λ o. q.ordered (p.ordered o);
}

pub outputs-append : (xs ys : IccEffects) → outputs (xs ++ ys) ≡ outputs xs + outputs ys
unfolding outputs
outputs-append [] ys = omega arith
outputs-append (broadcast m ∷ xs) ys = outputs-append xs ys
outputs-append (send_result res ∷ xs) ys = omega (arith, outputs-append xs ys)

-- A call of the service, with its effects.
abbrev pub ServiceFollows : IccService → IccEffects → IccService → Type 0
ServiceFollows s es s' = Follows (phases s) (outputs es) (phases s')

pub ServiceFollows-trans :
    (a b d : IccService) (xs ys : IccEffects)
    → ServiceFollows a xs b
    → ServiceFollows b ys d
    → ServiceFollows a (xs ++ ys) d
ServiceFollows-trans a b d xs ys p q =
    rw (outputs-append xs ys) (Follows-trans (phases a) (phases b) (phases d) _ _ p q)

pub outputs-wrap_acasts :
    (es : List (Effect (ACastMessage String) String)) → outputs (wrap_acasts es) ≡ 0
unfolding outputs wrap_acasts
outputs-wrap_acasts [] = refl
outputs-wrap_acasts (broadcast m ∷ es) = outputs-wrap_acasts es
outputs-wrap_acasts (send_result v ∷ es) = outputs-wrap_acasts es

pub outputs-wrap_sharings : (es : IvssEffects) → outputs (wrap_sharings es) ≡ 0
unfolding outputs wrap_sharings
outputs-wrap_sharings [] = refl
outputs-wrap_sharings (broadcast m ∷ es) = outputs-wrap_sharings es
outputs-wrap_sharings (send_result v ∷ es) = outputs-wrap_sharings es

-- A call that outputs nothing and leaves the phases as they are.
pub quiet : (s : IccService) (es : IccEffects) → outputs es ≡ 0 → ServiceFollows s es s
quiet s es h = rw h (Follows_refl (phases s))

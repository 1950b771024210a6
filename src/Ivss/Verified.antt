-- ===== src/Ivss/Verified.antt =====
-- services/ivss.go: the rules that a sharing keeps to, about its set M and its completion.
use async_agreement_protocol.Base.{
  ℕ, ◌-◌, ◌≤◌, ◌≡◌, refl, sym, ◌∙◌, subst, inl, inr, true, Option, none, some, List, [], ◌∷◌,
  String, nat_comparable, pair_comparable, string_comparable, ◌==◌, length, arith, Bool-cases,
  eq_of_beq,
}
use async_agreement_protocol.Base.Maps.{lookup, lookup-insert}
use async_agreement_protocol.Base.Members.{contains, add, contains-add}
use async_agreement_protocol.ACast.{or_else}
use async_agreement_protocol.Certification.{
  CertificationProtocol, new_certification_protocol, is_faulty_pair,
}
use async_agreement_protocol.Ivss.Types.{IvssInstance, new_ivss_instance, IvssService, IvssEffects}
use async_agreement_protocol.Ivss.Sets.{compatible, verify_with, verify_pairs, verify_m_set}
use async_agreement_protocol.Ivss.Messages.{instance_of, put_instance}

-- All EQUALs between the members are complete.
abbrev pub AllEqual : List (ℕ × ℕ) → List ℕ → Type 0
AllEqual equals m_set = verify_pairs equals new_certification_protocol m_set ≡ true

-- Any two of the list have an EQUAL delivered both ways.
module _ (equals : List (ℕ × ℕ)) where
  abbrev pub EqualWith : ℕ → List ℕ → Type 0
  EqualWith u [] = Unit
  EqualWith u (v ∷ vs) =
      (contains equals (u, v) ≡ true) × (contains equals (v, u) ≡ true) × EqualWith u vs

  abbrev pub PairsEqual : List ℕ → Type 0
  PairsEqual [] = Unit
  PairsEqual (u ∷ us) = EqualWith u us × PairsEqual us

  verify_with-EqualWith :
      (u : ℕ) (vs : List ℕ)
      → verify_with equals new_certification_protocol u vs ≡ true
      → EqualWith u vs
  unfolding verify_with compatible
  verify_with-EqualWith u [] h = tt
  verify_with-EqualWith u (v ∷ vs) h =
      (ground (arith, h), ground (arith, h), verify_with-EqualWith u vs (ground (arith, h)))

  pub AllEqual-PairsEqual : (us : List ℕ) → AllEqual equals us → PairsEqual us
  unfolding verify_pairs
  AllEqual-PairsEqual [] h = tt
  AllEqual-PairsEqual (u ∷ us) h =
      (verify_with-EqualWith u us (ground (arith, h)), AllEqual-PairsEqual us (ground (arith, h)))

compatible_more :
    (equals : List (ℕ × ℕ)) (p : ℕ × ℕ) (u v : ℕ)
    → compatible equals new_certification_protocol u v ≡ true
    → compatible (add p equals) new_certification_protocol u v ≡ true
unfolding compatible
compatible_more equals p u v h =
    ground (arith, h, contains-add p (u, v) equals, contains-add p (v, u) equals)

verify_with_more :
    (equals : List (ℕ × ℕ)) (p : ℕ × ℕ) (u : ℕ) (vs : List ℕ)
    → verify_with equals new_certification_protocol u vs ≡ true
    → verify_with (add p equals) new_certification_protocol u vs ≡ true
unfolding verify_with
verify_with_more equals p u [] h = refl
verify_with_more equals p u (v ∷ vs) h =
    ground (arith, h, compatible_more equals p u v, verify_with_more equals p u vs)

pub add-AllEqual :
    (equals : List (ℕ × ℕ)) (p : ℕ × ℕ) (us : List ℕ)
    → AllEqual equals us
    → AllEqual (add p equals) us
unfolding verify_pairs
add-AllEqual equals p [] h = refl
add-AllEqual equals p (u ∷ us) h =
    ground (arith, h, verify_with_more equals p u us, add-AllEqual equals p us)

compatible_less :
    (equals : List (ℕ × ℕ)) (cp : CertificationProtocol) (u v : ℕ)
    → compatible equals cp u v ≡ true
    → compatible equals new_certification_protocol u v ≡ true
unfolding compatible is_faulty_pair new_certification_protocol
compatible_less equals cp u v h = ground (arith, h)

verify_with_less :
    (equals : List (ℕ × ℕ)) (cp : CertificationProtocol) (u : ℕ) (vs : List ℕ)
    → verify_with equals cp u vs ≡ true
    → verify_with equals new_certification_protocol u vs ≡ true
unfolding verify_with
verify_with_less equals cp u [] h = refl
verify_with_less equals cp u (v ∷ vs) h =
    ground (arith, h, compatible_less equals cp u v, verify_with_less equals cp u vs)

verify_pairs-AllEqual :
    (equals : List (ℕ × ℕ)) (cp : CertificationProtocol) (us : List ℕ)
    → verify_pairs equals cp us ≡ true
    → AllEqual equals us
unfolding verify_pairs
verify_pairs-AllEqual equals cp [] h = refl
verify_pairs-AllEqual equals cp (u ∷ us) h =
    ground (arith, h, verify_with_less equals cp u us, verify_pairs-AllEqual equals cp us)

module _ (n t : ℕ) where
  -- A complete sharing has a set M of n - t processes that are pairwise equal.
  abbrev pub IsVerified : IvssInstance → Type 0
  IsVerified inst =
      inst.sharing_completed ≡ true
      → (n - t ≤ length (or_else [] inst.m_set))
        × AllEqual inst.completed_equals (or_else [] inst.m_set)

  pub record Follows (a b : IvssInstance) : Type 0 where
    pub verified : IsVerified a → IsVerified b
    pub stays : a.sharing_completed ≡ true → b.sharing_completed ≡ true

  pub Follows_refl : (a : IvssInstance) → Follows a a
  Follows_refl a = record { verified = λ h. h; stays = λ h. h }

  pub Follows-trans : (a b d : IvssInstance) → Follows a b → Follows b d → Follows a d
  Follows-trans a b d p q = record {
    verified = λ h. q.verified (p.verified h);
    stays = λ h. q.stays (p.stays h);
  }

  -- An instance that differs in nothing of this.
  pub same-Follows :
      (a b : IvssInstance)
      → b.sharing_completed ≡ a.sharing_completed
      → b.m_set ≡ a.m_set
      → b.completed_equals ≡ a.completed_equals
      → Follows a b
  same-Follows a b e f g = record {
    verified = λ h k. rw (f, g) (h (sym e ∙ k));
    stays = λ h. e ∙ h;
  }

  pub verify_m_set_sound :
      (equals : List (ℕ × ℕ)) (cp : CertificationProtocol) (m_set : List ℕ)
      → verify_m_set n t equals cp m_set ≡ true
      → (n - t ≤ length m_set) × AllEqual equals m_set
  unfolding verify_m_set
  verify_m_set_sound equals cp m_set h =
      (ground (arith, h), verify_pairs-AllEqual equals cp m_set (ground (arith, h)))

-- The instances of a service, before and after a call.
abbrev pub ServiceFollows : IvssService → IvssEffects → IvssService → Type 0
ServiceFollows s es s' =
    (s'.n ≡ s.n)
    × (s'.t ≡ s.t)
    × ((id : String) → Follows s.n s.t (instance_of s id 0) (instance_of s' id 0))

-- An instance that is made on the spot has nothing complete, whoever its dealer is.
pub fresh-Follows :
    (s : IvssService) (id : String) (d : ℕ)
    → Follows s.n s.t (instance_of s id 0) (instance_of s id d)
unfolding instance_of new_ivss_instance
fresh-Follows s id d = go (lookup id s.instances)
  where
    go :
        (o : Option IvssInstance)
        → Follows s.n s.t (or_else (new_ivss_instance id 0) o) (or_else (new_ivss_instance id d) o)
    go none = record { verified = λ h k. cc; stays = λ h. h }
    go (some inst) = Follows_refl s.n s.t inst

pub put_instance-ServiceFollows :
    (s : IvssService) (es : IvssEffects) (id : String) (inst : IvssInstance)
    → Follows s.n s.t (instance_of s id 0) inst
    → ServiceFollows s es (put_instance inst id s)
unfolding instance_of put_instance
put_instance-ServiceFollows s es id inst h = (
  refl,
  refl,
  λ other. rw (lookup-insert id other inst s.instances) (elim (Bool-cases (id == other)) [
    | inl e ↦
        rw e (
          subst (λ k. Follows s.n s.t (instance_of s k 0) inst) (eq_of_beq {a = id} {b = other} e)
            h)
    | inr e ↦ rw e (Follows_refl s.n s.t (instance_of s other 0))
  ]),
)

-- ===== src/Contracts/Compatibility.antt =====
-- The protocol check (src/contracts/compatibility.ts).
use mathlib.Core.List.{Memᴰ}
use codexhook.Base.{
  ℕ, ◌≤◌, ◌≡◌, ◌↔◌, refl, sym, ap, ◌∙◌, Bool, true, false, not, List, [], ◌∷◌, arith, ltb, eqb,
  if◌then◌else◌, All, keep, any, Bool-cases, inl, inr,
}

pub data ProtocolFeature : Type 0 where
  task_list task_history task_events task_follow turn_start turn_steer delivery_id : ProtocolFeature

pub data ProtocolPlane : Type 0 where
  app_server desktop_ipc : ProtocolPlane

pub record ProtocolRequirement : Type 0 where
  pub plane : ProtocolPlane
  pub major : ℕ
  pub minimum_revision : ℕ
  pub required_features : List ProtocolFeature

pub record ProtocolOffer : Type 0 where
  pub plane : ProtocolPlane
  pub major : ℕ
  pub revision : ℕ
  pub features : List ProtocolFeature

pub record CompatibleProtocol : Type 0 where
  pub plane : ProtocolPlane
  pub major : ℕ
  pub revision : ℕ
  pub features : List ProtocolFeature

pub data Reason : Type 0 where
  wrong_plane major_mismatch revision_too_old missing_feature : Reason

pub data ProtocolCompatibility : Type 0 where
  compatible : CompatibleProtocol → ProtocolCompatibility
  incompatible : ProtocolPlane → Reason → ProtocolCompatibility

abbrev same_plane : ProtocolPlane → ProtocolPlane → Bool
same_plane app_server app_server = true
same_plane desktop_ipc desktop_ipc = true
same_plane _ _ = false

-- A feature's place in `PROTOCOL_FEATURES`, to compare the texts that stand for features.
abbrev place : ProtocolFeature → ℕ
place task_list = 0
place task_history = 1
place task_events = 2
place task_follow = 3
place turn_start = 4
place turn_steer = 5
place delivery_id = 6

abbrev is_offered : List ProtocolFeature → ProtocolFeature → Bool
is_offered offered feature = any (λ f. eqb (place f) (place feature)) offered

abbrev is_empty {ℓ} : {A : Type ℓ} → List A → Bool
is_empty [] = true
is_empty (_ ∷ _) = false

unfoldable pub check_protocol_compatibility :
    ProtocolRequirement → ProtocolOffer → ProtocolCompatibility
check_protocol_compatibility requirement offer =
    let missing = keep (λ f. not (is_offered offer.features f)) requirement.required_features in
    if not (same_plane offer.plane requirement.plane)
    then incompatible requirement.plane wrong_plane
    else if not (eqb offer.major requirement.major)
    then incompatible requirement.plane major_mismatch
    else if ltb offer.revision requirement.minimum_revision
    then incompatible requirement.plane revision_too_old
    else if is_empty missing
    then compatible (record {
      plane = requirement.plane;
      major = offer.major;
      revision = offer.revision;
      features = offer.features;
    })
    else incompatible requirement.plane missing_feature

-- What the check is for, stated on its own.
pub record Meets (requirement : ProtocolRequirement) (offer : ProtocolOffer) : Type 0 where
  pub plane : offer.plane ≡ requirement.plane
  pub major : offer.major ≡ requirement.major
  pub revision : requirement.minimum_revision ≤ offer.revision
  pub features : All (λ f. Memᴰ f offer.features) requirement.required_features

same_place : (f g : ProtocolFeature) → place f ≡ place g → f ≡ g
same_place f g h = ground arith

offered→Mem : (fs : List ProtocolFeature) (f : ProtocolFeature) → is_offered fs f ≡ true → Memᴰ f fs
unfolding any
offered→Mem [] f h = absurd (cc)
offered→Mem (g ∷ fs) f h = elim (Bool-cases (eqb (place g) (place f))) [
  | inl same ↦ Memᴰ.head (sym (same_place g f (ground arith)))
  | inr other ↦ Memᴰ.tail (offered→Mem fs f (ground arith))
]

Mem→offered : (fs : List ProtocolFeature) (f : ProtocolFeature) → Memᴰ f fs → is_offered fs f ≡ true
unfolding any
Mem→offered [] f m = elim m [ ]
Mem→offered (g ∷ fs) f (Memᴰ.head e) = rw e (ground arith)
Mem→offered (g ∷ fs) f (Memᴰ.tail m) = ground (arith, Mem→offered fs f m)

module _ (offered : List ProtocolFeature) where
  abbrev missing : List ProtocolFeature → List ProtocolFeature
  missing = keep (λ f. not (is_offered offered f))

  missing→All :
      (fs : List ProtocolFeature) → is_empty (missing fs) ≡ true → All (λ f. Memᴰ f offered) fs
  unfolding keep
  missing→All [] h = tt
  missing→All (f ∷ fs) h = elim (Bool-cases (is_offered offered f)) [
    | inl there ↦ (offered→Mem offered f there, missing→All fs (ground arith))
    | inr absent ↦ absurd (ground arith)
  ]

  All→missing :
      (fs : List ProtocolFeature) → All (λ f. Memᴰ f offered) fs → is_empty (missing fs) ≡ true
  unfolding keep
  All→missing [] h = refl
  All→missing (f ∷ fs) h = ground (arith, Mem→offered offered f h.0, All→missing fs h.1)

same_plane_eq : (p q : ProtocolPlane) → same_plane p q ≡ true → p ≡ q
same_plane_eq p q h = ground arith

-- The offer as an agreed protocol.
abbrev pub agreed : ProtocolOffer → CompatibleProtocol
agreed offer = record {
  plane = offer.plane;
  major = offer.major;
  revision = offer.revision;
  features = offer.features;
}

check→Meets :
    (requirement : ProtocolRequirement) (offer : ProtocolOffer) (protocol : CompatibleProtocol)
    → check_protocol_compatibility requirement offer ≡ compatible protocol
    → Meets requirement offer
unfolding check_protocol_compatibility
check→Meets requirement offer protocol h = record {
  plane = same_plane_eq offer.plane requirement.plane (ground arith);
  major = ground arith;
  revision = ground arith;
  features = missing→All offer.features requirement.required_features (ground arith);
}

Meets→check :
    (requirement : ProtocolRequirement) (offer : ProtocolOffer)
    → Meets requirement offer
    → check_protocol_compatibility requirement offer ≡ compatible (agreed offer)
unfolding check_protocol_compatibility
Meets→check requirement offer m =
    ground (arith, All→missing offer.features requirement.required_features m.features)

compatible-injective : (p q : CompatibleProtocol) → compatible p ≡ compatible q → p ≡ q
compatible-injective p q e = ground arith

-- The check answers that the offer is compatible, whatever protocol it names, exactly if the offer
-- is for the required plane and major version, its revision is not below the minimum, it lists every
-- required feature, and the protocol has the offer's plane, version and features.
pub check_iff_Meets :
    (requirement : ProtocolRequirement) (offer : ProtocolOffer) (protocol : CompatibleProtocol)
    → (check_protocol_compatibility requirement offer ≡ compatible protocol)
      ↔ (Meets requirement offer × (protocol ≡ agreed offer))
check_iff_Meets requirement offer protocol = (
  (λ answer.
      let meets = check→Meets requirement offer protocol answer in
      (
        meets,
        compatible-injective protocol (agreed offer)
            (sym answer ∙ Meets→check requirement offer meets),
      )),
  (λ (meets, same). Meets→check requirement offer meets ∙ ap compatible (sym same)),
)

-- ===== src/Desktop/Decoder/Changes.antt =====
-- The bindings of the changes that `readDesktopChange` gives
-- (src/transport/desktop-task-decoder.ts).
use mathlib.Core.Path.{subst}
use codexhook.Base.{
  ◌≡◌, refl, sym, ◌∙◌, eq_refl, String, Bool, true, ◌||◌, some, List, [], ◌∷◌, ◌++◌, any, flat_map,
  arith, Bool-cases, Option-cases, inl, inr, All, All-append,
}
use codexhook.Json.{
  Json, object, Members, no_members, member, field, record_of, array_of, is_the_text,
}
use codexhook.Desktop.{DesktopDeliveryBinding, DesktopTaskChange, snapshot, patches}
use codexhook.Desktop.State.{or_empty}
use codexhook.Desktop.Decoder.{
  desktop_stream_envelope, delivery_ids, bound_ids, snapshot_delivery_bindings, patch_delivery_ids,
  patch_delivery_bindings, patch_key, path_of, read_snapshot, read_patches, read_change,
  read_desktop_change, snapshot_entity_values,
}
use codexhook.Desktop.Decoder.Deliveries.{contains, occurs, occurs_members, delivery_ids-occurs}

-- Every id of the first list is in the second.
abbrev AreIn : List String → List String → Type 0
AreIn ids all = (id : String) → contains id ids ≡ true → contains id all ≡ true

abbrev AreKnown : List String → List DesktopDeliveryBinding → Type 0
AreKnown all bindings = All (λ b. contains b.delivery_id all ≡ true) bindings

bound_ids-AreKnown :
    (key : String) (ids all : List String) → AreIn ids all → AreKnown all (bound_ids key ids)
unfolding bound_ids any
bound_ids-AreKnown key [] all h = tt
bound_ids-AreKnown key (id ∷ ids) all h = (
  h id (ground (arith, eq_refl id)),
  bound_ids-AreKnown key ids all (λ other k. h other (ground arith)),
)

or-middle : (a : Bool) {b : Bool} → b ≡ true → (c : Bool) → (a || (b || c)) ≡ true
or-middle a h c = ground arith

or-last : (a b : Bool) {c : Bool} → c ≡ true → (a || (b || c)) ≡ true
or-last a b h = ground arith

snapshot_bindings-AreKnown :
    (entities : Members) (all : List String)
    → ((id : String) → occurs_members id entities ≡ true → contains id all ≡ true)
    → AreKnown all (snapshot_delivery_bindings entities)
unfolding snapshot_delivery_bindings occurs
snapshot_bindings-AreKnown no_members all h = tt
snapshot_bindings-AreKnown (member key entity entities) all h =
    All-append _ (bound_ids key (delivery_ids (some entity))) (snapshot_delivery_bindings entities)
      (bound_ids-AreKnown key (delivery_ids (some entity)) all
        (λ id k. h id (or-middle _ (sym (delivery_ids-occurs id entity) ∙ k) _)))
      (snapshot_bindings-AreKnown entities all (λ id k. h id (or-last _ _ k)))

contains-append :
    (id : String) (xs ys : List String)
    → contains id (xs ++ ys) ≡ (contains id xs || contains id ys)
unfolding any
contains-append id [] ys = refl
contains-append id (x ∷ xs) ys = ground (arith, contains-append id xs ys)

patch_bindings-AreKnown :
    (value : Json) (all : List String)
    → AreIn (patch_delivery_ids value) all
    → AreKnown all (patch_delivery_bindings value)
unfolding patch_delivery_bindings
patch_bindings-AreKnown value all h =
    elim (Option-cases (patch_key (path_of (record_of (some value))))) [
      | inl no_key ↦ rw (no_key, patch_delivery_bindings) tt
      | inr (key, found) ↦
          rw (found, patch_delivery_bindings)
            (bound_ids-AreKnown key (patch_delivery_ids value) all h)
    ]

patches_bindings-AreKnown :
    (values : List Json) (all : List String)
    → AreIn (flat_map patch_delivery_ids values) all
    → AreKnown all (flat_map patch_delivery_bindings values)
unfolding flat_map
patches_bindings-AreKnown [] all h = tt
patches_bindings-AreKnown (value ∷ values) all h =
    All-append _ (patch_delivery_bindings value) (flat_map patch_delivery_bindings values)
      (patch_bindings-AreKnown value all (λ id k. h id (
        ground (
          arith,
          contains-append id (patch_delivery_ids value) (flat_map patch_delivery_ids values),
        ))))
      (patches_bindings-AreKnown values all (λ id k. h id (
        ground (
          arith,
          contains-append id (patch_delivery_ids value) (flat_map patch_delivery_ids values),
        ))))

-- The delivery of every binding of the change is one of its delivery ids.
abbrev pub IsBound : DesktopTaskChange → Type 0
IsBound (snapshot change) = AreKnown change.delivery_ids (or_empty change.delivery_bindings)
IsBound (patches change) = AreKnown change.delivery_ids (or_empty change.delivery_bindings)

read_snapshot-IsBound : (change : Members) → IsBound (snapshot (read_snapshot change))
unfolding read_snapshot occurs
read_snapshot-IsBound change =
    let entities = snapshot_entity_values (field "conversationState" change) in
    snapshot_bindings-AreKnown entities (delivery_ids (some (object entities)))
      (λ id k. delivery_ids-occurs id (object entities) ∙ k)

read_patches-IsBound : (change : Members) → IsBound (patches (read_patches change))
unfolding read_patches
read_patches-IsBound change =
    let values = array_of (field "patches" change) in
    patches_bindings-AreKnown values (flat_map patch_delivery_ids values) (λ id k. k)

read_change-IsBound :
    (members : Members) (change : DesktopTaskChange)
    → read_change members ≡ some change
    → IsBound change
unfolding read_change
read_change-IsBound members change h =
    elim (Bool-cases (is_the_text "snapshot" (field "type" members))) [
      | inl whole_state ↦
          let same : snapshot (read_snapshot members) ≡ change = ground arith in
          subst IsBound same (read_snapshot-IsBound members)
      | inr other ↦ elim (Bool-cases (is_the_text "patches" (field "type" members))) [
        | inl parts ↦
            let same : patches (read_patches members) ≡ change = ground arith in
            subst IsBound same (read_patches-IsBound members)
        | inr neither ↦ absurd (ground arith)
      ]
    ]

-- A message that is read as a change binds a delivery to an entity only if the change lists the
-- delivery as well.
pub read_desktop_change-IsBound :
    (message : Members) (thread_id : String) (change : DesktopTaskChange)
    → read_desktop_change message ≡ some (thread_id, change)
    → IsBound change
unfolding read_desktop_change
read_desktop_change-IsBound message thread_id change h =
    elim (Option-cases (desktop_stream_envelope message)) [
      | inl nothing ↦ absurd (ground arith)
      | inr (stream, streamed) ↦ elim (Option-cases (read_change stream.change)) [
        | inl nothing ↦ absurd (ground arith)
        | inr (found, read) ↦
            let same : found ≡ change = ground arith in
            subst IsBound same (read_change-IsBound stream.change found read)
      ]
    ]

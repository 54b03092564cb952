-- ===== src/Desktop/Decoder.antt =====
-- From the messages of the desktop application to changes of the state
-- (src/transport/desktop-ipc/stream-envelope.ts, src/transport/desktop-task-decoder.ts).
pub mod Deliveries
pub mod Changes
mod Examples
use codexhook.Base.{
  ℕ, ◌+◌, zero, suc, ◌==◌, String, Bool, true, false, ◌&&◌, ◌||◌, Option, none, some, List, [], ◌∷◌,
  ◌++◌, map, any, length, flat_map, eqb, leb, if◌then◌else◌,
}
use codexhook.Contracts.{TurnStatus, completed, interrupted, failed, in_progress}
use codexhook.Contracts.Diagnostics.{max_safe_integer}
use codexhook.Json.{
  Json, null, boolean, number, text, array, object, Items, no_items, item, Members, no_members,
  member, natural, other_number, field, items_list, record_of, array_of, text_of, optional_field,
  is_the_text, weight,
}
use codexhook.Desktop.{
  Turn, TurnError, error_object, Number, no_number, whole, DesktopTurnEntity,
  DesktopDeliveryBinding, DesktopTurnDelta, upsert, bind, status_delta, error_delta, remove,
  Snapshot, Patches, DesktopTaskChange, snapshot, patches,
}

pub record DesktopStreamEnvelope : Type 0 where
  pub change : Members
  pub thread_id : String

-- The parameters of the method, where both parts are there.
unfoldable pub stream_of : Option String → Option Members → Option DesktopStreamEnvelope
stream_of (some thread_id) (some change) =
    if thread_id == "" then none else some (record { change = change; thread_id = thread_id })
stream_of _ _ = none

unfoldable pub desktop_stream_envelope : Members → Option DesktopStreamEnvelope
desktop_stream_envelope message =
    if is_the_text "thread-stream-state-changed" (field "method" message)
    then (let params = record_of (field "params" message) in
        stream_of (text_of (optional_field "conversationId" params))
          (record_of (optional_field "change" params)))
    else none

-- The found ids and the stack, whose top is the end of `pending`, after an object's members.
unfoldable pub visit_members : Members → List String → List Json → List String × List Json
visit_members no_members found pending = (found, pending)
visit_members (member key child members) found pending = elim (text_of (some child)) [
  | none ↦ visit_members members found (child ∷ pending)
  | some id ↦
      if key == "clientUserMessageId"
      then visit_members members
          (if any (λ other. other == id) found then found else found ++ id ∷ []) pending
      else visit_members members found (child ∷ pending)
]

unfoldable pub push_items : Items → List Json → List Json
push_items no_items pending = pending
push_items (item value items) pending = push_items items (value ∷ pending)

-- One turn of the loop.
unfoldable pub visit : Json → List String → List Json → List String × List Json
visit (array items) found pending = (found, push_items items pending)
visit (object members) found pending = visit_members members found pending
visit _ found pending = (found, pending)

-- The loop, with the turns that may still be taken.
unfoldable pub search_ids : ℕ → List String → List Json → List String
search_ids zero found pending = found
search_ids (suc n) found [] = found
search_ids (suc n) found (next ∷ pending) =
    let step = visit next found pending in search_ids n step.0 step.1

-- A turn takes one value off, so there are at most as many turns as values.
unfoldable pub delivery_ids : Option Json → List String
delivery_ids none = []
delivery_ids (some value) = search_ids (weight value) [] (value ∷ [])

unfoldable pub normalize_status : Option Json → TurnStatus
normalize_status value =
    if is_the_text "completed" value
    then completed
    else (if is_the_text "interrupted" value
        then interrupted
        else (if is_the_text "failed" value then failed else in_progress))

unfoldable pub read_error : Option Json → TurnError
read_error (some (object members)) = error_object (text_of (field "message" members))
read_error (some (array items)) = error_object none
read_error _ = TurnError.null

unfoldable pub read_turn : Option Json → Option Turn
read_turn value = elim (text_of (optional_field "turnId" (record_of value))) [
  | none ↦ none
  | some id ↦ some (record {
    id = id;
    status = normalize_status (optional_field "status" (record_of value));
    error = read_error (optional_field "error" (record_of value));
  })
]

unfoldable pub read_revision : Option Json → Number
read_revision (some (number (natural n))) = if leb n max_safe_integer then whole n else no_number
read_revision _ = no_number

abbrev pub entity_of : String → Option Turn → List DesktopTurnEntity
entity_of key none = []
entity_of key (some turn) = record { key = key; turn = turn } ∷ []

unfoldable pub snapshot_entities : Members → List DesktopTurnEntity
snapshot_entities no_members = []
snapshot_entities (member key entity entities) =
    entity_of key (read_turn (some entity)) ++ snapshot_entities entities

-- Bind each of the ids to the key.
unfoldable pub bound_ids : String → List String → List DesktopDeliveryBinding
bound_ids key ids = map (λ id. record { key = key; delivery_id = id }) ids

unfoldable pub snapshot_delivery_bindings : Members → List DesktopDeliveryBinding
snapshot_delivery_bindings no_members = []
snapshot_delivery_bindings (member key entity entities) =
    bound_ids key (delivery_ids (some entity)) ++ snapshot_delivery_bindings entities

abbrev pub or_no_members : Option Members → Members
or_no_members none = no_members
or_no_members (some members) = members

unfoldable pub snapshot_entity_values : Option Json → Members
snapshot_entity_values value = or_no_members (
    record_of (
      optional_field "entitiesByKey" (
        record_of
          (optional_field "history" (record_of (optional_field "turnHistory" (record_of value)))))))

unfoldable pub starts_with_texts : List String → List Json → Bool
starts_with_texts [] path = true
starts_with_texts (wanted ∷ more) [] = false
starts_with_texts (wanted ∷ more) (part ∷ path) =
    is_the_text wanted (some part) && starts_with_texts more path

unfoldable pub is_turn_entity_path : List Json → Bool
is_turn_entity_path [] = false
is_turn_entity_path (part ∷ path) =
    starts_with_texts ("turnHistory" ∷ "history" ∷ "entitiesByKey" ∷ []) (part ∷ path)
    || is_turn_entity_path path

-- What follows the first marker.
unfoldable pub after_marker : List Json → List Json
after_marker [] = []
after_marker (part ∷ path) =
    if is_the_text "entitiesByKey" (some part) then path else after_marker path

abbrev pub first_of : List Json → Option Json
first_of [] = none
first_of (part ∷ path) = some part

-- `path.at(-1)`.
unfoldable pub last_of : List Json → Option Json
last_of [] = none
last_of (part ∷ []) = some part
last_of (part ∷ next ∷ path) = last_of (next ∷ path)

abbrev pub path_of : Option Members → List Json
path_of patch = array_of (optional_field "path" patch)

-- The key of the entity that a patch is for.
unfoldable pub patch_key : List Json → Option String
patch_key path = if is_turn_entity_path path then text_of (first_of (after_marker path)) else none

abbrev pub upsert_of : String → Option Turn → List DesktopTurnDelta
upsert_of key none = []
upsert_of key (some turn) = upsert (record { key = key; turn = turn }) ∷ []

-- A patch of a part of an entity.
unfoldable pub part_delta : String → List Json → Option Json → List DesktopTurnDelta
part_delta key path value =
    if is_the_text "status" (last_of path)
    then status_delta key (normalize_status value) ∷ []
    else (if is_the_text "error" (last_of path)
        then error_delta key (read_error value) ∷ []
        else [])

unfoldable pub entity_delta : String → List Json → Option Json → Option Json → List DesktopTurnDelta
entity_delta key path op value =
    if eqb (length (after_marker path)) 1
    then (if is_the_text "remove" op then remove key ∷ [] else upsert_of key (read_turn value))
    else (if is_the_text "turnId" (last_of path)
        then elim (text_of value) [
          | none ↦ part_delta key path value
          | some turn_id ↦ bind key turn_id ∷ []
        ]
        else part_delta key path value)

unfoldable pub read_delta : Json → List DesktopTurnDelta
read_delta value =
    let patch = record_of (some value) in
    elim (patch_key (path_of patch)) [
      | none ↦ []
      | some key ↦
          entity_delta key (path_of patch) (optional_field "op" patch)
            (optional_field "value" patch)
    ]

abbrev pub direct_id : Bool → Option String → List String
direct_id true (some id) = id ∷ []
direct_id _ _ = []

unfoldable pub patch_delivery_ids : Json → List String
patch_delivery_ids value =
    let patch = record_of (some value) in
    if is_turn_entity_path (path_of patch)
    then direct_id (is_the_text "clientUserMessageId" (last_of (path_of patch)))
        (text_of (optional_field "value" patch))
      ++ delivery_ids (optional_field "value" patch)
    else []

unfoldable pub patch_delivery_bindings : Json → List DesktopDeliveryBinding
patch_delivery_bindings value = elim (patch_key (path_of (record_of (some value)))) [
  | none ↦ []
  | some key ↦ bound_ids key (patch_delivery_ids value)
]

unfoldable pub read_snapshot : Members → Snapshot
read_snapshot change =
    let entities = snapshot_entity_values (field "conversationState" change) in
    record {
      revision = read_revision (field "revision" change);
      entities = snapshot_entities entities;
      delivery_ids = delivery_ids (some (object entities));
      delivery_bindings = some (snapshot_delivery_bindings entities);
    }

unfoldable pub read_patches : Members → Patches
read_patches change =
    let values = array_of (field "patches" change) in
    record {
      base_revision = read_revision (field "baseRevision" change);
      revision = read_revision (field "revision" change);
      deltas = flat_map read_delta values;
      delivery_ids = flat_map patch_delivery_ids values;
      delivery_bindings = some (flat_map patch_delivery_bindings values);
    }

unfoldable pub read_change : Members → Option DesktopTaskChange
read_change change =
    if is_the_text "snapshot" (field "type" change)
    then some (snapshot (read_snapshot change))
    else (if is_the_text "patches" (field "type" change)
        then some (patches (read_patches change))
        else none)

unfoldable pub read_desktop_change : Members → Option (String × DesktopTaskChange)
read_desktop_change message = elim (desktop_stream_envelope message) [
  | none ↦ none
  | some stream ↦ elim (read_change stream.change) [
    | none ↦ none
    | some change ↦ some (stream.thread_id, change)
  ]
]

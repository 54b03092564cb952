-- ===== src/Desktop/State.antt =====
-- `DesktopThreadState` (src/transport/desktop-state.ts). The maps and the set keep the order of
-- first insertion; the listeners, which only read the state, are left out.
pub mod Bindings
pub mod Consistent
pub mod Deltas
pub mod Revision
pub mod Replicas
mod Examples
use codexhook.Base.{
  ℕ, ◌+◌, ◌==◌, String, Bool, true, false, not, ◌&&◌, ◌||◌, Option, none, some, List, [], ◌∷◌, ◌++◌,
  map, keep, any, eqb, leb, ltb, if◌then◌else◌,
}
use codexhook.Base.Dict.{get, set, delete}
use codexhook.Contracts.{TurnStatus, completed, interrupted, failed, in_progress}
use codexhook.Contracts.Diagnostics.{max_safe_integer}
use codexhook.Desktop.{
  Turn, TurnError, null, Number, no_number, other_number, whole, DesktopTurnEntity,
  DesktopDeliveryBinding, DesktopTurnDelta, upsert, bind, status_delta, error_delta, remove,
  Snapshot, Patches, DesktopTaskChange, snapshot, patches,
}

pub data ConnectionState : Type 0 where
  disconnected_now connecting connected : ConnectionState

pub data AttachmentState : Type 0 where
  detached following synchronized : AttachmentState

pub data ActivityState : Type 0 where
  unknown_activity idle_activity active_activity : ActivityState

pub data InjectionState : Type 0 where
  idle injecting confirmed uncertain rejected : InjectionState

pub data DesktopChangeResult : Type 0 where
  applied ignored resync : DesktopChangeResult

-- What `clearObservedState` clears.
pub record Observed : Type 0 where
  pub delivery_ids : List String
  pub delivery_turns : List (String × String)
  pub entity_turns : List (String × String)
  pub turns : List (String × Turn)

pub record DesktopThreadState : Type 0 where
  pub thread_id : String
  pub attachment : AttachmentState
  pub connection : ConnectionState
  pub injection : InjectionState
  pub generation : ℕ
  pub revision : Option ℕ
  pub observed : Observed

abbrev pub clear_observed_state : Observed
clear_observed_state = record {
  delivery_ids = [];
  delivery_turns = [];
  entity_turns = [];
  turns = [];
}

abbrev pub new_state : String → DesktopThreadState
new_state thread_id = record {
  thread_id = thread_id;
  attachment = detached;
  connection = disconnected_now;
  injection = idle;
  generation = 0;
  revision = none;
  observed = clear_observed_state;
}

abbrev pub is_synchronized : AttachmentState → Bool
is_synchronized synchronized = true
is_synchronized _ = false

abbrev pub is_connected : ConnectionState → Bool
is_connected connected = true
is_connected _ = false

abbrev pub is_in_progress : TurnStatus → Bool
is_in_progress in_progress = true
is_in_progress _ = false

abbrev pub ready : DesktopThreadState → Bool
ready s = is_synchronized s.attachment

abbrev pub turns_snapshot : DesktopThreadState → List Turn
turns_snapshot s = map (λ entry. entry.1) s.observed.turns

pub record DesktopTaskSnapshot : Type 0 where
  pub connection : ConnectionState
  pub attachment : AttachmentState
  pub activity : ActivityState
  pub injection : InjectionState
  pub generation : ℕ
  pub revision : Option ℕ
  pub turns : List Turn

unfoldable pub evidence : DesktopThreadState → DesktopTaskSnapshot
evidence s = record {
  connection = s.connection;
  attachment = s.attachment;
  activity =
      if not (ready s)
      then unknown_activity
      else (if any (λ (turn : Turn). is_in_progress turn.status) (turns_snapshot s)
          then active_activity
          else idle_activity);
  injection = s.injection;
  generation = s.generation;
  revision = s.revision;
  turns = turns_snapshot s;
}

abbrev pub only_one : List Turn → Option Turn
only_one (turn ∷ []) = some turn
only_one _ = none

unfoldable pub active_turn : DesktopThreadState → Option Turn
active_turn s = only_one (keep (λ (turn : Turn). is_in_progress turn.status) (turns_snapshot s))

-- The loop, with the count of active turns so far.
unfoldable pub count_beyond_one : ℕ → List Turn → Bool
count_beyond_one count [] = false
count_beyond_one count (turn ∷ turns) =
    if is_in_progress turn.status
    then (if ltb 1 (count + 1) then true else count_beyond_one (count + 1) turns)
    else count_beyond_one count turns

abbrev pub has_multiple_active_turns : DesktopThreadState → Bool
has_multiple_active_turns s = count_beyond_one 0 (turns_snapshot s)

abbrev pub turn_of : String → DesktopThreadState → Option Turn
turn_of turn_id s = get turn_id s.observed.turns

-- `===` with a text, of a value that may be missing.
unfoldable pub is_text : Option String → String → Bool
is_text none text = false
is_text (some other) text = other == text

unfoldable pub has_delivery : String → Option String → DesktopThreadState → Bool
has_delivery delivery_id turn_id s =
    if any (λ id. id == delivery_id) s.observed.delivery_ids
    then elim turn_id [
      | none ↦ true
      | some turn_id ↦ is_text (get delivery_id s.observed.delivery_turns) turn_id
    ]
    else false

unfoldable pub begin_connecting : DesktopThreadState → DesktopThreadState
begin_connecting s = record s { connection = connecting; attachment = detached }

unfoldable pub begin_following : ℕ → DesktopThreadState → DesktopThreadState
begin_following generation s = record s {
  connection = connected;
  attachment = following;
  generation = generation;
  revision = none;
  observed = clear_observed_state;
}

unfoldable pub begin_resync : DesktopThreadState → DesktopThreadState
begin_resync s = record s { attachment = following }

abbrev pub after_disconnect : InjectionState → InjectionState
after_disconnect injecting = uncertain
after_disconnect other = other

unfoldable pub disconnected : DesktopThreadState → DesktopThreadState
disconnected s = record s {
  connection = disconnected_now;
  attachment = detached;
  injection = after_disconnect s.injection;
}

unfoldable pub set_injection : InjectionState → DesktopThreadState → DesktopThreadState
set_injection value s = record s { injection = value }

-- Is the text one of the values of the map?
unfoldable pub has_value : String → List (String × String) → Bool
has_value value m = any (λ entry. entry.1 == value) m

unfoldable pub drop_turn_deliveries : String → List (String × String) → List (String × String)
drop_turn_deliveries turn_id m = keep (λ entry. not (entry.1 == turn_id)) m

-- Forget a turn that no entity has any more.
unfoldable pub drop_unbound : String → Observed → Observed
drop_unbound turn_id o = if has_value turn_id o.entity_turns then o else (record o {
  turns = delete turn_id o.turns;
  delivery_turns = drop_turn_deliveries turn_id o.delivery_turns;
})

-- `previous` is the turn that the key had.
unfoldable pub drop_previous : Option String → String → Observed → Observed
drop_previous none turn_id o = o
drop_previous (some previous) turn_id o = if previous == turn_id then o else drop_unbound previous o

unfoldable pub put_turn : Turn → Observed → Observed
put_turn turn o = record o { turns = set turn.id turn o.turns }

unfoldable pub bind_turn : String → Turn → Observed → Observed
bind_turn key turn o = put_turn turn (
    drop_previous (get key o.entity_turns) turn.id
      (record o { entity_turns = set key turn.id o.entity_turns }))

unfoldable pub bind_entities : List DesktopTurnEntity → Observed → Observed
bind_entities [] o = o
bind_entities (entity ∷ entities) o = bind_entities entities (bind_turn entity.key entity.turn o)

unfoldable pub add_ids : List String → List String → List String
add_ids [] ids = ids
add_ids (id ∷ new) ids =
    add_ids new (if any (λ other. other == id) ids then ids else ids ++ id ∷ [])

unfoldable pub bind_deliveries :
    List DesktopDeliveryBinding
    → List (String × String)
    → List (String × String)
    → List (String × String)
bind_deliveries [] entity_turns m = m
bind_deliveries (binding ∷ bindings) entity_turns m =
    bind_deliveries bindings entity_turns (elim (get binding.key entity_turns) [
      | none ↦ m
      | some turn_id ↦ set binding.delivery_id turn_id m
    ])

abbrev pub or_empty : Option (List DesktopDeliveryBinding) → List DesktopDeliveryBinding
or_empty none = []
or_empty (some bindings) = bindings

-- The end of both kinds of change: the delivery ids and what they are bound to.
unfoldable pub observe_deliveries :
    List String → Option (List DesktopDeliveryBinding) → Observed → Observed
observe_deliveries ids bindings o = record o {
  delivery_ids = add_ids ids o.delivery_ids;
  delivery_turns = bind_deliveries (or_empty bindings) o.entity_turns o.delivery_turns;
}

abbrev pub or_started : String → Option Turn → Turn
or_started turn_id none = record { id = turn_id; status = in_progress; error = null }
or_started turn_id (some turn) = turn

-- The turn of a key, where it has one.
unfoldable pub turn_at : String → Observed → Option Turn
turn_at key o = elim (get key o.entity_turns) [ none ↦ none | some turn_id ↦ get turn_id o.turns ]

unfoldable pub set_status : Option Turn → TurnStatus → Observed → Observed
set_status none status o = o
set_status (some turn) status o = put_turn (record turn { status = status }) o

unfoldable pub set_error : Option Turn → TurnError → Observed → Observed
set_error none error o = o
set_error (some turn) error o = put_turn (record turn { error = error }) o

unfoldable pub remove_key : String → Observed → Observed
remove_key key o = elim (get key o.entity_turns) [
  | none ↦ record o { entity_turns = delete key o.entity_turns }
  | some turn_id ↦ drop_unbound turn_id (record o { entity_turns = delete key o.entity_turns })
]

unfoldable pub apply_delta : DesktopTurnDelta → Observed → Observed
apply_delta (upsert entity) o = bind_turn entity.key entity.turn o
apply_delta (bind key turn_id) o = bind_turn key (or_started turn_id (get turn_id o.turns)) o
apply_delta (status_delta key status) o = set_status (turn_at key o) status o
apply_delta (error_delta key error) o = set_error (turn_at key o) error o
apply_delta (remove key) o = remove_key key o

unfoldable pub apply_deltas : List DesktopTurnDelta → Observed → Observed
apply_deltas [] o = o
apply_deltas (delta ∷ deltas) o = apply_deltas deltas (apply_delta delta o)

-- A revision that is valid, as a number.
unfoldable pub valid_revision : Number → Option ℕ
valid_revision no_number = none
valid_revision other_number = none
valid_revision (whole n) = if leb n max_safe_integer then some n else none

abbrev pub request_resync : DesktopThreadState → DesktopChangeResult × DesktopThreadState
request_resync s = (resync, begin_resync s)

-- Is a snapshot of this revision one that has been seen?
unfoldable pub is_stale : ℕ → Bool → Option ℕ → Bool
is_stale revision is_ready none = false
is_stale revision is_ready (some current) =
    ltb revision current || (is_ready && eqb revision current)

unfoldable pub apply_snapshot :
    Snapshot → DesktopThreadState → DesktopChangeResult × DesktopThreadState
apply_snapshot change s = elim (valid_revision change.revision) [
  | none ↦ request_resync s
  | some revision ↦ if is_stale revision (ready s) s.revision then (ignored, s) else (
    applied,
    record s {
      revision = some revision;
      observed =
          observe_deliveries change.delivery_ids change.delivery_bindings
            (bind_entities change.entities clear_observed_state);
      attachment = synchronized;
    },
  )
]

-- The patches on the revision that the state has, with the change's two revisions.
unfoldable pub patch_from :
    Patches → ℕ → ℕ → ℕ → DesktopThreadState → DesktopChangeResult × DesktopThreadState
patch_from change current base revision s =
    if leb revision current
    then (ignored, s)
    else (if not (eqb base current) || leb revision base then request_resync s else (
      applied,
      record s {
        observed =
            observe_deliveries change.delivery_ids change.delivery_bindings
              (apply_deltas change.deltas s.observed);
        revision = some revision;
      },
    ))

-- The guards of `applyPatches`.
unfoldable pub apply_patches :
    Patches → DesktopThreadState → DesktopChangeResult × DesktopThreadState
apply_patches change s = if not (ready s) then request_resync s else elim s.revision [
  | none ↦ request_resync s
  | some current ↦ elim (valid_revision change.base_revision) [
    | none ↦ request_resync s
    | some base ↦ elim (valid_revision change.revision) [
      | none ↦ request_resync s
      | some revision ↦ patch_from change current base revision s
    ]
  ]
]

unfoldable pub apply_change :
    DesktopTaskChange → DesktopThreadState → DesktopChangeResult × DesktopThreadState
apply_change (snapshot change) s = apply_snapshot change s
apply_change (patches change) s = apply_patches change s

unfoldable pub apply :
    DesktopTaskChange → ℕ → DesktopThreadState → DesktopChangeResult × DesktopThreadState
apply change generation s =
    if not (eqb generation s.generation) || not (is_connected s.connection)
    then (ignored, s)
    else apply_change change s

-- A call of a method that changes the state.
pub data Call : Type 0 where
  begins_connecting begins_resync disconnects : Call
  begins_following : ℕ → Call
  sets_injection : InjectionState → Call
  applies : DesktopTaskChange → ℕ → Call

unfoldable pub step : DesktopThreadState → Call → DesktopThreadState
step s begins_connecting = begin_connecting s
step s begins_resync = begin_resync s
step s disconnects = disconnected s
step s (begins_following generation) = begin_following generation s
step s (sets_injection value) = set_injection value s
step s (applies change generation) = (apply change generation s).1

unfoldable pub run : DesktopThreadState → List Call → DesktopThreadState
run s [] = s
run s (call ∷ calls) = run (step s call) calls

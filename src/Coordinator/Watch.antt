-- ===== src/Coordinator/Watch.antt =====
-- Waiting for an idle task on the canonical event stream (src/delivery/coordinator-queue.ts).
use codexhook.Base.{
  String, Bool, true, false, not, ◌&&◌, ◌||◌, Option, none, some, List, [], ◌∷◌, ◌==◌,
  if◌then◌else◌, any, keep,
}
use codexhook.Contracts.{
  app_server, await_turn, SanitizedDiagnostic, diagnostic, timeout, task_not_found, internal,
  TurnStatus, in_progress, LocalTurn, LocalTaskEvent, snapshot, turn_changed, task_removed,
}
use codexhook.Coordinator.Support.{Ending, fails, late, ended, defect, EventStream}

abbrev pub task_removed_diagnostic : SanitizedDiagnostic
task_removed_diagnostic = diagnostic task_not_found await_turn app_server

abbrev pub internal_diagnostic : SanitizedDiagnostic
internal_diagnostic = diagnostic internal await_turn app_server

abbrev pub timeout_diagnostic : SanitizedDiagnostic
timeout_diagnostic = diagnostic timeout await_turn app_server

abbrev pub is_in_progress : TurnStatus → Bool
is_in_progress in_progress = true
is_in_progress _ = false

-- A `Set` of turn ids, as a list with no id twice.
unfoldable pub add_id : String → List String → List String
add_id id ids = if any (λ other. other == id) ids then ids else id ∷ ids

unfoldable pub remove_id : String → List String → List String
remove_id id ids = keep (λ other. not (other == id)) ids

unfoldable pub add_active : List LocalTurn → List String → List String
unfolding add_id
add_active [] active = active
add_active (turn ∷ turns) active =
    add_active turns (if is_in_progress turn.status then add_id turn.id active else active)

-- The set after the event, and whether the event was a snapshot.
unfoldable pub track_active : List String → LocalTaskEvent → Bool × List String
unfolding add_active add_id remove_id
track_active active (snapshot history) = (true, add_active history.turns [])
track_active active (turn_changed _ turn) =
    (false, if is_in_progress turn.status then add_id turn.id active else remove_id turn.id active)
track_active active (task_removed _) = (false, active)

pub record WatchState : Type 0 where
  pub active : List String
  pub initialized : Bool
  pub saw_activity : Bool

abbrev pub is_empty {ℓ} : {A : Type ℓ} → List A → Bool
is_empty [] = true
is_empty (_ ∷ _) = false

abbrev pub watch_start : WatchState
watch_start = record { active = []; initialized = false; saw_activity = false }

-- What is kept between the events: `trackActive`, `initialized` and `sawActivity`.
unfoldable pub watch_event : WatchState → LocalTaskEvent → WatchState
unfolding track_active
watch_event w event =
    let (snapshotted, active) = track_active w.active event in
    let initialized = snapshotted || w.initialized in
    record {
      active = active;
      initialized = initialized;
      saw_activity = w.saw_activity || (initialized && not (is_empty active));
    }

-- The event lets the wait end.
abbrev pub is_settled : Bool → WatchState → Bool
is_settled require_activity w =
    w.initialized && (is_empty w.active && (not require_activity || w.saw_activity))

abbrev is_removal : LocalTaskEvent → Bool
is_removal (task_removed _) = true
is_removal _ = false

-- `Stream.filterMap` and `Stream.runHead`: the first event that ends the wait, with the failure or
-- without one.
unfoldable pub watch : Bool → WatchState → List LocalTaskEvent → Option (Option SanitizedDiagnostic)
unfolding watch_event
watch require_activity w [] = none
watch require_activity w (event ∷ events) =
    let next = watch_event w event in
    let later = watch require_activity next events in
    if is_removal event
    then some (some task_removed_diagnostic)
    else if is_settled require_activity next
    then some none
    else later

ending_failure : Ending → SanitizedDiagnostic
ending_failure (fails d) = d
ending_failure late = timeout_diagnostic
ending_failure ended = timeout_diagnostic
ending_failure defect = internal_diagnostic

-- `awaitState`: `none` is an idle task.
unfoldable pub await_state : Bool → EventStream → Option SanitizedDiagnostic
unfolding watch ending_failure
await_state require_activity stream = elim (watch require_activity watch_start stream.events) [
  | some result ↦ result
  | none ↦ some (ending_failure stream.ending)
]

unfoldable pub await_idle : EventStream → Option SanitizedDiagnostic
unfolding await_state
await_idle stream = await_state false stream

unfoldable pub await_activity_cycle : EventStream → Option SanitizedDiagnostic
unfolding await_state
await_activity_cycle stream = await_state true stream

pub data IdleInspection : Type 0 where
  idle active : IdleInspection
  inspection_failed : SanitizedDiagnostic → IdleInspection

abbrev pub inspect_event : LocalTaskEvent → IdleInspection
inspect_event (task_removed _) = inspection_failed task_removed_diagnostic
inspect_event (turn_changed _ _) = inspection_failed internal_diagnostic
inspect_event (snapshot history) =
    if any (λ turn. is_in_progress turn.status) history.turns then active else idle

unfoldable pub inspect_idle : EventStream → IdleInspection
unfolding ending_failure
inspect_idle stream = elim stream.events [
  | [] ↦ inspection_failed (ending_failure stream.ending)
  | event ∷ _ ↦ inspect_event event
]

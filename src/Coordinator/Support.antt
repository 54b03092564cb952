-- ===== src/Coordinator/Support.antt =====
-- Shared steps of the coordinator (src/delivery/coordinator-support.ts).
use Prim.Native.Nat.{min, max}
use codexhook.Base.{
  ℕ, ◌-◌, String, Bool, true, false, Option, none, some, List, [], ◌∷◌, ◌==◌, any, find,
}
use codexhook.Base.Result.{Result, ok, err}
use codexhook.Contracts.{
  DeliveryRoute, desktop, app_server, DeliveryOperation, DeliveryStage, submit_desktop,
  submit_app_server, reconcile_app_server, SanitizedDiagnostic, diagnostic, timeout,
  write_ambiguous, internal, NotSubmittedReason, unavailable, pre_submit_failure,
  RouteSubmissionOutcome, confirmed, not_submitted, ambiguous, rejected, tag_of, DeliveryRequest,
  DeliveryAttempt, Confirmation, Failure, DeliveryOutcome, confirmed_desktop, confirmed_app_server,
  is_rejected, is_unavailable, LocalTurn, LocalTaskEvent, snapshot, turn_changed, task_removed,
}

-- `PendingReconciliation`, of an ambiguous submission.
pub record PendingReconciliation : Type 0 where
  pub route : DeliveryRoute
  pub diagnostic : SanitizedDiagnostic
  pub attempts : List DeliveryAttempt

pub data RoutingResult : Type 0 where
  settled : DeliveryOutcome → RoutingResult
  pending : PendingReconciliation → RoutingResult

-- The source's `unavailable`.
abbrev pub unavailable_outcome :
    DeliveryRequest
    → (route : DeliveryRoute) → NotSubmittedReason
    → SanitizedDiagnostic
    → RouteSubmissionOutcome route
unavailable_outcome request route reason d = not_submitted request.delivery_id reason d

abbrev pub submit_stage : DeliveryRoute → DeliveryStage
submit_stage desktop = submit_desktop
submit_stage app_server = submit_app_server

unfoldable pub unexpected :
    DeliveryRequest → (route : DeliveryRoute) → Bool → RouteSubmissionOutcome route
unexpected request route true =
    ambiguous request.delivery_id (diagnostic write_ambiguous (submit_stage route) route)
unexpected request route false =
    unavailable_outcome request route pre_submit_failure
      (diagnostic internal (submit_stage route) route)

abbrev pub timeout_before_write :
    DeliveryRequest → (route : DeliveryRoute) → DeliveryStage → RouteSubmissionOutcome route
timeout_before_write request route stage =
    unavailable_outcome request route unavailable (diagnostic timeout stage route)

-- `remainingWait`, with the clock's reading as the last argument.
unfoldable pub remaining_wait : DeliveryRequest → ℕ → ℕ → ℕ
remaining_wait request deadline now = min (max 1 (deadline - now)) (max 1 request.idle_timeout)

diagnostic_of : {route : DeliveryRoute} → RouteSubmissionOutcome route → Option SanitizedDiagnostic
diagnostic_of (confirmed _ _ _) = none
diagnostic_of (not_submitted _ _ d) = some d
diagnostic_of (ambiguous _ d) = some d
diagnostic_of (rejected _ d) = some d

stage_or : Option DeliveryStage → DeliveryStage → DeliveryStage
stage_or none stage = stage
stage_or (some found) stage = found

stage_for : {route : DeliveryRoute} → RouteSubmissionOutcome route → DeliveryStage
stage_for {route} outcome = elim (diagnostic_of outcome) [
  | none ↦ submit_stage route
  | some d ↦ stage_or d.stage (submit_stage route)
]

-- `attempt`, with the time at the start and the clock's reading.
pub attempt : (route : DeliveryRoute) → RouteSubmissionOutcome route → ℕ → ℕ → DeliveryAttempt
attempt route outcome started_at now = record {
  route = route;
  stage = stage_for outcome;
  outcome = tag_of outcome;
  elapsed_ms = now - started_at;
  diagnostic = diagnostic_of outcome;
}

-- The source's `confirmed`.
unfoldable pub confirm :
    DeliveryRoute
    → DeliveryRequest
    → String
    → DeliveryOperation
    → List DeliveryAttempt
    → DeliveryOutcome
confirm route request turn_id operation attempts =
    let c : Confirmation = record {
      task = request.task;
      delivery_id = request.delivery_id;
      turn_id = turn_id;
      operation = operation;
      attempts = attempts;
    } in
    elim route [ desktop ↦ confirmed_desktop c | app_server ↦ confirmed_app_server c ]

abbrev pub failure_of : DeliveryRequest → List DeliveryAttempt → SanitizedDiagnostic → Failure
failure_of request attempts d = record {
  task = request.task;
  delivery_id = request.delivery_id;
  attempts = attempts;
  diagnostic = d;
}

unfoldable pub route_result :
    DeliveryRequest
    → (route : DeliveryRoute) → RouteSubmissionOutcome route
    → List DeliveryAttempt
    → RoutingResult
unfolding confirm
route_result request route (confirmed _ turn_id operation) attempts =
    settled (confirm route request turn_id operation attempts)
route_result request route (ambiguous _ d) attempts =
    pending (record { route = route; diagnostic = d; attempts = attempts })
route_result request route (rejected _ d) attempts =
    settled (is_rejected route (failure_of request attempts d))
route_result request route (not_submitted _ _ d) attempts =
    settled (is_unavailable (failure_of request attempts d))

-- How a bounded read of an event stream ends when no event has decided it: by a failure, by its
-- timeout, with the stream's end, or by a defect.
pub data Ending : Type 0 where
  fails : SanitizedDiagnostic → Ending
  late ended defect : Ending

-- The events that a bounded read would see, and its end.
pub record EventStream : Type 0 where
  pub events : List LocalTaskEvent
  pub ending : Ending

abbrev pub turns_of : LocalTaskEvent → List LocalTurn
turns_of (snapshot history) = history.turns
turns_of (turn_changed _ turn) = turn ∷ []
turns_of (task_removed _) = []

abbrev pub carries : String → LocalTurn → Bool
carries delivery_id turn = any (λ id. id == delivery_id) turn.delivery_ids

unfoldable pub event_turn : LocalTaskEvent → String → Option String
event_turn event delivery_id = elim (find (carries delivery_id) (turns_of event)) [
  | none ↦ none
  | some turn ↦ some turn.id
]

-- `Stream.filterMap` and `Stream.runHead`: the first turn with the delivery id.
unfoldable pub first_turn : List LocalTaskEvent → String → Option String
first_turn [] delivery_id = none
first_turn (event ∷ events) delivery_id = elim (event_turn event delivery_id) [
  | some turn_id ↦ some turn_id
  | none ↦ first_turn events delivery_id
]

abbrev pub ending_diagnostic : Ending → DeliveryRoute → SanitizedDiagnostic
ending_diagnostic (fails d) route = d
ending_diagnostic late route = diagnostic timeout reconcile_app_server route
ending_diagnostic ended route = diagnostic timeout reconcile_app_server route
ending_diagnostic defect route = diagnostic internal reconcile_app_server route

-- The turn, or why there is none. (The source gives a diagnostic with the turn too, unused.)
unfoldable pub reconcile_delivery :
    EventStream → DeliveryRequest → DeliveryRoute → Result SanitizedDiagnostic String
reconcile_delivery stream request route = elim (first_turn stream.events request.delivery_id) [
  | some turn_id ↦ ok turn_id
  | none ↦ err (ending_diagnostic stream.ending route)
]

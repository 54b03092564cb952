-- ===== src/Coordinator/Route.antt =====
-- One pass over the planes (`submitDesktop`, `submitLocal` and `route` of
-- src/delivery/coordinator.ts). The `yield*` steps are binds of `Result`, whose error is the outcome
-- that an early `return`, a failure or a defect leads to.
use codexhook.Base.{
  ℕ, String, Bool, true, false, not, ◌&&◌, ◌||◌, Option, none, some, List, [], ◌∷◌, ltb,
  if◌then◌else◌,
}
use codexhook.Base.Result.{Result, ok, err, ◌>>=◌, ◌>>◌, guard}
use codexhook.Types.{DeliveryMode, queue, steer}
use codexhook.Contracts.{
  DeliveryRoute, desktop, app_server, DeliveryStage, check_app_server, probe_desktop,
  connect_desktop, follow_desktop, submit_desktop, submit_app_server, DiagnosticCode,
  SanitizedDiagnostic, diagnostic, desktop_unavailable, desktop_incompatible, desktop_not_following,
  NotSubmittedReason, unavailable, incompatible, pre_submit_failure, task_busy,
  RouteSubmissionOutcome, DeliveryRequest, LocalTaskRef,
}
use codexhook.Contracts.Compatibility.{CompatibleProtocol}
use codexhook.Coordinator.Support.{
  unavailable_outcome, unexpected, timeout_before_write, remaining_wait,
}

pub data Availability : Type 0 where
  available : CompatibleProtocol → Availability
  is_unavailable is_incompatible : SanitizedDiagnostic → Availability

pub data Activity : Type 0 where
  idle multiple_active : Activity
  active : String → Activity

-- A call's answer under `Effect.timeoutOption`: a value, no answer in time, a typed failure (of a
-- type that is empty where the call has none) or a defect.
pub data Answer (F : Type 0) (A : Type 0) : Type 0 where
  answers : A → Answer F A
  late defect : Answer F A
  fails : F → Answer F A

-- `DesktopSubmissionRequest`; `expected_turn_id` is the fence of a steer.
pub record DesktopSubmission : Type 0 where
  pub task : LocalTaskRef
  pub delivery_id : String
  pub message : String
  pub mode : DeliveryMode
  pub expected_turn_id : Option String
  pub reply_timeout : ℕ

pub record LocalSubmission : Type 0 where
  pub task : LocalTaskRef
  pub delivery_id : String
  pub message : String
  pub mode : DeliveryMode
  pub reply_timeout : ℕ

-- A submission's answer: the plane's own outcome, or a defect.
pub data Submitted (route : DeliveryRoute) : Type 0 where
  reports : RouteSubmissionOutcome route → Submitted route
  dies : Submitted route

pub record DesktopWorld : Type 0 where
  pub availability : Answer ⊥ Availability
  pub connect : Answer SanitizedDiagnostic (Unit {0})
  pub follow : Answer SanitizedDiagnostic Activity
  pub now : ℕ
  pub submit : DesktopSubmission → Submitted desktop

pub record LocalWorld : Type 0 where
  pub availability : Answer ⊥ Availability
  pub now : ℕ
  pub submit : LocalSubmission → Submitted app_server

-- A submission that was handed to a plane, and how it was classified.
pub data Write : Type 0 where
  to_desktop : DesktopSubmission → RouteSubmissionOutcome desktop → Write
  to_local : LocalSubmission → RouteSubmissionOutcome app_server → Write

pub data DesktopDecision : Type 0 where
  outcome : RouteSubmissionOutcome desktop → DesktopDecision
  retry_idle : Bool → DesktopDecision

abbrev pub is_steer : DeliveryMode → Bool
is_steer queue = false
is_steer steer = true

abbrev pub is_idle : Activity → Bool
is_idle idle = true
is_idle _ = false

abbrev pub is_multiple : Activity → Bool
is_multiple multiple_active = true
is_multiple _ = false

abbrev pub active_turn : Activity → Option String
active_turn (active turn_id) = some turn_id
active_turn _ = none

-- The reason for a typed failure of the desktop plane.
abbrev pub failure_reason : DiagnosticCode → NotSubmittedReason
failure_reason desktop_incompatible = incompatible
failure_reason desktop_unavailable = unavailable
failure_reason _ = pre_submit_failure

abbrev pub is_available :
    (route : DeliveryRoute)
    → DeliveryRequest
    → Availability
    → Result (RouteSubmissionOutcome route) (Unit {0})
is_available route request (available _) = ok tt
is_available route request (is_unavailable d) =
    err (unavailable_outcome request route unavailable d)
is_available route request (is_incompatible d) =
    err (unavailable_outcome request route incompatible d)

module _ (request : DeliveryRequest) (deadline : ℕ) where
  -- A bounded wait before the write.
  unfoldable pub in_time :
      {F A : Type 0} (route : DeliveryRoute)
      → DeliveryStage
      → (F → RouteSubmissionOutcome route)
      → Answer F A
      → Result (RouteSubmissionOutcome route) A
  in_time route stage on_failure (answers a) = ok a
  in_time route stage on_failure late = err (timeout_before_write request route stage)
  in_time route stage on_failure defect = err (unexpected request route false)
  in_time route stage on_failure (fails f) = err (on_failure f)

  -- `Effect.catchAll` of `submitDesktop`.
  unfoldable pub desktop_failure : SanitizedDiagnostic → RouteSubmissionOutcome desktop
  desktop_failure d = unavailable_outcome request desktop (failure_reason d.code) d

  unfoldable pub unfollowable : NotSubmittedReason → RouteSubmissionOutcome desktop
  unfollowable reason =
      unavailable_outcome request desktop reason
        (diagnostic desktop_not_following follow_desktop desktop)

  -- The steps up to a followed desktop session, with the breaker's state.
  unfoldable pub follow_desktop_task :
      Bool → DesktopWorld → Result (RouteSubmissionOutcome desktop) Activity
  follow_desktop_task broken w = do
    guard (not broken) (
        unavailable_outcome request desktop unavailable
          (diagnostic desktop_unavailable probe_desktop desktop))
    availability ← in_time desktop probe_desktop absurd w.availability
    is_available desktop request availability
    connected ← in_time desktop connect_desktop desktop_failure w.connect
    in_time desktop follow_desktop desktop_failure w.follow

  -- The tests on what was observed; `ok` lets the write happen.
  unfoldable pub admit_desktop : Activity → DesktopWorld → Result DesktopDecision (Unit {0})
  admit_desktop activity w = do
    guard (not (is_steer request.mode && is_multiple activity)) (outcome (unfollowable task_busy))
    guard (not (is_steer request.mode && is_idle activity))
        (outcome (unfollowable pre_submit_failure))
    guard (is_steer request.mode || is_idle activity) (retry_idle true)
    guard (ltb w.now deadline) (outcome (timeout_before_write request desktop submit_desktop))

  unfoldable pub desktop_submission : Activity → ℕ → DesktopSubmission
  desktop_submission activity now = record {
    task = request.task;
    delivery_id = request.delivery_id;
    message = request.message;
    mode = request.mode;
    expected_turn_id = if is_steer request.mode then active_turn activity else none;
    reply_timeout = remaining_wait request deadline now;
  }

  -- After the write a defect is ambiguous.
  abbrev pub classify : (route : DeliveryRoute) → Submitted route → RouteSubmissionOutcome route
  classify route (reports o) = o
  classify route dies = unexpected request route true

  unfoldable pub write_desktop : Activity → DesktopWorld → DesktopDecision × List Write
  write_desktop activity w =
      let submission = desktop_submission activity w.now in
      let o = classify desktop (w.submit submission) in (outcome o, to_desktop submission o ∷ [])

  unfoldable pub submit_to_desktop : Bool → DesktopWorld → DesktopDecision × List Write
  submit_to_desktop broken w = elim (follow_desktop_task broken w) [
    | err o ↦ (outcome o, [])
    | ok activity ↦ elim (admit_desktop activity w) [
      | err decision ↦ (decision, [])
      | ok _ ↦ write_desktop activity w
    ]
  ]

  unfoldable pub admit_local : LocalWorld → Result (RouteSubmissionOutcome app_server) (Unit {0})
  admit_local w = do
    availability ← in_time app_server check_app_server absurd w.availability
    is_available app_server request availability
    guard (ltb w.now deadline) (timeout_before_write request app_server submit_app_server)

  unfoldable pub local_submission : ℕ → LocalSubmission
  local_submission now = record {
    task = request.task;
    delivery_id = request.delivery_id;
    message = request.message;
    mode = request.mode;
    reply_timeout = remaining_wait request deadline now;
  }

  unfoldable pub write_local : LocalWorld → RouteSubmissionOutcome app_server × List Write
  write_local w =
      let submission = local_submission w.now in
      let o = classify app_server (w.submit submission) in (o, to_local submission o ∷ [])

  unfoldable pub submit_to_local : LocalWorld → RouteSubmissionOutcome app_server × List Write
  submit_to_local w = elim (admit_local w) [ err o ↦ (o, []) | ok _ ↦ write_local w ]

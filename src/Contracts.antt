-- ===== src/Contracts.antt =====
-- The contracts between the planes (src/contracts): diagnostics, the outcome of one submission, the
-- outcome of a delivery, and the fallback policy. A submission's outcome is indexed by its route,
-- as the source's type is; durations and times are milliseconds.
pub mod Compatibility
pub mod Diagnostics
pub mod Sanitized
mod Examples
use codexhook.Base.{ℕ, String, Bool, true, false, Option, none, some, List, [], ◌∷◌}
use codexhook.Types.{DeliveryMode}

pub data DeliveryRoute : Type 0 where
  desktop app_server : DeliveryRoute

pub data DeliveryOperation : Type 0 where
  start steer : DeliveryOperation

pub data DeliveryStage : Type 0 where
  resolve_task check_app_server probe_desktop connect_desktop follow_desktop : DeliveryStage
  submit_desktop submit_app_server reconcile_app_server await_turn : DeliveryStage

pub data DiagnosticCode : Type 0 where
  desktop_unavailable desktop_incompatible desktop_not_following : DiagnosticCode
  app_server_unavailable app_server_incompatible task_not_local task_not_found : DiagnosticCode
  write_ambiguous request_rejected timeout disconnected internal : DiagnosticCode

pub record SanitizedDiagnostic : Type 0 where
  pub code : DiagnosticCode
  pub stage : Option DeliveryStage
  pub route : Option DeliveryRoute
  pub protocol_revision : Option ℕ

-- `sanitizeDiagnostic` of a literal with a code, a stage and a route.
abbrev pub diagnostic : DiagnosticCode → DeliveryStage → DeliveryRoute → SanitizedDiagnostic
diagnostic code stage route = record {
  code = code;
  stage = some stage;
  route = some route;
  protocol_revision = none;
}

pub data NotSubmittedReason : Type 0 where
  unavailable incompatible pre_submit_failure task_busy confirmed_not_submitted : NotSubmittedReason

-- `RouteSubmissionOutcome<Route>`; the text is the delivery id.
pub data RouteSubmissionOutcome (route : DeliveryRoute) : Type 0 where
  confirmed : String → String → DeliveryOperation → RouteSubmissionOutcome route
  not_submitted : String → NotSubmittedReason → SanitizedDiagnostic → RouteSubmissionOutcome route
  ambiguous : String → SanitizedDiagnostic → RouteSubmissionOutcome route
  rejected : String → SanitizedDiagnostic → RouteSubmissionOutcome route

pub data OutcomeTag : Type 0 where
  confirmed_tag not_submitted_tag ambiguous_tag rejected_tag : OutcomeTag

abbrev pub tag_of : {route : DeliveryRoute} → RouteSubmissionOutcome route → OutcomeTag
tag_of (confirmed _ _ _) = confirmed_tag
tag_of (not_submitted _ _ _) = not_submitted_tag
tag_of (ambiguous _ _) = ambiguous_tag
tag_of (rejected _ _) = rejected_tag

pub data TaskOrigin : Type 0 where
  from_desktop from_cli unknown : TaskOrigin

pub record LocalTaskRef : Type 0 where
  pub thread_id : String
  pub origin : TaskOrigin

pub record DeliveryRequest : Type 0 where
  pub task : LocalTaskRef
  pub delivery_id : String
  pub message : String
  pub mode : DeliveryMode
  pub idle_timeout : ℕ
  pub turn_timeout : ℕ

pub record DeliveryAttempt : Type 0 where
  pub route : DeliveryRoute
  pub stage : DeliveryStage
  pub outcome : OutcomeTag
  pub elapsed_ms : ℕ
  pub diagnostic : Option SanitizedDiagnostic

pub record Confirmation : Type 0 where
  pub task : LocalTaskRef
  pub delivery_id : String
  pub turn_id : String
  pub operation : DeliveryOperation
  pub attempts : List DeliveryAttempt

pub record Failure : Type 0 where
  pub task : LocalTaskRef
  pub delivery_id : String
  pub attempts : List DeliveryAttempt
  pub diagnostic : SanitizedDiagnostic

pub data DeliveryOutcome : Type 0 where
  confirmed_desktop confirmed_app_server : Confirmation → DeliveryOutcome
  is_ambiguous is_rejected : DeliveryRoute → Failure → DeliveryOutcome
  is_unavailable : Failure → DeliveryOutcome

-- `PHASE_ONE_DELIVERY_POLICY.preferredRoute`.
abbrev pub is_preferred : DeliveryRoute → Bool
is_preferred desktop = true
is_preferred app_server = false

-- `PHASE_ONE_DELIVERY_POLICY.fallbackAfter`.
abbrev pub falls_back_after : NotSubmittedReason → Bool
falls_back_after unavailable = true
falls_back_after incompatible = true
falls_back_after pre_submit_failure = true
falls_back_after confirmed_not_submitted = true
falls_back_after task_busy = false

unfoldable pub may_fallback : (route : DeliveryRoute) → RouteSubmissionOutcome route → Bool
may_fallback desktop (not_submitted _ reason _) = falls_back_after reason
may_fallback _ _ = false

pub data TurnStatus : Type 0 where
  completed interrupted failed in_progress : TurnStatus

pub record LocalTurn : Type 0 where
  pub id : String
  pub status : TurnStatus
  pub delivery_ids : List String

pub record LocalTaskHistory : Type 0 where
  pub task : LocalTaskRef
  pub turns : List LocalTurn

pub data LocalTaskEvent : Type 0 where
  snapshot : LocalTaskHistory → LocalTaskEvent
  turn_changed : LocalTaskRef → LocalTurn → LocalTaskEvent
  task_removed : LocalTaskRef → LocalTaskEvent

-- ===== src/Contracts/Diagnostics.antt =====
-- `sanitizeDiagnostic` (src/contracts/diagnostics.ts) on any value. Only the four properties that it
-- reads are given; a value that is no object has none of them.
use codexhook.Base.{ℕ, ◌-◌, ◌^◌, String, Bool, Option, none, some, leb, if◌then◌else◌, ◌==◌}
use codexhook.Contracts.{
  DiagnosticCode, desktop_unavailable, desktop_incompatible, desktop_not_following,
  app_server_unavailable, app_server_incompatible, task_not_local, task_not_found, write_ambiguous,
  request_rejected, timeout, disconnected, internal, DeliveryStage, resolve_task, check_app_server,
  probe_desktop, connect_desktop, follow_desktop, submit_desktop, submit_app_server,
  reconcile_app_server, await_turn, DeliveryRoute, desktop, app_server, SanitizedDiagnostic,
}

-- A JavaScript value: a text, a whole number that is not negative, or anything else.
pub data Value : Type 0 where
  text : String → Value
  whole : ℕ → Value
  other : Value

pub record Source : Type 0 where
  pub code : Value
  pub stage : Value
  pub route : Value
  pub revision : Value
  -- One of the reads throws.
  pub throws : Bool

abbrev pub code_text : DiagnosticCode → String
code_text desktop_unavailable = "desktop-unavailable"
code_text desktop_incompatible = "desktop-incompatible"
code_text desktop_not_following = "desktop-not-following"
code_text app_server_unavailable = "app-server-unavailable"
code_text app_server_incompatible = "app-server-incompatible"
code_text task_not_local = "task-not-local"
code_text task_not_found = "task-not-found"
code_text write_ambiguous = "write-ambiguous"
code_text request_rejected = "request-rejected"
code_text timeout = "timeout"
code_text disconnected = "disconnected"
code_text internal = "internal"

abbrev pub stage_text : DeliveryStage → String
stage_text resolve_task = "resolve-task"
stage_text check_app_server = "check-app-server"
stage_text probe_desktop = "probe-desktop"
stage_text connect_desktop = "connect-desktop"
stage_text follow_desktop = "follow-desktop"
stage_text submit_desktop = "submit-desktop"
stage_text submit_app_server = "submit-app-server"
stage_text reconcile_app_server = "reconcile-app-server"
stage_text await_turn = "await-turn"

abbrev pub route_text : DeliveryRoute → String
route_text desktop = "desktop"
route_text app_server = "app-server"

unfoldable pub as_diagnostic_code : Value → DiagnosticCode
as_diagnostic_code (text s) =
    if s == "desktop-unavailable"
    then desktop_unavailable
    else if s == "desktop-incompatible"
    then desktop_incompatible
    else if s == "desktop-not-following"
    then desktop_not_following
    else if s == "app-server-unavailable"
    then app_server_unavailable
    else if s == "app-server-incompatible"
    then app_server_incompatible
    else if s == "task-not-local"
    then task_not_local
    else if s == "task-not-found"
    then task_not_found
    else if s == "write-ambiguous"
    then write_ambiguous
    else if s == "request-rejected"
    then request_rejected
    else if s == "timeout"
    then timeout
    else if s == "disconnected"
    then disconnected
    else internal
as_diagnostic_code _ = internal

-- `isDeliveryStage`, with the stage.
unfoldable pub as_stage : Value → Option DeliveryStage
as_stage (text s) =
    if s == "resolve-task"
    then some resolve_task
    else if s == "check-app-server"
    then some check_app_server
    else if s == "probe-desktop"
    then some probe_desktop
    else if s == "connect-desktop"
    then some connect_desktop
    else if s == "follow-desktop"
    then some follow_desktop
    else if s == "submit-desktop"
    then some submit_desktop
    else if s == "submit-app-server"
    then some submit_app_server
    else if s == "reconcile-app-server"
    then some reconcile_app_server
    else if s == "await-turn"
    then some await_turn
    else none
as_stage _ = none

unfoldable pub as_route : Value → Option DeliveryRoute
as_route (text s) =
    if s == "desktop" then some desktop else if s == "app-server" then some app_server else none
as_route _ = none

abbrev pub max_safe_integer : ℕ
max_safe_integer = 2 ^ 53 - 1

unfoldable pub non_negative_integer : Value → Option ℕ
non_negative_integer (whole n) = if leb n max_safe_integer then some n else none
non_negative_integer _ = none

unfoldable pub sanitize_diagnostic : Source → SanitizedDiagnostic
sanitize_diagnostic source =
    if source.throws
    then (record { code = internal; stage = none; route = none; protocol_revision = none })
    else (record {
      code = as_diagnostic_code source.code;
      stage = as_stage source.stage;
      route = as_route source.route;
      protocol_revision = non_negative_integer source.revision;
    })

-- ===== src/Contracts/Sanitized.antt =====
-- Sanitized diagnostics as sources again (src/contracts/diagnostics.ts).
use codexhook.Base.{ℕ, ◌≤◌, ◌≡◌, refl, false, Option, none, some, leb, arith, Bool-cases, inl, inr}
use codexhook.Contracts.{
  DiagnosticCode, desktop_unavailable, desktop_incompatible, desktop_not_following,
  app_server_unavailable, app_server_incompatible, task_not_local, task_not_found, write_ambiguous,
  request_rejected, timeout, disconnected, internal, DeliveryStage, resolve_task, check_app_server,
  probe_desktop, connect_desktop, follow_desktop, submit_desktop, submit_app_server,
  reconcile_app_server, await_turn, DeliveryRoute, desktop, app_server, SanitizedDiagnostic,
}
use codexhook.Contracts.Diagnostics.{
  Value, text, whole, other, Source, code_text, stage_text, route_text, as_diagnostic_code,
  as_stage, as_route, max_safe_integer, non_negative_integer, sanitize_diagnostic,
}

abbrev stage_value : Option DeliveryStage → Value
stage_value none = other
stage_value (some stage) = text (stage_text stage)

abbrev route_value : Option DeliveryRoute → Value
route_value none = other
route_value (some route) = text (route_text route)

abbrev revision_value : Option ℕ → Value
revision_value none = other
revision_value (some n) = whole n

-- The diagnostic's properties, as `sanitizeDiagnostic` reads them.
abbrev pub source_of : SanitizedDiagnostic → Source
source_of d = record {
  code = text (code_text d.code);
  stage = stage_value d.stage;
  route = route_value d.route;
  revision = revision_value d.protocol_revision;
  throws = false;
}

code-source : (c : DiagnosticCode) → as_diagnostic_code (text (code_text c)) ≡ c
unfolding as_diagnostic_code
code-source desktop_unavailable = refl
code-source desktop_incompatible = refl
code-source desktop_not_following = refl
code-source app_server_unavailable = refl
code-source app_server_incompatible = refl
code-source task_not_local = refl
code-source task_not_found = refl
code-source write_ambiguous = refl
code-source request_rejected = refl
code-source timeout = refl
code-source disconnected = refl
code-source internal = refl

stage-source : (s : Option DeliveryStage) → as_stage (stage_value s) ≡ s
unfolding as_stage
stage-source none = refl
stage-source (some resolve_task) = refl
stage-source (some check_app_server) = refl
stage-source (some probe_desktop) = refl
stage-source (some connect_desktop) = refl
stage-source (some follow_desktop) = refl
stage-source (some submit_desktop) = refl
stage-source (some submit_app_server) = refl
stage-source (some reconcile_app_server) = refl
stage-source (some await_turn) = refl

route-source : (r : Option DeliveryRoute) → as_route (route_value r) ≡ r
unfolding as_route
route-source none = refl
route-source (some desktop) = refl
route-source (some app_server) = refl

abbrev pub IsSafe : Option ℕ → Type 0
IsSafe none = Unit
IsSafe (some n) = n ≤ max_safe_integer

revision-source : (r : Option ℕ) → IsSafe r → non_negative_integer (revision_value r) ≡ r
unfolding non_negative_integer
revision-source none safe = refl
revision-source (some n) safe = ground arith

-- Sanitizing keeps a diagnostic whose protocol revision, where it has one, is a safe integer: its
-- code, stage, route and revision are read back from it as they are.
pub sanitize_diagnostic-source_of :
    (d : SanitizedDiagnostic) → IsSafe d.protocol_revision → sanitize_diagnostic (source_of d) ≡ d
unfolding sanitize_diagnostic
sanitize_diagnostic-source_of d safe =
    rw
      (
        code-source d.code,
        stage-source d.stage,
        route-source d.route,
        revision-source d.protocol_revision safe,
      )
      refl

non_negative_integer-IsSafe : (v : Value) → IsSafe (non_negative_integer v)
unfolding non_negative_integer
non_negative_integer-IsSafe (text s) = tt
non_negative_integer-IsSafe other = tt
non_negative_integer-IsSafe (whole n) = elim (Bool-cases (leb n max_safe_integer)) [
  | inl small ↦ rw (small, non_negative_integer) (ground arith)
  | inr large ↦ rw (large, non_negative_integer) tt
]

sanitize_diagnostic-IsSafe : (v : Source) → IsSafe (sanitize_diagnostic v).protocol_revision
unfolding sanitize_diagnostic
sanitize_diagnostic-IsSafe v = elim (Bool-cases v.throws) [
  | inl thrown ↦ rw (thrown, sanitize_diagnostic) tt
  | inr read ↦ rw (read, sanitize_diagnostic) (non_negative_integer-IsSafe v.revision)
]

-- Sanitizing is idempotent on any value: what it returns is left as it is when it is sanitized
-- again.
pub sanitize_diagnostic_idempotent :
    (v : Source) → sanitize_diagnostic (source_of (sanitize_diagnostic v)) ≡ sanitize_diagnostic v
sanitize_diagnostic_idempotent v =
    sanitize_diagnostic-source_of (sanitize_diagnostic v) (sanitize_diagnostic-IsSafe v)

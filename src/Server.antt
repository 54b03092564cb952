-- ===== src/Server.antt =====
-- The HTTP request handler (src/server.ts). What a request brings, and what is answered to the calls
-- that leave the handler, is in an `Exchange`; what other requests do at an `await` is a function on
-- the server's state. The address is parsed by `URL`, so its path is given. The functions of
-- `listen` and `closeCodexhookServer` only call node's server.
pub mod Address
pub mod Body
pub mod Claims
mod Examples
use codexhook.Base.{
  ℕ, ◌&&◌, ◌==◌, String, Bool, true, false, not, Option, none, some, List, [], ◌∷◌, length,
  if◌then◌else◌,
}
use codexhook.Types.{DeliveryMode, WebhookRecord}
use codexhook.Lifecycle.{ServiceLifecycle, DaemonPhase, accepts, enter, release}
use codexhook.RateLimit.{Events, allow}
use codexhook.Registry.{Table, inspect_token, claim_token}
use codexhook.Delivery.{Service, snapshot, submit}
use codexhook.Server.Address.{ends_with, route_token}
use codexhook.Server.Body.{complete, too_large, broken, read_body}

pub record Server : Type 0 where
  pub lifecycle : ServiceLifecycle
  pub table : Table
  pub events : Events
  pub service : Service

pub record Exchange : Type 0 where
  pub method : String
  -- `none` if `URL` throws.
  pub path : Option String
  -- The authenticator's answers; `none` if it throws.
  pub authorizes_health : Option Bool
  pub authorizes : WebhookRecord → Option Bool
  pub task_access : Bool
  pub desktop_access : Bool
  pub declared_length : Option ℕ
  pub chunks : List (List ℕ)
  pub aborted : Bool
  -- `toString("utf8")`.
  pub decode : List ℕ → String
  pub inspect_time : ℕ
  pub allow_time : ℕ
  pub claim_time : ℕ
  pub delivery_id : String
  pub during_authorize : Server → Server
  pub during_body : Server → Server

pub record HealthReport : Type 0 where
  pub available : Bool
  pub desktop_ipc_available : Bool
  pub task_access_available : Bool
  pub queued_threads : ℕ
  pub phase : DaemonPhase
  pub active_requests : ℕ

pub data Reply : Type 0 where
  healthy : HealthReport → Reply
  not_serving : DaemonPhase → Reply
  unauthorized not_found rate_exceeded body_too_large internal_error no_reply : Reply
  accepted : String → String → Reply
  dropped : String → DeliveryMode → Reply

-- The status code, if there is a reply.
abbrev pub status : Reply → Option ℕ
status (healthy report) = some (if report.available then 200 else 503)
status (not_serving _) = some 503
status unauthorized = some 401
status not_found = some 404
status rate_exceeded = some 429
status body_too_large = some 413
status internal_error = some 500
status no_reply = none
status (accepted _ _) = some 202
status (dropped _ _) = some 202

abbrev pub with_service : Server → Table × Service → Server
with_service s (table, service) = record s { table = table; service = service }

unfoldable pub handle_health : Server → Exchange → Reply × Server
handle_health s x =
    let later = x.during_authorize s in
    elim x.authorizes_health [
      | none ↦ (internal_error, later)
      | some false ↦ (unauthorized, later)
      | some true ↦
          let report : HealthReport = record {
            available = accepts later.lifecycle.phase && x.task_access;
            desktop_ipc_available = x.desktop_access;
            task_access_available = x.task_access;
            queued_threads = (snapshot later.service).lanes;
            phase = later.lifecycle.phase;
            active_requests = later.lifecycle.active_requests;
          } in
          (healthy report, later)
    ]

abbrev pub reply_to : WebhookRecord → Option String → Reply
reply_to hook none = dropped hook.id hook.mode
reply_to hook (some delivery_id) = accepted hook.id delivery_id

module _ (token_hash : String → String) (limit window : ℕ) where
  unfoldable pub handle_claim : Server → Exchange → String → String → Reply × Server
  handle_claim s x token text =
      let (claimed, table) = claim_token token_hash s.table token x.claim_time in
      elim claimed [
        | none ↦ (not_found, record s { table = table })
        | some hook ↦
            let (taken, service) = submit s.service hook text x.delivery_id in
            (reply_to hook taken, with_service s (table, service))
      ]

  unfoldable pub handle_body : Server → Exchange → String → Reply × Server
  handle_body s x token =
      let later = x.during_body s in
      elim (read_body x.declared_length x.chunks x.aborted) [
        | too_large ↦ (body_too_large, later)
        | broken ↦ (no_reply, later)
        | complete bytes ↦ handle_claim later x token (x.decode bytes)
      ]

  unfoldable pub handle_hook : Server → Exchange → String → WebhookRecord → Reply × Server
  handle_hook s x token hook =
      let later = x.during_authorize s in
      elim (x.authorizes hook) [
        | none ↦ (internal_error, later)
        | some false ↦ (unauthorized, later)
        | some true ↦
            let (allowed, events) = allow limit window later.events hook.thread_id x.allow_time in
            let counted = record later { events = events } in
            if allowed then handle_body counted x token else (rate_exceeded, counted)
      ]

  unfoldable pub handle_token : Server → Exchange → String → Reply × Server
  handle_token s x token =
      let (inspected, table) = inspect_token token_hash s.table token x.inspect_time in
      let checked = record s { table = table } in
      elim inspected [ none ↦ (not_found, checked) | some hook ↦ handle_hook checked x token hook ]

  unfoldable pub handle_route : Server → Exchange → String → Reply × Server
  handle_route s x path =
      if x.method == "POST"
      then elim (route_token path) [ none ↦ (not_found, s) | some token ↦ handle_token s x token ]
      else (not_found, s)

  -- With the ticket, given back when the response has ended.
  unfoldable pub handle_request : Server → Exchange → String → Reply × Server
  handle_request s x path =
      let (ticket, lifecycle) = enter s.lifecycle in
      elim ticket [
        | none ↦ (not_serving s.lifecycle.phase, s)
        | some i ↦
            let (reply, last) = handle_route (record s { lifecycle = lifecycle }) x path in
            (reply, record last { lifecycle = release i last.lifecycle })
      ]

  unfoldable pub handle : Server → Exchange → Reply × Server
  handle s x = elim x.path [
    | none ↦ (internal_error, s)
    | some path ↦
        if (x.method == "GET") && ends_with path "/healthz"
        then handle_health s x
        else handle_request s x path
  ]

-- ===== src/Ipc/Owners/Request.antt =====
-- The deadline and the target of a request, and the following of a thread
-- (src/transport/desktop-ipc: session-request.ts, session-follow.ts, session-owner-refresh.ts,
-- session-deadline.ts and limits.ts). The clock, the answer of the wait and what the state is then
-- are arguments; other calls during the broadcast of a follow are left out. Times and timeouts are
-- whole milliseconds.
use codexhook.Base.{
  ℕ, ◌+◌, ◌-◌, ◌*◌, String, Bool, not, ◌||◌, Option, none, some, List, [], ltb, leb, ◌⊎◌, inl, inr,
  if◌then◌else◌,
}
use codexhook.Base.Result.{Result, ok, err}
use codexhook.Contracts.Diagnostics.{max_safe_integer}
use codexhook.Ipc.{
  DesktopProtocolFailure, closed, invalid_timeout, owner_unroutable, reconnect_failed,
  request_timeout, task_not_followed, not_written, connect, DesktopProtocolError,
}
use codexhook.Ipc.Wire.{DesktopWireLimits, operation_error}
use codexhook.Ipc.Owners.{
  DesktopThreadOwners, OwnerWaitResult, owner, closed_wait, reset_wait, unroutable_wait, Resolved,
  includes, add, remove, target, drop_owner, invalidate, needs_refresh, begin_refresh,
}

pub record DesktopProtocolSessionOptions : Type 0 where
  pub handshake_timeout_ms : Option ℕ
  pub max_inbound_frame_bytes : Option ℕ
  pub max_outbound_frame_bytes : Option ℕ
  pub max_pending_requests : Option ℕ
  pub max_request_timeout_ms : Option ℕ
  pub min_request_timeout_ms : Option ℕ

pub record SessionLimits : Type 0 where
  pub wire : DesktopWireLimits
  pub handshake_timeout_ms : ℕ

abbrev pub or_default : ℕ → Option ℕ → ℕ
or_default default none = default
or_default default (some n) = n

abbrev pub default_max_request_timeout_ms : ℕ
default_max_request_timeout_ms = 120 * 1000

unfoldable pub session_limits :
    DesktopProtocolSessionOptions → Result DesktopProtocolError SessionLimits
session_limits options =
    let handshake = or_default 5000 options.handshake_timeout_ms in
    if ltb handshake 1 || ltb default_max_request_timeout_ms handshake
    then err (record { failure = invalid_timeout; stage = connect; write_state = not_written })
    else ok (record {
      handshake_timeout_ms = handshake;
      wire = record {
        max_inbound_frame_bytes = or_default (256 * 1024 * 1024) options.max_inbound_frame_bytes;
        max_outbound_frame_bytes = or_default (16 * 1024 * 1024) options.max_outbound_frame_bytes;
        max_pending_requests = or_default 64 options.max_pending_requests;
        max_request_timeout_ms =
            or_default default_max_request_timeout_ms options.max_request_timeout_ms;
        min_request_timeout_ms = or_default 10 options.min_request_timeout_ms;
      };
    })

abbrev pub owner_evidence_timeout_ms : ℕ
owner_evidence_timeout_ms = 1000

abbrev pub max_mutation_timeout_ms : ℕ
max_mutation_timeout_ms = 30 * 1000

abbrev pub min : ℕ → ℕ → ℕ
min a b = if leb a b then a else b

unfoldable pub request_deadline : DesktopWireLimits → ℕ → ℕ → Result DesktopProtocolError ℕ
request_deadline limits timeout_ms now =
    if ltb max_safe_integer timeout_ms || ltb timeout_ms limits.min_request_timeout_ms
    then err (operation_error invalid_timeout not_written)
    else ok (now + min timeout_ms limits.max_request_timeout_ms)

unfoldable pub mutation_deadline : DesktopWireLimits → ℕ → ℕ → Result DesktopProtocolError ℕ
mutation_deadline limits timeout_ms now =
    request_deadline limits (min timeout_ms max_mutation_timeout_ms) now

-- The difference is compared before it is taken.
unfoldable pub remaining_request_timeout : DesktopWireLimits → ℕ → ℕ → Result DesktopProtocolError ℕ
remaining_request_timeout limits deadline now =
    if ltb deadline (now + limits.min_request_timeout_ms)
    then err (operation_error request_timeout not_written)
    else ok (deadline - now)

unfoldable pub reconnect_stage_timeout :
    SessionLimits → Option ℕ → ℕ → Result DesktopProtocolError ℕ
reconnect_stage_timeout limits none now = ok limits.handshake_timeout_ms
reconnect_stage_timeout limits (some deadline) now =
    elim (remaining_request_timeout limits.wire deadline now) [
      | err failure ↦ err failure
      | ok remaining ↦ ok (min limits.handshake_timeout_ms remaining)
    ]

unfoldable pub drop_rejected_owner :
    String → Bool → DesktopThreadOwners → Resolved × DesktopThreadOwners
drop_rejected_owner thread_id is_rejected owners =
    if is_rejected then invalidate thread_id owners else ([], owners)

-- How long `requestTarget` waits for an owner.
unfoldable pub evidence_timeout : DesktopWireLimits → ℕ → ℕ → Result DesktopProtocolError ℕ
evidence_timeout limits deadline now = elim (remaining_request_timeout limits deadline now) [
  | err failure ↦ err failure
  | ok remaining ↦ ok (min owner_evidence_timeout_ms remaining)
]

-- `requestTarget` before it waits: done, or the time to wait.
unfoldable pub immediate_target :
    DesktopWireLimits
    → List String
    → String
    → ℕ
    → Bool
    → ℕ
    → DesktopThreadOwners
    → Result DesktopProtocolError (Option String) ⊎ ℕ
immediate_target limits followed_threads thread_id deadline require_follow now owners =
    if not (includes thread_id followed_threads)
    then (if not require_follow
        then inl (ok none)
        else inl (err (operation_error task_not_followed not_written)))
    else (if not require_follow
        then inl (ok (target thread_id owners))
        else elim (evidence_timeout limits deadline now) [
          | err failure ↦ inl (err failure)
          | ok timeout_ms ↦ inr timeout_ms
        ])

-- The thrown error for an answer without an owner.
abbrev pub target_failure : OwnerWaitResult → DesktopProtocolFailure
target_failure closed_wait = closed
target_failure reset_wait = reconnect_failed
target_failure unroutable_wait = owner_unroutable
target_failure _ = request_timeout

-- `requestTarget` after it has waited.
unfoldable pub awaited_target :
    String
    → OwnerWaitResult
    → DesktopThreadOwners
    → Result DesktopProtocolError (Option String) × DesktopThreadOwners
awaited_target thread_id (owner client) owners = (ok (some client), owners)
awaited_target thread_id answer owners =
    (err (operation_error (target_failure answer) not_written), (invalidate thread_id owners).1)

-- `followDesktopThread` with the error of its broadcast or of the timer, where there is one: the
-- followed threads and the owners then. `added` tells whether the thread was followed before.
unfoldable pub after_follow :
    String
    → Bool
    → Option DesktopProtocolError
    → List String
    → DesktopThreadOwners
    → List String × DesktopThreadOwners
after_follow thread_id added none followed_threads owners = (followed_threads, owners)
after_follow thread_id added (some failure) followed_threads owners =
    if added
    then (remove thread_id followed_threads, drop_owner thread_id owners)
    else (followed_threads, owners)

unfoldable pub follow_desktop_thread :
    String
    → Option DesktopProtocolError
    → List String
    → DesktopThreadOwners
    → Result DesktopProtocolError (Unit {0}) × List String × DesktopThreadOwners
follow_desktop_thread thread_id failure followed_threads owners =
    let (threads, after) =
      after_follow thread_id (not (includes thread_id followed_threads)) failure
        (add thread_id followed_threads) owners in
    (elim failure [ none ↦ ok tt | some thrown ↦ err thrown ], threads, after)

-- `refreshDesktopOwner`, where the thread is followed and wants it; `failure` is that of the follow.
unfoldable pub refresh_desktop_owner :
    DesktopWireLimits
    → List String
    → String
    → ℕ
    → ℕ
    → Option DesktopProtocolError
    → DesktopThreadOwners
    → Result DesktopProtocolError (Unit {0}) × List String × DesktopThreadOwners
refresh_desktop_owner limits followed_threads thread_id deadline now failure owners =
    if not (includes thread_id followed_threads) || not (needs_refresh thread_id owners)
    then (ok tt, followed_threads, owners)
    else elim (remaining_request_timeout limits deadline now) [
      | err thrown ↦ (err thrown, followed_threads, owners)
      | ok timeout_ms ↦
          let (result, threads, after) =
            follow_desktop_thread thread_id failure followed_threads
              (begin_refresh thread_id owners) in
          elim result [
            | ok done ↦ (ok tt, threads, after)
            | err thrown ↦ (
              err (operation_error reconnect_failed not_written),
              threads,
              (invalidate thread_id after).1,
            )
          ]
    ]

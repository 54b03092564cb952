-- ===== src/Desktop/Attachment.antt =====
-- A command to the desktop application: what its answer is read as
-- (src/transport/desktop-task-protocol.ts), its injection (src/transport/desktop-attachment.ts) and
-- what that is reported as (src/transport/desktop-contract.ts). What other calls and events do to
-- the state of the task during a wait is a function on it. The texts of reasons are left out, and so
-- is the evidence in an outcome, which is that of the state after it.
pub mod Told
mod Examples
use codexhook.Base.{
  ◌==◌, String, Bool, true, false, not, ◌&&◌, ◌||◌, Option, none, some, if◌then◌else◌, is_some,
}
use codexhook.Base.Result.{Result, ok, err}
use codexhook.Contracts.{
  desktop, diagnostic, desktop_not_following, submit_desktop, request_rejected, write_ambiguous,
  NotSubmittedReason, pre_submit_failure, task_busy, confirmed_not_submitted, DeliveryOperation,
  RouteSubmissionOutcome,
}
use codexhook.Types.{DeliveryMode}
use codexhook.Desktop.{Turn, StartCommand, SteerCommand, DesktopCommand, start, steer}
use codexhook.Desktop.State.{
  DesktopThreadState, InjectionState, idle, injecting, uncertain, active_turn,
  has_multiple_active_turns, turn_of, set_injection,
}
use codexhook.Desktop.Injection.{
  DesktopProofBaseline, capture_desktop_proof, find_proven_start_turn, proves_desktop_injection,
}
use codexhook.Ipc.{DesktopProtocolError, DesktopWriteState, not_written, unknown_write, written}
use codexhook.Ipc.Adapters.{DesktopKnownRejection, unknown_rejection, ReceiptOutcome, accepted}

-- Accepted with the turn, or rejected: whether nothing was written, and whether it is confirmed
-- that nothing was submitted.
pub data DesktopCommandReply : Type 0 where
  reply_accepted : Option String → DesktopCommandReply
  reply_rejected : Bool → Bool → DesktopCommandReply

abbrev pub is_unknown : DesktopKnownRejection → Bool
is_unknown unknown_rejection = true
is_unknown _ = false

abbrev pub rejection : DesktopKnownRejection → DesktopCommandReply
rejection reason = reply_rejected (not (is_unknown reason)) (not (is_unknown reason))

abbrev pub is_not_written : DesktopWriteState → Bool
is_not_written not_written = true
is_not_written _ = false

-- `inject` of `DesktopIpcProtocol`, from how the request of the session ends; `none` is an error
-- that is no DesktopProtocolError.
unfoldable pub reply_of :
    Result (Option DesktopProtocolError) (ReceiptOutcome (Option String))
    → Result (Option DesktopProtocolError) DesktopCommandReply
reply_of (ok (accepted turn_id)) = ok (reply_accepted turn_id)
reply_of (ok (ReceiptOutcome.rejected reason)) = ok (rejection reason)
reply_of (err none) = err none
reply_of (err (some cause)) =
    if is_not_written cause.write_state then ok (reply_rejected true false) else err (some cause)

pub data DesktopInjectionOutcome : Type 0 where
  is_confirmed : String → Turn → DesktopInjectionOutcome
  is_not_submitted : NotSubmittedReason → DesktopInjectionOutcome
  is_rejected is_ambiguous : DesktopInjectionOutcome

-- The outcome and the state after it.
abbrev pub Injected : Type 0
Injected = DesktopInjectionOutcome × DesktopThreadState

abbrev pub not_submitted : NotSubmittedReason → DesktopThreadState → Injected
not_submitted reason s = (is_not_submitted reason, set_injection idle s)

abbrev pub ambiguous : DesktopThreadState → Injected
ambiguous s = (is_ambiguous, set_injection uncertain s)

abbrev pub rejected : DesktopThreadState → Injected
rejected s = (is_rejected, set_injection InjectionState.rejected s)

abbrev pub is_start : DesktopCommand → Bool
is_start (start command) = true
is_start (steer command) = false

abbrev pub is_the_turn : String → Option Turn → Bool
is_the_turn id none = false
is_the_turn id (some turn) = turn.id == id

-- What `validationFailure` tests after the number of active turns.
abbrev pub is_invalid_for : DesktopCommand → Option Turn → Bool
is_invalid_for (start command) active = is_some active
is_invalid_for (steer command) active =
    not (is_the_turn command.expected_turn_id active) || command.client_user_message_id == ""

unfoldable pub is_invalid : DesktopCommand → DesktopThreadState → Bool
is_invalid command s = has_multiple_active_turns s || is_invalid_for command (active_turn s)

abbrev pub is_task_busy : DesktopCommand → DesktopThreadState → Bool
is_task_busy command s =
    has_multiple_active_turns s || (is_start command && is_some (active_turn s))

abbrev pub proves :
    DesktopCommand → DesktopThreadState → Option String → DesktopProofBaseline → Bool
proves command s none baseline = false
proves command s (some turn_id) baseline = proves_desktop_injection command s turn_id baseline

abbrev pub found_start_turn :
    DesktopCommand → DesktopThreadState → DesktopProofBaseline → Option String
found_start_turn (start command) s baseline = find_proven_start_turn command s baseline
found_start_turn (steer command) s baseline = none

unfoldable pub proven_turn_id :
    DesktopCommand → DesktopThreadState → Option String → DesktopProofBaseline → Option String
proven_turn_id command s turn_id baseline =
    if proves command s turn_id baseline then turn_id else found_start_turn command s baseline

-- The turn of the command, after an accepted reply and after an error.
abbrev pub accepted_turn : DesktopCommand → Option String → Option String
accepted_turn (start command) turn_id = turn_id
accepted_turn (steer command) turn_id = some command.expected_turn_id

-- Whether synchronize succeeds, how the write ends, whether the wait for the proof ends in time,
-- and what happens to the state during each of them.
pub record World : Type 0 where
  pub follows : Bool
  pub during_follow : DesktopThreadState → DesktopThreadState
  pub reply : Result (Option DesktopProtocolError) DesktopCommandReply
  pub during_write : DesktopThreadState → DesktopThreadState
  pub in_time : Bool
  pub during_wait : DesktopThreadState → DesktopThreadState

abbrev pub confirm : String → Option Turn → DesktopThreadState → Injected
confirm turn_id none s = ambiguous s
confirm turn_id (some turn) s =
    (is_confirmed turn_id turn, set_injection InjectionState.confirmed s)

abbrev pub confirm_turn : Option String → DesktopThreadState → Injected
confirm_turn none s = ambiguous s
confirm_turn (some turn_id) s = confirm turn_id (turn_of turn_id s) s

unfoldable pub await_proof :
    World → DesktopCommand → DesktopProofBaseline → Option String → DesktopThreadState → Injected
await_proof world command baseline turn_id s =
    let after = world.during_wait s in
    if not world.in_time
    then ambiguous after
    else confirm_turn (proven_turn_id command after turn_id baseline) after

unfoldable pub after_reply :
    World
    → DesktopCommand
    → DesktopProofBaseline
    → Result (Option DesktopProtocolError) DesktopCommandReply
    → DesktopThreadState
    → Injected
after_reply world command baseline (ok (reply_accepted turn_id)) s =
    await_proof world command baseline (accepted_turn command turn_id) s
after_reply world command baseline (ok (reply_rejected nothing_written confirmed_none)) s =
    if nothing_written
    then not_submitted (if confirmed_none then confirmed_not_submitted else pre_submit_failure) s
    else rejected s
after_reply world command baseline (err none) s =
    await_proof world command baseline (accepted_turn command none) s
after_reply world command baseline (err (some cause)) s =
    if is_not_written cause.write_state
    then not_submitted pre_submit_failure s
    else await_proof world command baseline (accepted_turn command none) s

-- From the state after synchronize.
unfoldable pub inject_following : World → DesktopCommand → DesktopThreadState → Injected
inject_following world command s =
    if is_invalid command s
    then not_submitted (if is_task_busy command s then task_busy else pre_submit_failure) s
    else after_reply world command (capture_desktop_proof command s) world.reply
        (world.during_write (set_injection injecting s))

unfoldable pub inject : World → DesktopCommand → DesktopThreadState → Injected
inject world command s =
    let after = world.during_follow (set_injection idle s) in
    if not world.follows
    then not_submitted pre_submit_failure after
    else inject_following world command after

abbrev pub operation_of : DeliveryMode → DeliveryOperation
operation_of DeliveryMode.queue = DeliveryOperation.start
operation_of DeliveryMode.steer = DeliveryOperation.steer

unfoldable pub route_outcome :
    String → DeliveryMode → DesktopInjectionOutcome → RouteSubmissionOutcome desktop
route_outcome delivery_id mode (is_confirmed turn_id turn) =
    RouteSubmissionOutcome.confirmed delivery_id turn_id (operation_of mode)
route_outcome delivery_id mode (is_not_submitted reason) =
    RouteSubmissionOutcome.not_submitted delivery_id reason
      (diagnostic desktop_not_following submit_desktop desktop)
route_outcome delivery_id mode is_rejected =
    RouteSubmissionOutcome.rejected delivery_id (diagnostic request_rejected submit_desktop desktop)
route_outcome delivery_id mode is_ambiguous =
    RouteSubmissionOutcome.ambiguous delivery_id (diagnostic write_ambiguous submit_desktop desktop)

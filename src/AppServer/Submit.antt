-- ===== src/AppServer/Submit.antt =====
-- A submission to the app server (`localCodexService(...).submit` of src/app-server/local-codex.ts).
-- The client's answers are given; its `startTurn` and `steerTurn` are `mutate`.
pub mod Written
mod Examples
use codexhook.Base.{
  ℕ, ◌==◌, String, Bool, true, false, Option, none, some, List, [], ◌∷◌, keep, if◌then◌else◌,
}
use codexhook.Types.{DeliveryMode, queue, steer}
use codexhook.Contracts.{
  app_server, DeliveryOperation, start, steer as steer_operation, submit_app_server, DiagnosticCode,
  diagnostic, app_server_unavailable, request_rejected, timeout as timeout_code,
  disconnected as disconnected_code, write_ambiguous, NotSubmittedReason,
  unavailable as unavailable_reason, incompatible, pre_submit_failure, RouteSubmissionOutcome,
  confirmed, not_submitted, ambiguous, rejected,
}
use codexhook.Coordinator.Route.{LocalSubmission}
use codexhook.AppServer.Mutation.{
  MutationOperation, turn_start, turn_steer, AmbiguousReason, timeout, disconnected, write_error,
  malformed, interrupted, defect, CanonicalMutationResult, confirmed as confirmed_result,
  rejected as rejected_result, unavailable as unavailable_result, ambiguous as ambiguous_result,
  PeerExits, mutate, may_be_written,
}

pub data ClientState : Type 0 where
  no_client incompatible_client usable_client : ClientState

-- `CanonicalTurn`, as far as a steer looks at it.
pub record CanonicalTurn : Type 0 where
  pub id : String
  pub status : String

-- The parameters of `startTurn` and `steerTurn`: the thread, the fence of a steer, the delivery id
-- and the text.
pub data TurnCall : Type 0 where
  start_turn : String → String → String → TurnCall
  steer_turn : String → String → String → String → TurnCall

abbrev pub operation_of_call : TurnCall → MutationOperation
operation_of_call (start_turn _ _ _) = turn_start
operation_of_call (steer_turn _ _ _ _) = turn_steer

-- `exits` gives the turn's id in a reply; `none` is a defect of the client.
pub record ClientWorld (C : Type 0) : Type 0 where
  pub state : ClientState
  pub reads_task : Bool
  pub history : Option (List CanonicalTurn)
  pub exits : TurnCall → Option (PeerExits C String)

abbrev reason_code : AmbiguousReason → DiagnosticCode
reason_code timeout = timeout_code
reason_code disconnected = disconnected_code
reason_code _ = write_ambiguous

abbrev pub in_progress_turns : List CanonicalTurn → List CanonicalTurn
in_progress_turns turns = keep (λ turn. turn.status == "inProgress") turns

module _ (request : LocalSubmission) where
  -- `unavailableOutcome`.
  abbrev pub unavailable_outcome :
      DiagnosticCode → NotSubmittedReason → RouteSubmissionOutcome app_server
  unavailable_outcome code reason =
      not_submitted request.delivery_id reason (diagnostic code submit_app_server app_server)

  abbrev pub unexpected_mutation_outcome : RouteSubmissionOutcome app_server
  unexpected_mutation_outcome =
      ambiguous request.delivery_id (diagnostic write_ambiguous submit_app_server app_server)

module _ {C : Type 0} (request : LocalSubmission) where
  unfoldable pub mutation_outcome :
      DeliveryOperation → CanonicalMutationResult C String → RouteSubmissionOutcome app_server
  mutation_outcome operation (confirmed_result _ turn_id) =
      confirmed request.delivery_id turn_id operation
  mutation_outcome operation (rejected_result _ _) =
      rejected request.delivery_id (diagnostic request_rejected submit_app_server app_server)
  mutation_outcome operation (unavailable_result _) =
      unavailable_outcome request app_server_unavailable pre_submit_failure
  mutation_outcome operation (ambiguous_result _ reason) =
      ambiguous request.delivery_id (diagnostic (reason_code reason) submit_app_server app_server)

  -- The outcome of the call, and the calls that may have been written.
  unfoldable pub call :
      DeliveryOperation
      → TurnCall
      → ClientWorld C
      → RouteSubmissionOutcome app_server × List TurnCall
  call operation turn w = elim (w.exits turn) [
    | none ↦ (unexpected_mutation_outcome request, turn ∷ [])
    | some peer ↦ (
      mutation_outcome operation (mutate (operation_of_call turn) peer),
      if may_be_written peer then turn ∷ [] else [],
    )
  ]

  unfoldable pub steer_active :
      List CanonicalTurn → ClientWorld C → RouteSubmissionOutcome app_server × List TurnCall
  steer_active (turn ∷ []) w =
      call steer_operation
        (steer_turn request.task.thread_id turn.id request.delivery_id request.message) w
  steer_active _ w = (unavailable_outcome request request_rejected pre_submit_failure, [])

  unfoldable pub submit_queue : ClientWorld C → RouteSubmissionOutcome app_server × List TurnCall
  submit_queue w =
      if w.reads_task
      then call start (start_turn request.task.thread_id request.delivery_id request.message) w
      else (unavailable_outcome request app_server_unavailable pre_submit_failure, [])

  unfoldable pub submit_steer : ClientWorld C → RouteSubmissionOutcome app_server × List TurnCall
  submit_steer w = elim w.history [
    | none ↦ (unavailable_outcome request app_server_unavailable pre_submit_failure, [])
    | some turns ↦ steer_active (in_progress_turns turns) w
  ]

  unfoldable pub submit : ClientWorld C → RouteSubmissionOutcome app_server × List TurnCall
  submit w = elim w.state [
    | no_client ↦ (unavailable_outcome request app_server_unavailable unavailable_reason, [])
    | incompatible_client ↦ (unavailable_outcome request app_server_unavailable incompatible, [])
    | usable_client ↦ elim request.mode [ queue ↦ submit_queue w | steer ↦ submit_steer w ]
  ]

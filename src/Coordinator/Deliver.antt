-- ===== src/Coordinator/Deliver.antt =====
-- A whole delivery (`route`, `reconcile`, `queueDelivery` and `deliver` of
-- src/delivery/coordinator.ts). Each turn of the queue loop has its own world; the deliveries of
-- other fibers change the breakers between the waits.
use Prim.Native.Nat.{max}
use codexhook.Base.{
  ℕ, ◌+◌, ◌-◌, ◌&&◌, String, Bool, true, false, not, Option, none, some, List, [], ◌∷◌, ◌++◌, ltb,
  leb, if◌then◌else◌, ◌==◌,
}
use codexhook.Base.Dict.{get, set, delete, has}
use codexhook.Base.Result.{ok, err}
use codexhook.Types.{DeliveryMode, queue, steer}
use codexhook.Contracts.{
  DeliveryRoute, desktop, app_server, DeliveryOperation, start, steer as steer_operation,
  reconcile_app_server, await_turn, SanitizedDiagnostic, diagnostic, timeout, internal, task_busy,
  confirmed_tag, ambiguous_tag, not_submitted_tag, RouteSubmissionOutcome, not_submitted, ambiguous,
  DeliveryRequest, DeliveryAttempt, DeliveryOutcome, is_ambiguous, is_unavailable, may_fallback,
}
use codexhook.Coordinator.Support.{
  PendingReconciliation, RoutingResult, settled, pending, attempt, confirm, failure_of,
  route_result, EventStream, reconcile_delivery,
}
use codexhook.Coordinator.Watch.{
  await_idle, await_activity_cycle, idle, active, inspection_failed, inspect_idle,
}
use codexhook.Coordinator.Route.{
  DesktopWorld, LocalWorld, Write, DesktopDecision, outcome, retry_idle, is_steer,
  submit_to_desktop, submit_to_local,
}

-- `desktopBreakers`: the delivery that left an unresolved desktop write, by task.
abbrev pub Breakers : Type 0
Breakers = List (String × String)

-- The readings of the clock in `route`, with the answers of the planes.
pub record RouteWorld : Type 0 where
  pub desktop_started : ℕ
  pub desktop_plane : DesktopWorld
  pub desktop_ended : ℕ
  pub before_fallback : ℕ
  pub local_started : ℕ
  pub local_plane : LocalWorld
  pub local_ended : ℕ

pub data GatedResult : Type 0 where
  routed : RoutingResult → GatedResult
  retries : Bool → GatedResult

-- What a step gives: its result, the breakers after it, and its writes.
pub record Routed : Type 0 where
  pub result : GatedResult
  pub breakers : Breakers
  pub writes : List Write

abbrev pub is_ambiguous_outcome : {route : DeliveryRoute} → RouteSubmissionOutcome route → Bool
is_ambiguous_outcome (ambiguous _ _) = true
is_ambiguous_outcome _ = false

abbrev pub is_busy : {route : DeliveryRoute} → RouteSubmissionOutcome route → Bool
is_busy (not_submitted _ task_busy _) = true
is_busy _ = false

-- The reconciliation's events, the clock around it, and what other fibers do before it.
pub record FinishWorld : Type 0 where
  pub stream : EventStream
  pub started_at : ℕ
  pub ended_at : ℕ
  pub others : Breakers → Breakers

pub record Delivered : Type 0 where
  pub result : DeliveryOutcome
  pub breakers : Breakers
  pub writes : List Write

-- One turn of the queue loop.
pub record QueueRound : Type 0 where
  pub now : ℕ
  pub idle_stream : EventStream
  pub others : Breakers → Breakers
  pub inspection : EventStream
  pub route_world : RouteWorld
  pub cycle : EventStream
  pub finish_world : FinishWorld

-- What the gated part of a turn leads to.
pub data Turn : Type 0 where
  done : Delivered → Turn
  again : Breakers → List Write → Turn

module _ (request : DeliveryRequest) (deadline : ℕ) where
  unfoldable pub trip : RouteSubmissionOutcome desktop → Breakers → Breakers
  trip o breakers =
      if is_ambiguous_outcome o
      then set request.task.thread_id request.delivery_id breakers
      else breakers

  unfoldable pub fall_back : DeliveryAttempt → List Write → Breakers → RouteWorld → Routed
  fall_back first writes breakers w =
      let (o, more) = submit_to_local request deadline w.local_plane in
      record {
        result = routed (
            route_result request app_server o
              (first ∷ attempt app_server o w.local_started w.local_ended ∷ []));
        breakers = breakers;
        writes = writes ++ more;
      }

  unfoldable pub after_desktop :
      RouteSubmissionOutcome desktop → List Write → Breakers → RouteWorld → Routed
  after_desktop o writes breakers w =
      let first = attempt desktop o w.desktop_started w.desktop_ended in
      let kept = trip o breakers in
      if may_fallback desktop o && ltb w.before_fallback deadline
      then fall_back first writes kept w
      else (record {
        result = routed (route_result request desktop o (first ∷ []));
        breakers = kept;
        writes = writes;
      })

  unfoldable pub decided : DesktopDecision → List Write → Breakers → RouteWorld → Routed
  decided (retry_idle require_activity) writes breakers w = record {
    result = retries require_activity;
    breakers = breakers;
    writes = writes;
  }
  decided (outcome o) writes breakers w =
      if not (is_steer request.mode) && is_busy o
      then (record { result = retries true; breakers = breakers; writes = writes })
      else after_desktop o writes breakers w

  unfoldable pub route : Breakers → RouteWorld → Routed
  route breakers w =
      let broken = has request.task.thread_id breakers in
      let (decision, writes) = submit_to_desktop request deadline broken w.desktop_plane in
      decided decision writes breakers w

  abbrev pub operation_of : DeliveryMode → DeliveryOperation
  operation_of queue = start
  operation_of steer = steer_operation

  abbrev pub is_own : Option String → Bool
  is_own none = false
  is_own (some delivery_id) = delivery_id == request.delivery_id

  -- `reconcile`, with the clock at its start and end.
  unfoldable pub reconcile :
      Breakers → PendingReconciliation → EventStream → ℕ → ℕ → DeliveryOutcome × Breakers
  reconcile breakers p stream started_at now = elim (reconcile_delivery stream request p.route) [
    | err d ↦
        let last : DeliveryAttempt = record {
          route = p.route;
          stage = reconcile_app_server;
          outcome = ambiguous_tag;
          elapsed_ms = now - started_at;
          diagnostic = some d;
        } in
        (is_ambiguous p.route (failure_of request (p.attempts ++ last ∷ []) d), breakers)
    | ok turn_id ↦
        let last : DeliveryAttempt = record {
          route = p.route;
          stage = reconcile_app_server;
          outcome = confirmed_tag;
          elapsed_ms = now - started_at;
          diagnostic = none;
        } in
        (
          confirm p.route request turn_id (operation_of request.mode) (p.attempts ++ last ∷ []),
          if is_own (get request.task.thread_id breakers)
              then delete request.task.thread_id breakers
              else breakers,
        )
  ]

  unfoldable pub idle_unavailable : SanitizedDiagnostic → DeliveryOutcome
  idle_unavailable d =
      let only : DeliveryAttempt = record {
        route = app_server;
        stage = await_turn;
        outcome = not_submitted_tag;
        elapsed_ms = 0;
        diagnostic = some d;
      } in
      is_unavailable (failure_of request (only ∷ []) d)

  unfoldable pub finish : RoutingResult → Breakers → List Write → FinishWorld → Delivered
  finish (settled o) breakers writes w = record { result = o; breakers = breakers; writes = writes }
  finish (pending p) breakers writes w =
      let (o, kept) = reconcile (w.others breakers) p w.stream w.started_at w.ended_at in
      record { result = o; breakers = kept; writes = writes }

  unfoldable pub give_up : SanitizedDiagnostic → Breakers → List Write → Turn
  give_up d breakers writes =
      done (record { result = idle_unavailable d; breakers = breakers; writes = writes })

  unfoldable pub after_route : Routed → QueueRound → Turn
  after_route r round = elim r.result [
    | routed result ↦ done (finish result r.breakers r.writes round.finish_world)
    | retries false ↦ again r.breakers r.writes
    | retries true ↦ elim (await_activity_cycle round.cycle) [
      | none ↦ again r.breakers r.writes
      | some d ↦ give_up d r.breakers r.writes
    ]
  ]

  unfoldable pub queue_turn : Breakers → QueueRound → Turn
  queue_turn breakers round =
      if leb deadline round.now
      then give_up (diagnostic timeout await_turn app_server) breakers []
      else elim (await_idle round.idle_stream) [
        | some d ↦ give_up d breakers []
        | none ↦
            let current = round.others breakers in
            elim (inspect_idle round.inspection) [
              | inspection_failed d ↦ give_up d current []
              | active ↦ again current []
              | idle ↦ after_route (route current round.route_world) round
            ]
      ]

  unfoldable pub add_writes : List Write → Delivered → Delivered
  add_writes writes d = record d { writes = writes ++ d.writes }

  -- The loop; `none` if it is still running after the rounds given.
  unfoldable pub queue_delivery : Breakers → List QueueRound → Option Delivered
  queue_delivery breakers [] = none
  queue_delivery breakers (round ∷ rounds) = elim (queue_turn breakers round) [
    | done d ↦ some d
    | again kept writes ↦ elim (queue_delivery kept rounds) [
      | none ↦ none
      | some d ↦ some (add_writes writes d)
    ]
  ]

  unfoldable pub steer_delivery : Breakers → RouteWorld → FinishWorld → Delivered
  steer_delivery breakers w f =
      let r = route breakers w in
      elim r.result [
        | routed result ↦ finish result r.breakers r.writes f
        | retries _ ↦ record {
          result = idle_unavailable (diagnostic internal await_turn app_server);
          breakers = r.breakers;
          writes = r.writes;
        }
      ]

-- `deliver`: the deadline, with the clock at the start.
abbrev pub deadline_of : DeliveryRequest → ℕ → ℕ
deadline_of request now = now + max 1 request.turn_timeout

-- What happens around a delivery: the rounds of its queue loop, or its one pass in steer mode.
pub record DeliverWorld : Type 0 where
  pub started_at : ℕ
  pub rounds : List QueueRound
  pub steer_world : RouteWorld
  pub steer_finish : FinishWorld

unfoldable pub deliver : DeliveryRequest → Breakers → DeliverWorld → Option Delivered
deliver request breakers w =
    let deadline = deadline_of request w.started_at in
    elim request.mode [
      | queue ↦ queue_delivery request deadline breakers w.rounds
      | steer ↦ some (steer_delivery request deadline breakers w.steer_world w.steer_finish)
    ]

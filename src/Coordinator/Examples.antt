-- ===== src/Coordinator/Examples.antt =====
-- The coordinator's theorems at concrete deliveries.
use codexhook.Base.{
  ℕ, ◌≡◌, ◌⊎◌, refl, inl, inr, String, Option, none, some, [], ◌∷◌, length, any, find, keep, All,
  arith,
}
use codexhook.Base.Dict.{get, set, delete}
use codexhook.Types.{queue, steer, DeliveryMode}
use codexhook.Contracts.{
  desktop, start, submit_desktop, diagnostic, write_ambiguous, unknown, DeliveryRequest,
  LocalTaskRef, confirmed, is_unavailable, completed, in_progress, LocalTaskEvent, snapshot,
  turn_changed, may_fallback,
}
use codexhook.Contracts.Compatibility.{CompatibleProtocol, desktop_ipc}
use codexhook.Coordinator.Support.{
  PendingReconciliation, pending, failure_of, EventStream, late, unexpected, remaining_wait,
  confirm, route_result, event_turn, first_turn, reconcile_delivery,
}
use codexhook.Coordinator.Watch.{
  await_activity_cycle, await_state, watch, watch_event, track_active, add_active, add_id,
  remove_id, inspect_idle, await_idle,
}
use codexhook.Coordinator.Route.{
  available, idle, active, answers, reports, dies, DesktopWorld, LocalWorld, submit_to_desktop,
  submit_to_local, follow_desktop_task, admit_desktop, write_desktop, desktop_submission,
  admit_local, write_local, local_submission, in_time, desktop_failure, unfollowable,
}
use codexhook.Coordinator.Deliver.{
  after_desktop, decided, fall_back, trip, reconcile, after_route, give_up, Breakers, RouteWorld,
  FinishWorld, QueueRound, Delivered, DeliverWorld, deliver, route, queue_turn, queue_delivery,
  steer_delivery, finish,
}
use codexhook.Coordinator.Routes.{written_routes}
use codexhook.Coordinator.Fence.{Fenced, route-Fenced}
use codexhook.Coordinator.Broken.{IsLocal, route_broken}
use codexhook.Coordinator.Breaker.{BreakerAfter, steer_delivery_breaker}
use codexhook.Coordinator.Progress.{queue_delivery_ends}
use codexhook.Coordinator.Reconciliation.{Observed, Confirms, IsAmbiguous, finish-pending}

abbrev task : LocalTaskRef
task = record { thread_id = "t1"; origin = unknown }

abbrev request_in : DeliveryMode → DeliveryRequest
request_in mode = record {
  task = task;
  delivery_id = "d1";
  message = "done";
  mode = mode;
  idle_timeout = 5000;
  turn_timeout = 60000;
}

abbrev protocol : CompatibleProtocol
protocol = record { plane = desktop_ipc; major = 1; revision = 1; features = [] }

-- An idle task on the desktop plane, whose write dies.
abbrev dying_desktop : DesktopWorld
dying_desktop = record {
  availability = answers (available protocol);
  connect = answers tt;
  follow = answers idle;
  now = 10;
  submit = λ sub. dies;
}

abbrev steered_desktop : DesktopWorld
steered_desktop = record dying_desktop { follow = answers (active "u1") }

abbrev good_local : LocalWorld
good_local = record {
  availability = answers (available protocol);
  now = 20;
  submit = λ sub. reports (confirmed "d1" "u2" start);
}

abbrev planes : DesktopWorld → RouteWorld
planes w = record {
  desktop_started = 5;
  desktop_plane = w;
  desktop_ended = 12;
  before_fallback = 15;
  local_started = 16;
  local_plane = good_local;
  local_ended = 21;
}

abbrev quiet_task : LocalTaskEvent
quiet_task = snapshot (record {
  task = task;
  turns = record { id = "u0"; status = completed; delivery_ids = [] } ∷ [];
})

abbrev quiet_stream : EventStream
quiet_stream = record { events = quiet_task ∷ []; ending = late }

-- The write turns out to have reached the task.
abbrev found : FinishWorld
found = record {
  stream = record {
    events =
        quiet_task
        ∷ turn_changed task (record { id = "u1"; status = in_progress; delivery_ids = "d1" ∷ [] })
        ∷ [];
    ending = late;
  };
  started_at = 30;
  ended_at = 40;
  others = λ b. b;
}

abbrev lost : FinishWorld
lost = record found { stream = quiet_stream }

abbrev round_at : ℕ → QueueRound
round_at now = record {
  now = now;
  idle_stream = quiet_stream;
  others = λ b. b;
  inspection = quiet_stream;
  route_world = planes dying_desktop;
  cycle = quiet_stream;
  finish_world = found;
}

abbrev world : DeliverWorld
world = record {
  started_at = 0;
  rounds = round_at 4 ∷ [];
  steer_world = planes steered_desktop;
  steer_finish = lost;
}

-- The delivery in an option, or an empty one.
abbrev the : Option Delivered → Delivered
the none = record {
  result =
      is_unavailable
        (failure_of (request_in queue) [] (diagnostic write_ambiguous submit_desktop desktop));
  breakers = [];
  writes = [];
}
the (some d) = d

abbrev delivered : Delivered
delivered = the (deliver (request_in queue) [] world)

-- The write died, and the reconciliation found it.
delivered_routes : written_routes delivered.writes ≡ desktop ∷ []
unfolding route after_desktop decided fall_back trip submit_to_desktop submit_to_local
    follow_desktop_task admit_desktop write_desktop desktop_submission admit_local write_local
    local_submission in_time desktop_failure unfollowable route_result confirm unexpected
    remaining_wait reconcile reconcile_delivery first_turn event_turn finish queue_turn after_route
    give_up await_idle await_activity_cycle await_state watch watch_event track_active add_active
    add_id remove_id inspect_idle may_fallback get set delete any find keep deliver queue_delivery
    written_routes
delivered_routes = refl

steered_writes : length (route (request_in steer) 60000 [] (planes steered_desktop)).writes ≡ 1
unfolding route after_desktop decided fall_back trip submit_to_desktop submit_to_local
    follow_desktop_task admit_desktop write_desktop desktop_submission admit_local write_local
    local_submission in_time desktop_failure unfollowable route_result confirm unexpected
    remaining_wait reconcile reconcile_delivery first_turn event_turn finish queue_turn after_route
    give_up await_idle await_activity_cycle await_state watch watch_event track_active add_active
    add_id remove_id inspect_idle may_fallback get set delete any find keep
steered_writes = refl

route-Fenced_example :
    All
      (Fenced (request_in steer) 60000 steered_desktop good_local)
      (route (request_in steer) 60000 [] (planes steered_desktop)).writes
route-Fenced_example = route-Fenced (request_in steer) 60000 [] (planes steered_desktop)

queue_delivery_ends_example :
    (d : Delivered) × (queue_delivery (request_in queue) 60000 [] (round_at 4 ∷ round_at 60000 ∷ [])
      ≡ some d)
queue_delivery_ends_example =
    queue_delivery_ends (request_in queue) 60000 [] (round_at 4 ∷ round_at 60000 ∷ [])
      (inr (inl (ground arith)))

-- A write of an earlier delivery is unresolved.
abbrev broken : Breakers
broken = ("t1", "d0") ∷ []

route_broken_example :
    All IsLocal (route (request_in steer) 60000 broken (planes steered_desktop)).writes
    × ((route (request_in steer) 60000 broken (planes steered_desktop)).breakers ≡ broken)
unfolding get
route_broken_example = route_broken (request_in steer) 60000 broken (planes steered_desktop) refl

abbrev lost_delivery : Delivered
lost_delivery = steer_delivery (request_in steer) 60000 [] (planes steered_desktop) lost

steer_delivery_breaker_example :
    BreakerAfter (request_in steer) 60000 [] lost_delivery.result lost_delivery.breakers
steer_delivery_breaker_example =
    steer_delivery_breaker (request_in steer) 60000 [] (planes steered_desktop) lost (λ c. refl)

abbrev unresolved : PendingReconciliation
unresolved = record {
  route = desktop;
  diagnostic = diagnostic write_ambiguous submit_desktop desktop;
  attempts = [];
}

finish-pending_example :
    (((turn_id : String) × Observed found.stream.events "d1" turn_id
        × Confirms desktop
            (finish (request_in queue) 60000 (pending unresolved) broken [] found).result
            turn_id)
      ⊎ (((turn_id : String) → ¬ Observed found.stream.events "d1" turn_id)
          × IsAmbiguous desktop
              (finish (request_in queue) 60000 (pending unresolved) broken [] found).result))
    × ((finish (request_in queue) 60000 (pending unresolved) broken [] found).writes ≡ [])
finish-pending_example = finish-pending (request_in queue) 60000 unresolved broken [] found

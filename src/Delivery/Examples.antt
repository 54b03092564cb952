-- ===== src/Delivery/Examples.antt =====
-- The delivery service's theorems at concrete runs, and tests.
use mathlib.Core.List.{Memᴰ}
use codexhook.Base.{ℕ, ◌≡◌, refl, none, List, [], ◌∷◌, ◌++◌}
use codexhook.Base.Dict.{get, set, delete}
use codexhook.Compose.{compose_message}
use codexhook.Types.{queue, WebhookRecord}
use codexhook.Delivery.{
  Service, initial, Event, submits, takes, ends, stops, step, run, job_of, enqueue, offer,
  offer_existing, offer_new, offer_queue, submitted, worker_take, take_idle, take_from,
  worker_finish, end_job, after_job, stop_accepting, pending_count, sum_pending, drain,
}
use codexhook.Delivery.Lanes.{IsValid, initial-IsValid, run_lanes-IsValid}
use codexhook.Delivery.Jobs.{HasOwnLanes, accepted_jobs, started_jobs, queued}
use codexhook.Delivery.Order.{run_fifo}
use codexhook.Delivery.Drain.{IsDone, drain-IsDone}

abbrev hook : WebhookRecord
hook = record {
  id = "build-result";
  thread_id = "t1";
  mode = queue;
  prepend_body = "Webhook {hookId}:";
  expires_at = none;
  remaining_deliveries = none;
  created_at = 0;
}

composed : compose_message hook " passed" ≡ "Webhook build-result: passed"
unfolding compose_message
composed = refl

-- Two jobs are accepted, the first runs and ends, and the second is started.
abbrev events : List Event
events =
    submits hook "a" "d1"
    ∷ takes "t1"
    ∷ submits hook "b" "d2"
    ∷ ends "t1"
    ∷ takes "t1"
    ∷ stops
    ∷ submits hook "c" "d3"
    ∷ []

initial-HasOwnLanes : HasOwnLanes initial
unfolding initial get
initial-HasOwnLanes k = tt

events_started :
    started_jobs "t1" (run initial events).0 ≡ job_of hook "a" "d1" ∷ job_of hook "b" "d2" ∷ []
unfolding started_jobs run initial step enqueue offer offer_existing offer_new offer_queue submitted
    worker_take take_idle take_from worker_finish end_job after_job stop_accepting get set delete
    job_of compose_message
events_started = refl

run_lanes-IsValid_example : IsValid (run initial events).1
run_lanes-IsValid_example = run_lanes-IsValid initial events initial-IsValid

run_fifo_example :
    queued "t1" initial ++ accepted_jobs "t1" (run initial events).0
    ≡ started_jobs "t1" (run initial events).0 ++ queued "t1" (run initial events).1
run_fifo_example = run_fifo initial events "t1" initial-IsValid initial-HasOwnLanes

drain-IsDone_example :
    (s : Service) × (now : ℕ) × Memᴰ {A = Service × ℕ} (s, now) ((initial, 5) ∷ []) × IsDone s
unfolding drain pending_count sum_pending initial
drain-IsDone_example = drain-IsDone 10 ((initial, 5) ∷ []) (initial-IsValid, tt) refl

abbrev busy_service : Service
busy_service = (step initial (submits hook "a" "d1")).1

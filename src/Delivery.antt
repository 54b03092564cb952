-- ===== src/Delivery.antt =====
-- The delivery service (src/delivery/delivery.ts): a FIFO lane with one worker for each task in
-- queue mode, and a bounded set of fibers in steer mode. The service's fibers are interleaved by
-- events: a submission, a worker that takes its next job, a job that ends, a stop. What a job does
-- (`runJob`, the coordinator) is not seen here: a job ends when its event comes, in success or in a
-- failure, which `runJob` both handles; a worker that dies of a defect in its job, or is interrupted,
-- is no event. A worker is known
-- by its task, since it is forked with the lane. `submit` is one event: it runs without a
-- suspension between the check of `accepting` and the offer.
pub mod Cases
pub mod Lanes
pub mod Jobs
pub mod Order
pub mod Drain
mod Examples
use codexhook.Base.{
  map, ℕ, zero, suc, ◌+◌, ◌-◌, ◌*◌, String, Bool, true, false, not, ◌||◌, Option, none, some, List,
  [], ◌∷◌, ◌++◌, length, ltb, leb, eqb, if◌then◌else◌, is_some,
}
use codexhook.Base.Dict.{get, set, delete}
use codexhook.Compose.{compose_message}
use codexhook.Types.{DeliveryMode, queue, steer, WebhookRecord, TurnRequest}

abbrev pub max_lanes : ℕ
max_lanes = 1000

abbrev pub lane_capacity : ℕ
lane_capacity = 100

abbrev pub steer_capacity : ℕ
steer_capacity = 100

pub record Job : Type 0 where
  pub hook_id : String
  pub request : TurnRequest

pub record Lane : Type 0 where
  pub jobs : List Job
  pub pending : ℕ

pub record Control : Type 0 where
  pub accepting : Bool
  pub steer_pending : ℕ

-- `workers` has the fibers of `worker` by task: `none` waits in `Queue.take`, `some job` runs the
-- job. `steering` has the fibers that run a steer job.
pub record Service : Type 0 where
  pub lanes : List (String × Lane)
  pub control : Control
  pub workers : List (String × Option Job)
  pub steering : List Job

pub initial : Service
initial = record {
  lanes = [];
  control = record { accepting = true; steer_pending = 0 };
  workers = [];
  steering = [];
}

-- What a fiber does that others can see.
pub data Output : Type 0 where
  accepted dropped started finished : Job → Output
  silent : Output

-- `Queue.offer` on a dropping queue: a full queue refuses the job.
pub offer_queue : List Job → Job → Bool × List Job
offer_queue jobs job =
    if ltb (length jobs) lane_capacity then (true, jobs ++ job ∷ []) else (false, jobs)

pub offer_existing : Service → String → Job → Lane → Bool × Service
offer_existing s thread_id job lane =
    let (taken, jobs) = offer_queue lane.jobs job in
    if taken
    then (
      true,
      record s {
        lanes = set thread_id (record { jobs = jobs; pending = lane.pending + 1 }) s.lanes;
      },
    )
    else (false, s)

-- A new lane: the queue with the job in it, and the fiber that works on it.
pub offer_new : Service → String → Job → Bool × Service
offer_new s thread_id job =
    if leb max_lanes (length s.lanes)
    then (false, s)
    else (let (taken, jobs) = offer_queue [] job in
        if taken
        then (
          true,
          record s {
            lanes = set thread_id (record { jobs = jobs; pending = 1 }) s.lanes;
            workers = set thread_id none s.workers;
          },
        )
        else (false, s))

pub offer : Service → String → Job → Bool × Service
offer s thread_id job = elim (get thread_id s.lanes) [
  | some lane ↦ offer_existing s thread_id job lane
  | none ↦ offer_new s thread_id job
]

pub reserve_steer : Control → Bool × Control
reserve_steer c =
    if not c.accepting || leb steer_capacity c.steer_pending
    then (false, c)
    else (true, record c { steer_pending = c.steer_pending + 1 })

-- Reserve a place and fork the job's fiber.
pub start_steer : Service → Job → Bool × Service
start_steer s job =
    let (reserved, control) = reserve_steer s.control in
    if reserved
    then (true, record s { control = control; steering = s.steering ++ job ∷ [] })
    else (false, s)

abbrev by_mode {ℓ} : {A : Type ℓ} → DeliveryMode → A → A → A
by_mode queue a b = a
by_mode steer a b = b

pub enqueue : Service → Job → Bool × Service
enqueue s job =
    if s.control.accepting
    then by_mode job.request.mode (offer s job.request.thread_id job) (start_steer s job)
    else (false, s)

abbrev half_hour : ℕ
half_hour = 30 * 60 * 1000

pub job_of : WebhookRecord → String → String → Job
job_of hook body delivery_id = record {
  hook_id = hook.id;
  request = record {
    thread_id = hook.thread_id;
    delivery_id = delivery_id;
    message = compose_message hook body;
    mode = hook.mode;
    idle_timeout = half_hour;
    turn_timeout = half_hour;
  };
}

-- `delivery_id` is the random identifier; the result is that of the source's `submit`.
pub submit : Service → WebhookRecord → String → String → Option String × Service
submit s hook body delivery_id =
    let (taken, s') = enqueue s (job_of hook body delivery_id) in
    (if taken then some delivery_id else none, s')

-- `Queue.take` of the worker, once its queue has a job.
pub take_from : Service → String → Lane → List Job → Output × Service
take_from s thread_id lane [] = (silent, s)
take_from s thread_id lane (job ∷ rest) = (
  started job,
  record s {
    lanes = set thread_id (record lane { jobs = rest }) s.lanes;
    workers = set thread_id (some job) s.workers;
  },
)

pub take_idle : Service → String → Option Lane → Output × Service
take_idle s thread_id none = (silent, s)
take_idle s thread_id (some lane) = take_from s thread_id lane lane.jobs

pub worker_take : Service → String → Output × Service
worker_take s thread_id = elim (get thread_id s.workers) [
  | none ↦ (silent, s)
  | some (some _) ↦ (silent, s)
  | some none ↦ take_idle s thread_id (get thread_id s.lanes)
]

-- The update of `lanes` after a job, and whether the worker goes on.
pub after_job : Service → String → Option Lane → Bool × Service
after_job s thread_id none = (false, s)
after_job s thread_id (some lane) =
    let pending = lane.pending - 1 in
    if eqb pending 0
    then (false, record s { lanes = delete thread_id s.lanes })
    else (true, record s { lanes = set thread_id (record lane { pending = pending }) s.lanes })

pub end_job : Service → String → Job → Output × Service
end_job s thread_id job =
    let (continues, s') = after_job s thread_id (get thread_id s.lanes) in
    (
      finished job,
      record s' {
        workers = if continues then set thread_id none s'.workers else delete thread_id s'.workers;
      },
    )

pub worker_finish : Service → String → Output × Service
worker_finish s thread_id = elim (get thread_id s.workers) [
  | none ↦ (silent, s)
  | some none ↦ (silent, s)
  | some (some job) ↦ end_job s thread_id job
]

-- The `i`-th of the jobs, and the others.
pub pick : ℕ → List Job → Option (Job × List Job)
pick i [] = none
pick zero (job ∷ jobs) = some (job, jobs)
pick (suc i) (job ∷ jobs) = elim (pick i jobs) [
  | none ↦ none
  | some (found, others) ↦ some (found, job ∷ others)
]

-- The end of a steer fiber, any of those that run.
pub end_steer : Service → ℕ → Output × Service
end_steer s i = elim (pick i s.steering) [
  | none ↦ (silent, s)
  | some (job, others) ↦ (
    finished job,
    record s {
      control = record (s.control) { steer_pending = s.control.steer_pending - 1 };
      steering = others;
    },
  )
]

pub record DeliverySnapshot : Type 0 where
  pub lanes : ℕ
  pub depths : List (String × ℕ)
  pub steer_depth : ℕ

unfoldable pub snapshot : Service → DeliverySnapshot
snapshot s = record {
  lanes = length s.lanes;
  depths = map (λ (thread_id, lane). (thread_id, lane.pending)) s.lanes;
  steer_depth = s.control.steer_pending;
}

pub stop_accepting : Service → Service
stop_accepting s = record s { control = record (s.control) { accepting = false } }

pub sum_pending : List (String × Lane) → ℕ
sum_pending [] = 0
sum_pending ((_, lane) ∷ lanes) = lane.pending + sum_pending lanes

pub pending_count : Service → ℕ
pending_count s = s.control.steer_pending + sum_pending s.lanes

pub data Event : Type 0 where
  submits : WebhookRecord → String → String → Event
  takes ends : String → Event
  ends_steer : ℕ → Event
  stops : Event

-- The jobs of a submission that the service takes over, in either mode, and those that it drops.
pub submitted : Job → Bool × Service → Output × Service
submitted job (true, s) = (accepted job, s)
submitted job (false, s) = (dropped job, s)

pub step : Service → Event → Output × Service
step s (submits hook body delivery_id) =
    let job = job_of hook body delivery_id in submitted job (enqueue s job)
step s (takes thread_id) = worker_take s thread_id
step s (ends thread_id) = worker_finish s thread_id
step s (ends_steer i) = end_steer s i
step s stops = (silent, stop_accepting s)

pub run : Service → List Event → List Output × Service
run s [] = ([], s)
run s (e ∷ es) = let (out, s') = step s e in let (outs, last) = run s' es in (out ∷ outs, last)

-- `drain`: what its loop reads in each round, the pending count's state and then the clock. `none`
-- is a loop that still sleeps after the last round given.
pub drain : ℕ → List (Service × ℕ) → Option Bool
drain deadline [] = none
drain deadline ((s, now) ∷ rounds) =
    let later = drain deadline rounds in
    if ltb 0 (pending_count s) then (if leb deadline now then some false else later) else some true

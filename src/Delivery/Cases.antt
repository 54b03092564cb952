-- ===== src/Delivery/Cases.antt =====
-- The branches of the delivery service's operations, as equations.
use codexhook.Base.{
  ◌⊎◌, ℕ, zero, suc, ◌+◌, ◌-◌, ◌≤◌, ◌<◌, ◌≡◌, refl, String, true, false, none, some, List, [], ◌∷◌,
  ◌++◌, arith, length, Option-cases, inl, inr,
}
use codexhook.Base.Dict.{get, set, delete, length-set}
use codexhook.Types.{DeliveryMode, queue, steer}
use codexhook.Delivery.{
  finished, Job, Lane, Service, offer_queue, offer_existing, offer_new, offer, reserve_steer,
  start_steer, enqueue, after_job, end_job, pick,
}

-- An offer to a lane appends the job, or is refused by a full queue.
pub offer_existing_room :
    (s : Service) (k : String) (job : Job) (lane : Lane)
    → length lane.jobs < 100
    → offer_existing s k job lane ≡ (
      true,
      record s {
        lanes = set k (record { jobs = lane.jobs ++ job ∷ []; pending = lane.pending + 1 }) s.lanes;
      },
    )
unfolding offer_existing offer_queue
offer_existing_room s k job lane h = ground arith

pub offer_existing_full :
    (s : Service) (k : String) (job : Job) (lane : Lane)
    → 100 ≤ length lane.jobs
    → offer_existing s k job lane ≡ (false, s)
unfolding offer_existing offer_queue
offer_existing_full s k job lane h = ground arith

pub offer_new_room :
    (s : Service) (k : String) (job : Job)
    → length s.lanes < 1000
    → offer_new s k job ≡ (
      true,
      record s {
        lanes = set k (record { jobs = job ∷ []; pending = 1 }) s.lanes;
        workers = set k none s.workers;
      },
    )
unfolding offer_new offer_queue
offer_new_room s k job h = ground arith

pub offer_new_full :
    (s : Service) (k : String) (job : Job) → 1000 ≤ length s.lanes → offer_new s k job ≡ (false, s)
unfolding offer_new
offer_new_full s k job h = ground arith

pub start_steer_room :
    (s : Service) (job : Job)
    → s.control.accepting ≡ true
    → s.control.steer_pending < 100
    → start_steer s job ≡ (
      true,
      record s {
        control = record (s.control) { steer_pending = s.control.steer_pending + 1 };
        steering = s.steering ++ job ∷ [];
      },
    )
unfolding start_steer reserve_steer
start_steer_room s job on h = ground arith

pub start_steer_full :
    (s : Service) (job : Job) → 100 ≤ s.control.steer_pending → start_steer s job ≡ (false, s)
unfolding start_steer reserve_steer
start_steer_full s job h = ground arith

-- The end of a lane's last job removes the lane and its worker.
pub end_job_last :
    (s : Service) (k : String) (job : Job) (lane : Lane)
    → get k s.lanes ≡ some lane
    → lane.pending - 1 ≡ 0
    → end_job s k job
      ≡ (finished job, record s { lanes = delete k s.lanes; workers = delete k s.workers })
unfolding end_job after_job
end_job_last s k job lane e h = rw (e, end_job, after_job) (ground arith)

-- The end of another job lets the worker take the next.
pub end_job_more :
    (s : Service) (k : String) (job : Job) (lane : Lane)
    → get k s.lanes ≡ some lane
    → 0 < lane.pending - 1
    → end_job s k job ≡ (
      finished job,
      record s {
        lanes = set k (record lane { pending = lane.pending - 1 }) s.lanes;
        workers = set k none s.workers;
      },
    )
unfolding end_job after_job
end_job_more s k job lane e h = rw (e, end_job, after_job) (ground arith)

pub length-pick :
    (i : ℕ) (jobs : List Job) (job : Job) (others : List Job)
    → pick i jobs ≡ some (job, others)
    → length jobs ≡ suc (length others)
unfolding pick
length-pick i [] job others e = cc
length-pick zero (j ∷ jobs) job others e = ground arith
length-pick (suc i) (j ∷ jobs) job others e = elim (Option-cases (pick i jobs)) [
  | inl missing ↦ ground arith
  | inr ((found, rest), picked) ↦ ground (arith, length-pick i jobs found rest picked)
]

pub length-set-le :
    (k : String) (lane : Lane) (m : List (String × Lane)) → length (set k lane m) ≤ suc (length m)
length-set-le k lane m = ground (arith, length-set k lane m)

pub length-set-eq :
    (k : String) (lane old : Lane) (m : List (String × Lane))
    → get k m ≡ some old
    → length (set k lane m) ≡ length m
length-set-eq k lane old m e = ground (arith, length-set k lane m)

-- `enqueue` by the state of the service and the mode of the job.
pub enqueue_off :
    (s : Service) (job : Job) → s.control.accepting ≡ false → enqueue s job ≡ (false, s)
unfolding enqueue
enqueue_off s job off = ground arith

pub enqueue_queue :
    (s : Service) (job : Job)
    → s.control.accepting ≡ true
    → job.request.mode ≡ queue
    → enqueue s job ≡ offer s job.request.thread_id job
unfolding enqueue
enqueue_queue s job on m = ground arith

pub enqueue_steer :
    (s : Service) (job : Job)
    → s.control.accepting ≡ true
    → job.request.mode ≡ steer
    → enqueue s job ≡ start_steer s job
unfolding enqueue
enqueue_steer s job on m = ground arith

pub mode-cases : (m : DeliveryMode) → (m ≡ queue) ⊎ (m ≡ steer)
mode-cases queue = inl refl
mode-cases steer = inr refl

-- ===== src/Delivery/Lanes.antt =====
-- The lanes, the workers and the counts of the service (src/delivery/delivery.ts).
use codexhook.Base.{
  ℕ, ◌+◌, ◌-◌, ◌≤◌, ◌<◌, ◌≡◌, refl, ap, String, true, Option, none, some, List, [], ◌∷◌, ◌++◌,
  arith, length, length-append, Option-cases, Bool-cases, inl, inr, eq_iff, ◌==◌,
}
use codexhook.Base.Dict.{get, set, delete, get-set, get-delete, length-delete-le}
use mathlib.Core.Path.{subst}
use native.Mathlib.Decide.{dec_lt}
use codexhook.Delivery.Cases.{
  offer_existing_room, offer_existing_full, offer_new_room, offer_new_full, start_steer_room,
  start_steer_full, end_job_last, end_job_more, length-pick, length-set-le, length-set-eq,
}
use codexhook.Delivery.{
  job_of, Job, Lane, Service, initial, offer_existing, offer_new, offer, start_steer, enqueue,
  take_from, take_idle, worker_take, end_job, worker_finish, pick, end_steer, stop_accepting, Event,
  submits, takes, ends, ends_steer, stops, submitted, step, run,
}

-- 1 for a worker that runs a job.
abbrev pub busy : Option Job → ℕ
busy none = 0
busy (some _) = 1

-- What holds of a task's lane and worker.
abbrev pub Agrees : Option Lane → Option (Option Job) → Type 0
Agrees none none = Unit
Agrees none (some w) = ⊥
Agrees (some lane) none = ⊥
Agrees (some lane) (some w) =
    (lane.pending ≡ length lane.jobs + busy w) × (0 < lane.pending) × (length lane.jobs ≤ 100)

pub record IsValid (s : Service) : Type 0 where
  pub agree : (k : String) → Agrees (get k s.lanes) (get k s.workers)
  pub lanes : length s.lanes ≤ 1000
  pub steering : s.control.steer_pending ≡ length s.steering
  pub steer_bound : s.control.steer_pending ≤ 100

pub initial-IsValid : IsValid initial
unfolding initial get
initial-IsValid = record {
  agree = λ k. tt;
  lanes = omega arith;
  steering = refl;
  steer_bound = omega arith;
}

-- A change of one task's lane and worker to a pair that agrees.
set-agree :
    (lanes : List (String × Lane)) (workers : List (String × Option Job)) (k : String) (lane : Lane)
    (w : Option Job)
    → ((j : String) → Agrees (get j lanes) (get j workers))
    → Agrees (some lane) (some w)
    → (j : String) → Agrees (get j (set k lane lanes)) (get j (set k w workers))
set-agree lanes workers k lane w h new j =
    rw (get-set k j lane lanes, get-set k j w workers)
      (elim (Bool-cases (k == j)) [ inl same ↦ rw same new | inr other ↦ rw other (h j) ])

delete-agree :
    (lanes : List (String × Lane)) (workers : List (String × Option Job)) (k : String)
    → ((j : String) → Agrees (get j lanes) (get j workers))
    → (j : String) → Agrees (get j (delete k lanes)) (get j (delete k workers))
delete-agree lanes workers k h j =
    rw (get-delete k j lanes, get-delete k j workers)
      (elim (Bool-cases (k == j)) [ inl same ↦ rw same tt | inr other ↦ rw other (h j) ])

-- A change of the lane alone, next to the worker that is there.
set-lane-agree :
    (lanes : List (String × Lane)) (workers : List (String × Option Job)) (k : String) (lane : Lane)
    (w : Option Job)
    → ((j : String) → Agrees (get j lanes) (get j workers))
    → get k workers ≡ some w
    → Agrees (some lane) (some w)
    → (j : String) → Agrees (get j (set k lane lanes)) (get j workers)
set-lane-agree lanes workers k lane w h e new j =
    rw (get-set k j lane lanes) (elim (Bool-cases (k == j)) [
      | inl same ↦ rw (same, ← (eq_iff k j).0 same, e) new
      | inr other ↦ rw other (h j)
    ])

has_worker :
    (lane : Lane) (w : Option (Option Job))
    → Agrees (some lane) w
    → (u : Option Job) × (w ≡ some u) × Agrees (some lane) (some u)
has_worker lane none a = absurd a
has_worker lane (some u) a = (u, refl, a)

has_lane :
    (l : Option Lane) (w : Option Job)
    → Agrees l (some w)
    → (lane : Lane) × (l ≡ some lane) × Agrees (some lane) (some w)
has_lane none w a = absurd a
has_lane (some lane) w a = (lane, refl, a)

module _ (s : Service) (v : IsValid s) where
  pub lane_worker :
      (k : String) (lane : Lane)
      → get k s.lanes ≡ some lane
      → (u : Option Job) × (get k s.workers ≡ some u) × Agrees (some lane) (some u)
  lane_worker k lane e =
      has_worker lane (get k s.workers) (subst (λ l. Agrees l (get k s.workers)) e (v.agree k))

  offer_existing-IsValid :
      (k : String) (job : Job) (lane : Lane)
      → get k s.lanes ≡ some lane
      → IsValid (offer_existing s k job lane).1
  offer_existing-IsValid k job lane e = elim (dec_lt (length lane.jobs) 100) [
    | yes room ↦
        let (u, w, a) = lane_worker k lane e in
        rw (offer_existing_room s k job lane room) (record {
          agree =
              set-lane-agree s.lanes s.workers k _ u v.agree w
                (omega (arith, a, length-append lane.jobs (job ∷ [])));
          lanes = omega (
            arith,
            v.lanes,
            length-set-eq k (record { jobs = lane.jobs ++ job ∷ []; pending = lane.pending + 1 })
                lane s.lanes e,
          );
          steering = v.steering;
          steer_bound = v.steer_bound;
        })
    | no full ↦ rw (offer_existing_full s k job lane (omega arith)) v
  ]

  offer_new-IsValid : (k : String) (job : Job) → IsValid (offer_new s k job).1
  offer_new-IsValid k job = elim (dec_lt (length s.lanes) 1000) [
    | yes room ↦ rw (offer_new_room s k job room) (record {
      agree = set-agree s.lanes s.workers k _ none v.agree (omega arith);
      lanes = omega (arith, length-set-le k (record { jobs = job ∷ []; pending = 1 }) s.lanes);
      steering = v.steering;
      steer_bound = v.steer_bound;
    })
    | no full ↦ rw (offer_new_full s k job (omega arith)) v
  ]

  offer-IsValid : (k : String) (job : Job) → IsValid (offer s k job).1
  unfolding offer
  offer-IsValid k job = elim (Option-cases (get k s.lanes)) [
    | inl missing ↦ rw (missing, offer) (offer_new-IsValid k job)
    | inr (lane, e) ↦ rw (e, offer) (offer_existing-IsValid k job lane e)
  ]

  start_steer-IsValid : (job : Job) → s.control.accepting ≡ true → IsValid (start_steer s job).1
  start_steer-IsValid job on = elim (dec_lt s.control.steer_pending 100) [
    | yes room ↦ rw (start_steer_room s job on room) (record {
      agree = v.agree;
      lanes = v.lanes;
      steering = omega (arith, v.steering, length-append s.steering (job ∷ []));
      steer_bound = omega arith;
    })
    | no full ↦ rw (start_steer_full s job (omega arith)) v
  ]

  pub enqueue-IsValid : (job : Job) → IsValid (enqueue s job).1
  unfolding enqueue
  enqueue-IsValid job =
      ground (arith, offer-IsValid job.request.thread_id job, start_steer-IsValid job)

  take_from-IsValid :
      (k : String) (lane : Lane) (jobs : List Job)
      → get k s.lanes ≡ some lane
      → get k s.workers ≡ some none
      → lane.jobs ≡ jobs
      → IsValid (take_from s k lane jobs).1
  unfolding take_from
  take_from-IsValid k lane [] e w j = v
  take_from-IsValid k lane (job ∷ rest) e w j =
      let a =
        subst (Agrees (some lane)) w (subst (λ l. Agrees l (get k s.workers)) e (v.agree k)) in
      record {
        agree = set-agree s.lanes s.workers k _ (some job) v.agree (omega (arith, a, ap length j));
        lanes =
            omega (arith, v.lanes, length-set-eq k (record lane { jobs = rest }) lane s.lanes e);
        steering = v.steering;
        steer_bound = v.steer_bound;
      }

  worker_take-IsValid : (k : String) → IsValid (worker_take s k).1
  unfolding worker_take take_idle
  worker_take-IsValid k = elim (Option-cases (get k s.workers)) [
    | inl gone ↦ rw (gone, worker_take) v
    | inr (some job, busy) ↦ rw (busy, worker_take) v
    | inr (none, idle) ↦ elim (Option-cases (get k s.lanes)) [
      | inl missing ↦ rw (idle, missing, worker_take, take_idle) v
      | inr (lane, e) ↦
          rw (idle, e, worker_take, take_idle) (take_from-IsValid k lane lane.jobs e idle refl)
    ]
  ]

  end_job-IsValid :
      (k : String) (job : Job) (lane : Lane)
      → get k s.lanes ≡ some lane
      → get k s.workers ≡ some (some job)
      → IsValid (end_job s k job).1
  end_job-IsValid k job lane e w =
      let a =
        subst (Agrees (some lane)) w (subst (λ l. Agrees l (get k s.workers)) e (v.agree k)) in
      elim (dec_lt 0 (lane.pending - 1)) [
        | yes more ↦ rw (end_job_more s k job lane e more) (record {
          agree = set-agree s.lanes s.workers k _ none v.agree (omega (arith, a));
          lanes = omega (
            arith,
            v.lanes,
            length-set-eq k (record lane { pending = lane.pending - 1 }) lane s.lanes e,
          );
          steering = v.steering;
          steer_bound = v.steer_bound;
        })
        | no last ↦ rw (end_job_last s k job lane e (omega arith)) (record {
          agree = delete-agree s.lanes s.workers k v.agree;
          lanes = omega (arith, v.lanes, length-delete-le k s.lanes);
          steering = v.steering;
          steer_bound = v.steer_bound;
        })
      ]

  pub worker_lane :
      (k : String) (w : Option Job)
      → get k s.workers ≡ some w
      → (lane : Lane) × (get k s.lanes ≡ some lane) × Agrees (some lane) (some w)
  worker_lane k w e = has_lane (get k s.lanes) w (subst (Agrees (get k s.lanes)) e (v.agree k))

  worker_finish-IsValid : (k : String) → IsValid (worker_finish s k).1
  unfolding worker_finish
  worker_finish-IsValid k = elim (Option-cases (get k s.workers)) [
    | inl gone ↦ rw (gone, worker_finish) v
    | inr (none, idle) ↦ rw (idle, worker_finish) v
    | inr (some job, busy) ↦
        let (lane, e, _) = worker_lane k (some job) busy in
        rw (busy, worker_finish) (end_job-IsValid k job lane e busy)
  ]

  end_steer-IsValid : (i : ℕ) → IsValid (end_steer s i).1
  unfolding end_steer
  end_steer-IsValid i = elim (Option-cases (pick i s.steering)) [
    | inl missing ↦ rw (missing, end_steer) v
    | inr ((job, others), picked) ↦
        let l = length-pick i s.steering job others picked in
        rw (picked, end_steer)
          (record {
            agree = v.agree;
            lanes = v.lanes;
            steering = omega (arith, l, v.steering);
            steer_bound = omega (arith, v.steer_bound);
          })
  ]

  submitted-IsValid : (job : Job) → IsValid (submitted job (enqueue s job)).1
  unfolding submitted
  submitted-IsValid job = ground (arith, enqueue-IsValid job)

  pub step-IsValid : (e : Event) → IsValid (step s e).1
  unfolding step stop_accepting
  step-IsValid (submits hook body delivery_id) = submitted-IsValid (job_of hook body delivery_id)
  step-IsValid (takes k) = worker_take-IsValid k
  step-IsValid (ends k) = worker_finish-IsValid k
  step-IsValid (ends_steer i) = end_steer-IsValid i
  step-IsValid stops = record {
    agree = v.agree;
    lanes = v.lanes;
    steering = v.steering;
    steer_bound = v.steer_bound;
  }

-- In any interleaving from a valid state, such as the initial one: each task has a lane exactly if it
-- has a worker, its count is the number of its queued jobs and of the job that runs, no count is 0,
-- a queue holds at most 100 jobs, there are at most 1000 lanes, and the steer count is the number of
-- running steer jobs and at most 100.
pub run_lanes-IsValid : (s : Service) (es : List Event) → IsValid s → IsValid (run s es).1
unfolding run
run_lanes-IsValid s [] v = v
run_lanes-IsValid s (e ∷ es) v = run_lanes-IsValid (step s e).1 es (step-IsValid s v e)

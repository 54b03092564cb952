-- ===== src/Delivery/Order.antt =====
-- The order of the jobs of a task in queue mode (src/delivery/delivery.ts).
use mathlib.Core.List.{append-nil, append_assoc}
use mathlib.Core.Path.{subst}
use native.Mathlib.Decide.{dec_lt}
use codexhook.Base.{
  ℕ, ◌+◌, ◌-◌, ◌≡◌, refl, String, true, none, some, List, [], ◌∷◌, ◌++◌, arith, length,
  Option-cases, Bool-cases, inl, inr, All, All-append,
}
use codexhook.Base.Dict.{get}
use codexhook.Types.{queue, steer}
use codexhook.Delivery.{
  Job, Lane, Service, Output, accepted, dropped, finished, silent, offer_existing, offer_new, offer,
  start_steer, enqueue, take_from, take_idle, worker_take, end_job, worker_finish, pick, end_steer,
  stop_accepting, Event, submits, takes, ends, ends_steer, stops, submitted, step, run, job_of,
}
use codexhook.Delivery.Cases.{
  offer_existing_room, offer_existing_full, offer_new_room, offer_new_full, enqueue_off,
  enqueue_queue, enqueue_steer, mode-cases, start_steer_room, start_steer_full, end_job_last,
  end_job_more,
}
use codexhook.Delivery.Lanes.{IsValid, worker_lane, step-IsValid}
use codexhook.Delivery.Jobs.{
  accepted_of, started_of, accepted_jobs, started_jobs, jobs_of, queued, HasOwn, HasOwnLanes,
  set-HasOwn, delete-HasOwn, IsFifo, not_for, accept-Moves, start-Moves, queued-set, queued-delete,
  nil_of_length,
}

module _ (s : Service) (own : HasOwnLanes s) where
  -- A step that leaves the queues alone and neither accepts nor starts a queue job.
  idle-IsFifo :
      (out : Output) (lanes : List (String × Lane))
      → ((k : String) → HasOwn k (get k lanes))
      → ((k : String) → jobs_of (get k lanes) ≡ queued k s)
      → ((k : String) → accepted_of k out ≡ [])
      → ((k : String) → started_of k out ≡ [])
      → ((k : String) → HasOwn k (get k lanes))
        × ((k : String)
            → queued k s ++ accepted_of k out ≡ started_of k out ++ jobs_of (get k lanes))
  idle-IsFifo out lanes own' same a b = (own', λ k. rw (a k, b k, same k) (append-nil _))

  still-IsFifo :
      (out : Output)
      → ((k : String) → accepted_of k out ≡ [])
      → ((k : String) → started_of k out ≡ [])
      → IsFifo s (out, s)
  still-IsFifo out a b = idle-IsFifo out s.lanes own (λ k. refl) a b

  offer_existing-IsFifo :
      (job : Job) (lane : Lane)
      → job.request.mode ≡ queue
      → get job.request.thread_id s.lanes ≡ some lane
      → IsFifo s (submitted job (offer_existing s job.request.thread_id job lane))
  unfolding submitted
  offer_existing-IsFifo job lane m e =
      let t = job.request.thread_id in
      let mine = subst (HasOwn t) e (own t) in
      let longer : Lane = record { jobs = lane.jobs ++ job ∷ []; pending = lane.pending + 1 } in
      elim (dec_lt (length lane.jobs) 100) [
        | yes room ↦ rw (offer_existing_room s t job lane room) (
          set-HasOwn t longer s.lanes own (All-append _ lane.jobs (job ∷ []) mine ((refl, m), tt)),
          λ k. accept-Moves s job longer k m (rw e),
        )
        | no full ↦
            rw (offer_existing_full s t job lane (omega arith))
              (still-IsFifo (dropped job) (λ k. refl) (λ k. refl))
      ]

  offer_new-IsFifo :
      (job : Job)
      → job.request.mode ≡ queue
      → get job.request.thread_id s.lanes ≡ none
      → IsFifo s (submitted job (offer_new s job.request.thread_id job))
  unfolding submitted
  offer_new-IsFifo job m e =
      let t = job.request.thread_id in
      let fresh : Lane = record { jobs = job ∷ []; pending = 1 } in
      elim (dec_lt (length s.lanes) 1000) [
        | yes room ↦ rw (offer_new_room s t job room) (
          set-HasOwn t fresh s.lanes own ((refl, m), tt),
          λ k. accept-Moves s job fresh k m (rw e),
        )
        | no full ↦
            rw (offer_new_full s t job (omega arith))
              (still-IsFifo (dropped job) (λ k. refl) (λ k. refl))
      ]

  offer-IsFifo :
      (job : Job)
      → job.request.mode ≡ queue
      → IsFifo s (submitted job (offer s job.request.thread_id job))
  unfolding offer
  offer-IsFifo job m = elim (Option-cases (get job.request.thread_id s.lanes)) [
    | inl missing ↦ rw (missing, offer) (offer_new-IsFifo job m missing)
    | inr (lane, e) ↦ rw (e, offer) (offer_existing-IsFifo job lane m e)
  ]

  steer-IsFifo :
      (job : Job)
      → s.control.accepting ≡ true
      → job.request.mode ≡ steer
      → IsFifo s (submitted job (start_steer s job))
  unfolding submitted
  steer-IsFifo job on m = elim (dec_lt s.control.steer_pending 100) [
    | yes room ↦
        rw (start_steer_room s job on room)
          (idle-IsFifo (accepted job) _ own (λ k. refl) (λ k. not_for k job m) (λ k. refl))
    | no full ↦
        rw (start_steer_full s job (omega arith))
          (still-IsFifo (dropped job) (λ k. refl) (λ k. refl))
  ]

  submit-IsFifo : (job : Job) → IsFifo s (submitted job (enqueue s job))
  unfolding submitted
  submit-IsFifo job = elim (Bool-cases s.control.accepting) [
    | inr off ↦ rw (enqueue_off s job off) (still-IsFifo (dropped job) (λ k. refl) (λ k. refl))
    | inl on ↦ elim (mode-cases job.request.mode) [
      | inl m ↦ rw (enqueue_queue s job on m) (offer-IsFifo job m)
      | inr m ↦ rw (enqueue_steer s job on m) (steer-IsFifo job on m)
    ]
  ]

  take_from-IsFifo :
      (t : String) (lane : Lane) (jobs : List Job)
      → get t s.lanes ≡ some lane
      → lane.jobs ≡ jobs
      → IsFifo s (take_from s t lane jobs)
  unfolding take_from
  take_from-IsFifo t lane [] e j = still-IsFifo silent (λ k. refl) (λ k. refl)
  take_from-IsFifo t lane (job ∷ rest) e j =
      let mine : All (λ (x : Job). (x.request.thread_id ≡ t) × (x.request.mode ≡ queue))
          (job ∷ rest) =
        subst (All (λ x. (x.request.thread_id ≡ t) × (x.request.mode ≡ queue))) j
          (subst (HasOwn t) e (own t)) in
      let shorter : Lane = record { jobs = rest; pending = lane.pending } in
      (
        set-HasOwn t shorter s.lanes own mine.1,
        λ k. start-Moves s t job shorter k mine.0.1 mine.0.0 (rw (e, j)),
      )

  take-IsFifo : (t : String) → IsFifo s (worker_take s t)
  unfolding worker_take take_idle
  take-IsFifo t = elim (Option-cases (get t s.workers)) [
    | inl gone ↦ rw (gone, worker_take) (still-IsFifo silent (λ k. refl) (λ k. refl))
    | inr (some job, busy) ↦ rw (busy, worker_take) (still-IsFifo silent (λ k. refl) (λ k. refl))
    | inr (none, idle) ↦ elim (Option-cases (get t s.lanes)) [
      | inl missing ↦
          rw (idle, missing, worker_take, take_idle) (still-IsFifo silent (λ k. refl) (λ k. refl))
      | inr (lane, e) ↦
          rw (idle, e, worker_take, take_idle) (take_from-IsFifo t lane lane.jobs e refl)
    ]
  ]

  end_steer-IsFifo : (i : ℕ) → IsFifo s (end_steer s i)
  unfolding end_steer
  end_steer-IsFifo i = elim (Option-cases (pick i s.steering)) [
    | inl missing ↦ rw (missing, end_steer) (still-IsFifo silent (λ k. refl) (λ k. refl))
    | inr ((job, others), picked) ↦
        rw (picked, end_steer)
          (idle-IsFifo (finished job) _ own (λ k. refl) (λ k. refl) (λ k. refl))
  ]

  end_job-IsFifo :
      (t : String) (job : Job) (lane : Lane)
      → get t s.lanes ≡ some lane
      → lane.pending ≡ length lane.jobs + 1
      → IsFifo s (end_job s t job)
  end_job-IsFifo t job lane e count = elim (dec_lt 0 (lane.pending - 1)) [
    | yes more ↦
        let fewer : Lane = record { jobs = lane.jobs; pending = lane.pending - 1 } in
        rw (end_job_more s t job lane e more) (
          idle-IsFifo (finished job) _ (set-HasOwn t fewer s.lanes own (subst (HasOwn t) e (own t)))
            (λ k. queued-set s t fewer k (rw e)) (λ k. refl) (λ k. refl))
    | no last ↦
        let empty = nil_of_length lane.jobs (omega arith) in
        rw (end_job_last s t job lane e (omega arith)) (
          idle-IsFifo (finished job) _ (delete-HasOwn t s.lanes own)
            (λ k. queued-delete s t k (rw e empty)) (λ k. refl) (λ k. refl))
  ]

  finish-IsFifo : IsValid s → (t : String) → IsFifo s (worker_finish s t)
  unfolding worker_finish
  finish-IsFifo v t = elim (Option-cases (get t s.workers)) [
    | inl gone ↦ rw (gone, worker_finish) (still-IsFifo silent (λ k. refl) (λ k. refl))
    | inr (none, idle) ↦ rw (idle, worker_finish) (still-IsFifo silent (λ k. refl) (λ k. refl))
    | inr (some job, busy) ↦
        let (lane, e, a) = worker_lane s v t (some job) busy in
        rw (busy, worker_finish) (end_job-IsFifo t job lane e a.0)
  ]

  step-IsFifo : IsValid s → (e : Event) → IsFifo s (step s e)
  unfolding step stop_accepting
  step-IsFifo v (submits hook body delivery_id) = submit-IsFifo (job_of hook body delivery_id)
  step-IsFifo v (takes t) = take-IsFifo t
  step-IsFifo v (ends t) = finish-IsFifo v t
  step-IsFifo v (ends_steer i) = end_steer-IsFifo i
  step-IsFifo v stops = idle-IsFifo silent _ own (λ k. refl) (λ k. refl) (λ k. refl)

-- Queue mode is FIFO for each task and loses no job: in any interleaving of the service's fibers from
-- a valid state whose lanes hold queue jobs of their own task, the jobs of a task that waited at the
-- start, followed by those accepted, are those that its worker started, in the same order, followed
-- by those that still wait.
pub run_fifo :
    (s : Service) (es : List Event) (k : String)
    → IsValid s
    → HasOwnLanes s
    → queued k s ++ accepted_jobs k (run s es).0
      ≡ started_jobs k (run s es).0 ++ queued k (run s es).1
unfolding run accepted_jobs started_jobs
run_fifo s [] k v own = append-nil _
run_fifo s (e ∷ es) k v own =
    let (own', move) = step-IsFifo s own v e in
    let rest = run_fifo (step s e).1 es k (step-IsValid s v e) own' in
    rw (← append_assoc (queued k s), move k, append_assoc, rest, append_assoc)

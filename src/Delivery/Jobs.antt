-- ===== src/Delivery/Jobs.antt =====
-- The jobs of a task: those accepted, those queued and those started
-- (src/delivery/delivery.ts).
use mathlib.Core.List.{append-nil}
use mathlib.Core.Path.{subst}
use codexhook.Base.{
  ◌≡◌, refl, sym, String, Bool, true, false, Option, none, some, List, [], ◌∷◌, ◌++◌, arith, length,
  Bool-cases, inl, inr, eq_iff, ◌==◌, All, ◌&&◌,
}
use codexhook.Base.Dict.{get, set, delete, get-set, get-delete}
use codexhook.Types.{DeliveryMode, queue, steer}
use codexhook.Delivery.{Job, Lane, Service, Output, accepted, started}

abbrev pub is_queue : DeliveryMode → Bool
is_queue queue = true
is_queue steer = false

-- A queue job of the task.
abbrev pub is_for : String → Job → Bool
is_for k job = (job.request.thread_id == k) && is_queue job.request.mode

abbrev pub only {ℓ} : {A : Type ℓ} → Bool → A → List A
only true a = a ∷ []
only false a = []

-- The task's queue jobs that an output accepts, and those that it starts.
abbrev pub accepted_of : String → Output → List Job
accepted_of k (accepted job) = only (is_for k job) job
accepted_of k _ = []

abbrev pub started_of : String → Output → List Job
started_of k (started job) = only (is_for k job) job
started_of k _ = []

unfoldable pub accepted_jobs : String → List Output → List Job
accepted_jobs k [] = []
accepted_jobs k (out ∷ outs) = accepted_of k out ++ accepted_jobs k outs

unfoldable pub started_jobs : String → List Output → List Job
started_jobs k [] = []
started_jobs k (out ∷ outs) = started_of k out ++ started_jobs k outs

abbrev pub jobs_of : Option Lane → List Job
jobs_of none = []
jobs_of (some lane) = lane.jobs

-- The jobs that wait in the task's lane.
abbrev pub queued : String → Service → List Job
queued k s = jobs_of (get k s.lanes)

-- The lane of a task holds queue jobs of that task.
abbrev pub HasOwn : String → Option Lane → Type 0
HasOwn k none = Unit
HasOwn k (some lane) =
    All (λ job. (job.request.thread_id ≡ k) × (job.request.mode ≡ queue)) lane.jobs

abbrev pub HasOwnLanes : Service → Type 0
HasOwnLanes s = (k : String) → HasOwn k (get k s.lanes)

pub set-HasOwn :
    (t : String) (lane : Lane) (lanes : List (String × Lane))
    → ((k : String) → HasOwn k (get k lanes))
    → HasOwn t (some lane)
    → (k : String) → HasOwn k (get k (set t lane lanes))
set-HasOwn t lane lanes h new k = rw (get-set t k lane lanes) (elim (Bool-cases (t == k)) [
  | inl same ↦ rw same (subst (λ j. HasOwn j (some lane)) ((eq_iff t k).0 same) new)
  | inr other ↦ rw other (h k)
])

pub delete-HasOwn :
    (t : String) (lanes : List (String × Lane))
    → ((k : String) → HasOwn k (get k lanes))
    → (k : String) → HasOwn k (get k (delete t lanes))
delete-HasOwn t lanes h k =
    rw (get-delete t k lanes)
      (elim (Bool-cases (t == k)) [ inl same ↦ rw same tt | inr other ↦ rw other (h k) ])

-- One step of the service moves jobs from the accepted to the queued, and from there to the started.
abbrev pub Moves : String → Service → Output × Service → Type 0
Moves k s (out, s') = queued k s ++ accepted_of k out ≡ started_of k out ++ queued k s'

-- A step keeps the lanes each to its task, and is FIFO for every task.
abbrev pub IsFifo : Service → Output × Service → Type 0
IsFifo s r = HasOwnLanes (r.1) × ((k : String) → Moves k s r)

pub is_for_own :
    (k t : String) (job : Job)
    → job.request.mode ≡ queue
    → job.request.thread_id ≡ t
    → is_for k job ≡ (t == k)
is_for_own k t job m own = ground arith

pub not_for : (k : String) (job : Job) → job.request.mode ≡ steer → only (is_for k job) job ≡ []
not_for k job m = ground arith

pub accept-Moves :
    (s : Service) (job : Job) (lane : Lane) (k : String)
    → job.request.mode ≡ queue
    → lane.jobs ≡ queued job.request.thread_id s ++ job ∷ []
    → queued k s ++ only (is_for k job) job
      ≡ jobs_of (get k (set job.request.thread_id lane s.lanes))
accept-Moves s job lane k m jobs =
    let t = job.request.thread_id in
    rw (get-set t k lane s.lanes, is_for_own k t job m refl)
      (elim (Bool-cases (t == k)) [
        | inl same ↦
            rw same
              (subst (λ j. queued j s ++ job ∷ [] ≡ lane.jobs) ((eq_iff t k).0 same) (sym jobs))
        | inr other ↦ rw other (append-nil _)
      ])

pub start-Moves :
    (s : Service) (t : String) (job : Job) (lane : Lane) (k : String)
    → job.request.mode ≡ queue
    → job.request.thread_id ≡ t
    → queued t s ≡ job ∷ lane.jobs
    → queued k s ++ [] ≡ only (is_for k job) job ++ jobs_of (get k (set t lane s.lanes))
start-Moves s t job lane k m own jobs =
    rw (get-set t k lane s.lanes, is_for_own k t job m own)
      (elim (Bool-cases (t == k)) [
        | inl same ↦
            rw (same, append-nil)
              (subst (λ j. queued j s ≡ job ∷ lane.jobs) ((eq_iff t k).0 same) jobs)
        | inr other ↦ rw (other, append-nil) refl
      ])

pub queued-set :
    (s : Service) (t : String) (lane : Lane) (k : String)
    → lane.jobs ≡ queued t s
    → jobs_of (get k (set t lane s.lanes)) ≡ queued k s
queued-set s t lane k jobs = rw (get-set t k lane s.lanes) (elim (Bool-cases (t == k)) [
  | inl same ↦ rw same (subst (λ j. lane.jobs ≡ queued j s) ((eq_iff t k).0 same) jobs)
  | inr other ↦ rw other
])

pub queued-delete :
    (s : Service) (t : String) (k : String)
    → queued t s ≡ []
    → jobs_of (get k (delete t s.lanes)) ≡ queued k s
queued-delete s t k none_left = rw (get-delete t k s.lanes) (elim (Bool-cases (t == k)) [
  | inl same ↦ rw same (subst (λ j. [] ≡ queued j s) ((eq_iff t k).0 same) (sym none_left))
  | inr other ↦ rw other
])

pub nil_of_length : (jobs : List Job) → length jobs ≡ 0 → jobs ≡ []
nil_of_length [] h = refl
nil_of_length (job ∷ jobs) h = absurd (omega arith)

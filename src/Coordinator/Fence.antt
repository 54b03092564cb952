-- ===== src/Coordinator/Fence.antt =====
-- Under which observations and at which times the coordinator hands a message to a plane
-- (src/delivery/coordinator.ts).
use codexhook.Base.{
  ℕ, ◌<◌, ◌≡◌, ◌⊎◌, refl, String, Bool, false, not, none, some, List, ◌∷◌, arith, ltb, Bool-cases,
  inl, inr, ◌&&◌, All, All-append,
}
use codexhook.Base.Result.{ok}
use codexhook.Base.Dict.{has}
use codexhook.Types.{DeliveryMode, queue, steer}
use codexhook.Contracts.{
  LocalTaskHistory, LocalTaskEvent, snapshot, desktop, RouteSubmissionOutcome, DeliveryRequest,
  may_fallback,
}
use codexhook.Coordinator.Support.{EventStream}
use codexhook.Coordinator.Watch.{is_in_progress, idle as inspected_idle}
use codexhook.Coordinator.Route.{
  Activity, idle, active, multiple_active, DesktopWorld, LocalWorld, answers, Write, to_desktop,
  to_local, DesktopSubmission, LocalSubmission, DesktopDecision, outcome, retry_idle, is_steer,
  in_time, follow_desktop_task, admit_desktop, desktop_submission, write_desktop, submit_to_desktop,
  admit_local, local_submission, write_local, submit_to_local,
}
use codexhook.Coordinator.Deliver.{
  Breakers, RouteWorld, fall_back, after_desktop, decided, route, is_busy, Turn, done, again,
}
use codexhook.Coordinator.Cases.{Result-cases}

-- What a desktop submission says, and what was observed when it was sent.
abbrev pub FencedDesktop : DeliveryRequest → ℕ → DesktopWorld → DesktopSubmission → Type 0
FencedDesktop request deadline w sub =
    (sub.task ≡ request.task)
    × (sub.delivery_id ≡ request.delivery_id)
    × (sub.message ≡ request.message)
    × (sub.mode ≡ request.mode)
    × (w.now < deadline)
    × (((request.mode ≡ queue) × (w.follow ≡ answers idle) × (sub.expected_turn_id ≡ none))
        ⊎ ((request.mode ≡ steer)
            × ((turn_id : String) × (w.follow ≡ answers (active turn_id))
                × (sub.expected_turn_id ≡ some turn_id))))

-- What an app-server submission says.
abbrev pub FencedLocal : DeliveryRequest → ℕ → LocalWorld → LocalSubmission → Type 0
FencedLocal request deadline w sub =
    (sub.task ≡ request.task)
    × (sub.delivery_id ≡ request.delivery_id)
    × (sub.message ≡ request.message)
    × (sub.mode ≡ request.mode)
    × (w.now < deadline)

module _ (request : DeliveryRequest) (deadline : ℕ) where
  follow-ok :
      (broken : Bool) (w : DesktopWorld) (activity : Activity)
      → follow_desktop_task request deadline broken w ≡ ok activity
      → (broken ≡ false) × (w.follow ≡ answers activity)
  unfolding follow_desktop_task in_time
  follow-ok broken w activity e = ground arith

  admit-observed :
      (m : DeliveryMode) (activity : Activity) (w : DesktopWorld)
      → request.mode ≡ m
      → admit_desktop request deadline activity w ≡ ok tt
      → ((request.mode ≡ queue) × (activity ≡ idle))
        ⊎ ((request.mode ≡ steer) × ((turn_id : String) × (activity ≡ active turn_id)))
  unfolding admit_desktop
  admit-observed queue idle w m e = inl (m, refl)
  admit-observed queue multiple_active w m e = absurd (ground arith)
  admit-observed queue (active turn_id) w m e = absurd (ground arith)
  admit-observed steer idle w m e = absurd (ground arith)
  admit-observed steer multiple_active w m e = absurd (ground arith)
  admit-observed steer (active turn_id) w m e = inr (m, (turn_id, refl))

  admit-in_time :
      (activity : Activity) (w : DesktopWorld)
      → admit_desktop request deadline activity w ≡ ok tt
      → w.now < deadline
  unfolding admit_desktop
  admit-in_time activity w e = ground arith

  admit_local-ok : (w : LocalWorld) → admit_local request deadline w ≡ ok tt → w.now < deadline
  unfolding admit_local in_time
  admit_local-ok w e = ground arith

  -- The observation that a submission was made on, with the fence that it carries.
  expected-fence :
      (activity : Activity) (w : DesktopWorld)
      → w.follow ≡ answers activity
      → ((request.mode ≡ queue) × (activity ≡ idle))
        ⊎ ((request.mode ≡ steer) × ((turn_id : String) × (activity ≡ active turn_id)))
      → let sub = desktop_submission request deadline activity w.now in
        ((request.mode ≡ queue) × (w.follow ≡ answers idle) × (sub.expected_turn_id ≡ none))
        ⊎ ((request.mode ≡ steer)
            × ((turn_id : String) × (w.follow ≡ answers (active turn_id))
                × (sub.expected_turn_id ≡ some turn_id)))
  unfolding desktop_submission
  expected-fence activity w f (inl (m, same)) = inl (m, ground arith, ground arith)
  expected-fence activity w f (inr (m, (turn_id, same))) =
      inr (m, (turn_id, ground arith, ground arith))

  -- What holds of every submission to either plane.
  abbrev pub Fenced : DesktopWorld → LocalWorld → Write → Type 0
  Fenced dw lw (to_desktop sub _) = FencedDesktop request deadline dw sub
  Fenced dw lw (to_local sub _) = FencedLocal request deadline lw sub

  desktop-Fenced :
      (broken : Bool) (w : DesktopWorld) (lw : LocalWorld)
      → All (Fenced w lw) (submit_to_desktop request deadline broken w).1
  unfolding submit_to_desktop write_desktop desktop_submission
  desktop-Fenced broken w lw = elim (Result-cases (follow_desktop_task request deadline broken w)) [
    | inl (o, e) ↦ rw (e, submit_to_desktop) tt
    | inr (activity, e) ↦ elim (Result-cases (admit_desktop request deadline activity w)) [
      | inl (d, f) ↦ rw (e, f, submit_to_desktop) tt
      | inr (_, f) ↦
          let observed =
            expected-fence activity w (follow-ok broken w activity e).1
              (admit-observed request.mode activity w refl f) in
          rw (e, f, submit_to_desktop)
            ((refl, refl, refl, refl, admit-in_time activity w f, observed), tt)
    ]
  ]

  local-Fenced :
      (dw : DesktopWorld) (w : LocalWorld)
      → All (Fenced dw w) (submit_to_local request deadline w).1
  unfolding submit_to_local write_local local_submission
  local-Fenced dw w = elim (Result-cases (admit_local request deadline w)) [
    | inl (o, e) ↦ rw (e, submit_to_local) tt
    | inr (_, e) ↦ rw (e, submit_to_local) ((refl, refl, refl, refl, admit_local-ok w e), tt)
  ]

  after_desktop-Fenced :
      (o : RouteSubmissionOutcome desktop) (writes : List Write) (breakers : Breakers)
      (w : RouteWorld)
      → All (Fenced w.desktop_plane w.local_plane) writes
      → All
          (Fenced w.desktop_plane w.local_plane)
          (after_desktop request deadline o writes breakers w).writes
  unfolding after_desktop fall_back
  after_desktop-Fenced o writes breakers w h =
      elim (Bool-cases (may_fallback desktop o && ltb w.before_fallback deadline)) [
        | inl falls ↦
            rw falls (All-append _ writes _ h (local-Fenced w.desktop_plane w.local_plane))
        | inr stays ↦ rw stays h
      ]

  decided-Fenced :
      (d : DesktopDecision) (writes : List Write) (breakers : Breakers) (w : RouteWorld)
      → All (Fenced w.desktop_plane w.local_plane) writes
      → All
          (Fenced w.desktop_plane w.local_plane)
          (decided request deadline d writes breakers w).writes
  unfolding decided
  decided-Fenced (retry_idle b) writes breakers w h = h
  decided-Fenced (outcome o) writes breakers w h =
      elim (Bool-cases (not (is_steer request.mode) && is_busy o)) [
        | inl busy ↦ rw busy h
        | inr other ↦ rw other (after_desktop-Fenced o writes breakers w h)
      ]

-- Every submission that a pass over the planes makes carries the request's task, delivery id, message
-- and mode, and is made before the deadline. A desktop submission in queue mode is made only on an
-- observed idle task and carries no fence; in steer mode only on an observed single active turn,
-- with the id of that turn as its fence.
pub route-Fenced :
    (request : DeliveryRequest) (deadline : ℕ) (breakers : Breakers) (w : RouteWorld)
    → All
        (Fenced request deadline w.desktop_plane w.local_plane)
        (route request deadline breakers w).writes
unfolding route
route-Fenced request deadline breakers w = decided-Fenced request deadline _ _ breakers w (
    desktop-Fenced request deadline (has request.task.thread_id breakers) w.desktop_plane
      w.local_plane)

abbrev pub turn_writes : Turn → List Write
turn_writes (done d) = d.writes
turn_writes (again _ writes) = writes

-- The stream begins with a snapshot of the task, in which no turn is in progress.
abbrev pub IsQuiet : EventStream → Type 0
IsQuiet stream =
    (history : LocalTaskHistory) × (rest : List LocalTaskEvent) × (stream.events
      ≡ snapshot history ∷ rest)
    × All (λ turn. is_in_progress turn.status ≡ false) history.turns

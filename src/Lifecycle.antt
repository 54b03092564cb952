-- ===== src/Lifecycle.antt =====
-- The service's lifecycle (src/service/lifecycle.ts). The function that `enter` returns is a ticket,
-- the place of its `released` flag in a list; an idle waiter is the number of its call.
pub mod Requests
pub mod Drain
mod Examples
use codexhook.Base.{
  ℕ, zero, suc, ◌-◌, Bool, true, false, not, Option, none, some, List, [], ◌∷◌, ◌++◌, length, keep,
  any, map, eqb, if◌then◌else◌,
}

pub data DaemonPhase : Type 0 where
  starting is_ready draining is_stopped : DaemonPhase

pub record ServiceLifecycle : Type 0 where
  pub phase : DaemonPhase
  pub active_requests : ℕ
  pub released : List Bool
  pub idle_waiters : List ℕ
  pub answered : List (ℕ × Bool)

abbrev pub new_lifecycle : ServiceLifecycle
new_lifecycle = record {
  phase = starting;
  active_requests = 0;
  released = [];
  idle_waiters = [];
  answered = [];
}

abbrev pub accepts : DaemonPhase → Bool
accepts is_ready = true
accepts _ = false

-- `none` is the thrown error.
unfoldable pub ready : ServiceLifecycle → Option ServiceLifecycle
ready s = elim s.phase [
  | starting ↦ some (record s { phase = is_ready })
  | is_ready ↦ none
  | draining ↦ none
  | is_stopped ↦ none
]

unfoldable pub enter : ServiceLifecycle → Option ℕ × ServiceLifecycle
enter s =
    if accepts s.phase
    then (
      some (length s.released),
      record s { active_requests = suc s.active_requests; released = s.released ++ false ∷ [] },
    )
    else (none, s)

-- Set the flag of a ticket; `none` if it is set, or if no such ticket was given.
unfoldable pub mark : ℕ → List Bool → Option (List Bool)
mark i [] = none
mark zero (true ∷ flags) = none
mark zero (false ∷ flags) = some (true ∷ flags)
mark (suc i) (flag ∷ flags) = elim (mark i flags) [
  | none ↦ none
  | some marked ↦ some (flag ∷ marked)
]

-- The waiters are told once nothing is active.
unfoldable pub tell_idle : ServiceLifecycle → ServiceLifecycle
tell_idle s =
    if eqb s.active_requests 0
    then (record s {
      idle_waiters = [];
      answered = s.answered ++ map (λ id. (id, true)) s.idle_waiters;
    })
    else s

unfoldable pub release : ℕ → ServiceLifecycle → ServiceLifecycle
release ticket s = elim (mark ticket s.released) [
  | none ↦ s
  | some flags ↦ tell_idle (record s { active_requests = s.active_requests - 1; released = flags })
]

unfoldable pub begin_drain : ServiceLifecycle → Bool × ServiceLifecycle
begin_drain s = elim s.phase [
  | starting ↦ (true, record s { phase = draining })
  | is_ready ↦ (true, record s { phase = draining })
  | draining ↦ (false, s)
  | is_stopped ↦ (false, s)
]

unfoldable pub stopped : ServiceLifecycle → ServiceLifecycle
stopped s = record s { phase = is_stopped }

unfoldable pub wait_for_idle : ℕ → ServiceLifecycle → ServiceLifecycle
wait_for_idle id s =
    if eqb s.active_requests 0
    then (record s { answered = s.answered ++ (id, true) ∷ [] })
    else (record s { idle_waiters = s.idle_waiters ++ id ∷ [] })

-- The timer of a waiter; it does nothing once the waiter is settled.
unfoldable pub wait_timeout : ℕ → ServiceLifecycle → ServiceLifecycle
wait_timeout id s =
    if any (λ other. eqb other id) s.idle_waiters
    then (record s {
      idle_waiters = keep (λ other. not (eqb other id)) s.idle_waiters;
      answered = s.answered ++ (id, false) ∷ [];
    })
    else s

pub data Call : Type 0 where
  readies enters begins_drain stops : Call
  releases waits times_out : ℕ → Call

or_kept : Option ServiceLifecycle → ServiceLifecycle → ServiceLifecycle
or_kept none s = s
or_kept (some s') s = s'

unfoldable pub step : ServiceLifecycle → Call → ServiceLifecycle
unfolding or_kept
step s readies = or_kept (ready s) s
step s enters = (enter s).1
step s begins_drain = (begin_drain s).1
step s stops = stopped s
step s (releases ticket) = release ticket s
step s (waits id) = wait_for_idle id s
step s (times_out id) = wait_timeout id s

unfoldable pub run : ServiceLifecycle → List Call → ServiceLifecycle
run s [] = s
run s (c ∷ cs) = run (step s c) cs

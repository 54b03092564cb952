-- ===== src/Lifecycle/Requests.antt =====
-- The count of active requests, the idle waiters and the phases
-- (src/service/lifecycle.ts).
use mathlib.Core.Path.{subst}
use codexhook.Base.{
  ℕ, zero, suc, ◌-◌, ◌≡◌, ◌⊎◌, refl, ap, Bool, true, false, some, List, [], ◌∷◌, ◌++◌, keep, any,
  eqb, arith, Bool-cases, Option-cases, inl, inr,
}
use codexhook.Lifecycle.{
  DaemonPhase, starting, is_ready, draining, is_stopped, ServiceLifecycle, new_lifecycle, accepts,
  ready, enter, mark, tell_idle, release, begin_drain, stopped, wait_for_idle, wait_timeout, Call,
  readies, enters, begins_drain, stops, releases, waits, times_out, step, run, or_kept,
}

-- The tickets not given back.
abbrev pub open_tickets : List Bool → ℕ
open_tickets [] = 0
open_tickets (true ∷ flags) = open_tickets flags
open_tickets (false ∷ flags) = suc (open_tickets flags)

open_tickets-append :
    (flags : List Bool) → open_tickets (flags ++ false ∷ []) ≡ suc (open_tickets flags)
open_tickets-append [] = refl
open_tickets-append (true ∷ flags) = open_tickets-append flags
open_tickets-append (false ∷ flags) = ground (arith, open_tickets-append flags)

open_tickets-cons :
    (flag : Bool) (flags rest : List Bool)
    → open_tickets flags ≡ suc (open_tickets rest)
    → open_tickets (flag ∷ flags) ≡ suc (open_tickets (flag ∷ rest))
open_tickets-cons true flags rest h = h
open_tickets-cons false flags rest h = ap suc h

open_tickets-mark :
    (i : ℕ) (flags marked : List Bool)
    → mark i flags ≡ some marked
    → open_tickets flags ≡ suc (open_tickets marked)
unfolding mark
open_tickets-mark i [] marked h = absurd (cc)
open_tickets-mark zero (true ∷ flags) marked h = absurd (cc)
open_tickets-mark zero (false ∷ flags) marked h = ground arith
open_tickets-mark (suc i) (flag ∷ flags) marked h = elim (Option-cases (mark i flags)) [
  | inl nothing ↦ absurd (ground arith)
  | inr (rest, found) ↦
      let same : flag ∷ rest ≡ marked = ground arith in
      rw (← same) (open_tickets-cons flag flags rest (open_tickets-mark i flags rest found))
]

-- The count is that of the tickets not given back, and nobody waits for an idle service.
pub record IsValid (s : ServiceLifecycle) : Type 0 where
  pub active : s.active_requests ≡ open_tickets s.released
  pub waiting : (s.active_requests ≡ 0) → s.idle_waiters ≡ []

tell_idle-IsValid :
    (s : ServiceLifecycle) → s.active_requests ≡ open_tickets s.released → IsValid (tell_idle s)
unfolding tell_idle
tell_idle-IsValid s h = elim (Bool-cases (eqb s.active_requests 0)) [
  | inl none_left ↦ rw (none_left, tell_idle) (record { active = h; waiting = λ e. refl })
  | inr some_left ↦
      rw (some_left, tell_idle) (record { active = h; waiting = λ e. absurd (ground arith) })
]

release-IsValid : (ticket : ℕ) (s : ServiceLifecycle) → IsValid s → IsValid (release ticket s)
unfolding release
release-IsValid ticket s v = elim (Option-cases (mark ticket s.released)) [
  | inl nothing ↦ rw (nothing, release) v
  | inr (flags, marked) ↦
      let one_less = open_tickets-mark ticket s.released flags marked in
      let active = v.active in
      rw (marked, release)
        (tell_idle-IsValid (record s { active_requests = s.active_requests - 1; released = flags })
          (omega (arith, one_less, active)))
]

enter-IsValid : (s : ServiceLifecycle) → IsValid s → IsValid (enter s).1
unfolding enter
enter-IsValid s v = elim (Bool-cases (accepts s.phase)) [
  | inl accepting ↦
      let active = v.active in
      rw (accepting, enter)
        (record {
          active = omega (arith, open_tickets-append s.released, active);
          waiting = λ e. absurd (ground arith);
        })
  | inr closed ↦ rw (closed, enter) v
]

wait-IsValid : (id : ℕ) (s : ServiceLifecycle) → IsValid s → IsValid (wait_for_idle id s)
unfolding wait_for_idle
wait-IsValid id s v = elim (Bool-cases (eqb s.active_requests 0)) [
  | inl nothing ↦ rw (nothing, wait_for_idle) (record { active = v.active; waiting = v.waiting })
  | inr busy ↦
      rw (busy, wait_for_idle) (record { active = v.active; waiting = λ e. absurd (ground arith) })
]

timeout-IsValid : (id : ℕ) (s : ServiceLifecycle) → IsValid s → IsValid (wait_timeout id s)
unfolding wait_timeout any keep
timeout-IsValid id s v = elim (Bool-cases (any (λ other. eqb other id) s.idle_waiters)) [
  | inl there ↦
      rw (there, wait_timeout) (record { active = v.active; waiting = λ e. rw (v.waiting e) refl })
  | inr absent ↦ rw (absent, wait_timeout) v
]

phase-cases :
    (p : DaemonPhase) → ((p ≡ starting) ⊎ (p ≡ is_ready)) ⊎ ((p ≡ draining) ⊎ (p ≡ is_stopped))
phase-cases starting = inl (inl refl)
phase-cases is_ready = inl (inr refl)
phase-cases draining = inr (inl refl)
phase-cases is_stopped = inr (inr refl)

with_phase-IsValid :
    (s : ServiceLifecycle) (p : DaemonPhase) → IsValid s → IsValid (record s { phase = p })
with_phase-IsValid s p v = record { active = v.active; waiting = v.waiting }

ready-some : (s s' : ServiceLifecycle) → ready s ≡ some s' → record s { phase = is_ready } ≡ s'
unfolding ready
ready-some s s' h = elim (phase-cases s.phase) [
  | inl (inl e) ↦ ground arith
  | inl (inr e) ↦ absurd (ground arith)
  | inr (inl e) ↦ absurd (ground arith)
  | inr (inr e) ↦ absurd (ground arith)
]

ready-IsValid : (s : ServiceLifecycle) → IsValid s → IsValid (or_kept (ready s) s)
unfolding or_kept
ready-IsValid s v = elim (Option-cases (ready s)) [
  | inl thrown ↦ rw thrown v
  | inr (s', e) ↦ rw e (subst IsValid (ready-some s s' e) (with_phase-IsValid s is_ready v))
]

drain-IsValid : (s : ServiceLifecycle) → IsValid s → IsValid (begin_drain s).1
unfolding begin_drain
drain-IsValid s v = elim (phase-cases s.phase) [
  | inl (inl e) ↦ rw (e, begin_drain) (with_phase-IsValid s draining v)
  | inl (inr e) ↦ rw (e, begin_drain) (with_phase-IsValid s draining v)
  | inr (inl e) ↦ rw (e, begin_drain) v
  | inr (inr e) ↦ rw (e, begin_drain) v
]

step-IsValid : (s : ServiceLifecycle) (c : Call) → IsValid s → IsValid (step s c)
unfolding step stopped
step-IsValid s readies v = ready-IsValid s v
step-IsValid s enters v = enter-IsValid s v
step-IsValid s begins_drain v = drain-IsValid s v
step-IsValid s stops v = with_phase-IsValid s is_stopped v
step-IsValid s (releases ticket) v = release-IsValid ticket s v
step-IsValid s (waits id) v = wait-IsValid id s v
step-IsValid s (times_out id) v = timeout-IsValid id s v

run_calls-IsValid : (s : ServiceLifecycle) (cs : List Call) → IsValid s → IsValid (run s cs)
unfolding run
run_calls-IsValid s [] v = v
run_calls-IsValid s (c ∷ cs) v = run_calls-IsValid (step s c) cs (step-IsValid s c v)

-- After any calls on a new lifecycle, however often a ticket is given back, the number of active
-- requests is that of the tickets not given back, and no idle waiter is left when it is 0.
pub new_lifecycle-IsValid : (cs : List Call) → IsValid (run new_lifecycle cs)
new_lifecycle-IsValid cs =
    run_calls-IsValid new_lifecycle cs (record { active = refl; waiting = λ e. refl })

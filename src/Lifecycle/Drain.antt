-- ===== src/Lifecycle/Drain.antt =====
-- Requests after `beginDrain` (src/service/lifecycle.ts).
use codexhook.Base.{◌≡◌, refl, Bool, true, false, none, List, [], ◌∷◌, arith}
use codexhook.Lifecycle.{
  DaemonPhase, draining, is_stopped, ServiceLifecycle, ready, enter, tell_idle, release,
  begin_drain, stopped, wait_for_idle, wait_timeout, Call, readies, enters, begins_drain, stops,
  releases, waits, times_out, step, run, or_kept,
}

abbrev is_closed : DaemonPhase → Bool
is_closed draining = true
is_closed is_stopped = true
is_closed _ = false

step-closed :
    (s : ServiceLifecycle) (c : Call) → is_closed s.phase ≡ true → is_closed (step s c).phase ≡ true
unfolding step or_kept ready enter begin_drain stopped release tell_idle wait_for_idle wait_timeout
step-closed s readies h = ground arith
step-closed s enters h = ground arith
step-closed s begins_drain h = ground arith
step-closed s stops h = refl
step-closed s (releases ticket) h = ground arith
step-closed s (waits id) h = ground arith
step-closed s (times_out id) h = ground arith

run-closed :
    (s : ServiceLifecycle) (cs : List Call)
    → is_closed s.phase ≡ true
    → is_closed (run s cs).phase ≡ true
unfolding run
run-closed s [] h = h
run-closed s (c ∷ cs) h = run-closed (step s c) cs (step-closed s c h)

drains : (s : ServiceLifecycle) → is_closed (begin_drain s).1.phase ≡ true
unfolding begin_drain
drains s = ground arith

refuses : (s : ServiceLifecycle) → is_closed s.phase ≡ true → enter s ≡ (none, s)
unfolding enter
refuses s h = ground arith

-- Once `beginDrain` was called, in whatever phase, `enter` gives no ticket and changes nothing after
-- any further calls.
pub begin_drain-enter :
    (s : ServiceLifecycle) (cs : List Call)
    → let later = run (begin_drain s).1 cs in enter later ≡ (none, later)
begin_drain-enter s cs = refuses _ (run-closed _ cs (drains s))

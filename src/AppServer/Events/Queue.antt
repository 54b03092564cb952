-- ===== src/AppServer/Events/Queue.antt =====
-- The signals that wait (src/app-server/local-events.ts).
use codexhook.Base.{ℕ, ◌+◌, ◌≤◌, Bool, true, false, [], ◌∷◌, arith, length, length-append}
use codexhook.Contracts.{LocalTaskRef}
use codexhook.AppServer.Events.{
  refresh, removed, closed, ClientEvent, client_closed, thread_event, Subscription, observe_method,
  observe,
}

abbrev count : Bool → ℕ
count true = 1
count false = 0

-- As many signals wait at most as flags are set.
abbrev pub IsBounded : Subscription → Type 0
IsBounded s = length s.queue ≤ count s.refresh_queued + (count s.is_removed + count s.is_closed)

-- An event of the client adds a signal only where it sets a flag: never more signals wait than
-- flags are set, so at most one of each kind.
pub observe-IsBounded :
    (task : LocalTaskRef) (event : ClientEvent) (s : Subscription)
    → IsBounded s
    → IsBounded (observe task event s)
unfolding observe observe_method
observe-IsBounded task client_closed s h = ground (arith, length-append s.queue (closed ∷ []))
observe-IsBounded task (thread_event thread_id method) s h =
    ground (arith, length-append s.queue (removed ∷ []), length-append s.queue (refresh ∷ []))

-- ===== src/Ipc/Owners.antt =====
-- `DesktopThreadOwners` (src/transport/desktop-ipc/thread-owners.ts). The functions of a waiter are
-- the number of its call of `wait`; the sets of waiters are in the order of the calls. The timers
-- are calls of `time_out`.
pub mod Request
pub mod Waiting
pub mod Counts
pub mod Answered
mod Examples
use codexhook.Base.{
  ℕ, ◌==◌, String, Bool, true, false, not, ◌&&◌, ◌||◌, Option, none, some, List, [], ◌∷◌, ◌++◌, map,
  keep, any, eqb, if◌then◌else◌,
}
use codexhook.Base.Dict.{get, set, delete, has}
use codexhook.Json.{Members, field, is_the_text}
use codexhook.Desktop.Decoder.{DesktopStreamEnvelope, desktop_stream_envelope}
use codexhook.Ipc.Framing.{routing_id}

pub data OwnerWaitResult : Type 0 where
  owner : String → OwnerWaitResult
  closed_wait reset_wait timeout_wait unroutable_wait : OwnerWaitResult

pub record DesktopThreadOwners : Type 0 where
  pub owners : List (String × String)
  pub unroutable : List String
  pub waiters : List (String × List ℕ)
  pub closed : Bool

abbrev pub new_owners : DesktopThreadOwners
new_owners = record { owners = []; unroutable = []; waiters = []; closed = false }

-- The waiters that are resolved, each with its result.
abbrev pub Resolved : Type 0
Resolved = List (ℕ × OwnerWaitResult)

unfoldable pub includes : String → List String → Bool
includes id ids = any (λ other. other == id) ids

-- `Set.prototype.add` and `delete`.
unfoldable pub add : String → List String → List String
add id ids = if includes id ids then ids else ids ++ id ∷ []

unfoldable pub remove : String → List String → List String
remove id ids = keep (λ other. not (other == id)) ids

abbrev pub answers : OwnerWaitResult → List ℕ → Resolved
answers value pending = map (λ waiter. (waiter, value)) pending

unfoldable pub resolve_thread :
    String → OwnerWaitResult → DesktopThreadOwners → Resolved × DesktopThreadOwners
resolve_thread thread_id value s = elim (get thread_id s.waiters) [
  | none ↦ ([], s)
  | some pending ↦ (answers value pending, record s { waiters = delete thread_id s.waiters })
]

unfoldable pub answer_all : OwnerWaitResult → List (String × List ℕ) → Resolved
answer_all value [] = []
answer_all value ((thread_id, pending) ∷ waiters) =
    answers value pending ++ answer_all value waiters

unfoldable pub resolve_waiters :
    OwnerWaitResult → DesktopThreadOwners → Resolved × DesktopThreadOwners
resolve_waiters value s = (answer_all value s.waiters, record s { waiters = [] })

unfoldable pub drop_owner : String → DesktopThreadOwners → DesktopThreadOwners
drop_owner thread_id s = record s {
  owners = delete thread_id s.owners;
  unroutable = remove thread_id s.unroutable;
}

unfoldable pub invalidate : String → DesktopThreadOwners → Resolved × DesktopThreadOwners
invalidate thread_id s =
    resolve_thread thread_id unroutable_wait
      (record s { owners = delete thread_id s.owners; unroutable = add thread_id s.unroutable })

abbrev pub needs_refresh : String → DesktopThreadOwners → Bool
needs_refresh thread_id s = includes thread_id s.unroutable

unfoldable pub begin_refresh : String → DesktopThreadOwners → DesktopThreadOwners
begin_refresh thread_id s = record s { unroutable = remove thread_id s.unroutable }

unfoldable pub add_all : List String → List String → List String
add_all [] ids = ids
add_all (id ∷ more) ids = add_all more (add id ids)

unfoldable pub reset : List String → DesktopThreadOwners → Resolved × DesktopThreadOwners
reset refresh_threads s =
    resolve_waiters reset_wait (record s { owners = []; unroutable = add_all refresh_threads [] })

unfoldable pub close : DesktopThreadOwners → Resolved × DesktopThreadOwners
close s = resolve_waiters closed_wait (record s { closed = true; owners = []; unroutable = [] })

-- The rest of `observe`, for a thread and the client that the message names.
unfoldable pub observe_source :
    String → Option String → DesktopThreadOwners → Resolved × DesktopThreadOwners
observe_source thread_id source s = if has thread_id s.owners then ([], s) else elim source [
  | none ↦
      resolve_thread thread_id unroutable_wait
        (record s { unroutable = add thread_id s.unroutable })
  | some client ↦ resolve_thread thread_id (owner client) (record s {
    unroutable = remove thread_id s.unroutable;
    owners = set thread_id client s.owners;
  })
]

unfoldable pub observe_stream :
    Option DesktopStreamEnvelope
    → Option String
    → List String
    → DesktopThreadOwners
    → Resolved × DesktopThreadOwners
observe_stream none source followed_threads s = ([], s)
observe_stream (some stream) source followed_threads s =
    if is_the_text "snapshot" (field "type" stream.change)
      && includes stream.thread_id followed_threads
    then observe_source stream.thread_id source s
    else ([], s)

unfoldable pub observe :
    Members → List String → DesktopThreadOwners → Resolved × DesktopThreadOwners
observe message followed_threads s =
    observe_stream (desktop_stream_envelope message) (routing_id (field "sourceClientId" message))
      followed_threads s

abbrev pub target : String → DesktopThreadOwners → Option String
target thread_id s = get thread_id s.owners

abbrev pub or_nobody : Option (List ℕ) → List ℕ
or_nobody none = []
or_nobody (some pending) = pending

unfoldable pub wait : ℕ → String → DesktopThreadOwners → Resolved × DesktopThreadOwners
wait waiter thread_id s = elim (target thread_id s) [
  | some client ↦ ((waiter, owner client) ∷ [], s)
  | none ↦
      if s.closed
      then ((waiter, closed_wait) ∷ [], s)
      else (if includes thread_id s.unroutable then ((waiter, unroutable_wait) ∷ [], s) else (
        [],
        record s {
          waiters = set thread_id (or_nobody (get thread_id s.waiters) ++ waiter ∷ []) s.waiters;
        },
      ))
]

-- The waiters of a thread that stay when one is taken out.
unfoldable pub without_waiter : String → List ℕ → List (String × List ℕ) → List (String × List ℕ)
without_waiter thread_id [] waiters = delete thread_id waiters
without_waiter thread_id (other ∷ pending) waiters = set thread_id (other ∷ pending) waiters

-- The timer of a waiter; it is cleared when the waiter is resolved.
unfoldable pub time_out : ℕ → String → DesktopThreadOwners → Resolved × DesktopThreadOwners
time_out waiter thread_id s =
    let pending = or_nobody (get thread_id s.waiters) in
    if any (λ other. eqb other waiter) pending
    then (
      (waiter, timeout_wait) ∷ [],
      record s {
        waiters =
            without_waiter thread_id (keep (λ other. not (eqb other waiter)) pending) s.waiters;
      },
    )
    else ([], s)

-- A call of a method that changes the state, or a timer.
pub data Call : Type 0 where
  drops invalidates begins_refresh : String → Call
  resets : List String → Call
  closes : Call
  observes : Members → List String → Call
  waits times_out : ℕ → String → Call

unfoldable pub step : Call → DesktopThreadOwners → Resolved × DesktopThreadOwners
step (drops thread_id) s = ([], drop_owner thread_id s)
step (invalidates thread_id) s = invalidate thread_id s
step (begins_refresh thread_id) s = ([], begin_refresh thread_id s)
step (resets refresh_threads) s = reset refresh_threads s
step closes s = close s
step (observes message followed_threads) s = observe message followed_threads s
step (waits waiter thread_id) s = wait waiter thread_id s
step (times_out waiter thread_id) s = time_out waiter thread_id s

-- The waiters that the calls resolve, in their order, and the state after them.
unfoldable pub run : List Call → DesktopThreadOwners → Resolved × DesktopThreadOwners
run [] s = ([], s)
run (call ∷ calls) s =
    let (resolved, after) = step call s in
    let (more, last) = run calls after in (resolved ++ more, last)

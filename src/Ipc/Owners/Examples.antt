-- ===== src/Ipc/Owners/Examples.antt =====
-- The owners of threads at concrete calls.
use codexhook.Base.{◌+◌, ◌≡◌, refl, arith, any, keep, List, [], ◌∷◌}
use codexhook.Base.Dict.{get, set, delete}
use codexhook.Json.{text, object, Members, no_members, member}
use codexhook.Ipc.Owners.{
  Call, invalidates, begins_refresh, resets, closes, observes, waits, times_out, new_owners, run,
  timeout_wait, reset_wait, unroutable_wait, step, wait, invalidate, resolve_thread, begin_refresh,
  reset, resolve_waiters, answer_all, time_out, without_waiter, includes, add, remove, add_all,
}
use codexhook.Ipc.Owners.Counts.{answered, waiting, asked}
use codexhook.Ipc.Owners.Waiting.{IsSettled}
use codexhook.Ipc.Owners.Answered.{new_owners-IsSettled}

abbrev change : Members
change = member "type" (text "snapshot") no_members

abbrev message : Members
message = member "type" (text "broadcast") (
    member "method" (text "thread-stream-state-changed") (
      member "sourceClientId" (text "client-1") (
        member "params"
          (object
            (member "conversationId" (text "task") (member "change" (object change) no_members)))
          no_members)))

abbrev calls : List Call
calls =
    waits 1 "task"
    ∷ waits 2 "other"
    ∷ observes message ("task" ∷ [])
    ∷ invalidates "task"
    ∷ begins_refresh "task"
    ∷ waits 3 "task"
    ∷ times_out 2 "other"
    ∷ resets ("task" ∷ [])
    ∷ closes
    ∷ []

new_owners-IsSettled_example :
    IsSettled (run calls new_owners).1
    × (answered 2 (run calls new_owners).0 + waiting 2 (run calls new_owners).1 ≡ asked 2 calls)
unfolding asked
new_owners-IsSettled_example = new_owners-IsSettled 2 calls (omega arith)

-- The waits end when the thread is found unroutable, at the timer, and at the reset.
answers_in_order :
    (run
      (waits 1 "a"
        ∷ waits 2 "b"
        ∷ invalidates "a"
        ∷ times_out 2 "b"
        ∷ begins_refresh "a"
        ∷ waits 3 "a"
        ∷ resets []
        ∷ [])
      new_owners).0
    ≡ (1, unroutable_wait) ∷ (2, timeout_wait) ∷ (3, reset_wait) ∷ []
unfolding run step wait invalidate resolve_thread begin_refresh reset resolve_waiters answer_all
    time_out without_waiter get set delete includes add remove any keep add_all
answers_in_order = refl

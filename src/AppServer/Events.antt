-- ===== src/AppServer/Events.antt =====
-- The events of a task on the app-server plane (src/app-server/local-events.ts): the queue of signals
-- that the client's events fill, and what the stream gives for one signal after the other.
pub mod Queue
use codexhook.Base.{
  ◌==◌, String, Bool, true, false, not, ◌&&◌, ◌||◌, Option, none, some, List, [], ◌∷◌, ◌++◌,
  flat_map, any, if◌then◌else◌,
}
use codexhook.Base.Dict.{get, set}
use codexhook.Base.Result.{Result, ok, err}
use codexhook.Contracts.{
  TurnStatus, completed, interrupted, failed, in_progress, LocalTurn, LocalTaskRef,
  LocalTaskHistory, LocalTaskEvent, turn_changed, task_removed,
}

pub data Signal : Type 0 where
  refresh removed closed : Signal

abbrev pub state_methods : List String
state_methods =
    "turn/started" ∷ "turn/completed" ∷ "turn/interrupted" ∷ "item/started" ∷ "item/completed"
    ∷ "thread/updated" ∷ []

-- The text is the thread, and the method.
pub data ClientEvent : Type 0 where
  client_closed : ClientEvent
  thread_event : String → String → ClientEvent

pub record Subscription : Type 0 where
  pub queue : List Signal
  pub refresh_queued : Bool
  pub is_removed : Bool
  pub is_closed : Bool

abbrev pub new_subscription : Subscription
new_subscription = record {
  queue = [];
  refresh_queued = false;
  is_removed = false;
  is_closed = false;
}

unfoldable pub observe_method : String → Subscription → Subscription
observe_method method s =
    if method == "thread/deleted"
    then (if s.is_removed
        then s
        else record s { is_removed = true; queue = s.queue ++ removed ∷ [] })
    else (if not s.is_removed
          && (any (λ name. name == method) state_methods && not s.refresh_queued)
        then record s { refresh_queued = true; queue = s.queue ++ refresh ∷ [] }
        else s)

-- The listener that is given to `subscribe`.
unfoldable pub observe : LocalTaskRef → ClientEvent → Subscription → Subscription
observe task client_closed s =
    if s.is_closed then s else record s { is_closed = true; queue = s.queue ++ closed ∷ [] }
observe task (thread_event thread_id method) s =
    if not (thread_id == task.thread_id) || s.is_closed then s else observe_method method s

-- `===` of statuses.
abbrev pub same_status : TurnStatus → TurnStatus → Bool
same_status completed completed = true
same_status interrupted interrupted = true
same_status failed failed = true
same_status in_progress in_progress = true
same_status _ _ = false

unfoldable pub same_ids : List String → List String → Bool
same_ids [] [] = true
same_ids [] (right ∷ rights) = false
same_ids (left ∷ lefts) [] = false
same_ids (left ∷ lefts) (right ∷ rights) = left == right && same_ids lefts rights

unfoldable pub same_turn : LocalTurn → LocalTurn → Bool
same_turn left right =
    left.id == right.id
    && (same_status left.status right.status && same_ids left.delivery_ids right.delivery_ids)

-- `new Map(…)` of the turns by their ids, after the entries of the turns before.
unfoldable pub turns_by_id : List (String × LocalTurn) → List LocalTurn → List (String × LocalTurn)
turns_by_id entries [] = entries
turns_by_id entries (turn ∷ turns) = turns_by_id (set turn.id turn entries) turns

abbrev pub is_changed : Option LocalTurn → LocalTurn → Bool
is_changed none turn = true
is_changed (some prior) turn = not (same_turn prior turn)

unfoldable pub changed_turns : LocalTaskHistory → LocalTaskHistory → List LocalTaskEvent
changed_turns previous next =
    let before = turns_by_id [] previous.turns in
    flat_map
      (λ (turn : LocalTurn).
        if is_changed (get turn.id before) turn then turn_changed next.task turn ∷ [] else [])
      next.turns

-- The events that come out, the history from now on and the subscription.
pub record Taken : Type 0 where
  pub events : List LocalTaskEvent
  pub previous : LocalTaskHistory
  pub subscription : Subscription

module _ {F : Type 0} where
  abbrev pub loaded : LocalTaskHistory → Subscription → Result F LocalTaskHistory → Result F Taken
  loaded previous s (err failure) = err failure
  loaded previous s (ok next) =
      ok (record { events = changed_turns previous next; previous = next; subscription = s })

  -- One signal, which is out of the queue, with what `loadHistory` would answer; `disconnected` is
  -- the failure of a stream whose client has closed.
  unfoldable pub take_signal :
      F
      → LocalTaskRef
      → Result F LocalTaskHistory
      → Signal
      → LocalTaskHistory
      → Subscription
      → Result F Taken
  take_signal disconnected task history closed previous s = err disconnected
  take_signal disconnected task history removed previous s =
      ok (record { events = task_removed task ∷ []; previous = previous; subscription = s })
  take_signal disconnected task history refresh previous s =
      let seen = record s { refresh_queued = false } in
      if s.is_removed || s.is_closed
      then ok (record { events = []; previous = previous; subscription = seen })
      else loaded previous seen history

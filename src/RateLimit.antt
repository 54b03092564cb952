-- ===== src/RateLimit.antt =====
-- The rate limit of a task's deliveries (src/rate-limit.ts). A timestamp `t` is within the window at
-- `now` if `now < t + window`, which is the source's `timestamp > now - windowMs` without a negative
-- number.
pub mod Window
mod Examples
use codexhook.Base.{
  ℕ, ◌+◌, ◌*◌, ◌==◌, ◌&&◌, String, Bool, true, false, Option, none, some, List, [], ◌∷◌, ◌++◌,
  length, keep, ltb, leb, if◌then◌else◌,
}
use codexhook.Base.Dict.{get, set}

-- `events`: the times of the deliveries of each task.
abbrev pub Events : Type 0
Events = List (String × List ℕ)

abbrev pub default_limit : ℕ
default_limit = 10

abbrev pub default_window : ℕ
default_window = 60 * 1000

module _ (limit window : ℕ) where
  abbrev pub is_recent : ℕ → ℕ → Bool
  is_recent now timestamp = ltb now (timestamp + window)

  abbrev pub recent_of : ℕ → List ℕ → List ℕ
  recent_of now timestamps = keep (is_recent now) timestamps

  abbrev pub is_empty : List ℕ → Bool
  is_empty [] = true
  is_empty (_ ∷ _) = false

  -- The loop over the map: what is too old goes, and so does a task with nothing left.
  unfoldable pub forget : ℕ → Events → Events
  forget now [] = []
  forget now ((id, timestamps) ∷ events) =
      let rest = forget now events in
      if is_empty (recent_of now timestamps) then rest else (id, recent_of now timestamps) ∷ rest

  abbrev pub or_empty : Option (List ℕ) → List ℕ
  or_empty none = []
  or_empty (some timestamps) = timestamps

  unfoldable pub allow : Events → String → ℕ → Bool × Events
  allow events thread_id now =
      let events = forget now events in
      let recent = recent_of now (or_empty (get thread_id events)) in
      if leb limit (length recent)
      then (false, set thread_id recent events)
      else (true, set thread_id (recent ++ now ∷ []) events)

  -- The answers to a sequence of calls.
  unfoldable pub answers : Events → List (String × ℕ) → List Bool
  answers events [] = []
  answers events ((thread_id, now) ∷ calls) =
      let (answer, events) = allow events thread_id now in answer ∷ answers events calls

  -- The limit in terms of all deliveries allowed before: how many of the task are within the window.
  unfoldable pub count : String → ℕ → List (String × ℕ) → ℕ
  count thread_id now [] = 0
  count thread_id now ((id, t) ∷ log) =
      if (id == thread_id) && is_recent now t
      then 1 + count thread_id now log
      else count thread_id now log

  unfoldable pub expected : List (String × ℕ) → List (String × ℕ) → List Bool
  expected log [] = []
  expected log ((thread_id, now) ∷ calls) =
      if leb limit (count thread_id now log)
      then false ∷ expected log calls
      else true ∷ expected ((thread_id, now) ∷ log) calls

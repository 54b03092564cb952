-- ===== src/Lifecycle/Examples.antt =====
-- The lifecycle's theorems at concrete calls.
use codexhook.Base.{◌≡◌, none, List, [], ◌∷◌}
use codexhook.Lifecycle.{
  new_lifecycle, Call, readies, enters, releases, waits, run, enter, begin_drain,
}
use codexhook.Lifecycle.Requests.{IsValid, new_lifecycle-IsValid}
use codexhook.Lifecycle.Drain.{begin_drain-enter}

-- The second ticket is given back twice.
abbrev calls : List Call
calls = readies ∷ enters ∷ enters ∷ releases 1 ∷ releases 1 ∷ waits 7 ∷ []

new_lifecycle-IsValid_example : IsValid (run new_lifecycle calls)
new_lifecycle-IsValid_example = new_lifecycle-IsValid calls

begin_drain-enter_example :
    enter (run (begin_drain (run new_lifecycle calls)).1 (readies ∷ releases 0 ∷ []))
    ≡ (none, run (begin_drain (run new_lifecycle calls)).1 (readies ∷ releases 0 ∷ []))
begin_drain-enter_example = begin_drain-enter (run new_lifecycle calls) (readies ∷ releases 0 ∷ [])

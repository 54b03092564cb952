-- ===== src/Journal/Examples.antt =====
-- The journal at concrete calls.
use codexhook.Base.{ℕ, ◌*◌, ◌≡◌, refl, true, false, some, List, [], ◌∷◌, any}
use codexhook.Contracts.{diagnostic, disconnected, submit_desktop, desktop}
use codexhook.Json.{object, no_members}
use codexhook.Journal.Records.{DiagnosticRecord, recorded_diagnostic}
use codexhook.Journal.{Faults, new_journal, max, or_default, append, run}
use codexhook.Journal.Lines.{has_newline}
use codexhook.Journal.Bounds.{IsWithin, append-IsWithin}

abbrev quiet : Faults
quiet = record {
  directory = false;
  usage = false;
  appending = false;
  reading = false;
  writing = false;
}

abbrev unwritable : Faults
unwritable = record {
  directory = false;
  usage = false;
  appending = false;
  reading = false;
  writing = true;
}

abbrev line : List ℕ
line = 123 ∷ 125 ∷ []

abbrev closed : DiagnosticRecord
closed =
    recorded_diagnostic "2026-01-01T00:00:00.000Z" (diagnostic disconnected submit_desktop desktop)

abbrev crowded : List ℕ
crowded = 49 ∷ 10 ∷ 50 ∷ 10 ∷ 10 ∷ 51 ∷ 10 ∷ 52 ∷ 10 ∷ 53 ∷ 10 ∷ 54 ∷ 10 ∷ 55 ∷ 10 ∷ 56 ∷ 10 ∷ []

line_single : has_newline line ≡ false
unfolding any
line_single = refl

append-IsWithin_example :
    IsWithin (max 1024 (or_default (256 * 1024) (some 16))) (max 8 (or_default 512 (some 4))) (
      append
        (λ bytes. some (object no_members))
        (λ next. line)
        quiet
        closed
        (run
          (λ bytes. some (object no_members))
          (λ next. line)
          ((unwritable, closed) ∷ (quiet, closed) ∷ [])
          (new_journal (some crowded) (some 16) (some 4))))
append-IsWithin_example =
    append-IsWithin (λ bytes. some (object no_members)) (λ next. line) (λ next. line_single)
      (some crowded) (some 16) (some 4) ((unwritable, closed) ∷ (quiet, closed) ∷ []) quiet closed
      refl

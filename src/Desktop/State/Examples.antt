-- ===== src/Desktop/State/Examples.antt =====
-- The theorems on `DesktopThreadState` at concrete changes.
use codexhook.Base.{◌≡◌, arith, refl, some, List, [], ◌∷◌}
use codexhook.Contracts.{in_progress, completed}
use codexhook.Desktop.{
  Turn, null, whole, Snapshot, Patches, snapshot, patches, upsert, bind, status_delta, remove,
}
use codexhook.Desktop.State.{
  DesktopThreadState, new_state, Call, begins_connecting, begins_following, begins_resync,
  disconnects, applies, run, apply, apply_change, apply_snapshot, valid_revision, is_stale,
  connected, following, synchronized, uncertain,
}
use codexhook.Desktop.State.Consistent.{IsConsistent}
use codexhook.Desktop.State.Deltas.{new_state-IsConsistent}
use codexhook.Desktop.State.Revision.{Outcome, apply-Outcome, run-IsFrom, IsFrom}
use codexhook.Desktop.State.Replicas.{apply_all, snapshot_converges}

abbrev first : Turn
first = record { id = "turn-1"; status = completed; error = null }

abbrev second : Turn
second = record { id = "turn-2"; status = in_progress; error = null }

abbrev seen : Snapshot
seen = record {
  revision = whole 4;
  entities = record { key = "a"; turn = first } ∷ [];
  delivery_ids = "delivery-1" ∷ [];
  delivery_bindings = some (record { key = "a"; delivery_id = "delivery-1" } ∷ []);
}

-- The entity gets another turn, so the first one and its delivery go.
abbrev moved : Patches
moved = record {
  base_revision = whole 4;
  revision = whole 6;
  deltas =
      upsert (record { key = "a"; turn = second })
      ∷ status_delta "a" completed
      ∷ bind "b" "turn-3"
      ∷ remove "c"
      ∷ [];
  delivery_ids = "delivery-2" ∷ [];
  delivery_bindings = some (record { key = "b"; delivery_id = "delivery-2" } ∷ []);
}

abbrev calls : List Call
calls =
    begins_connecting
    ∷ begins_following 1
    ∷ applies (snapshot seen) 1
    ∷ applies (patches moved) 1
    ∷ []

new_state-IsConsistent_example : IsConsistent (run (new_state "task") calls).observed
new_state-IsConsistent_example = new_state-IsConsistent "task" calls

-- The state when the task is followed.
abbrev followed : DesktopThreadState
followed = record (new_state "task") {
  connection = connected;
  attachment = following;
  generation = 1;
}

abbrev synced : DesktopThreadState
synced = record followed { attachment = synchronized; revision = some 4 }

apply-Outcome_example : Outcome (patches moved) 1 synced (apply (patches moved) 1 synced)
apply-Outcome_example = apply-Outcome (patches moved) 1 synced

abbrev later : List Call
later = applies (patches moved) 1 ∷ begins_resync ∷ disconnects ∷ []

run-IsFrom_example : IsFrom 4 (run synced later).revision
run-IsFrom_example = run-IsFrom 4 synced later (tt, (tt, (tt, tt))) (omega arith)

-- A state that was never followed before, and one that is resynchronized with other turns.
abbrev resyncing : DesktopThreadState
resyncing = record followed { revision = some 3; injection = uncertain }

abbrev after : DesktopThreadState → DesktopThreadState
after s = (apply (snapshot seen) 1 s).1

snapshot_converges_example :
    ((apply_all (patches moved ∷ []) 1 (after resyncing)).0
      ≡ (apply_all (patches moved ∷ []) 1 (after followed)).0)
    × ((apply_all (patches moved ∷ []) 1 (after resyncing)).1.observed
        ≡ (apply_all (patches moved ∷ []) 1 (after followed)).1.observed)
unfolding apply apply_change apply_snapshot valid_revision is_stale
snapshot_converges_example =
    snapshot_converges seen (patches moved ∷ []) 1 followed resyncing refl refl

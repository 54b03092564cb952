-- ===== src/Desktop/State/Replicas.antt =====
-- Two states of `DesktopThreadState` (src/transport/desktop-state.ts) that see the same changes.
use codexhook.Base.{
  ℕ, ◌≡◌, refl, sym, ap, ◌∙◌, String, not, ◌||◌, List, [], ◌∷◌, arith, Bool-cases, Option-cases,
  inl, inr, eqb,
}
use codexhook.Desktop.{Snapshot, Patches, DesktopTaskChange, snapshot, patches}
use codexhook.Desktop.State.{
  DesktopThreadState, DesktopChangeResult, applied, InjectionState, is_connected, connected,
  valid_revision, begin_resync, apply_snapshot, patch_from, apply_patches, apply_change, apply,
}
use codexhook.Desktop.State.Revision.{connected_when}

-- The same state of another task, with another injection.
abbrev relabel : String → InjectionState → DesktopThreadState → DesktopThreadState
relabel thread_id label s = record s { thread_id = thread_id; injection = label }

-- The same for a result.
abbrev relabel_result :
    String
    → InjectionState
    → DesktopChangeResult × DesktopThreadState
    → DesktopChangeResult × DesktopThreadState
relabel_result thread_id label (result, s) = (result, relabel thread_id label s)

module _ (thread_id : String) (label : InjectionState) where
  apply_snapshot-relabel :
      (change : Snapshot) (s : DesktopThreadState)
      → apply_snapshot change (relabel thread_id label s)
        ≡ relabel_result thread_id label (apply_snapshot change s)
  unfolding apply_snapshot begin_resync
  apply_snapshot-relabel change s = ground arith

  apply_patches-relabel :
      (change : Patches) (s : DesktopThreadState)
      → apply_patches change (relabel thread_id label s)
        ≡ relabel_result thread_id label (apply_patches change s)
  unfolding apply_patches begin_resync patch_from
  apply_patches-relabel change s = ground arith

  apply-relabel :
      (change : DesktopTaskChange) (generation : ℕ) (s : DesktopThreadState)
      → apply change generation (relabel thread_id label s)
        ≡ relabel_result thread_id label (apply change generation s)
  unfolding apply apply_change
  apply-relabel (snapshot change) generation s = ground (arith, apply_snapshot-relabel change s)
  apply-relabel (patches change) generation s = ground (arith, apply_patches-relabel change s)

-- The changes of a generation one after the other, with the result of each.
pub apply_all :
    List DesktopTaskChange → ℕ → DesktopThreadState → List DesktopChangeResult × DesktopThreadState
apply_all [] generation s = ([], s)
apply_all (change ∷ changes) generation s =
    let (result, after) = apply change generation s in
    let (results, last) = apply_all changes generation after in (result ∷ results, last)

apply_all-relabel :
    (thread_id : String) (label : InjectionState) (changes : List DesktopTaskChange)
    (generation : ℕ) (s : DesktopThreadState)
    → apply_all changes generation (relabel thread_id label s) ≡ (
      (apply_all changes generation s).0,
      relabel thread_id label (apply_all changes generation s).1,
    )
unfolding apply_all
apply_all-relabel thread_id label [] generation s = refl
apply_all-relabel thread_id label (change ∷ changes) generation s =
    rw
      (
        apply-relabel thread_id label change generation s,
        apply_all-relabel thread_id label changes generation (apply change generation s).1,
      )
      refl

apply_snapshot-applied :
    (change : Snapshot) (s s' : DesktopThreadState)
    → (s.generation ≡ s'.generation) × (s.connection ≡ s'.connection)
    → (apply_snapshot change s).0 ≡ applied
    → (apply_snapshot change s').0 ≡ applied
    → (apply_snapshot change s').1 ≡ relabel s'.thread_id s'.injection (apply_snapshot change s).1
unfolding apply_snapshot
apply_snapshot-applied change s s' same h h' =
    elim (Option-cases (valid_revision change.revision)) [
      | inl invalid ↦ absurd (ground arith)
      | inr (n, valid) ↦ ground arith
    ]

apply-guarded :
    (change : DesktopTaskChange) (generation : ℕ) (s : DesktopThreadState)
    → (apply change generation s).0 ≡ applied
    → (apply change generation s ≡ apply_change change s)
      × (s.generation ≡ generation)
      × (s.connection ≡ connected)
unfolding apply
apply-guarded change generation s h =
    elim (Bool-cases (not (eqb generation s.generation) || not (is_connected s.connection))) [
      | inl foreign ↦ absurd (ground arith)
      | inr guarded ↦ (ground arith, ground arith, connected_when s.connection (ground arith))
    ]

apply-applied :
    (change : Snapshot) (generation : ℕ) (s s' : DesktopThreadState)
    → (apply (snapshot change) generation s).0 ≡ applied
    → (apply (snapshot change) generation s').0 ≡ applied
    → (apply (snapshot change) generation s').1
      ≡ relabel s'.thread_id s'.injection (apply (snapshot change) generation s).1
unfolding apply_change
apply-applied change generation s s' h h' =
    let (here, of_it, on) = apply-guarded (snapshot change) generation s h in
    let (here', of_it', on') = apply-guarded (snapshot change) generation s' h' in
    rw (here, here')
      (apply_snapshot-applied change s s' (of_it ∙ sym of_it', on ∙ sym on')
        (sym (ap (λ r. r.0) here) ∙ h) (sym (ap (λ r. r.0) here') ∙ h'))

-- Two states, of whatever past, that have applied the same snapshot give the same results to any
-- further changes of the generation, and show the same turns, entities and deliveries after them.
pub snapshot_converges :
    (change : Snapshot) (changes : List DesktopTaskChange) (generation : ℕ)
    (s s' : DesktopThreadState)
    → (apply (snapshot change) generation s).0 ≡ applied
    → (apply (snapshot change) generation s').0 ≡ applied
    → ((apply_all changes generation (apply (snapshot change) generation s').1).0
        ≡ (apply_all changes generation (apply (snapshot change) generation s).1).0)
      × ((apply_all changes generation (apply (snapshot change) generation s').1).1.observed
          ≡ (apply_all changes generation (apply (snapshot change) generation s).1).1.observed)
snapshot_converges change changes generation s s' h h' =
    rw
      (
        apply-applied change generation s s' h h',
        apply_all-relabel s'.thread_id s'.injection changes generation
            (apply (snapshot change) generation s).1,
      )
      (refl, refl)

-- ===== src/Desktop/State/Revision.antt =====
-- The revision of `DesktopThreadState` (src/transport/desktop-state.ts).
use mathlib.Core.Path.{subst}
use codexhook.Base.{
  sym, ℕ, ◌≤◌, ◌<◌, ◌≡◌, refl, Bool, true, false, not, ◌||◌, Option, none, some, List, [], ◌∷◌,
  arith, Bool-cases, Option-cases, inl, inr, eqb, leb, All,
}
use codexhook.Contracts.Diagnostics.{max_safe_integer}
use codexhook.Desktop.{
  Number, no_number, other_number, whole, Snapshot, Patches, DesktopTaskChange, snapshot, patches,
}
use codexhook.Desktop.State.{
  DesktopThreadState, DesktopChangeResult, applied, ignored, resync, AttachmentState, synchronized,
  detached, following, ConnectionState, disconnected_now, connecting, connected, is_synchronized,
  is_connected, ready, is_stale, valid_revision, begin_connecting, begin_resync, disconnected,
  set_injection, apply_snapshot, patch_from, apply_patches, apply_change, apply, Call,
  begins_connecting, begins_resync, disconnects, begins_following, sets_injection, applies, step,
  run,
}

-- Where the state is ready the new revision is greater, else it is not less.
abbrev pub Advances : Bool → Option ℕ → ℕ → Type 0
Advances is_ready none n = Unit
Advances true (some current) n = current < n
Advances false (some current) n = current ≤ n

abbrev pub revision_of : DesktopTaskChange → Number
revision_of (snapshot change) = change.revision
revision_of (patches change) = change.revision

-- The state after a change that was applied.
pub record IsApplied (change : DesktopTaskChange) (generation : ℕ) (s after : DesktopThreadState)
    : Type 0 where
  pub revision : ℕ
  pub of_change : revision_of change ≡ whole revision
  pub safe : revision ≤ max_safe_integer
  pub kept : after.revision ≡ some revision
  pub advanced : Advances (ready s) s.revision revision
  pub connection : (s.connection ≡ connected) × (after.connection ≡ connected)
  pub generations : (s.generation ≡ generation) × (after.generation ≡ generation)
  pub attachment : after.attachment ≡ synchronized

abbrev pub Outcome :
    DesktopTaskChange → ℕ → DesktopThreadState → DesktopChangeResult × DesktopThreadState → Type 0
Outcome change generation s (applied, after) = IsApplied change generation s after
Outcome change generation s (ignored, after) = after ≡ s
Outcome change generation s (resync, after) =
    (after ≡ begin_resync s) × (s.connection ≡ connected) × (s.generation ≡ generation)

valid_revision-whole :
    (number : Number) (n : ℕ)
    → valid_revision number ≡ some n
    → (number ≡ whole n) × (n ≤ max_safe_integer)
unfolding valid_revision
valid_revision-whole no_number n h = absurd (cc)
valid_revision-whole other_number n h = absurd (cc)
valid_revision-whole (whole m) n h = elim (Bool-cases (leb m max_safe_integer)) [
  | inl small ↦ (ground arith, ground arith)
  | inr large ↦ absurd (ground arith)
]

not_stale-Advances :
    (n : ℕ) (is_ready : Bool) (current : Option ℕ)
    → is_stale n is_ready current ≡ false
    → Advances is_ready current n
unfolding is_stale
not_stale-Advances n is_ready none h = tt
not_stale-Advances n true (some current) h = ground arith
not_stale-Advances n false (some current) h = ground arith

later-Advances :
    (is_ready : Bool) (current n : ℕ) → current < n → Advances is_ready (some current) n
later-Advances true current n h = h
later-Advances false current n h = ground arith

-- What the guards of `apply` leave for the change.
abbrev Guarded : ℕ → DesktopThreadState → Type 0
Guarded generation s = (s.connection ≡ connected) × (s.generation ≡ generation)

apply_snapshot-Outcome :
    (change : Snapshot) (generation : ℕ) (s : DesktopThreadState)
    → Guarded generation s
    → Outcome (snapshot change) generation s (apply_snapshot change s)
unfolding apply_snapshot
apply_snapshot-Outcome change generation s (on, same) =
    elim (Option-cases (valid_revision change.revision)) [
      | inl invalid ↦ rw (invalid, apply_snapshot) (refl, on, same)
      | inr (n, valid) ↦ elim (Bool-cases (is_stale n (ready s) s.revision)) [
        | inl stale ↦ rw (valid, apply_snapshot, stale) refl
        | inr new ↦
            let (whole_n, safe) = valid_revision-whole change.revision n valid in
            rw (valid, apply_snapshot, new)
              (record {
                revision = n;
                of_change = whole_n;
                safe = safe;
                kept = refl;
                advanced = not_stale-Advances n (ready s) s.revision new;
                connection = (on, on);
                generations = (same, same);
                attachment = refl;
              })
      ]
    ]

synchronized_when_ready : (a : AttachmentState) → is_synchronized a ≡ true → a ≡ synchronized
synchronized_when_ready detached h = absurd (cc)
synchronized_when_ready following h = absurd (cc)
synchronized_when_ready synchronized h = refl

pub connected_when : (c : ConnectionState) → is_connected c ≡ true → c ≡ connected
connected_when disconnected_now h = absurd (cc)
connected_when connecting h = absurd (cc)
connected_when connected h = refl

patch_from-Outcome :
    (change : Patches) (generation current base n : ℕ) (s : DesktopThreadState)
    → Guarded generation s
    → ready s ≡ true
    → s.revision ≡ some current
    → (change.revision ≡ whole n) × (n ≤ max_safe_integer)
    → Outcome (patches change) generation s (patch_from change current base n s)
unfolding patch_from
patch_from-Outcome change generation current base n s (on, same) is_ready known (whole_n, safe) =
    elim (Bool-cases (leb n current)) [
      | inl old ↦ rw (old, patch_from) refl
      | inr new ↦ elim (Bool-cases (not (eqb base current) || leb n base)) [
        | inl gap ↦ rw (new, patch_from, gap) (refl, on, same)
        | inr next ↦
            rw (new, patch_from, next)
              (record {
                revision = n;
                of_change = whole_n;
                safe = safe;
                kept = refl;
                advanced = rw (known) (later-Advances (ready s) current n (ground arith));
                connection = (on, on);
                generations = (same, same);
                attachment = synchronized_when_ready s.attachment is_ready;
              })
      ]
    ]

apply_patches-Outcome :
    (change : Patches) (generation : ℕ) (s : DesktopThreadState)
    → Guarded generation s
    → Outcome (patches change) generation s (apply_patches change s)
unfolding apply_patches
apply_patches-Outcome change generation s (on, same) = elim (Bool-cases (ready s)) [
  | inr unready ↦ rw (unready, apply_patches) (refl, on, same)
  | inl is_ready ↦ elim (Option-cases s.revision) [
    | inl unknown ↦ rw (is_ready, apply_patches, unknown) (refl, on, same)
    | inr (current, known) ↦ elim (Option-cases (valid_revision change.base_revision)) [
      | inl invalid ↦ rw (is_ready, apply_patches, known, invalid) (refl, on, same)
      | inr (base, based) ↦ elim (Option-cases (valid_revision change.revision)) [
        | inl invalid ↦ rw (is_ready, apply_patches, known, based, invalid) (refl, on, same)
        | inr (n, valid) ↦
            rw (is_ready, apply_patches, known, based, valid)
              (patch_from-Outcome change generation current base n s (on, same) is_ready known
                (valid_revision-whole change.revision n valid))
      ]
    ]
  ]
]

apply_change-Outcome :
    (change : DesktopTaskChange) (generation : ℕ) (s : DesktopThreadState)
    → Guarded generation s
    → Outcome change generation s (apply_change change s)
unfolding apply_change
apply_change-Outcome (snapshot change) generation s g = apply_snapshot-Outcome change generation s g
apply_change-Outcome (patches change) generation s g = apply_patches-Outcome change generation s g

-- A change that is ignored leaves the state as it is, and one that asks for a resync only sets the
-- attachment to following. One that is applied is of the generation of the connection, and its
-- revision, a safe integer, is the state's from then on: it is greater than the one before if the
-- state was ready, else not less.
pub apply-Outcome :
    (change : DesktopTaskChange) (generation : ℕ) (s : DesktopThreadState)
    → Outcome change generation s (apply change generation s)
unfolding apply
apply-Outcome change generation s =
    elim (Bool-cases (not (eqb generation s.generation) || not (is_connected s.connection))) [
      | inl foreign ↦ rw (foreign, apply) refl
      | inr guarded ↦
          rw (guarded, apply)
            (apply_change-Outcome change generation s
              (connected_when s.connection (ground arith), ground arith))
    ]

-- Every call but `beginFollowing`.
abbrev pub IsKept : Call → Type 0
IsKept (begins_following generation) = ⊥
IsKept call = Unit

-- There is a revision, and it is at least `n`.
abbrev pub IsFrom : ℕ → Option ℕ → Type 0
IsFrom n none = ⊥
IsFrom n (some m) = n ≤ m

Advances-IsFrom :
    (n : ℕ) (is_ready : Bool) (current : Option ℕ) (m : ℕ)
    → IsFrom n current
    → Advances is_ready current m
    → n ≤ m
Advances-IsFrom n is_ready none m h k = absurd h
Advances-IsFrom n true (some current) m h k = omega arith
Advances-IsFrom n false (some current) m h k = omega arith

Outcome-IsFrom :
    (n : ℕ) (change : DesktopTaskChange) (generation : ℕ) (s : DesktopThreadState)
    (result : DesktopChangeResult × DesktopThreadState)
    → Outcome change generation s result
    → IsFrom n s.revision
    → IsFrom n result.1.revision
unfolding begin_resync
Outcome-IsFrom n change generation s (applied, after) v h =
    subst (IsFrom n) (sym v.kept) (Advances-IsFrom n (ready s) s.revision v.revision h v.advanced)
Outcome-IsFrom n change generation s (ignored, after) same h =
    subst (λ s. IsFrom n s.revision) (sym same) h
Outcome-IsFrom n change generation s (resync, after) (same, on, of_it) h =
    subst (λ s. IsFrom n s.revision) (sym same) h

step-IsFrom :
    (n : ℕ) (s : DesktopThreadState) (call : Call)
    → IsKept call
    → IsFrom n s.revision
    → IsFrom n (step s call).revision
unfolding step begin_connecting begin_resync disconnected set_injection
step-IsFrom n s begins_connecting k h = h
step-IsFrom n s begins_resync k h = h
step-IsFrom n s disconnects k h = h
step-IsFrom n s (begins_following generation) k h = absurd k
step-IsFrom n s (sets_injection value) k h = h
step-IsFrom n s (applies change generation) k h =
    Outcome-IsFrom n change generation s (apply change generation s)
      (apply-Outcome change generation s) h

-- A state whose revision is known has a revision that is not less after any calls among which there
-- is no beginFollowing.
pub run-IsFrom :
    (n : ℕ) (s : DesktopThreadState) (calls : List Call)
    → All IsKept calls
    → IsFrom n s.revision
    → IsFrom n (run s calls).revision
unfolding run
run-IsFrom n s [] k h = h
run-IsFrom n s (call ∷ calls) (k, ks) h =
    run-IsFrom n (step s call) calls ks (step-IsFrom n s call k h)

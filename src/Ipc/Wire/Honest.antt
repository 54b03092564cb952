-- ===== src/Ipc/Wire/Honest.antt =====
-- The frames of requests before their outcomes, for the steps but `request` (src/transport/desktop-ipc/wire.ts).
use mathlib.Core.Path.{subst}
use codexhook.Base.{
  ◌≡◌, refl, sym, ap, ◌∙◌, ◌==◌, eq_iff, eq_refl, String, Bool, true, false, not, ◌||◌, Option,
  none, some, List, [], ◌∷◌, ◌++◌, arith, Option-cases, inl, inr,
}
use codexhook.Base.Dict.{IsDistinct, get, delete, get-delete}
use codexhook.Json.{Members}
use codexhook.Ipc.{DesktopProtocolError, DesktopProtocolFailure}
use codexhook.Ipc.Wire.{
  EndReason, WireEvent, resolves, rejects, writes_request, writes_other, observes, tells_broadcast,
  PendingRequest, RawDesktopConnection, reject_all, finish_if, disconnected_error, reject_pending,
  answer,
}
use codexhook.Ipc.{DesktopWriteState, not_written}

abbrev pub is_not_written : DesktopWriteState → Bool
is_not_written not_written = true
is_not_written _ = false

abbrev pub has_id : String → List String → Bool
has_id id [] = false
has_id id (j ∷ ids) = (j == id) || has_id id ids

-- The ids of `before` and of the requests whose frames are handed to the socket.
abbrev pub frames : List String → List WireEvent → List String
frames before [] = before
frames before (writes_request id frame ∷ events) = frames (id ∷ before) events
frames before (resolves id envelope ∷ events) = frames before events
frames before (rejects id failure ∷ events) = frames before events
frames before (writes_other frame ∷ events) = frames before events
frames before (observes observation ∷ events) = frames before events
frames before (tells_broadcast envelope ∷ events) = frames before events

-- A request is resolved only after its frame was handed to the socket, and it is rejected as not
-- written exactly if its frame was not. `before` has the ids whose frames were handed over.
abbrev pub IsHonest : List String → List WireEvent → Type 0
IsHonest before [] = Unit
IsHonest before (writes_request id frame ∷ events) = IsHonest (id ∷ before) events
IsHonest before (resolves id envelope ∷ events) = (has_id id before ≡ true) × IsHonest before events
IsHonest before (rejects id failure ∷ events) =
    (is_not_written failure.write_state ≡ not (has_id id before)) × IsHonest before events
IsHonest before (writes_other frame ∷ events) = IsHonest before events
IsHonest before (observes observation ∷ events) = IsHonest before events
IsHonest before (tells_broadcast envelope ∷ events) = IsHonest before events

pub IsHonest-append :
    (before : List String) (xs ys : List WireEvent)
    → IsHonest before xs
    → IsHonest (frames before xs) ys
    → IsHonest before (xs ++ ys)
IsHonest-append before [] ys h k = k
IsHonest-append before (writes_request id frame ∷ xs) ys h k =
    IsHonest-append (id ∷ before) xs ys h k
IsHonest-append before (resolves id envelope ∷ xs) ys (p, h) k =
    (p, IsHonest-append before xs ys h k)
IsHonest-append before (rejects id failure ∷ xs) ys (p, h) k = (p, IsHonest-append before xs ys h k)
IsHonest-append before (writes_other frame ∷ xs) ys h k = IsHonest-append before xs ys h k
IsHonest-append before (observes observation ∷ xs) ys h k = IsHonest-append before xs ys h k
IsHonest-append before (tells_broadcast envelope ∷ xs) ys h k = IsHonest-append before xs ys h k

pub frames-append :
    (before : List String) (xs ys : List WireEvent)
    → frames before (xs ++ ys) ≡ frames (frames before xs) ys
frames-append before [] ys = refl
frames-append before (writes_request id frame ∷ xs) ys = frames-append (id ∷ before) xs ys
frames-append before (resolves id envelope ∷ xs) ys = frames-append before xs ys
frames-append before (rejects id failure ∷ xs) ys = frames-append before xs ys
frames-append before (writes_other frame ∷ xs) ys = frames-append before xs ys
frames-append before (observes observation ∷ xs) ys = frames-append before xs ys
frames-append before (tells_broadcast envelope ∷ xs) ys = frames-append before xs ys

-- What is pending is written.
abbrev pub AreWritten : List String → List (String × PendingRequest) → Type 0
AreWritten before pending =
    (id : String) (entry : PendingRequest)
    → get id pending ≡ some entry
    → (entry.written ≡ true) × (has_id id before ≡ true)

-- A step that hands over no frame of a request.
pub record IsQuiet (before : List String) (out : List WireEvent × RawDesktopConnection)
    : Type 0 where
  pub honest : IsHonest before out.0
  pub same : frames before out.0 ≡ before
  pub pending_written : AreWritten before out.1.pending

pub AreWritten-delete :
    (before : List String) (id : String) (pending : List (String × PendingRequest))
    → AreWritten before pending
    → AreWritten before (delete id pending)
AreWritten-delete before id pending w j entry h =
    w j entry (ground (arith, eq_iff id j, get-delete id j pending))

reject_all-IsHonest :
    (before : List String) (failure : DesktopProtocolFailure)
    (pending : List (String × PendingRequest))
    → IsDistinct pending
    → AreWritten before pending
    → IsHonest before (reject_all failure pending)
unfolding reject_all get disconnected_error
reject_all-IsHonest before failure [] d w = tt
reject_all-IsHonest before failure ((j, entry) ∷ pending) (fresh, d) w =
    let mine = w j entry (ground (arith, eq_refl j)) in
    (
      ground arith,
      reject_all-IsHonest before failure pending d
          (λ id other h. w id other (ground (arith, eq_iff j id))),
    )

reject_all-frames :
    (before : List String) (failure : DesktopProtocolFailure)
    (pending : List (String × PendingRequest)) (more : List WireEvent)
    → frames before (reject_all failure pending ++ more) ≡ frames before more
unfolding reject_all
reject_all-frames before failure [] more = refl
reject_all-frames before failure ((j, entry) ∷ pending) more =
    reject_all-frames before failure pending more

pub finish_if-IsQuiet :
    (ended : Bool) (failure : DesktopProtocolFailure) (reason : EndReason) (before : List String)
    (c : RawDesktopConnection)
    → IsDistinct c.pending
    → AreWritten before c.pending
    → IsQuiet before (finish_if ended failure reason c)
unfolding get
finish_if-IsQuiet true failure reason before c d w = record {
  honest = tt;
  same = refl;
  pending_written = w;
}
finish_if-IsQuiet false failure reason before c d w = record {
  honest =
      IsHonest-append before (reject_all failure c.pending) _
        (reject_all-IsHonest before failure c.pending d w) tt;
  same = reject_all-frames before failure c.pending _;
  pending_written = λ id entry h. absurd (ground arith);
}

pub reject_pending-IsQuiet :
    (id : String) (error : PendingRequest → DesktopProtocolError) (before : List String)
    (c : RawDesktopConnection)
    → ((entry : PendingRequest)
        → entry.written ≡ true
        → is_not_written (error entry).write_state ≡ false)
    → AreWritten before c.pending
    → IsQuiet before (reject_pending id error c)
unfolding reject_pending
reject_pending-IsQuiet id error before c unknown w = elim (Option-cases (get id c.pending)) [
  | inl absent ↦
      rw (absent, reject_pending) (record { honest = tt; same = refl; pending_written = w })
  | inr (entry, here) ↦
      let (sent, known) = w id entry here in
      rw (here, reject_pending)
        (record {
          honest = (unknown entry sent ∙ sym (ap not known), tt);
          same = refl;
          pending_written = AreWritten-delete before id c.pending w;
        })
]

pub answer-IsQuiet :
    (id : Option String) (envelope : Members) (before : List String) (c : RawDesktopConnection)
    → AreWritten before c.pending
    → IsQuiet before (answer id envelope c)
unfolding answer
answer-IsQuiet none envelope before c w = record { honest = tt; same = refl; pending_written = w }
answer-IsQuiet (some id) envelope before c w = elim (Option-cases (get id c.pending)) [
  | inl absent ↦ rw (absent, answer) (record { honest = tt; same = refl; pending_written = w })
  | inr (entry, here) ↦
      let (sent, known) = w id entry here in
      rw (here, answer)
        (record {
          honest = (known, tt);
          same = refl;
          pending_written = AreWritten-delete before id c.pending w;
        })
]

pub then-IsQuiet :
    (before : List String) (first second : List WireEvent × RawDesktopConnection)
    → IsQuiet before first
    → (AreWritten before first.1.pending → IsQuiet before second)
    → IsQuiet before (first.0 ++ second.0, second.1)
then-IsQuiet before first second a next =
    let b = next a.pending_written in
    record {
      honest =
          IsHonest-append before first.0 second.0 a.honest
            (subst (λ ids. IsHonest ids second.0) (sym a.same) b.honest);
      same =
          frames-append before first.0 second.0 ∙ (ap (λ ids. frames ids second.0) a.same ∙ b.same);
      pending_written = b.pending_written;
    }

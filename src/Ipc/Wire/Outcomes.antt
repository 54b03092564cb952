-- ===== src/Ipc/Wire/Outcomes.antt =====
-- The outcomes of all requests in a run (src/transport/desktop-ipc/wire.ts).
use mathlib.Core.Path.{subst}
use codexhook.Base.{
  ℕ, ◌+◌, ◌≤◌, ◌≡◌, refl, sym, ◌==◌, eq_refl, String, Bool, true, false, Option, List, [], ◌∷◌,
  arith, Bool-cases, Option-cases, inl, inr, if◌then◌else◌,
}
use codexhook.Base.Result.{Result-cases}
use codexhook.Base.Dict.{IsDistinct, get}
use codexhook.Json.{Json}
use codexhook.Ipc.Framing.{push}
use codexhook.Ipc.Wire.{
  DesktopWireLimits, protocol_error, WireEvent, PendingRequest, RawDesktopConnection, opened,
  finish, close, end, end_failure, disconnected_error, time_out, write_callback, malformed_of,
  receive, Call, requests, receives, times_out, reports_failure, initializes, closes, stops_writing,
  socket_ends, step, run,
}
use codexhook.Ipc.Wire.Promises.{IsValid, waits}
use codexhook.Ipc.Wire.Settled.{all_asked, asked, step-IsAccounted}
use codexhook.Ipc.Wire.Honest.{
  has_id, frames, IsHonest, IsHonest-append, AreWritten, IsQuiet, finish_if-IsQuiet,
  reject_pending-IsQuiet, then-IsQuiet,
}
use codexhook.Ipc.Wire.Written.{handle_all-IsQuiet, malformed-IsQuiet, request-IsSubmitted}

-- 1 where the frame of the request was handed to the socket.
abbrev wrote : String → List String → ℕ
wrote id before = if has_id id before then 1 else 0

record Steps (before : List String) (call : Call) (out : List WireEvent × RawDesktopConnection)
    : Type 0 where
  honest : IsHonest before out.0
  pending_written : AreWritten (frames before out.0) out.1.pending
  growth : (id : String) → wrote id (frames before out.0) ≤ wrote id before + asked id call

quiet-Steps :
    (before : List String) (call : Call) (out : List WireEvent × RawDesktopConnection)
    → IsQuiet before out
    → Steps before call out
quiet-Steps before call out q = record {
  honest = q.honest;
  pending_written = subst (λ ids. AreWritten ids out.1.pending) (sym q.same) q.pending_written;
  growth = λ id. rw (q.same) (omega arith);
}

waits-le :
    (before : List String) (pending : List (String × PendingRequest)) (id : String)
    → AreWritten before pending
    → waits id pending ≤ wrote id before
waits-le before pending id w = elim (Option-cases (get id pending)) [
  | inl absent ↦ ground arith
  | inr (entry, here) ↦ let old = w id entry here in ground arith
]

module _ (parse : List ℕ → Option Json) (stringify : Json → Option (List ℕ))
    (limits : DesktopWireLimits) where
  receive-IsQuiet :
      (chunk : List ℕ) (taken : Bool) (before : List String) (c : RawDesktopConnection)
      → IsDistinct c.pending
      → AreWritten before c.pending
      → IsQuiet before (receive parse stringify limits chunk taken c)
  unfolding receive end finish
  receive-IsQuiet chunk taken before c d w =
      elim (Result-cases (push parse limits.max_inbound_frame_bytes c.buffer chunk)) [
        | inl (failure, thrown) ↦
            let q =
              finish_if-IsQuiet c.ended (end_failure protocol_error) protocol_error before
                (record c { buffer = [] }) d w in
            rw (thrown, receive)
              (record { honest = q.honest; same = q.same; pending_written = q.pending_written })
        | inr ((events, rest), decoded) ↦
            rw (decoded, receive)
              (then-IsQuiet before (malformed_of events, record c { buffer = rest }) _
                (malformed-IsQuiet events before (record c { buffer = rest }) w)
                (λ next.
                  handle_all-IsQuiet stringify limits events taken before
                    (record c { buffer = rest }) next))
      ]

  step-Steps :
      (call : Call) (before : List String) (c : RawDesktopConnection)
      → IsDistinct c.pending
      → AreWritten before c.pending
      → ((id : String) → asked id call + wrote id before ≤ 1)
      → Steps before call (step parse stringify limits call c)
  unfolding step time_out write_callback close end finish disconnected_error
  step-Steps (requests id call taken) before c d w once =
      let fresh : has_id id before ≡ false = let o = once id in ground (arith, eq_refl id) in
      let s = request-IsSubmitted stringify limits id call taken before c w fresh in
      record {
        honest = s.honest;
        pending_written = s.pending_written;
        growth = λ j. elim (Bool-cases (id == j)) [
          | inl same ↦ ground (arith)
          | inr other ↦ rw (s.others j other) (omega arith)
        ];
      }
  step-Steps (receives chunk taken) before c d w once =
      quiet-Steps before _ _ (receive-IsQuiet chunk taken before c d w)
  step-Steps (times_out id) before c d w once =
      quiet-Steps before _ _ (reject_pending-IsQuiet id _ before c (λ entry sent. rw sent refl) w)
  step-Steps (reports_failure id) before c d w once =
      quiet-Steps before _ _ (reject_pending-IsQuiet id _ before c (λ entry sent. rw sent refl) w)
  step-Steps (initializes id) before c d w once =
      quiet-Steps before _ _ (record { honest = tt; same = refl; pending_written = w })
  step-Steps closes before c d w once =
      quiet-Steps before _ _
        (finish_if-IsQuiet c.ended _ _ before (record c { destroyed = true }) d w)
  step-Steps stops_writing before c d w once =
      quiet-Steps before _ _ (record { honest = tt; same = refl; pending_written = w })
  step-Steps (socket_ends reason) before c d w once =
      quiet-Steps before _ _ (finish_if-IsQuiet c.ended _ reason before c d w)

  run-IsHonest :
      (calls : List Call) (before : List String) (c : RawDesktopConnection)
      → IsValid c
      → AreWritten before c.pending
      → ((id : String) → all_asked id calls + wrote id before ≤ 1)
      → IsHonest before (run parse stringify limits calls c).0
  unfolding run
  run-IsHonest [] before c v w once = tt
  run-IsHonest (call ∷ calls) before c v w once =
      let out = step parse stringify limits call c in
      let accounted =
        step-IsAccounted parse stringify limits call c v
          (λ id. let o = once id in omega (arith, waits-le before c.pending id w)) in
      let s = step-Steps call before c v.distinct w (λ id. let o = once id in omega arith) in
      IsHonest-append before out.0 _ s.honest (
        run-IsHonest calls (frames before out.0) out.1 accounted.valid s.pending_written
          (λ id. let o = once id in let g = s.growth id in omega arith))

  -- In any run of an open connection in which no request id is drawn twice, a request is resolved
  -- only after its frame was handed to the socket, and it is rejected as not written exactly if its
  -- frame was not handed to the socket.
  pub opened-IsHonest :
      (calls : List Call)
      → ((id : String) → all_asked id calls ≤ 1)
      → IsHonest [] (run parse stringify limits calls opened).0
  unfolding get
  opened-IsHonest calls once =
      run-IsHonest calls [] opened (record { distinct = tt; over = tt }) (λ id entry h. absurd (cc))
        (λ id. let o = once id in omega arith)

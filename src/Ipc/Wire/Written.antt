-- ===== src/Ipc/Wire/Written.antt =====
-- What the outcome of a request says of its frame (src/transport/desktop-ipc/wire.ts).
use codexhook.Base.{
  ℕ, ◌≡◌, refl, sym, ap, ◌∙◌, ◌==◌, eq_iff, String, Bool, true, false, not, Option, none, some,
  List, [], ◌∷◌, arith, Bool-cases, Option-cases, inl, inr,
}
use codexhook.Base.Result.{err, Result-cases}
use codexhook.Base.Dict.{set, delete, get-set, get-delete}
use codexhook.Json.{Json, JsonNumber, Members, text_of, field, is_the_text}
use codexhook.Ipc.{DesktopProtocolError}
use codexhook.Ipc.Framing.{FrameEvent, malformed, message, encode_desktop_frame}
use codexhook.Ipc.Wire.{
  DesktopWireLimits, WireEvent, rejects, writes_request, PendingRequest, RawDesktopConnection,
  disconnected_error, RequestCall, request_envelope, validate_request, submit_frame, start_request,
  request, write_discovery_response, alive, discovery_envelope, handle, malformed_of, handle_all,
}
use codexhook.Ipc.Framing.{encode_error}
use codexhook.Ipc.Wire.Honest.{
  is_not_written, has_id, frames, IsHonest, AreWritten, IsQuiet, answer-IsQuiet, then-IsQuiet,
}

module _ (stringify : Json → Option (List ℕ)) (limits : DesktopWireLimits) where
  discovery-IsQuiet :
      (id : Option String) (taken : Bool) (before : List String) (c : RawDesktopConnection)
      → AreWritten before c.pending
      → IsQuiet before (write_discovery_response stringify limits id taken c)
  unfolding write_discovery_response
  discovery-IsQuiet none taken before c w = record { honest = tt; same = refl; pending_written = w }
  discovery-IsQuiet (some id) taken before c w = elim (Bool-cases (not (alive c))) [
    | inl dead ↦
        rw (dead, write_discovery_response)
          (record { honest = tt; same = refl; pending_written = w })
    | inr living ↦
        elim (Result-cases (
          encode_desktop_frame stringify limits.max_outbound_frame_bytes (discovery_envelope id))) [
            | inl (failure, refused) ↦
                rw (living, write_discovery_response, refused)
                  (record { honest = tt; same = refl; pending_written = w })
            | inr (frame, made) ↦ elim (Bool-cases taken) [
              | inl taking ↦
                  rw (living, write_discovery_response, made, taking)
                    (record { honest = tt; same = refl; pending_written = w })
              | inr throwing ↦
                  rw (living, write_discovery_response, made, throwing)
                    (record { honest = tt; same = refl; pending_written = w })
            ]
          ]
  ]

  handle-IsQuiet :
      (envelope : Members) (taken : Bool) (before : List String) (c : RawDesktopConnection)
      → AreWritten before c.pending
      → IsQuiet before (handle stringify limits envelope taken c)
  unfolding handle
  handle-IsQuiet envelope taken before c w =
      elim (Bool-cases (is_the_text "client-discovery-request" (field "type" envelope))) [
        | inl asks ↦
            rw (asks, handle)
              (discovery-IsQuiet (text_of (field "requestId" envelope)) taken before c w)
        | inr no_question ↦ elim (Bool-cases (is_the_text "broadcast" (field "type" envelope))) [
          | inl tells ↦
              rw (no_question, handle, tells)
                (record { honest = tt; same = refl; pending_written = w })
          | inr no_broadcast ↦ elim (Bool-cases (is_the_text "response" (field "type" envelope))) [
            | inl answers ↦
                rw (no_question, handle, no_broadcast, answers)
                  (answer-IsQuiet (text_of (field "requestId" envelope)) envelope before c w)
            | inr other ↦
                rw (no_question, handle, no_broadcast, other)
                  (record { honest = tt; same = refl; pending_written = w })
          ]
        ]
      ]

  pub handle_all-IsQuiet :
      (events : List FrameEvent) (taken : Bool) (before : List String) (c : RawDesktopConnection)
      → AreWritten before c.pending
      → IsQuiet before (handle_all stringify limits events taken c)
  unfolding handle_all
  handle_all-IsQuiet [] taken before c w = record { honest = tt; same = refl; pending_written = w }
  handle_all-IsQuiet (malformed ∷ events) taken before c w =
      handle_all-IsQuiet events taken before c w
  handle_all-IsQuiet (message envelope ∷ events) taken before c w =
      then-IsQuiet before (handle stringify limits envelope taken c) _
        (handle-IsQuiet envelope taken before c w)
        (λ next.
          handle_all-IsQuiet events taken before (handle stringify limits envelope taken c).1 next)

pub malformed-IsQuiet :
    (events : List FrameEvent) (before : List String) (c : RawDesktopConnection)
    → AreWritten before c.pending
    → IsQuiet before (malformed_of events, c)
unfolding malformed_of
malformed-IsQuiet [] before c w = record { honest = tt; same = refl; pending_written = w }
malformed-IsQuiet (malformed ∷ events) before c w =
    let q = malformed-IsQuiet events before c w in
    record { honest = q.honest; same = q.same; pending_written = w }
malformed-IsQuiet (message envelope ∷ events) before c w = malformed-IsQuiet events before c w

-- A request that is not one of before: what is pending after it is written.
pub record IsSubmitted (id : String) (before : List String)
    (out : List WireEvent × RawDesktopConnection) : Type 0 where
  pub honest : IsHonest before out.0
  pub pending_written : AreWritten (frames before out.0) out.1.pending
  pub others : (j : String) → (id == j) ≡ false → has_id j (frames before out.0) ≡ has_id j before

abbrev unwritten : PendingRequest
unwritten = record { written = false }

failed-IsSubmitted :
    (id : String) (failure : DesktopProtocolError) (before : List String) (c : RawDesktopConnection)
    → AreWritten before c.pending
    → has_id id before ≡ false
    → is_not_written failure.write_state ≡ true
    → IsSubmitted id before
        (rejects id failure ∷ [], record c { pending = delete id (set id unwritten c.pending) })
failed-IsSubmitted id failure before c w fresh unsent = record {
  honest = (unsent ∙ sym (ap not fresh), tt);
  pending_written = λ j entry h. w j entry (
      ground (
        arith,
        eq_iff id j,
        get-delete id j (set id unwritten c.pending),
        get-set id j unwritten c.pending,
      ));
  others = λ j other. refl;
}

sent-IsSubmitted :
    (id : String) (frame : List ℕ) (before : List String) (c : RawDesktopConnection)
    → AreWritten before c.pending
    → IsSubmitted id before (
      writes_request id frame ∷ [],
      record c { pending = set id (record { written = true }) (set id unwritten c.pending) },
    )
sent-IsSubmitted id frame before c w = record {
  honest = tt;
  pending_written = λ j entry h. elim (Bool-cases (id == j)) [
    | inl same ↦ (
      ground (
        arith,
        eq_iff id j,
        get-set id j (record { written = true }) (set id unwritten c.pending),
      ),
      ground arith,
    )
    | inr other ↦
        let old = w j entry (
          ground (
            arith,
            eq_iff id j,
            get-set id j (record { written = true }) (set id unwritten c.pending),
            get-set id j unwritten c.pending,
          )) in
        (old.0, ground arith)
  ];
  others = λ j other. ground arith;
}

refused-encode_error :
    (stringify : Json → Option (List ℕ)) (max : ℕ) (value : Json) (failure : DesktopProtocolError)
    → encode_desktop_frame stringify max value ≡ err failure
    → encode_error ≡ failure
unfolding encode_desktop_frame
refused-encode_error stringify max value failure h = ground arith

refused-not_written :
    (limits : DesktopWireLimits) (timeout_ms : JsonNumber) (c : RawDesktopConnection)
    (failure : DesktopProtocolError)
    → validate_request limits timeout_ms c ≡ some failure
    → is_not_written failure.write_state ≡ true
unfolding validate_request
refused-not_written limits timeout_ms c failure h = ground arith

module _ (stringify : Json → Option (List ℕ)) (limits : DesktopWireLimits) where
  start_request-IsSubmitted :
      (id : String) (call : RequestCall) (taken : Bool) (before : List String)
      (c : RawDesktopConnection)
      → AreWritten before c.pending
      → has_id id before ≡ false
      → IsSubmitted id before (start_request stringify limits id call taken c)
  unfolding start_request submit_frame disconnected_error
  start_request-IsSubmitted id call taken before c w fresh =
      elim (Result-cases (
        encode_desktop_frame stringify limits.max_outbound_frame_bytes
          (request_envelope id c.client_id call))) [
            | inl (failure, refused) ↦
                let same =
                  refused-encode_error stringify limits.max_outbound_frame_bytes
                    (request_envelope id c.client_id call) failure refused in
                rw (refused, start_request)
                  (failed-IsSubmitted id failure before c w fresh
                    (ap (λ f. is_not_written f.write_state) (sym same)))
            | inr (frame, made) ↦ elim (Bool-cases taken) [
              | inl taking ↦ rw (made, start_request, taking) (sent-IsSubmitted id frame before c w)
              | inr throwing ↦
                  rw (made, start_request, throwing) (failed-IsSubmitted id _ before c w fresh refl)
            ]
          ]

  pub request-IsSubmitted :
      (id : String) (call : RequestCall) (taken : Bool) (before : List String)
      (c : RawDesktopConnection)
      → AreWritten before c.pending
      → has_id id before ≡ false
      → IsSubmitted id before (request stringify limits id call taken c)
  unfolding request
  request-IsSubmitted id call taken before c w fresh =
      elim (Option-cases (validate_request limits call.timeout_ms c)) [
        | inl valid ↦ rw (valid, request) (start_request-IsSubmitted id call taken before c w fresh)
        | inr (failure, refused) ↦
            rw (refused, request)
              (record {
                honest = (
                  refused-not_written limits call.timeout_ms c failure refused ∙ sym (ap not fresh),
                  tt,
                );
                pending_written = w;
                others = λ j other. refl;
              })
      ]

-- ===== src/Ipc/Wire.antt =====
-- `RawDesktopConnection` once it is open (src/transport/desktop-ipc/wire.ts). A call of `request`
-- is named by its request id, which the source draws at random; whether the socket takes the bytes,
-- and when it reports on them, are arguments. What a call does to the outside is a list of events.
pub mod Promises
pub mod Settled
pub mod Honest
pub mod Written
pub mod Outcomes
mod Examples
use codexhook.Base.{
  ℕ, ◌==◌, String, Bool, true, false, not, ◌&&◌, ◌||◌, Option, none, some, List, [], ◌∷◌, ◌++◌,
  length, leb, ltb, if◌then◌else◌,
}
use codexhook.Base.Result.{Result, ok, err}
use codexhook.Base.Dict.{get, set, delete}
use codexhook.Contracts.Diagnostics.{max_safe_integer}
use codexhook.Json.{
  Json, null, boolean, number, text, object, JsonNumber, natural, other_number, Members, no_members,
  member, field, text_of, is_the_text,
}
use codexhook.Ipc.{
  DesktopProtocolFailure, closed, frame_invalid, invalid_timeout, pending_limit, request_timeout,
  write_failed, DesktopWriteState, not_written, unknown_write, Stage, framing, operation,
  DesktopProtocolError,
}
use codexhook.Ipc.Framing.{FrameEvent, malformed, message, encode_desktop_frame, push}

pub record DesktopWireLimits : Type 0 where
  pub max_inbound_frame_bytes : ℕ
  pub max_outbound_frame_bytes : ℕ
  pub max_pending_requests : ℕ
  pub max_request_timeout_ms : ℕ
  pub min_request_timeout_ms : ℕ

pub data EndReason : Type 0 where
  closed_end socket_error protocol_error : EndReason

-- The observations of a connection.
pub data Observation : Type 0 where
  disconnected : EndReason → Observation
  orphan_response malformed_envelope : Observation

-- A promise of a request is resolved or rejected; a frame of a request, or another one, is handed to
-- the socket; the listeners are told.
pub data WireEvent : Type 0 where
  resolves : String → Members → WireEvent
  rejects : String → DesktopProtocolError → WireEvent
  writes_request : String → List ℕ → WireEvent
  writes_other : List ℕ → WireEvent
  observes : Observation → WireEvent
  tells_broadcast : Members → WireEvent

-- The functions and the timer of a pending request are its id.
pub record PendingRequest : Type 0 where
  pub written : Bool

-- `destroyed` and `writable` are the socket's; `buffer` is the decoder's.
pub record RawDesktopConnection : Type 0 where
  pub client_id : String
  pub buffer : List ℕ
  pub ended : Bool
  pub destroyed : Bool
  pub writable : Bool
  pub pending : List (String × PendingRequest)

abbrev pub opened : RawDesktopConnection
opened = record {
  client_id = "initializing-client";
  buffer = [];
  ended = false;
  destroyed = false;
  writable = true;
  pending = [];
}

abbrev pub operation_error : DesktopProtocolFailure → DesktopWriteState → DesktopProtocolError
operation_error failure write_state = record {
  failure = failure;
  stage = operation;
  write_state = write_state;
}

abbrev pub write_state_of : PendingRequest → DesktopWriteState
write_state_of pending = if pending.written then unknown_write else not_written

-- The stage of the three failures that it is called with.
abbrev pub stage_of : DesktopProtocolFailure → Stage
stage_of frame_invalid = framing
stage_of _ = operation

unfoldable pub disconnected_error : PendingRequest → DesktopProtocolFailure → DesktopProtocolError
disconnected_error pending failure = record {
  failure = failure;
  stage = stage_of failure;
  write_state = write_state_of pending;
}

abbrev pub alive : RawDesktopConnection → Bool
alive c = not c.ended && (not c.destroyed && c.writable)

-- The rejections of all that is pending.
unfoldable pub reject_all : DesktopProtocolFailure → List (String × PendingRequest) → List WireEvent
reject_all failure [] = []
reject_all failure ((id, request) ∷ pending) =
    rejects id (disconnected_error request failure) ∷ reject_all failure pending

-- The rest of `close` and of `end`, where the connection has ended and where it has not.
abbrev pub finish_if :
    Bool
    → DesktopProtocolFailure
    → EndReason
    → RawDesktopConnection
    → List WireEvent × RawDesktopConnection
finish_if true failure reason c = ([], c)
finish_if false failure reason c = (
  reject_all failure c.pending ++ observes (disconnected reason) ∷ [],
  record c { ended = true; pending = [] },
)

unfoldable pub finish :
    DesktopProtocolFailure
    → EndReason
    → RawDesktopConnection
    → List WireEvent × RawDesktopConnection
finish failure reason c = finish_if c.ended failure reason c

unfoldable pub close : RawDesktopConnection → List WireEvent × RawDesktopConnection
close c = finish closed closed_end (record c { destroyed = true })

abbrev pub end_failure : EndReason → DesktopProtocolFailure
end_failure protocol_error = frame_invalid
end_failure _ = closed

unfoldable pub end : EndReason → RawDesktopConnection → List WireEvent × RawDesktopConnection
end reason c = finish (end_failure reason) reason c

-- A number of milliseconds within the limits, which are not negative.
unfoldable pub is_timeout : DesktopWireLimits → JsonNumber → Bool
is_timeout limits (natural n) =
    leb n max_safe_integer
    && (leb limits.min_request_timeout_ms n && leb n limits.max_request_timeout_ms)
is_timeout limits other_number = false

unfoldable pub validate_request :
    DesktopWireLimits → JsonNumber → RawDesktopConnection → Option DesktopProtocolError
validate_request limits timeout_ms c =
    if not (alive c)
    then some (operation_error closed not_written)
    else (if not (is_timeout limits timeout_ms)
        then some (operation_error invalid_timeout not_written)
        else (if leb limits.max_pending_requests (length c.pending)
            then some (operation_error pending_limit not_written)
            else none))

-- The arguments of `request`.
pub record RequestCall : Type 0 where
  pub method : String
  pub params : Json
  pub version : JsonNumber
  pub timeout_ms : JsonNumber
  pub target_client_id : Option String

abbrev pub target_member : Option String → Members
target_member none = no_members
target_member (some id) = member "targetClientId" (text id) no_members

unfoldable pub request_envelope : String → String → RequestCall → Json
request_envelope id client_id call = object (
    member "type" (text "request") (
      member "requestId" (text id) (
        member "sourceClientId" (text client_id) (
          member "version" (number call.version) (
            member "method" (text call.method) (
              member "params" call.params (
                member "timeoutMs" (number call.timeout_ms)
                  (target_member call.target_client_id))))))))

-- Take a pending request out and reject it with an error that its entry decides.
unfoldable pub reject_pending :
    String
    → (PendingRequest → DesktopProtocolError)
    → RawDesktopConnection
    → List WireEvent × RawDesktopConnection
reject_pending id error c = elim (get id c.pending) [
  | none ↦ ([], c)
  | some request ↦ (rejects id (error request) ∷ [], record c { pending = delete id c.pending })
]

unfoldable pub time_out : String → RawDesktopConnection → List WireEvent × RawDesktopConnection
time_out id c =
    reject_pending id (λ request. operation_error request_timeout (write_state_of request)) c

-- The socket's report on the bytes of a request, where they could not be written.
unfoldable pub write_callback :
    String → RawDesktopConnection → List WireEvent × RawDesktopConnection
write_callback id c = reject_pending id (λ request. disconnected_error request write_failed) c

-- A frame of a request at the socket, which may throw.
unfoldable pub submit_frame :
    String → List ℕ → Bool → RawDesktopConnection → List WireEvent × RawDesktopConnection
submit_frame id frame taken c =
    if taken
    then (
      writes_request id frame ∷ [],
      record c { pending = set id (record { written = true }) c.pending },
    )
    else (
      rejects id (disconnected_error (record { written = false }) write_failed) ∷ [],
      record c { pending = delete id c.pending },
    )

unfoldable pub answer :
    Option String → Members → RawDesktopConnection → List WireEvent × RawDesktopConnection
answer none envelope c = ([], c)
answer (some id) envelope c = elim (get id c.pending) [
  | none ↦ (observes orphan_response ∷ [], c)
  | some request ↦ (resolves id envelope ∷ [], record c { pending = delete id c.pending })
]

unfoldable pub discovery_envelope : String → Json
discovery_envelope id = object (
    member "type" (text "client-discovery-response") (
      member "requestId" (text id)
        (member "response" (object (member "canHandle" (boolean false) no_members)) no_members)))

module _ (stringify : Json → Option (List ℕ)) (limits : DesktopWireLimits) where
  -- A request that is valid: it is pending, and then its frame is made.
  unfoldable pub start_request :
      String → RequestCall → Bool → RawDesktopConnection → List WireEvent × RawDesktopConnection
  start_request id call taken c =
      elim (encode_desktop_frame stringify limits.max_outbound_frame_bytes
        (request_envelope id c.client_id call)) [
          | err failure ↦ (
            rejects id failure ∷ [],
            record c { pending = delete id (set id (record { written = false }) c.pending) },
          )
          | ok frame ↦
              submit_frame id frame taken
                (record c { pending = set id (record { written = false }) c.pending })
        ]

  unfoldable pub request :
      String → RequestCall → Bool → RawDesktopConnection → List WireEvent × RawDesktopConnection
  request id call taken c = elim (validate_request limits call.timeout_ms c) [
    | some failure ↦ (rejects id failure ∷ [], c)
    | none ↦ start_request id call taken c
  ]

  -- The frame of a broadcast; its promise is that of the socket's report.
  unfoldable pub broadcast :
      String
      → Json
      → JsonNumber
      → RawDesktopConnection
      → Result DesktopProtocolError (List WireEvent)
  broadcast method params version c =
      if not (alive c)
      then err (operation_error closed not_written)
      else elim (encode_desktop_frame stringify limits.max_outbound_frame_bytes (
          object (
            member "type" (text "broadcast") (
              member "method" (text method) (
                member "sourceClientId" (text c.client_id)
                  (member "params" params (member "version" (number version) no_members))))))) [
                    | err failure ↦ err failure
                    | ok frame ↦ ok (writes_other frame ∷ [])
                  ]

  unfoldable pub write_discovery_response :
      Option String → Bool → RawDesktopConnection → List WireEvent × RawDesktopConnection
  write_discovery_response none taken c = ([], c)
  write_discovery_response (some id) taken c =
      if not (alive c)
      then ([], c)
      else elim (encode_desktop_frame stringify limits.max_outbound_frame_bytes
          (discovery_envelope id)) [
            | err failure ↦ ([], record c { destroyed = true })
            | ok frame ↦
                if taken then (writes_other frame ∷ [], c) else ([], record c { destroyed = true })
          ]

  unfoldable pub handle :
      Members → Bool → RawDesktopConnection → List WireEvent × RawDesktopConnection
  handle envelope taken c =
      if is_the_text "client-discovery-request" (field "type" envelope)
      then write_discovery_response (text_of (field "requestId" envelope)) taken c
      else (if is_the_text "broadcast" (field "type" envelope)
          then (tells_broadcast envelope ∷ [], c)
          else (if is_the_text "response" (field "type" envelope)
              then answer (text_of (field "requestId" envelope)) envelope c
              else ([], c)))

  unfoldable pub handle_all :
      List FrameEvent → Bool → RawDesktopConnection → List WireEvent × RawDesktopConnection
  handle_all [] taken c = ([], c)
  handle_all (malformed ∷ events) taken c = handle_all events taken c
  handle_all (message envelope ∷ events) taken c =
      let first = handle envelope taken c in
      let later = handle_all events taken first.1 in (first.0 ++ later.0, later.1)

-- `onMalformedEnvelope` is called while the chunk is decoded, before its messages are handled.
unfoldable pub malformed_of : List FrameEvent → List WireEvent
malformed_of [] = []
malformed_of (malformed ∷ events) = observes malformed_envelope ∷ malformed_of events
malformed_of (message envelope ∷ events) = malformed_of events

-- A call of a method, or an event of the socket or of a timer. The Boolean of a call tells
-- whether the socket takes the bytes that it writes.
pub data Call : Type 0 where
  requests : String → RequestCall → Bool → Call
  receives : List ℕ → Bool → Call
  times_out reports_failure initializes : String → Call
  closes stops_writing : Call
  socket_ends : EndReason → Call

module _ (parse : List ℕ → Option Json) (stringify : Json → Option (List ℕ))
    (limits : DesktopWireLimits) where
  -- A chunk of bytes. The calls of `onMalformedEnvelope` in a chunk that throws are left out.
  unfoldable pub receive :
      List ℕ → Bool → RawDesktopConnection → List WireEvent × RawDesktopConnection
  receive chunk taken c = elim (push parse limits.max_inbound_frame_bytes c.buffer chunk) [
    | err failure ↦
        let last = end protocol_error (record c { buffer = [] }) in
        (last.0, record last.1 { destroyed = true })
    | ok (events, rest) ↦
        let last = handle_all stringify limits events taken (record c { buffer = rest }) in
        (malformed_of events ++ last.0, last.1)
  ]

  unfoldable pub step : Call → RawDesktopConnection → List WireEvent × RawDesktopConnection
  step (requests id call taken) c = request stringify limits id call taken c
  step (receives chunk taken) c = receive chunk taken c
  step (times_out id) c = time_out id c
  step (reports_failure id) c = write_callback id c
  step (initializes id) c = ([], record c { client_id = id })
  step closes c = close c
  step stops_writing c = ([], record c { writable = false })
  step (socket_ends reason) c = end reason c

  unfoldable pub run : List Call → RawDesktopConnection → List WireEvent × RawDesktopConnection
  run [] c = ([], c)
  run (call ∷ calls) c =
      let first = step call c in let later = run calls first.1 in (first.0 ++ later.0, later.1)

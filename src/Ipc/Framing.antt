-- ===== src/Ipc/Framing.antt =====
-- Frames on the desktop application's socket (src/transport/desktop-ipc/framing.ts and
-- routing-id.ts). A buffer is a list of bytes; JSON.stringify with the UTF-8 encoding and its
-- inverse are parameters, with `none` for what they throw.
pub mod Frames
pub mod Chunks
pub mod RoundTrip
mod Examples
use codexhook.Base.{
  ℕ, zero, suc, ◌+◌, ◌*◌, ◌/◌, ◌%◌, ◌==◌, String, Bool, true, false, not, ◌&&◌, ◌||◌, Option, none,
  some, List, [], ◌∷◌, ◌++◌, length, take, drop, eqb, ltb, leb, utf16_length, is_some,
  if◌then◌else◌,
}
use codexhook.Base.Result.{Result, ok, err}
use codexhook.Json.{Json, null, text, object, Members, no_members, member, field, text_of}
use codexhook.Ipc.{DesktopProtocolError, frame_invalid, framing, unknown_write, not_written}

abbrev pub max_routing_id_length : ℕ
max_routing_id_length = 128

-- `routingId`.
unfoldable pub routing_id : Option Json → Option String
routing_id (some (text id)) =
    if leb 1 (utf16_length id) && leb (utf16_length id) max_routing_id_length then some id else none
routing_id _ = none

abbrev pub frame_error : DesktopProtocolError
frame_error = record { failure = frame_invalid; stage = framing; write_state = unknown_write }

abbrev pub encode_error : DesktopProtocolError
encode_error = record { failure = frame_invalid; stage = framing; write_state = not_written }

pub record DecodedEnvelope : Type 0 where
  pub envelope : Members
  pub sanitized_routing : Bool

-- `!= null`.
abbrev pub is_given : Option Json → Bool
is_given none = false
is_given (some null) = false
is_given (some value) = true

-- A text of at least `low` and at most `high` units.
unfoldable pub is_short_text : ℕ → ℕ → Option Json → Bool
is_short_text low high (some (text t)) = leb low (utf16_length t) && leb (utf16_length t) high
is_short_text low high _ = false

unfoldable pub without : String → Members → Members
without key no_members = no_members
without key (member name value members) =
    if name == key then without key members else member name value (without key members)

-- A member at the end, where there is a value.
unfoldable pub with_text : String → Option String → Members → Members
with_text key none members = members
with_text key (some id) no_members = member key (text id) no_members
with_text key (some id) (member name value members) =
    member name value (with_text key (some id) members)

unfoldable pub sanitized : Members → DecodedEnvelope
sanitized members =
    let source = field "sourceClientId" members in
    let target = field "targetClientId" members in
    if (is_given source && not (is_some (routing_id source)))
      || (is_given target && not (is_some (routing_id target)))
    then (record {
      envelope = with_text "targetClientId" (routing_id target) (
          with_text "sourceClientId" (routing_id source)
            (without "targetClientId" (without "sourceClientId" members)));
      sanitized_routing = true;
    })
    else (record { envelope = members; sanitized_routing = false })

unfoldable pub has_envelope_fields : Members → Bool
has_envelope_fields members =
    is_short_text 1 64 (field "type" members)
    && ((not (is_given (field "requestId" members))
          || is_short_text 1 128 (field "requestId" members))
        && ((not (is_given (field "method" members))
              || is_short_text 0 160 (field "method" members))
            && (not (is_given (field "resultType" members))
                || is_some (text_of (field "resultType" members)))))

unfoldable pub wire_envelope : Json → Option DecodedEnvelope
wire_envelope (object members) =
    if has_envelope_fields members then some (sanitized members) else none
wire_envelope _ = none

-- What a frame leads to: a call of `onMalformedEnvelope`, or a message that `push` returns.
pub data FrameEvent : Type 0 where
  malformed : FrameEvent
  message : Members → FrameEvent

unfoldable pub events_of : Option DecodedEnvelope → List FrameEvent
events_of none = malformed ∷ []
events_of (some decoded) =
    if decoded.sanitized_routing
    then malformed ∷ message decoded.envelope ∷ []
    else message decoded.envelope ∷ []

-- `writeUInt32LE`, for a number below 2 ^ 32.
abbrev pub uint32_le : ℕ → List ℕ
uint32_le n = (n % 256) ∷ (n / 256 % 256) ∷ (n / 65536 % 256) ∷ (n / 16777216 % 256) ∷ []

abbrev pub read_uint32_le : ℕ → ℕ → ℕ → ℕ → ℕ
read_uint32_le a b c d = a + b * 256 + c * 65536 + d * 16777216

-- The length at the start of the data, and what follows it, where there are four bytes.
unfoldable pub header : List ℕ → Option (ℕ × List ℕ)
header (a ∷ b ∷ c ∷ d ∷ rest) = some (read_uint32_le a b c d, rest)
header _ = none

module _ (stringify : Json → Option (List ℕ)) (max_frame_bytes : ℕ) where
  unfoldable pub encode_desktop_frame : Json → Result DesktopProtocolError (List ℕ)
  encode_desktop_frame value = elim (stringify value) [
    | none ↦ err encode_error
    | some body ↦
        if eqb (length body) 0 || ltb max_frame_bytes (length body)
        then err encode_error
        else ok (uint32_le (length body) ++ body)
  ]

-- One turn of the loop: too few bytes, the thrown error, or the events of a frame and the bytes
-- that follow it.
pub data Frame : Type 0 where
  partial invalid : Frame
  frame : List FrameEvent → List ℕ → Frame

abbrev pub parsed_frame : Option Json → List ℕ → Frame
parsed_frame none rest = invalid
parsed_frame (some value) rest = frame (events_of (wire_envelope value)) rest

-- The events of a frame before those of the frames after it.
abbrev pub prepend :
    List FrameEvent
    → Result DesktopProtocolError (List FrameEvent × List ℕ)
    → Result DesktopProtocolError (List FrameEvent × List ℕ)
prepend events (err failure) = err failure
prepend events (ok (later, rest)) = ok (events ++ later, rest)

module _ (parse : List ℕ → Option Json) (max_frame_bytes : ℕ) where
  unfoldable pub next_frame : List ℕ → Frame
  next_frame bytes = elim (header bytes) [
    | none ↦ partial
    | some (size, body) ↦
        if eqb size 0 || ltb max_frame_bytes size
        then invalid
        else (if ltb (length body) size
            then partial
            else parsed_frame (parse (take size body)) (drop size body))
  ]

  -- The loop over the data from `offset` on, with the turns that may still be taken: the events,
  -- and the bytes that remain.
  unfoldable pub read_frames : ℕ → List ℕ → Result DesktopProtocolError (List FrameEvent × List ℕ)
  read_frames zero bytes = ok ([], bytes)
  read_frames (suc n) bytes = elim (next_frame bytes) [
    | partial ↦ ok ([], bytes)
    | invalid ↦ err frame_error
    | frame events rest ↦ prepend events (read_frames n rest)
  ]

  -- A frame has more than four bytes, so the turns are enough for all the data.
  unfoldable pub read_all : List ℕ → Result DesktopProtocolError (List FrameEvent × List ℕ)
  read_all bytes = read_frames (suc (length bytes)) bytes

  -- The events of a chunk and the next buffer. A push that throws has emptied the buffer.
  unfoldable pub push : List ℕ → List ℕ → Result DesktopProtocolError (List FrameEvent × List ℕ)
  push buffer [] = ok ([], buffer)
  push buffer (byte ∷ chunk) = read_all (buffer ++ byte ∷ chunk)

  -- The pushes of the chunks of a stream, up to the first that throws.
  unfoldable pub push_chunks :
      List ℕ → List (List ℕ) → Result DesktopProtocolError (List FrameEvent × List ℕ)
  push_chunks buffer [] = ok ([], buffer)
  push_chunks buffer (chunk ∷ chunks) = elim (push buffer chunk) [
    | err failure ↦ err failure
    | ok (events, rest) ↦ prepend events (push_chunks rest chunks)
  ]

-- ===== src/Ipc/Adapters.antt =====
-- What the answers of the desktop application are read as
-- (src/transport/desktop-ipc: adapters.ts, session-capability.ts and session-receipt.ts). The build
-- number and the fingerprint, which are for the diagnostics, are left out.
use codexhook.Base.{
  ℕ, ◌==◌, String, Bool, true, false, not, ◌&&◌, ◌||◌, Option, none, some, List, [], ◌∷◌, any, find,
  eqb, leb, is_some, flat_map, if◌then◌else◌,
}
use codexhook.Base.Result.{Result, ok, err}
use codexhook.Contracts.Diagnostics.{max_safe_integer}
use codexhook.Registry.Format.{codes}
use codexhook.Json.{
  Json, null, boolean, number, text, array, object, natural, Members, no_members, member, field,
  items_list, record_of, text_of, optional_field, is_the_text,
}
use codexhook.Ipc.{
  DesktopProtocolFailure, handshake_malformed, unknown_protocol_version, response_malformed,
  unsupported_capability, not_written, written, handshake, operation, DesktopProtocolError,
}
use codexhook.Ipc.Framing.{is_short_text, is_given}
use codexhook.Ipc.Wire.{operation_error}

pub data DesktopProtocolCapability : Type 0 where
  complete_history start_turn steer_turn thread_stream : DesktopProtocolCapability

pub record DesktopCapabilities : Type 0 where
  pub is_advertised : Bool
  pub complete_history : Bool
  pub start_turn : Bool
  pub steer_turn : Bool
  pub thread_stream : Bool

pub record DesktopHandshake : Type 0 where
  pub client_id : String
  pub capabilities : DesktopCapabilities
  pub app_version : Option String
  pub protocol_version : Option ℕ

-- The names under which a capability may be advertised.
abbrev pub capability_aliases : DesktopProtocolCapability → List String
capability_aliases DesktopProtocolCapability.complete_history =
    "completeHistory" ∷ "thread-follower-load-complete-history" ∷ []
capability_aliases DesktopProtocolCapability.start_turn =
    "startTurn" ∷ "thread-follower-start-turn" ∷ []
capability_aliases DesktopProtocolCapability.steer_turn =
    "steerTurn" ∷ "thread-follower-steer-turn" ∷ []
capability_aliases DesktopProtocolCapability.thread_stream =
    "threadStream" ∷ "thread-stream-following-changed" ∷ []

abbrev pub compatibility_error : DesktopProtocolFailure → DesktopProtocolError
compatibility_error failure = record {
  failure = failure;
  stage = handshake;
  write_state = not_written;
}

unfoldable pub optional_string : Option Json → Option String
optional_string value = if is_short_text 1 128 value then text_of value else none

-- `??` of texts, and of a value that may be null or undefined.
abbrev pub or_text : Option String → Option String → Option String
or_text none later = later
or_text (some first) later = some first

abbrev pub or_value : Option Json → Option Json → Option Json
or_value first later = if is_given first then first else later

unfoldable pub version_number : Option Json → Result DesktopProtocolError (Option ℕ)
version_number (some (number (natural n))) =
    if leb n max_safe_integer then ok (some n) else err (compatibility_error handshake_malformed)
version_number _ = err (compatibility_error handshake_malformed)

unfoldable pub explicit_protocol_version : Members → Result DesktopProtocolError (Option ℕ)
explicit_protocol_version value =
    let candidate =
      or_value (field "protocolVersion" value)
        (optional_field "version" (record_of (field "protocol" value))) in
    if is_given candidate then version_number candidate else ok none

abbrev pub item_name : Json → List String
item_name (text name) = name ∷ []
item_name _ = []

unfoldable pub true_names : Members → List String
true_names no_members = []
true_names (member name (boolean true) members) = name ∷ true_names members
true_names (member name value members) = true_names members

unfoldable pub has_capability : List String → DesktopProtocolCapability → Bool
has_capability enabled capability =
    any (λ name. any (λ other. other == name) enabled) (capability_aliases capability)

unfoldable pub capabilities_of : List String → DesktopCapabilities
capabilities_of enabled = record {
  is_advertised = true;
  complete_history = has_capability enabled DesktopProtocolCapability.complete_history;
  start_turn = has_capability enabled DesktopProtocolCapability.start_turn;
  steer_turn = has_capability enabled DesktopProtocolCapability.steer_turn;
  thread_stream = has_capability enabled DesktopProtocolCapability.thread_stream;
}

abbrev pub all_capabilities : DesktopCapabilities
all_capabilities = record {
  is_advertised = false;
  complete_history = true;
  start_turn = true;
  steer_turn = true;
  thread_stream = true;
}

unfoldable pub advertised_capabilities :
    Option Json → Result DesktopProtocolError DesktopCapabilities
advertised_capabilities none = ok all_capabilities
advertised_capabilities (some null) = ok all_capabilities
advertised_capabilities (some (array items)) =
    ok (capabilities_of (flat_map item_name (items_list items)))
advertised_capabilities (some (object members)) = ok (capabilities_of (true_names members))
advertised_capabilities (some value) = err (compatibility_error handshake_malformed)

-- A version that is given must be 1.
abbrev pub is_supported : Option ℕ → Bool
is_supported none = true
is_supported (some n) = eqb n 1

-- `record(result.build) ?? record(result.app)`.
abbrev pub build_of : Option Members → Option Members → Option Members
build_of none app = app
build_of (some build) app = some build

unfoldable pub read_handshake :
    Members → String → Option ℕ → Result DesktopProtocolError DesktopHandshake
read_handshake result client_id version =
    if not (is_supported version)
    then err (compatibility_error unknown_protocol_version)
    else elim (advertised_capabilities (field "serverCapabilities" result)) [
      | err failure ↦ err failure
      | ok capabilities ↦ ok (record {
        client_id = client_id;
        capabilities = capabilities;
        app_version = or_text (optional_string (field "appVersion" result)) (
            optional_string (
              optional_field "version"
                (build_of (record_of (field "build" result)) (record_of (field "app" result)))));
        protocol_version = version;
      })
    ]

unfoldable pub decode_result : Members → Result DesktopProtocolError DesktopHandshake
decode_result result =
    elim (or_text (optional_string (field "clientId" result))
      (optional_string (optional_field "id" (record_of (field "client" result))))) [
        | none ↦ err (compatibility_error handshake_malformed)
        | some client_id ↦ elim (explicit_protocol_version result) [
          | err failure ↦ err failure
          | ok version ↦ read_handshake result client_id version
        ]
      ]

unfoldable pub decode_desktop_handshake : Option Json → Result DesktopProtocolError DesktopHandshake
decode_desktop_handshake value = elim (record_of value) [
  | none ↦ err (compatibility_error handshake_malformed)
  | some result ↦ decode_result result
]

unfoldable pub has_enabled : DesktopCapabilities → DesktopProtocolCapability → Bool
has_enabled c DesktopProtocolCapability.complete_history = c.complete_history
has_enabled c DesktopProtocolCapability.start_turn = c.start_turn
has_enabled c DesktopProtocolCapability.steer_turn = c.steer_turn
has_enabled c DesktopProtocolCapability.thread_stream = c.thread_stream

unfoldable pub require_desktop_capability :
    DesktopCapabilities → DesktopProtocolCapability → Result DesktopProtocolError (Unit {0})
require_desktop_capability c capability =
    if has_enabled c capability
    then ok tt
    else err (operation_error unsupported_capability not_written)

pub data DesktopKnownRejection : Type 0 where
  client_cannot_handle_request client_not_found no_client_found : DesktopKnownRejection
  no_handler_for_request request_version_mismatch thread_role_timeout : DesktopKnownRejection
  thread_stream_owner_unavailable unknown_rejection : DesktopKnownRejection

unfoldable pub starts_with_codes : List ℕ → List ℕ → Bool
starts_with_codes [] cs = true
starts_with_codes (f ∷ fragment) [] = false
starts_with_codes (f ∷ fragment) (c ∷ cs) = eqb f c && starts_with_codes fragment cs

-- `includes` of texts, for a fragment of ASCII characters.
unfoldable pub includes_codes : List ℕ → List ℕ → Bool
includes_codes fragment [] = starts_with_codes fragment []
includes_codes fragment (c ∷ cs) = starts_with_codes fragment (c ∷ cs) || includes_codes fragment cs

abbrev pub rejection_aliases : List (String × DesktopKnownRejection)
rejection_aliases =
    ("thread stream owner became unavailable", thread_stream_owner_unavailable)
    ∷ ("client-cannot-handle-request", client_cannot_handle_request)
    ∷ ("request-version-mismatch", request_version_mismatch)
    ∷ ("no-handler-for-request", no_handler_for_request)
    ∷ ("no-client-found", no_client_found)
    ∷ ("client-not-found", client_not_found)
    ∷ ("thread-role-timeout", thread_role_timeout)
    ∷ []

abbrev pub or_unknown : Option (String × DesktopKnownRejection) → DesktopKnownRejection
or_unknown none = unknown_rejection
or_unknown (some (fragment, rejection)) = rejection

unfoldable pub normalize_desktop_rejection : Option Json → DesktopKnownRejection
normalize_desktop_rejection (some (text value)) =
    or_unknown (find (λ alias. includes_codes (codes alias.0) (codes value)) rejection_aliases)
normalize_desktop_rejection _ = unknown_rejection

abbrev pub has_field : String → Option Members → Bool
has_field key none = false
has_field key (some members) = is_some (field key members)

-- `in` and the property it finds; every property of a JSON value has a value.
unfoldable pub application_result : Option Json → Option Json
application_result value =
    if not (is_some (record_of value))
    then value
    else (if has_field "result" (record_of value)
        then optional_field "result" (record_of value)
        else (if has_field "result" (record_of (optional_field "response" (record_of value)))
            then optional_field "result" (record_of (optional_field "response" (record_of value)))
            else value))

-- A text of 1 to 256 units.
unfoldable pub turn_text : Option Json → Option String
turn_text value = if is_short_text 1 256 value then text_of value else none

unfoldable pub turn_id_fast : Option Members → Option String
turn_id_fast none = none
turn_id_fast (some result) = or_text (turn_text (field "turnId" result)) (
    or_text (turn_text (optional_field "id" (record_of (field "turn" result))))
      (turn_text (optional_field "turnId" (record_of (field "submission" result)))))

unfoldable pub turn_id : Option Json → Option String
turn_id value =
    or_text (turn_id_fast (record_of value))
      (turn_id_fast (record_of (optional_field "details" (record_of value))))

abbrev pub malformed_accepted : DesktopProtocolError
malformed_accepted = record {
  failure = response_malformed;
  stage = operation;
  write_state = written;
}

unfoldable pub decode_start : Option Json → Result DesktopProtocolError String
decode_start value = elim (turn_id (application_result value)) [
  | none ↦ err malformed_accepted
  | some id ↦ ok id
]

unfoldable pub decode_steer : Option Json → Result DesktopProtocolError (Option String)
decode_steer value = ok (turn_id (application_result value))

-- The outcome of a receipt.
pub data ReceiptOutcome (A : Type 0) : Type 0 where
  accepted : A → ReceiptOutcome A
  rejected : DesktopKnownRejection → ReceiptOutcome A

module _ {A : Type 0} where
  abbrev pub accept : Result DesktopProtocolError A → Result DesktopProtocolError (ReceiptOutcome A)
  accept (err failure) = err failure
  accept (ok value) = ok (accepted value)

  -- `desktopRequestReceipt` for a response.
  unfoldable pub desktop_request_receipt :
      Members
      → (Option Json → Result DesktopProtocolError A)
      → Result DesktopProtocolError (ReceiptOutcome A)
  desktop_request_receipt response decode =
      if is_given (field "resultType" response)
        && not (
            is_the_text "success" (field "resultType" response)
            || is_the_text "error" (field "resultType" response))
      then err malformed_accepted
      else (if is_the_text "error" (field "resultType" response)
          then ok (rejected (normalize_desktop_rejection (field "error" response)))
          else accept (decode (field "result" response)))

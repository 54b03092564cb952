-- ===== src/Desktop/Offer.antt =====
-- What the desktop application offers (src/transport/desktop-contract.ts).
mod Examples
use codexhook.Base.{
  ℕ, ◌≡◌, refl, Bool, true, false, not, ◌&&◌, ◌||◌, Option, none, some, List, [], ◌∷◌, ◌++◌, arith,
  keep, any, eqb, leb, Bool-cases, inl, inr, if◌then◌else◌,
}
use codexhook.Contracts.{
  DiagnosticCode, desktop_unavailable, desktop_incompatible, probe_desktop, connect_desktop,
  desktop, SanitizedDiagnostic, diagnostic,
}
use codexhook.Contracts.Compatibility.{
  ProtocolFeature, task_history, task_events, task_follow, turn_start, turn_steer, delivery_id,
  ProtocolRequirement, ProtocolOffer, CompatibleProtocol, desktop_ipc, compatible, incompatible,
  ProtocolCompatibility, check_protocol_compatibility, agreed,
}
use codexhook.Coordinator.Route.{Availability, is_unavailable, is_incompatible}
use codexhook.Ipc.{
  DesktopProtocolFailure, frame_invalid, handshake_malformed, response_malformed,
  unknown_protocol_version, unsupported_capability,
}
use codexhook.Ipc.Adapters.{DesktopCapabilities}

-- The version of the adapter and what the application can do; the fingerprint is left out.
pub record DesktopProtocolProfile : Type 0 where
  pub major : ℕ
  pub revision : ℕ
  pub capabilities : DesktopCapabilities

abbrev pub desktop_requirement : ProtocolRequirement
desktop_requirement = record {
  plane = desktop_ipc;
  major = 1;
  minimum_revision = 1;
  required_features =
      task_follow ∷ task_history ∷ task_events ∷ turn_start ∷ turn_steer ∷ delivery_id ∷ [];
}

abbrev pub features_if : Bool → List ProtocolFeature → List ProtocolFeature
features_if true features = features
features_if false features = []

unfoldable pub features_of : Bool → Bool → Bool → Bool → List ProtocolFeature
features_of thread_stream complete_history start_turn steer_turn =
    features_if thread_stream (task_follow ∷ task_events ∷ [])
    ++ (features_if complete_history (task_history ∷ [])
        ++ (features_if start_turn (turn_start ∷ [])
            ++ (features_if steer_turn (turn_steer ∷ [])
                ++ features_if (start_turn && steer_turn) (delivery_id ∷ []))))

abbrev pub desktop_offer : DesktopProtocolProfile → ProtocolOffer
desktop_offer profile = record {
  plane = desktop_ipc;
  major = profile.major;
  revision = profile.revision;
  features =
      features_of profile.capabilities.thread_stream profile.capabilities.complete_history
        profile.capabilities.start_turn profile.capabilities.steer_turn;
}

abbrev pub compatible_or_none : ProtocolCompatibility → Option CompatibleProtocol
compatible_or_none (compatible protocol) = some protocol
compatible_or_none (incompatible plane reason) = none

unfoldable pub compatible_of : DesktopProtocolProfile → Option CompatibleProtocol
compatible_of profile =
    compatible_or_none (check_protocol_compatibility desktop_requirement (desktop_offer profile))

abbrev pub is_incompatible_failure : DesktopProtocolFailure → Bool
is_incompatible_failure frame_invalid = true
is_incompatible_failure handshake_malformed = true
is_incompatible_failure response_malformed = true
is_incompatible_failure unknown_protocol_version = true
is_incompatible_failure unsupported_capability = true
is_incompatible_failure _ = false

-- `none` is any other error.
unfoldable pub unavailable_from : Option DesktopProtocolFailure → Availability
unavailable_from none = is_unavailable (diagnostic desktop_unavailable probe_desktop desktop)
unavailable_from (some failure) =
    if is_incompatible_failure failure
    then is_incompatible (diagnostic desktop_incompatible probe_desktop desktop)
    else is_unavailable (diagnostic desktop_unavailable probe_desktop desktop)

abbrev pub is_incompatible_opening : Option DesktopProtocolFailure → Bool
is_incompatible_opening (some handshake_malformed) = true
is_incompatible_opening (some unknown_protocol_version) = true
is_incompatible_opening (some unsupported_capability) = true
is_incompatible_opening _ = false

-- The failure of `openProtocol`.
unfoldable pub opening_failure : Option DesktopProtocolFailure → SanitizedDiagnostic
opening_failure cause =
    diagnostic (if is_incompatible_opening cause then desktop_incompatible else desktop_unavailable)
      connect_desktop desktop

-- The adapter of the application can do all that is required of it.
abbrev pub is_capable : DesktopCapabilities → Bool
is_capable capabilities =
    capabilities.thread_stream
    && (capabilities.complete_history && (capabilities.start_turn && capabilities.steer_turn))

check-features :
    (thread_stream complete_history start_turn steer_turn : Bool) (major revision : ℕ)
    → compatible_or_none (
        check_protocol_compatibility desktop_requirement (record {
          plane = desktop_ipc;
          major = major;
          revision = revision;
          features = features_of thread_stream complete_history start_turn steer_turn;
        }))
      ≡ (if (eqb major 1 && leb 1 revision)
            && (thread_stream && (complete_history && (start_turn && steer_turn)))
          then some (
              agreed (record {
                plane = desktop_ipc;
                major = major;
                revision = revision;
                features = features_of thread_stream complete_history start_turn steer_turn;
              }))
          else none)
unfolding check_protocol_compatibility features_of keep any
check-features true true true true major revision = ground arith
check-features true true true false major revision = ground arith
check-features true true false true major revision = ground arith
check-features true true false false major revision = ground arith
check-features true false true true major revision = ground arith
check-features true false true false major revision = ground arith
check-features true false false true major revision = ground arith
check-features true false false false major revision = ground arith
check-features false true true true major revision = ground arith
check-features false true true false major revision = ground arith
check-features false true false true major revision = ground arith
check-features false true false false major revision = ground arith
check-features false false true true major revision = ground arith
check-features false false true false major revision = ground arith
check-features false false false true major revision = ground arith
check-features false false false false major revision = ground arith

-- The desktop application is compatible exactly if its adapter has major version 1 and at least
-- revision 1, and the application can follow a task, load its history, start a turn and steer one;
-- the protocol agreed on is then what it offers.
pub compatible_of-is_capable :
    (profile : DesktopProtocolProfile)
    → compatible_of profile ≡ (
        if (eqb profile.major 1 && leb 1 profile.revision) && is_capable profile.capabilities
        then some (agreed (desktop_offer profile))
        else none)
unfolding compatible_of
compatible_of-is_capable profile =
    let c = profile.capabilities in
    check-features c.thread_stream c.complete_history c.start_turn c.steer_turn profile.major
      profile.revision

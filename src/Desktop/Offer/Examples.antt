-- ===== src/Desktop/Offer/Examples.antt =====
-- The offer of a desktop application that can do everything, and what it lacks otherwise.
use codexhook.Base.{◌≡◌, refl, false, none, some, keep, any}
use codexhook.Contracts.Compatibility.{agreed, check_protocol_compatibility}
use codexhook.Ipc.Adapters.{all_capabilities}
use codexhook.Desktop.Offer.{
  DesktopProtocolProfile, desktop_offer, features_of, compatible_of, compatible_of-is_capable,
}

abbrev profile : DesktopProtocolProfile
profile = record { major = 1; revision = 2; capabilities = all_capabilities }

compatible_of-is_capable_example : compatible_of profile ≡ some (agreed (desktop_offer profile))
compatible_of-is_capable_example = compatible_of-is_capable profile

compatible_of-no_steer :
    compatible_of (record profile { capabilities = record all_capabilities { steer_turn = false } })
    ≡ none
unfolding compatible_of check_protocol_compatibility features_of keep any
compatible_of-no_steer = refl

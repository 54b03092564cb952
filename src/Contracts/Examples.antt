-- ===== src/Contracts/Examples.antt =====
-- The theorems of the contracts at concrete values.
use codexhook.Base.{◌≡◌, ◌↔◌, [], ◌∷◌, some, false, refl, arith}
use codexhook.Contracts.Compatibility.{
  ProtocolRequirement, ProtocolOffer, desktop_ipc, task_follow, turn_start, delivery_id,
  check_protocol_compatibility, compatible, agreed, Meets, check_iff_Meets,
}
use codexhook.Contracts.{SanitizedDiagnostic, timeout, internal, submit_desktop, desktop}
use codexhook.Contracts.Diagnostics.{
  Source, text, whole, other, sanitize_diagnostic, as_diagnostic_code,
}
use codexhook.Contracts.Sanitized.{source_of, sanitize_diagnostic-source_of}

abbrev required : ProtocolRequirement
required = record {
  plane = desktop_ipc;
  major = 1;
  minimum_revision = 2;
  required_features = turn_start ∷ delivery_id ∷ [];
}

abbrev offered : ProtocolOffer
offered = record {
  plane = desktop_ipc;
  major = 1;
  revision = 3;
  features = task_follow ∷ delivery_id ∷ turn_start ∷ [];
}

check_iff_Meets_example :
    (check_protocol_compatibility required offered ≡ compatible (agreed offered))
    ↔ (Meets required offered × (agreed offered ≡ agreed offered))
check_iff_Meets_example = check_iff_Meets required offered (agreed offered)

abbrev late_diagnostic : SanitizedDiagnostic
late_diagnostic = record {
  code = timeout;
  stage = some submit_desktop;
  route = some desktop;
  protocol_revision = some 3;
}

-- A code that is not on the list, with a path in it, and a route that is none.
abbrev leaky : Source
leaky = record {
  code = text "open /home/me/token";
  stage = text "submit-desktop";
  route = other;
  revision = whole 3;
  throws = false;
}

leaky_code : (sanitize_diagnostic leaky).code ≡ internal
unfolding sanitize_diagnostic as_diagnostic_code
leaky_code = refl

sanitize_diagnostic-source_of_example :
    sanitize_diagnostic (source_of late_diagnostic) ≡ late_diagnostic
sanitize_diagnostic-source_of_example = sanitize_diagnostic-source_of late_diagnostic (ground arith)

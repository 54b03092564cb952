-- ===== src/Journal/Records.antt =====
-- The records of the journal and how they are read (src/diagnostics/journal.ts).
use codexhook.Base.{
  is_digit, ℕ, zero, suc, String, Bool, true, false, not, ◌&&◌, ◌||◌, Option, none, some, List, [],
  ◌∷◌, map, eqb, if◌then◌else◌,
}
use codexhook.Contracts.{
  DeliveryRoute, DeliveryStage, SanitizedDiagnostic, OutcomeTag, confirmed_tag, not_submitted_tag,
  ambiguous_tag, rejected_tag, DeliveryAttempt, DeliveryOutcome, confirmed_desktop,
  confirmed_app_server, is_ambiguous, is_rejected, is_unavailable,
}
use codexhook.Contracts.Diagnostics.{
  Value, text, whole, other, Source, as_stage, as_route, sanitize_diagnostic,
}
use codexhook.Contracts.Sanitized.{source_of}
use codexhook.Registry.Format.{codes}
use codexhook.Json.{
  Json, number, natural, object, array, Members, no_members, field, items_list, record_of, text_of,
  is_the_text,
}
use codexhook.Ipc.Framing.{is_given}

pub data DeliveryOutcomeTag : Type 0 where
  confirmed_desktop_tag confirmed_app_server_tag : DeliveryOutcomeTag
  ambiguous_outcome unavailable_outcome rejected_outcome : DeliveryOutcomeTag

pub record JournalAttempt : Type 0 where
  pub route : DeliveryRoute
  pub stage : DeliveryStage
  pub outcome : OutcomeTag
  pub diagnostic : Option SanitizedDiagnostic

pub record DeliveryTerminal : Type 0 where
  pub timestamp : String
  pub outcome : DeliveryOutcomeTag
  pub attempts : List JournalAttempt
  pub diagnostic : Option SanitizedDiagnostic

-- The text is the time.
pub data DiagnosticRecord : Type 0 where
  delivery_terminal : DeliveryTerminal → DiagnosticRecord
  diagnostic_record : String → SanitizedDiagnostic → DiagnosticRecord

abbrev pub sanitized : SanitizedDiagnostic → SanitizedDiagnostic
sanitized diagnostic = sanitize_diagnostic (source_of diagnostic)

abbrev pub sanitized_option : Option SanitizedDiagnostic → Option SanitizedDiagnostic
sanitized_option none = none
sanitized_option (some diagnostic) = some (sanitized diagnostic)

unfoldable pub journal_attempt : DeliveryAttempt → JournalAttempt
journal_attempt attempt = record {
  route = attempt.route;
  stage = attempt.stage;
  outcome = attempt.outcome;
  diagnostic = sanitized_option attempt.diagnostic;
}

abbrev pub terminal_diagnostic : DeliveryOutcome → Option SanitizedDiagnostic
terminal_diagnostic (is_ambiguous route failure) = some (sanitized failure.diagnostic)
terminal_diagnostic (is_unavailable failure) = some (sanitized failure.diagnostic)
terminal_diagnostic (is_rejected route failure) = some (sanitized failure.diagnostic)
terminal_diagnostic _ = none

abbrev pub outcome_tag : DeliveryOutcome → DeliveryOutcomeTag
outcome_tag (confirmed_desktop confirmation) = confirmed_desktop_tag
outcome_tag (confirmed_app_server confirmation) = confirmed_app_server_tag
outcome_tag (is_ambiguous route failure) = ambiguous_outcome
outcome_tag (is_unavailable failure) = unavailable_outcome
outcome_tag (is_rejected route failure) = rejected_outcome

abbrev pub attempts_of : DeliveryOutcome → List DeliveryAttempt
attempts_of (confirmed_desktop confirmation) = confirmation.attempts
attempts_of (confirmed_app_server confirmation) = confirmation.attempts
attempts_of (is_ambiguous route failure) = failure.attempts
attempts_of (is_unavailable failure) = failure.attempts
attempts_of (is_rejected route failure) = failure.attempts

-- The record of an outcome, and that of a diagnostic, at a time.
unfoldable pub outcome_record : String → DeliveryOutcome → DiagnosticRecord
outcome_record timestamp outcome = delivery_terminal (record {
  timestamp = timestamp;
  outcome = outcome_tag outcome;
  attempts = map journal_attempt (attempts_of outcome);
  diagnostic = terminal_diagnostic outcome;
})

unfoldable pub recorded_diagnostic : String → SanitizedDiagnostic → DiagnosticRecord
recorded_diagnostic timestamp diagnostic = diagnostic_record timestamp (sanitized diagnostic)

-- What follows a number of digits and then a character.
unfoldable pub after_digits : ℕ → ℕ → List ℕ → Option (List ℕ)
after_digits n end [] = none
after_digits zero end (c ∷ cs) = if eqb c end then some cs else none
after_digits (suc n) end (c ∷ cs) = if is_digit c then after_digits n end cs else none

-- `[\d:.]+Z`; `seen` tells whether there was a character before.
unfoldable pub is_time_of_day : Bool → List ℕ → Bool
is_time_of_day seen [] = false
is_time_of_day seen (c ∷ []) = seen && eqb c b'Z'
is_time_of_day seen (c ∷ next ∷ cs) =
    (is_digit c || (eqb c b':' || eqb c b'.')) && is_time_of_day true (next ∷ cs)

abbrev pub then_digits : ℕ → ℕ → Option (List ℕ) → Option (List ℕ)
then_digits n end none = none
then_digits n end (some cs) = after_digits n end cs

abbrev pub then_time_of_day : Option (List ℕ) → Bool
then_time_of_day none = false
then_time_of_day (some cs) = is_time_of_day false cs

-- `/^\d{4}-\d{2}-\d{2}T[\d:.]+Z$/`.
unfoldable pub is_iso_timestamp : String → Bool
is_iso_timestamp s =
    then_time_of_day (then_digits 2 b'T' (then_digits 2 b'-' (after_digits 4 b'-' (codes s))))

-- A property as the sanitizer sees it.
abbrev pub value_of : Option Json → Value
value_of (some (Json.text s)) = text s
value_of (some (number (natural n))) = whole n
value_of _ = other

abbrev pub source_of_members : Members → Source
source_of_members members = record {
  code = value_of (field "code" members);
  stage = value_of (field "stage" members);
  route = value_of (field "route" members);
  revision = value_of (field "protocolRevision" members);
  throws = false;
}

unfoldable pub parse_diagnostic : Option Json → Option SanitizedDiagnostic
parse_diagnostic (some (object members)) = some (sanitize_diagnostic (source_of_members members))
parse_diagnostic (some (array items)) = some (sanitize_diagnostic (source_of_members no_members))
parse_diagnostic _ = none

-- A diagnostic that may be left out: `none` where it is there and cannot be read.
unfoldable pub optional_diagnostic : Option Json → Option (Option SanitizedDiagnostic)
optional_diagnostic value =
    if not (is_given value)
    then some none
    else elim (parse_diagnostic value) [ none ↦ none | some diagnostic ↦ some (some diagnostic) ]

unfoldable pub attempt_outcome : Option Json → Option OutcomeTag
attempt_outcome value =
    if is_the_text "Confirmed" value
    then some confirmed_tag
    else (if is_the_text "NotSubmitted" value
        then some not_submitted_tag
        else (if is_the_text "Ambiguous" value
            then some ambiguous_tag
            else (if is_the_text "Rejected" value then some rejected_tag else none)))

unfoldable pub outcome_tag_of : Option Json → Option DeliveryOutcomeTag
outcome_tag_of value =
    if is_the_text "ConfirmedDesktop" value
    then some confirmed_desktop_tag
    else (if is_the_text "ConfirmedAppServer" value
        then some confirmed_app_server_tag
        else (if is_the_text "Ambiguous" value
            then some ambiguous_outcome
            else (if is_the_text "Unavailable" value
                then some unavailable_outcome
                else (if is_the_text "Rejected" value then some rejected_outcome else none))))

-- An attempt, where all its parts can be read.
abbrev pub attempt_of :
    Option DeliveryRoute
    → Option DeliveryStage
    → Option OutcomeTag
    → Option (Option SanitizedDiagnostic)
    → Option JournalAttempt
attempt_of (some route) (some stage) (some outcome) (some diagnostic) =
    some (record { route = route; stage = stage; outcome = outcome; diagnostic = diagnostic })
attempt_of _ _ _ _ = none

unfoldable pub parse_attempt : Json → Option JournalAttempt
parse_attempt value = elim (record_of (some value)) [
  | none ↦ none
  | some attempt ↦
      attempt_of (as_route (value_of (field "route" attempt)))
        (as_stage (value_of (field "stage" attempt))) (attempt_outcome (field "outcome" attempt))
        (optional_diagnostic (field "diagnostic" attempt))
]

abbrev pub cons_attempt :
    Option JournalAttempt → Option (List JournalAttempt) → Option (List JournalAttempt)
cons_attempt (some attempt) (some attempts) = some (attempt ∷ attempts)
cons_attempt _ _ = none

-- All attempts, or none where one cannot be read.
unfoldable pub parse_attempts : List Json → Option (List JournalAttempt)
parse_attempts [] = some []
parse_attempts (value ∷ values) = cons_attempt (parse_attempt value) (parse_attempts values)

unfoldable pub parse_items : Option Json → Option (List JournalAttempt)
parse_items (some (array items)) = parse_attempts (items_list items)
parse_items _ = none

abbrev pub terminal_of :
    String
    → Option DeliveryOutcomeTag
    → Option (List JournalAttempt)
    → Option (Option SanitizedDiagnostic)
    → Option DiagnosticRecord
terminal_of timestamp (some outcome) (some attempts) (some diagnostic) = some (
    delivery_terminal (record {
      timestamp = timestamp;
      outcome = outcome;
      attempts = attempts;
      diagnostic = diagnostic;
    }))
terminal_of _ _ _ _ = none

abbrev pub diagnostic_of : String → Option SanitizedDiagnostic → Option DiagnosticRecord
diagnostic_of timestamp none = none
diagnostic_of timestamp (some diagnostic) = some (diagnostic_record timestamp diagnostic)

unfoldable pub parse_timed : String → Members → Option DiagnosticRecord
parse_timed timestamp members =
    if is_the_text "diagnostic" (field "type" members)
    then diagnostic_of timestamp (parse_diagnostic (field "diagnostic" members))
    else (if is_the_text "delivery-terminal" (field "type" members)
        then terminal_of timestamp (outcome_tag_of (field "outcome" members))
            (parse_items (field "attempts" members))
            (optional_diagnostic (field "diagnostic" members))
        else none)

-- `schemaVersion === 1`.
abbrev pub is_schema_one : Option Json → Bool
is_schema_one (some (number (natural n))) = eqb n 1
is_schema_one _ = false

unfoldable pub parse_members : Members → Option DiagnosticRecord
parse_members members = elim (text_of (field "timestamp" members)) [
  | none ↦ none
  | some timestamp ↦
      if is_schema_one (field "schemaVersion" members) && is_iso_timestamp timestamp
      then parse_timed timestamp members
      else none
]

unfoldable pub parse_record : Json → Option DiagnosticRecord
parse_record (object members) = parse_members members
parse_record _ = none

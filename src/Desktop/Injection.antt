-- ===== src/Desktop/Injection.antt =====
-- What proves that a command has reached the task (src/transport/desktop-injection.ts).
pub mod Proof
mod Examples
use codexhook.Base.{
  ℕ, ◌==◌, String, Bool, true, false, not, ◌&&◌, ◌||◌, Option, none, some, List, [], ◌∷◌, map, keep,
  any, eqb, leb, is_some, if◌then◌else◌,
}
use codexhook.Desktop.{Turn, StartCommand, DesktopCommand, start, steer}
use codexhook.Desktop.State.{DesktopThreadState, ready, turns_snapshot, turn_of, has_delivery}

pub record DesktopProofBaseline : Type 0 where
  pub delivery_observed : Bool
  pub generation : ℕ
  pub revision : Option ℕ
  pub turn_ids : List String

abbrev pub expected_turn : DesktopCommand → Option String
expected_turn (start command) = none
expected_turn (steer command) = some command.expected_turn_id

abbrev pub client_id : DesktopCommand → String
client_id (start command) = command.client_user_message_id
client_id (steer command) = command.client_user_message_id

unfoldable pub capture_desktop_proof : DesktopCommand → DesktopThreadState → DesktopProofBaseline
capture_desktop_proof command s = record {
  delivery_observed = has_delivery (client_id command) (expected_turn command) s;
  generation = s.generation;
  revision = s.revision;
  turn_ids = map (λ (turn : Turn). turn.id) (turns_snapshot s);
}

-- Both revisions are known and the second is greater.
abbrev pub is_later : Option ℕ → Option ℕ → Bool
is_later none current = false
is_later (some base) none = false
is_later (some base) (some current) = not (leb current base)

-- The guards that both proofs share.
unfoldable pub has_advanced : DesktopThreadState → DesktopProofBaseline → Bool
has_advanced s baseline =
    ready s && (eqb s.generation baseline.generation && is_later baseline.revision s.revision)

unfoldable pub is_novel : DesktopProofBaseline → String → Bool
is_novel baseline turn_id = not (any (λ id. id == turn_id) baseline.turn_ids)

abbrev pub only_id : List Turn → Option String
only_id (turn ∷ []) = some turn.id
only_id _ = none

unfoldable pub find_proven_start_turn :
    StartCommand → DesktopThreadState → DesktopProofBaseline → Option String
find_proven_start_turn command s baseline =
    if not (has_advanced s baseline)
      || (baseline.delivery_observed || not (has_delivery command.client_user_message_id none s))
    then none
    else only_id (keep (λ (turn : Turn). is_novel baseline turn.id) (turns_snapshot s))

unfoldable pub proves_command :
    DesktopCommand → DesktopThreadState → String → DesktopProofBaseline → Bool
proves_command (steer command) s turn_id baseline =
    not baseline.delivery_observed && has_delivery command.client_user_message_id (some turn_id) s
proves_command (start command) s turn_id baseline = is_novel baseline turn_id

unfoldable pub proves_desktop_injection :
    DesktopCommand → DesktopThreadState → String → DesktopProofBaseline → Bool
proves_desktop_injection command s turn_id baseline =
    if not (has_advanced s baseline)
    then false
    else (if not (is_some (turn_of turn_id s))
        then false
        else proves_command command s turn_id baseline)

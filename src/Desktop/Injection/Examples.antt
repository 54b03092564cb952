-- ===== src/Desktop/Injection/Examples.antt =====
-- The proof of a start at concrete states.
use codexhook.Base.{refl, none, some, [], ◌∷◌, any, keep, arith}
use codexhook.Base.Dict.{get}
use codexhook.Contracts.{in_progress}
use codexhook.Desktop.{Turn, null, StartCommand}
use codexhook.Desktop.State.{
  DesktopThreadState, new_state, connected, synchronized, injecting, has_delivery, has_value,
}
use codexhook.Desktop.State.Consistent.{IsConsistent}
use codexhook.Desktop.Injection.{
  capture_desktop_proof, find_proven_start_turn, has_advanced, is_novel,
}
use codexhook.Desktop.Injection.Proof.{Proves, find_proven_start_turn-Proves}

abbrev command : StartCommand
command = record {
  thread_id = "task";
  client_user_message_id = "delivery-1";
  input = "hello";
  timeout_ms = none;
}

abbrev before : DesktopThreadState
before = record (new_state "task") {
  connection = connected;
  attachment = synchronized;
  generation = 1;
  revision = some 4;
  injection = injecting;
}

abbrev started : Turn
started = record { id = "turn-1"; status = in_progress; error = null }

abbrev now : DesktopThreadState
now = record before {
  revision = some 5;
  observed = record {
    delivery_ids = "delivery-1" ∷ [];
    delivery_turns = ("delivery-1", "turn-1") ∷ [];
    entity_turns = ("a", "turn-1") ∷ [];
    turns = ("turn-1", started) ∷ [];
  };
}

now-IsConsistent : IsConsistent now.observed
unfolding get has_value any
now-IsConsistent = record {
  distinct = (refl, tt);
  bound = λ id. ground arith;
  own = (refl, tt);
  delivered = λ id h. h;
}

find_proven_start_turn-Proves_example : Proves command before now "turn-1"
unfolding find_proven_start_turn capture_desktop_proof has_advanced has_delivery is_novel any keep
find_proven_start_turn-Proves_example =
    find_proven_start_turn-Proves command before now "turn-1" now-IsConsistent refl

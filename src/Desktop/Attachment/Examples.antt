-- ===== src/Desktop/Attachment/Examples.antt =====
-- A start that the desktop application rejects, and one whose write fails.
use codexhook.Base.{◌≡◌, refl, true, false, not, ◌&&◌, some, none, keep}
use codexhook.Base.Result.{ok, err}
use codexhook.Types.{queue}
use codexhook.Contracts.{tag_of, not_submitted_tag, ambiguous_tag}
use codexhook.Desktop.{DesktopCommand, start}
use codexhook.Desktop.State.{
  DesktopThreadState, new_state, connected, synchronized, active_turn, count_beyond_one,
  set_injection,
}
use codexhook.Ipc.{write_failed, unknown_write, operation}
use codexhook.Ipc.Adapters.{ReceiptOutcome, no_client_found}
use codexhook.Desktop.Attachment.{
  World, reply_of, inject, inject_following, after_reply, await_proof, is_invalid, route_outcome,
}
use codexhook.Desktop.Attachment.Told.{
  Ending, is_ruled_out, is_sent, is_not_submitted_tag, inject-tells,
}

abbrev command : DesktopCommand
command = start (record {
  thread_id = "task";
  client_user_message_id = "delivery-1";
  input = "hello";
  timeout_ms = none;
})

abbrev state : DesktopThreadState
state = record (new_state "task") {
  connection = connected;
  attachment = synchronized;
  generation = 1;
  revision = some 4;
}

abbrev no_client : Ending
no_client = ok (ReceiptOutcome.rejected no_client_found)

abbrev torn : Ending
torn =
    err (some (record { failure = write_failed; stage = operation; write_state = unknown_write }))

abbrev world_with : Ending → World
world_with ending = record {
  follows = true;
  during_follow = λ s. s;
  reply = reply_of ending;
  during_write = λ s. s;
  in_time = false;
  during_wait = λ s. s;
}

no_client-NotSubmitted :
    tag_of (route_outcome "delivery-1" queue (inject (world_with no_client) command state).0)
    ≡ not_submitted_tag
unfolding route_outcome inject inject_following after_reply reply_of is_invalid active_turn
    count_beyond_one keep set_injection
no_client-NotSubmitted = refl

torn-Ambiguous :
    tag_of (route_outcome "delivery-1" queue (inject (world_with torn) command state).0)
    ≡ ambiguous_tag
unfolding route_outcome inject inject_following after_reply reply_of await_proof is_invalid
    active_turn count_beyond_one keep set_injection
torn-Ambiguous = refl

inject-tells_example :
    is_not_submitted_tag
      (tag_of (route_outcome "delivery-1" queue (inject (world_with torn) command state).0))
    ≡ not (is_sent (world_with torn) command state && not (is_ruled_out torn))
inject-tells_example = inject-tells (world_with torn) command torn "delivery-1" queue state refl

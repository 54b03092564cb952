-- ===== src/AppServer/Submit/Examples.antt =====
-- The app-server submission at a concrete steer.
use codexhook.Base.{◌≡◌, refl, String, true, some, [], ◌∷◌, keep}
use codexhook.Types.{steer}
use codexhook.Contracts.{unknown}
use codexhook.Coordinator.Route.{LocalSubmission}
use codexhook.AppServer.Mutation.{written, is_late}
use codexhook.AppServer.Submit.{
  usable_client, ClientWorld, steer_turn, submit, submit_steer, steer_active, call,
}
use codexhook.AppServer.Submit.Written.{Agrees, submit-Agrees}

abbrev request : LocalSubmission
request = record {
  task = record { thread_id = "t1"; origin = unknown };
  delivery_id = "d1";
  message = "done";
  mode = steer;
  reply_timeout = 1000;
}

-- One turn is in progress, and the reply comes too late.
abbrev world : ClientWorld String
world = record {
  state = usable_client;
  reads_task = true;
  history = some (
      record { id = "u1"; status = "completed" }
      ∷ record { id = "u2"; status = "inProgress" }
      ∷ []);
  exits = λ turn. some (record { prepares = true; submit = written; reply = is_late });
}

world_calls : (submit request world).1 ≡ steer_turn "t1" "u2" "d1" "done" ∷ []
unfolding submit submit_steer steer_active call keep
world_calls = refl

submit-Agrees_example : Agrees request world (submit request world)
submit-Agrees_example = submit-Agrees request world

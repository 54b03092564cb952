-- ===== src/Ipc/Wire/Examples.antt =====
-- A connection with three requests: the socket takes the first, throws at the second, and the third
-- comes after the end. The printer and the parser are constant.
use codexhook.Base.{
  ℕ, ◌+◌, ◌≤◌, ◌≡◌, refl, ◌==◌, eq_iff, String, true, false, Option, none, some, List, [], ◌∷◌,
  arith,
}
use codexhook.Json.{Json, null, natural}
use codexhook.Ipc.Wire.{
  DesktopWireLimits, RequestCall, Call, requests, receives, times_out, closes, opened, run,
}
use codexhook.Ipc.Wire.Promises.{one}
use codexhook.Ipc.Wire.Settled.{all_asked, IsAccounted, opened-IsAccounted}
use codexhook.Ipc.Wire.Honest.{IsHonest}
use codexhook.Ipc.Wire.Outcomes.{opened-IsHonest}

abbrev limits : DesktopWireLimits
limits = record {
  max_inbound_frame_bytes = 64;
  max_outbound_frame_bytes = 64;
  max_pending_requests = 2;
  max_request_timeout_ms = 1000;
  min_request_timeout_ms = 10;
}

abbrev call : RequestCall
call = record {
  method = "thread-follow";
  params = null;
  version = natural 1;
  timeout_ms = natural 100;
  target_client_id = none;
}

abbrev print : Json → Option (List ℕ)
print value = some (123 ∷ 125 ∷ [])

abbrev parse : List ℕ → Option Json
parse bytes = none

abbrev calls : List Call
calls =
    requests "first" call true
    ∷ requests "second" call false
    ∷ receives (2 ∷ 0 ∷ 0 ∷ []) true
    ∷ times_out "other"
    ∷ closes
    ∷ requests "third" call true
    ∷ []

distinct_ids :
    (a b c id : String)
    → ((a == b) ≡ false) × ((a == c) ≡ false) × ((b == c) ≡ false)
    → one a id + (one b id + (0 + (0 + (0 + (one c id + 0))))) ≤ 1
distinct_ids a b c id h =
    ground (arith, eq_iff a id, eq_iff b id, eq_iff c id, eq_iff a b, eq_iff a c, eq_iff b c)

calls-once : (id : String) → all_asked id calls ≤ 1
calls-once id = distinct_ids "first" "second" "third" id (refl, refl, refl)

opened-IsAccounted_example :
    IsAccounted (λ id. all_asked id calls) (run parse print limits calls opened)
opened-IsAccounted_example = opened-IsAccounted parse print limits calls calls-once

opened-IsHonest_example : IsHonest [] (run parse print limits calls opened).0
opened-IsHonest_example = opened-IsHonest parse print limits calls calls-once

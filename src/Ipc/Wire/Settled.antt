-- ===== src/Ipc/Wire/Settled.antt =====
-- The promises of the requests of a connection (src/transport/desktop-ipc/wire.ts).
use mathlib.Core.Path.{subst}
use codexhook.Base.{
  ℕ, ◌+◌, ◌≤◌, ◌≡◌, refl, sym, ◌==◌, eq_iff, eq_refl, String, Bool, true, false, Option, none, List,
  [], ◌∷◌, arith, Bool-cases, Option-cases, inl, inr, if◌then◌else◌,
}
use codexhook.Base.Result.{Result-cases}
use codexhook.Base.Dict.{
  set-IsDistinct, delete-IsDistinct, get, set, delete, has, get-set, get-delete,
}
use codexhook.Json.{Json, JsonNumber}
use codexhook.Ipc.{DesktopProtocolError, closed}
use codexhook.Ipc.Framing.{encode_desktop_frame, push}
use codexhook.Ipc.Wire.{
  DesktopWireLimits, closed_end, protocol_error, WireEvent, rejects, writes_request, PendingRequest,
  RawDesktopConnection, opened, close, end, end_failure, RequestCall, request_envelope,
  validate_request, time_out, write_callback, submit_frame, start_request, request, alive,
  malformed_of, handle_all, receive, Call, requests, receives, times_out, reports_failure,
  initializes, closes, stops_writing, socket_ends, step, run,
}
use codexhook.Ipc.Wire.Promises.{
  one, settled, settled-append, waits, IsOver, IsValid, Keeps, quiet-Keeps, finish-Keeps,
  reject_pending-Keeps, destroyed-IsValid, then-Keeps, settled-malformed_of, handle_all-Keeps,
}

waits-set :
    (id j : String) (entry : PendingRequest) (pending : List (String × PendingRequest))
    → waits j (set id entry pending) ≡ (if id == j then 1 else waits j pending)
waits-set id j entry pending = ground (arith, eq_iff id j, get-set id j entry pending)

waits-delete :
    (id j : String) (pending : List (String × PendingRequest))
    → waits j (delete id pending) ≡ (if id == j then 0 else waits j pending)
waits-delete id j pending = ground (arith, eq_iff id j, get-delete id j pending)

-- A request after which its promise is pending or settled once more.
record Asks (id : String) (c : RawDesktopConnection) (out : List WireEvent × RawDesktopConnection)
    : Type 0 where
  valid : IsValid out.1
  balanced : (j : String) → settled j out.0 + waits j out.1.pending ≡ one id j + waits j c.pending

alive-IsOver :
    (c : RawDesktopConnection) (pending : List (String × PendingRequest))
    → alive c ≡ true
    → IsOver c.ended pending
alive-IsOver c pending h = elim (Bool-cases c.ended) [
  | inl over ↦ absurd (ground arith)
  | inr running ↦ subst (λ e. IsOver e pending) (sym running) tt
]

-- The connection with other requests pending.
abbrev with_pending : RawDesktopConnection → List (String × PendingRequest) → RawDesktopConnection
with_pending c pending = record c { pending = pending }

abbrev unwritten : PendingRequest
unwritten = record { written = false }

-- The request fails at once.
failed-Asks :
    (id : String) (failure : DesktopProtocolError) (c : RawDesktopConnection)
    → IsValid c
    → alive c ≡ true
    → has id c.pending ≡ false
    → Asks id c (rejects id failure ∷ [], with_pending c (delete id (set id unwritten c.pending)))
failed-Asks id failure c v living fresh = record {
  valid = record {
    distinct =
        delete-IsDistinct id (set id unwritten c.pending)
          (set-IsDistinct id unwritten c.pending v.distinct);
    over = alive-IsOver c _ living;
  };
  balanced = λ j. ground (
    arith,
    eq_iff id j,
    waits-delete id j (set id unwritten c.pending),
    waits-set id j unwritten c.pending,
  );
}

written-Asks :
    (id : String) (frame : List ℕ) (c : RawDesktopConnection)
    → IsValid c
    → alive c ≡ true
    → has id c.pending ≡ false
    → Asks id c (
      writes_request id frame ∷ [],
      with_pending c (set id (record { written = true }) (set id unwritten c.pending)),
    )
written-Asks id frame c v living fresh = record {
  valid = record {
    distinct =
        set-IsDistinct id _ (set id unwritten c.pending)
          (set-IsDistinct id unwritten c.pending v.distinct);
    over = alive-IsOver c _ living;
  };
  balanced = λ j. ground (
    arith,
    eq_iff id j,
    waits-set id j (record { written = true }) (set id unwritten c.pending),
    waits-set id j unwritten c.pending,
  );
}

valid-alive :
    (limits : DesktopWireLimits) (timeout_ms : JsonNumber) (c : RawDesktopConnection)
    → validate_request limits timeout_ms c ≡ none
    → alive c ≡ true
unfolding validate_request
valid-alive limits timeout_ms c h = elim (Bool-cases (alive c)) [
  | inl living ↦ living
  | inr dead ↦ absurd (ground arith)
]

module _ (stringify : Json → Option (List ℕ)) (limits : DesktopWireLimits) where
  start_request-Asks :
      (id : String) (call : RequestCall) (taken : Bool) (c : RawDesktopConnection)
      → IsValid c
      → alive c ≡ true
      → has id c.pending ≡ false
      → Asks id c (start_request stringify limits id call taken c)
  unfolding start_request submit_frame
  start_request-Asks id call taken c v living fresh =
      elim (Result-cases (
        encode_desktop_frame stringify limits.max_outbound_frame_bytes
          (request_envelope id c.client_id call))) [
            | inl (failure, refused) ↦
                rw (refused, start_request) (failed-Asks id failure c v living fresh)
            | inr (frame, made) ↦ elim (Bool-cases taken) [
              | inl taking ↦
                  rw (made, start_request, taking) (written-Asks id frame c v living fresh)
              | inr throwing ↦
                  rw (made, start_request, throwing) (failed-Asks id _ c v living fresh)
            ]
          ]

  request-Asks :
      (id : String) (call : RequestCall) (taken : Bool) (c : RawDesktopConnection)
      → IsValid c
      → has id c.pending ≡ false
      → Asks id c (request stringify limits id call taken c)
  unfolding request
  request-Asks id call taken c v fresh =
      elim (Option-cases (validate_request limits call.timeout_ms c)) [
        | inr (failure, refused) ↦
            rw (refused, request) (record { valid = v; balanced = λ j. omega arith })
        | inl valid ↦
            rw (valid, request)
              (start_request-Asks id call taken c v (valid-alive limits call.timeout_ms c valid)
                fresh)
      ]

-- How often a call is a request of the id.
abbrev pub asked : String → Call → ℕ
asked id (requests j call taken) = one j id
asked id _ = 0

abbrev pub all_asked : String → List Call → ℕ
all_asked id [] = 0
all_asked id (call ∷ calls) = asked id call + all_asked id calls

-- Every promise is pending or has been settled once, and none is pending once the connection has
-- ended.
pub record IsAccounted (asked : String → ℕ) (out : List WireEvent × RawDesktopConnection)
    : Type 0 where
  pub valid : IsValid out.1
  pub balanced : (id : String) → settled id out.0 + waits id out.1.pending ≡ asked id

module _ (parse : List ℕ → Option Json) (stringify : Json → Option (List ℕ))
    (limits : DesktopWireLimits) where
  receive-Keeps :
      (chunk : List ℕ) (taken : Bool) (c : RawDesktopConnection)
      → IsValid c
      → Keeps c (receive parse stringify limits chunk taken c)
  unfolding receive end
  receive-Keeps chunk taken c v =
      elim (Result-cases (push parse limits.max_inbound_frame_bytes c.buffer chunk)) [
        | inl (failure, thrown) ↦
            let emptied = record c { buffer = [] } in
            let last =
              finish-Keeps (end_failure protocol_error) protocol_error emptied
                (record { distinct = v.distinct; over = v.over }) in
            rw (thrown, receive)
              (record { valid = destroyed-IsValid _ last.valid; balanced = last.balanced })
        | inr ((events, rest), decoded) ↦
            let later = record c { buffer = rest } in
            let handled =
              handle_all-Keeps stringify limits events taken later
                (record { distinct = v.distinct; over = v.over }) in
            rw (decoded, receive)
              (then-Keeps c (malformed_of events, later)
                (handle_all stringify limits events taken later)
                (quiet-Keeps c later (malformed_of events) (λ id. settled-malformed_of id events)
                  (record { distinct = v.distinct; over = v.over }) refl)
                handled)
      ]

  -- A step and what it asks for.
  counted :
      (call : Call) (c : RawDesktopConnection) (out : List WireEvent × RawDesktopConnection)
      → ((id : String) → asked id call ≡ 0)
      → Keeps c out
      → IsAccounted (λ id. asked id call + waits id c.pending) out
  counted call c out quiet k = record {
    valid = k.valid;
    balanced = λ id. let b = k.balanced id in omega (arith, quiet id);
  }

  pub step-IsAccounted :
      (call : Call) (c : RawDesktopConnection)
      → IsValid c
      → ((id : String) → asked id call + waits id c.pending ≤ 1)
      → IsAccounted (λ id. asked id call + waits id c.pending) (step parse stringify limits call c)
  unfolding step time_out write_callback close end
  step-IsAccounted (requests id call taken) c v once =
      let a =
        request-Asks stringify limits id call taken c v
          (let o = once id in ground (arith, eq_refl id)) in
      record { valid = a.valid; balanced = a.balanced }
  step-IsAccounted (receives chunk taken) c v once =
      counted (receives chunk taken) c _ (λ id. refl) (receive-Keeps chunk taken c v)
  step-IsAccounted (times_out id) c v once =
      counted (times_out id) c _ (λ id. refl) (reject_pending-Keeps id _ c v)
  step-IsAccounted (reports_failure id) c v once =
      counted (reports_failure id) c _ (λ id. refl) (reject_pending-Keeps id _ c v)
  step-IsAccounted (initializes id) c v once =
      counted (initializes id) c _ (λ id. refl)
        (quiet-Keeps c _ [] (λ id. refl) (record { distinct = v.distinct; over = v.over }) refl)
  step-IsAccounted closes c v once =
      let k =
        finish-Keeps closed closed_end (record c { destroyed = true }) (destroyed-IsValid c v) in
      counted closes c _ (λ id. refl) (record { valid = k.valid; balanced = k.balanced })
  step-IsAccounted stops_writing c v once =
      counted stops_writing c _ (λ id. refl)
        (quiet-Keeps c _ [] (λ id. refl) (record { distinct = v.distinct; over = v.over }) refl)
  step-IsAccounted (socket_ends reason) c v once =
      counted (socket_ends reason) c _ (λ id. refl) (finish-Keeps _ reason c v)

  run-IsAccounted :
      (calls : List Call) (c : RawDesktopConnection)
      → IsValid c
      → ((id : String) → all_asked id calls + waits id c.pending ≤ 1)
      → IsAccounted
          (λ id. all_asked id calls + waits id c.pending)
          (run parse stringify limits calls c)
  unfolding run
  run-IsAccounted [] c v once = record { valid = v; balanced = λ id. refl }
  run-IsAccounted (call ∷ calls) c v once =
      let first = step-IsAccounted call c v (λ id. let o = once id in omega arith) in
      let later =
        run-IsAccounted calls (step parse stringify limits call c).1 first.valid
          (λ id. let o = once id in let b = first.balanced id in omega arith) in
      record {
        valid = later.valid;
        balanced = λ id.
            let b = first.balanced id in
            let l = later.balanced id in
            omega (
              arith,
              settled-append id (step parse stringify limits call c).0
                  (run parse stringify limits calls (step parse stringify limits call c).1).0,
            );
      }

  -- After any calls of an open connection and events of its socket and timers, where no request id
  -- is drawn twice, the promise of every request is either pending and not settled or settled
  -- exactly once, no other promise is settled, and once the connection has ended nothing is pending.
  pub opened-IsAccounted :
      (calls : List Call)
      → ((id : String) → all_asked id calls ≤ 1)
      → IsAccounted (λ id. all_asked id calls) (run parse stringify limits calls opened)
  unfolding get
  opened-IsAccounted calls once =
      let a =
        run-IsAccounted calls opened (record { distinct = tt; over = tt })
          (λ id. let o = once id in omega arith) in
      record { valid = a.valid; balanced = λ id. let b = a.balanced id in omega arith }

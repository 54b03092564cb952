-- ===== src/Ipc/Wire/Promises.antt =====
-- What the steps of a connection but `request` do to the promises (src/transport/desktop-ipc/wire.ts).
use codexhook.Base.{
  ℕ, ◌+◌, ◌≡◌, refl, ap, ◌∙◌, ◌==◌, eq_iff, String, Bool, true, false, not, Option, none, some,
  List, [], ◌∷◌, ◌++◌, arith, Bool-cases, Option-cases, inl, inr, if◌then◌else◌,
}
use codexhook.Base.Result.{Result-cases}
use codexhook.Base.Dict.{IsDistinct, delete-IsDistinct, get, delete, has, get-delete}
use codexhook.Json.{Json, Members, text_of, field, is_the_text}
use codexhook.Ipc.{DesktopProtocolError, DesktopProtocolFailure}
use codexhook.Ipc.Framing.{FrameEvent, malformed, message, encode_desktop_frame}
use codexhook.Ipc.Wire.{
  DesktopWireLimits, EndReason, WireEvent, resolves, rejects, writes_request, writes_other,
  observes, tells_broadcast, PendingRequest, RawDesktopConnection, reject_all, finish_if, finish,
  reject_pending, request, write_discovery_response, alive, discovery_envelope, answer, handle,
  malformed_of, handle_all,
}

-- 1 where the ids are the same.
abbrev pub one : String → String → ℕ
one j id = if j == id then 1 else 0

-- How often the promise of a request is resolved or rejected.
abbrev pub settled : String → List WireEvent → ℕ
settled id [] = 0
settled id (resolves j envelope ∷ events) = one j id + settled id events
settled id (rejects j failure ∷ events) = one j id + settled id events
settled id (writes_request j frame ∷ events) = settled id events
settled id (writes_other frame ∷ events) = settled id events
settled id (observes observation ∷ events) = settled id events
settled id (tells_broadcast envelope ∷ events) = settled id events

pub settled-append :
    (id : String) (xs ys : List WireEvent) → settled id (xs ++ ys) ≡ settled id xs + settled id ys
settled-append id [] ys = omega arith
settled-append id (resolves j envelope ∷ xs) ys = omega (arith, settled-append id xs ys)
settled-append id (rejects j failure ∷ xs) ys = omega (arith, settled-append id xs ys)
settled-append id (writes_request j frame ∷ xs) ys = settled-append id xs ys
settled-append id (writes_other frame ∷ xs) ys = settled-append id xs ys
settled-append id (observes observation ∷ xs) ys = settled-append id xs ys
settled-append id (tells_broadcast envelope ∷ xs) ys = settled-append id xs ys

-- 1 where the request is pending.
abbrev pub waits : String → List (String × PendingRequest) → ℕ
waits id pending = if has id pending then 1 else 0

-- Nothing is pending once the connection has ended.
abbrev pub IsOver : Bool → List (String × PendingRequest) → Type 0
IsOver true pending = pending ≡ []
IsOver false pending = Unit

pub record IsValid (c : RawDesktopConnection) : Type 0 where
  pub distinct : IsDistinct c.pending
  pub over : IsOver c.ended c.pending

-- A step after which every promise is pending or settled as often as it was pending before.
pub record Keeps (c : RawDesktopConnection) (out : List WireEvent × RawDesktopConnection)
    : Type 0 where
  pub valid : IsValid out.1
  pub balanced : (id : String) → settled id out.0 + waits id out.1.pending ≡ waits id c.pending

settled-reject_all :
    (id : String) (failure : DesktopProtocolFailure) (pending : List (String × PendingRequest))
    → IsDistinct pending
    → settled id (reject_all failure pending) ≡ waits id pending
unfolding reject_all get
settled-reject_all id failure [] d = refl
settled-reject_all id failure ((j, request) ∷ pending) (fresh, d) =
    ground (arith, eq_iff j id, settled-reject_all id failure pending d)

-- A step that settles nothing and leaves the requests as they are.
pub quiet-Keeps :
    (c c' : RawDesktopConnection) (events : List WireEvent)
    → ((id : String) → settled id events ≡ 0)
    → IsValid c'
    → c'.pending ≡ c.pending
    → Keeps c (events, c')
quiet-Keeps c c' events nothing v same = record {
  valid = v;
  balanced = λ id. rw same (omega (arith, nothing id));
}

finish_if-Keeps :
    (ended : Bool) (failure : DesktopProtocolFailure) (reason : EndReason)
    (c : RawDesktopConnection)
    → IsValid c
    → Keeps c (finish_if ended failure reason c)
unfolding get
finish_if-Keeps true failure reason c v = quiet-Keeps c c [] (λ id. refl) v refl
finish_if-Keeps false failure reason c v = record {
  valid = record { distinct = tt; over = refl };
  balanced = λ id. omega (
    arith,
    settled-append id (reject_all failure c.pending) (observes _ ∷ []),
    settled-reject_all id failure c.pending v.distinct,
  );
}

pub finish-Keeps :
    (failure : DesktopProtocolFailure) (reason : EndReason) (c : RawDesktopConnection)
    → IsValid c
    → Keeps c (finish failure reason c)
unfolding finish
finish-Keeps failure reason c v = finish_if-Keeps c.ended failure reason c v

pub delete-IsOver :
    (id : String) (ended : Bool) (pending : List (String × PendingRequest))
    → IsOver ended pending
    → IsOver ended (delete id pending)
unfolding delete
delete-IsOver id true pending over = ap (delete id) over
delete-IsOver id false pending over = tt

pub reject_pending-Keeps :
    (id : String) (error : PendingRequest → DesktopProtocolError) (c : RawDesktopConnection)
    → IsValid c
    → Keeps c (reject_pending id error c)
unfolding reject_pending
reject_pending-Keeps id error c v = elim (Option-cases (get id c.pending)) [
  | inl absent ↦ rw (absent, reject_pending) (quiet-Keeps c c [] (λ id. refl) v refl)
  | inr (entry, here) ↦
      rw (here, reject_pending)
        (record {
          valid = record {
            distinct = delete-IsDistinct id c.pending v.distinct;
            over = delete-IsOver id c.ended c.pending v.over;
          };
          balanced = λ j. ground (arith, eq_iff id j, get-delete id j c.pending);
        })
]

answer-Keeps :
    (id : Option String) (envelope : Members) (c : RawDesktopConnection)
    → IsValid c
    → Keeps c (answer id envelope c)
unfolding answer
answer-Keeps none envelope c v = quiet-Keeps c c [] (λ id. refl) v refl
answer-Keeps (some id) envelope c v = elim (Option-cases (get id c.pending)) [
  | inl absent ↦ rw (absent, answer) (quiet-Keeps c c _ (λ id. refl) v refl)
  | inr (entry, here) ↦
      rw (here, answer)
        (record {
          valid = record {
            distinct = delete-IsDistinct id c.pending v.distinct;
            over = delete-IsOver id c.ended c.pending v.over;
          };
          balanced = λ j. ground (arith, eq_iff id j, get-delete id j c.pending);
        })
]

pub destroyed-IsValid :
    (c : RawDesktopConnection) → IsValid c → IsValid (record c { destroyed = true })
destroyed-IsValid c v = record { distinct = v.distinct; over = v.over }

-- A result whose last connection differs in the socket only.
pub same_pending-Keeps :
    (c c' : RawDesktopConnection) (out : List WireEvent × RawDesktopConnection)
    → c'.pending ≡ c.pending
    → Keeps c' out
    → Keeps c out
same_pending-Keeps c c' out same k = record {
  valid = k.valid;
  balanced = λ id. k.balanced id ∙ ap (waits id) same;
}

pub then-Keeps :
    (c : RawDesktopConnection) (first second : List WireEvent × RawDesktopConnection)
    → Keeps c first
    → Keeps first.1 second
    → Keeps c (first.0 ++ second.0, second.1)
then-Keeps c first second k l = record {
  valid = l.valid;
  balanced = λ id.
      let a = k.balanced id in
      let b = l.balanced id in omega (arith, settled-append id first.0 second.0);
}

pub settled-malformed_of :
    (id : String) (events : List FrameEvent) → settled id (malformed_of events) ≡ 0
unfolding malformed_of
settled-malformed_of id [] = refl
settled-malformed_of id (malformed ∷ events) = settled-malformed_of id events
settled-malformed_of id (message envelope ∷ events) = settled-malformed_of id events

module _ (stringify : Json → Option (List ℕ)) (limits : DesktopWireLimits) where
  discovery-Keeps :
      (id : Option String) (taken : Bool) (c : RawDesktopConnection)
      → IsValid c
      → Keeps c (write_discovery_response stringify limits id taken c)
  unfolding write_discovery_response
  discovery-Keeps none taken c v = quiet-Keeps c c [] (λ id. refl) v refl
  discovery-Keeps (some id) taken c v = elim (Bool-cases (not (alive c))) [
    | inl dead ↦ rw (dead, write_discovery_response) (quiet-Keeps c c [] (λ id. refl) v refl)
    | inr living ↦
        elim (Result-cases (
          encode_desktop_frame stringify limits.max_outbound_frame_bytes (discovery_envelope id))) [
            | inl (failure, refused) ↦
                rw (living, write_discovery_response, refused)
                  (quiet-Keeps c (record c { destroyed = true }) [] (λ id. refl)
                    (destroyed-IsValid c v) refl)
            | inr (frame, made) ↦ elim (Bool-cases taken) [
              | inl taking ↦
                  rw (living, write_discovery_response, made, taking)
                    (quiet-Keeps c c (writes_other frame ∷ []) (λ id. refl) v refl)
              | inr throwing ↦
                  rw (living, write_discovery_response, made, throwing)
                    (quiet-Keeps c (record c { destroyed = true }) [] (λ id. refl)
                      (destroyed-IsValid c v) refl)
            ]
          ]
  ]

  handle-Keeps :
      (envelope : Members) (taken : Bool) (c : RawDesktopConnection)
      → IsValid c
      → Keeps c (handle stringify limits envelope taken c)
  unfolding handle
  handle-Keeps envelope taken c v =
      elim (Bool-cases (is_the_text "client-discovery-request" (field "type" envelope))) [
        | inl asks ↦
            rw (asks, handle) (discovery-Keeps (text_of (field "requestId" envelope)) taken c v)
        | inr no_question ↦ elim (Bool-cases (is_the_text "broadcast" (field "type" envelope))) [
          | inl tells ↦ rw (no_question, handle, tells) (quiet-Keeps c c _ (λ id. refl) v refl)
          | inr no_broadcast ↦ elim (Bool-cases (is_the_text "response" (field "type" envelope))) [
            | inl answers ↦
                rw (no_question, handle, no_broadcast, answers)
                  (answer-Keeps (text_of (field "requestId" envelope)) envelope c v)
            | inr other ↦
                rw (no_question, handle, no_broadcast, other)
                  (quiet-Keeps c c [] (λ id. refl) v refl)
          ]
        ]
      ]

  pub handle_all-Keeps :
      (events : List FrameEvent) (taken : Bool) (c : RawDesktopConnection)
      → IsValid c
      → Keeps c (handle_all stringify limits events taken c)
  unfolding handle_all
  handle_all-Keeps [] taken c v = quiet-Keeps c c [] (λ id. refl) v refl
  handle_all-Keeps (malformed ∷ events) taken c v = handle_all-Keeps events taken c v
  handle_all-Keeps (message envelope ∷ events) taken c v =
      let first = handle-Keeps envelope taken c v in
      then-Keeps c (handle stringify limits envelope taken c) _ first
        (handle_all-Keeps events taken (handle stringify limits envelope taken c).1 first.valid)

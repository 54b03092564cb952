-- ===== src/Ipc/Owners/Waiting.antt =====
-- Who waits in `DesktopThreadOwners`, and the owners that stay
-- (src/transport/desktop-ipc/thread-owners.ts).
use codexhook.Base.{
  ℕ, ◌≡◌, refl, ◌==◌, eq_iff, String, Bool, true, false, not, ◌&&◌, ◌||◌, Option, none, some, List,
  [], ◌∷◌, ◌++◌, keep, any, arith, eqb, Bool-cases, Option-cases, inl, inr, if◌then◌else◌,
}
use codexhook.Base.Dict.{get, set, delete, has, get-set, get-delete}
use codexhook.Json.{field, is_the_text}
use codexhook.Desktop.Decoder.{desktop_stream_envelope, DesktopStreamEnvelope}
use codexhook.Ipc.Owners.{
  OwnerWaitResult, owner, unroutable_wait, DesktopThreadOwners, includes, add, remove,
  resolve_thread, resolve_waiters, drop_owner, invalidate, begin_refresh, reset, close,
  observe_source, observe_stream, observe, wait, without_waiter, or_nobody, time_out, Call, drops,
  invalidates, begins_refresh, resets, closes, observes, waits, times_out, step, run,
}

-- Somebody waits for the thread although its owner is known, it is unroutable, or all is closed.
abbrev pub waits_in_vain : String → DesktopThreadOwners → Bool
waits_in_vain thread_id s =
    has thread_id s.waiters
    && (s.closed || (has thread_id s.owners || includes thread_id s.unroutable))

abbrev pub IsSettled : DesktopThreadOwners → Type 0
IsSettled s = (thread_id : String) → waits_in_vain thread_id s ≡ false

includes-remove :
    (id j : String) (ids : List String)
    → includes j (remove id ids) ≡ (if id == j then false else includes j ids)
unfolding includes remove any keep
includes-remove id j [] = ground arith
includes-remove id j (i ∷ ids) =
    ground (arith, eq_iff i id, eq_iff i j, eq_iff id j, includes-remove id j ids)

includes-append :
    (id j : String) (ids : List String)
    → includes j (ids ++ id ∷ []) ≡ (includes j ids || (id == j))
unfolding includes any
includes-append id j [] = ground arith
includes-append id j (i ∷ ids) = ground (arith, includes-append id j ids)

includes-add :
    (id j : String) (ids : List String) → includes j (add id ids) ≡ (includes j ids || (id == j))
unfolding add
includes-add id j ids = ground (arith, eq_iff id j, includes-append id j ids)

waits-same :
    (thread_id j : String) (s : DesktopThreadOwners)
    → get thread_id s.waiters ≡ none
    → ((thread_id == j) ≡ false → waits_in_vain j s ≡ false)
    → waits_in_vain j s ≡ false
waits-same thread_id j s nobody others = elim (Bool-cases (thread_id == j)) [
  | inl same ↦ ground (arith, eq_iff thread_id j)
  | inr other ↦ others other
]

-- Where only the waiters of one thread could wait in vain, resolving them leaves none.
resolve_thread-IsSettled :
    (thread_id : String) (value : OwnerWaitResult) (s : DesktopThreadOwners)
    → ((j : String) → (thread_id == j) ≡ false → waits_in_vain j s ≡ false)
    → IsSettled (resolve_thread thread_id value s).1
unfolding resolve_thread
resolve_thread-IsSettled thread_id value s others j =
    elim (Option-cases (get thread_id s.waiters)) [
      | inl nobody ↦ rw (nobody, resolve_thread) (waits-same thread_id j s nobody (others j))
      | inr (pending, here) ↦
          rw (here, resolve_thread)
            (elim (Bool-cases (thread_id == j)) [
              | inl same ↦ ground (arith, eq_iff thread_id j, get-delete thread_id j s.waiters)
              | inr other ↦
                  let old = others j other in
                  ground (arith, eq_iff thread_id j, get-delete thread_id j s.waiters)
            ])
    ]

drop_owner-IsSettled :
    (thread_id : String) (s : DesktopThreadOwners)
    → IsSettled s
    → IsSettled (drop_owner thread_id s)
unfolding drop_owner
drop_owner-IsSettled thread_id s v j =
    let old = v j in
    ground (arith, get-delete thread_id j s.owners, includes-remove thread_id j s.unroutable)

begin_refresh-IsSettled :
    (thread_id : String) (s : DesktopThreadOwners)
    → IsSettled s
    → IsSettled (begin_refresh thread_id s)
unfolding begin_refresh
begin_refresh-IsSettled thread_id s v j =
    let old = v j in ground (arith, includes-remove thread_id j s.unroutable)

invalidate-IsSettled :
    (thread_id : String) (s : DesktopThreadOwners)
    → IsSettled s
    → IsSettled (invalidate thread_id s).1
unfolding invalidate
invalidate-IsSettled thread_id s v =
    resolve_thread-IsSettled thread_id unroutable_wait
      (record s { owners = delete thread_id s.owners; unroutable = add thread_id s.unroutable })
      (λ j other.
        let old = v j in
        ground (arith, get-delete thread_id j s.owners, includes-add thread_id j s.unroutable))

resolve_waiters-IsSettled :
    (value : OwnerWaitResult) (s : DesktopThreadOwners) → IsSettled (resolve_waiters value s).1
unfolding resolve_waiters get
resolve_waiters-IsSettled value s j = refl

observe_source-IsSettled :
    (thread_id : String) (source : Option String) (s : DesktopThreadOwners)
    → IsSettled s
    → IsSettled (observe_source thread_id source s).1
unfolding observe_source
observe_source-IsSettled thread_id source s v = elim (Bool-cases (has thread_id s.owners)) [
  | inl known ↦ rw (known, observe_source) v
  | inr unknown ↦ elim (Option-cases source) [
    | inl nobody ↦
        rw (unknown, observe_source, nobody)
          (resolve_thread-IsSettled thread_id unroutable_wait
            (record s { unroutable = add thread_id s.unroutable })
            (λ j other. let old = v j in ground (arith, includes-add thread_id j s.unroutable)))
    | inr (client, named) ↦
        rw (unknown, observe_source, named)
          (resolve_thread-IsSettled thread_id (owner client)
            (record s {
              unroutable = remove thread_id s.unroutable;
              owners = set thread_id client s.owners;
            })
            (λ j other.
              let old = v j in
              ground (
                arith,
                get-set thread_id j client s.owners,
                includes-remove thread_id j s.unroutable,
              )))
  ]
]

observe_stream-IsSettled :
    (stream : Option DesktopStreamEnvelope) (source : Option String)
    (followed_threads : List String) (s : DesktopThreadOwners)
    → IsSettled s
    → IsSettled (observe_stream stream source followed_threads s).1
unfolding observe_stream
observe_stream-IsSettled none source followed_threads s v = v
observe_stream-IsSettled (some stream) source followed_threads s v =
    elim (Bool-cases (
      is_the_text "snapshot" (field "type" stream.change)
      && includes stream.thread_id followed_threads)) [
        | inl shown ↦
            rw (shown, observe_stream) (observe_source-IsSettled stream.thread_id source s v)
        | inr hidden ↦ rw (hidden, observe_stream) v
      ]

wait-IsSettled :
    (waiter : ℕ) (thread_id : String) (s : DesktopThreadOwners)
    → IsSettled s
    → IsSettled (wait waiter thread_id s).1
unfolding wait
wait-IsSettled waiter thread_id s v j =
    let old = v j in
    ground (
      arith,
      eq_iff thread_id j,
      get-set thread_id j (or_nobody (get thread_id s.waiters) ++ waiter ∷ []) s.waiters,
    )

without_waiter-has :
    (thread_id j : String) (pending : List ℕ) (waiters : List (String × List ℕ))
    → has thread_id waiters ≡ true
    → has j (without_waiter thread_id pending waiters) ≡ true
    → has j waiters ≡ true
unfolding without_waiter
without_waiter-has thread_id j [] waiters here h = ground (arith, get-delete thread_id j waiters)
without_waiter-has thread_id j (other ∷ pending) waiters here h =
    ground (arith, eq_iff thread_id j, get-set thread_id j (other ∷ pending) waiters)

waiting-has :
    (thread_id : String) (waiter : ℕ) (s : DesktopThreadOwners)
    → any (λ other. eqb other waiter) (or_nobody (get thread_id s.waiters)) ≡ true
    → has thread_id s.waiters ≡ true
unfolding any
waiting-has thread_id waiter s h = elim (Option-cases (get thread_id s.waiters)) [
  | inl nobody ↦ absurd (ground arith)
  | inr (pending, here) ↦ ground arith
]

in_vain-le :
    (j : String) (waiters : List (String × List ℕ)) (s : DesktopThreadOwners)
    → (has j waiters ≡ true → has j s.waiters ≡ true)
    → waits_in_vain j s ≡ false
    → waits_in_vain j (record s { waiters = waiters }) ≡ false
in_vain-le j waiters s fewer old = elim (Bool-cases (has j waiters)) [
  | inl still ↦ let before = fewer still in ground arith
  | inr gone ↦ ground arith
]

time_out-IsSettled :
    (waiter : ℕ) (thread_id : String) (s : DesktopThreadOwners)
    → IsSettled s
    → IsSettled (time_out waiter thread_id s).1
unfolding time_out
time_out-IsSettled waiter thread_id s v j =
    let pending = or_nobody (get thread_id s.waiters) in
    let rest = keep (λ other. not (eqb other waiter)) pending in
    let old = v j in
    elim (Bool-cases (any (λ other. eqb other waiter) pending)) [
      | inr absent ↦ rw (absent, time_out) old
      | inl waiting ↦
          rw (waiting, time_out)
            (in_vain-le j (without_waiter thread_id rest s.waiters) s
              (without_waiter-has thread_id j rest s.waiters
                (waiting-has thread_id waiter s waiting))
              old)
    ]

step-IsSettled : (call : Call) (s : DesktopThreadOwners) → IsSettled s → IsSettled (step call s).1
unfolding step reset close observe
step-IsSettled (drops thread_id) s v = drop_owner-IsSettled thread_id s v
step-IsSettled (invalidates thread_id) s v = invalidate-IsSettled thread_id s v
step-IsSettled (begins_refresh thread_id) s v = begin_refresh-IsSettled thread_id s v
step-IsSettled (resets refresh_threads) s v = resolve_waiters-IsSettled _ _
step-IsSettled closes s v = resolve_waiters-IsSettled _ _
step-IsSettled (observes message followed_threads) s v =
    observe_stream-IsSettled (desktop_stream_envelope message) _ followed_threads s v
step-IsSettled (waits waiter thread_id) s v = wait-IsSettled waiter thread_id s v
step-IsSettled (times_out waiter thread_id) s v = time_out-IsSettled waiter thread_id s v

pub run-IsSettled :
    (calls : List Call) (s : DesktopThreadOwners) → IsSettled s → IsSettled (run calls s).1
unfolding run
run-IsSettled [] s v = v
run-IsSettled (call ∷ calls) s v = run-IsSettled calls (step call s).1 (step-IsSettled call s v)

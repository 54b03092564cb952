-- ===== src/Ipc/Owners/Answered.antt =====
-- What the waiters of `DesktopThreadOwners` get (src/transport/desktop-ipc/thread-owners.ts).
use mathlib.Core.Path.{subst}
use codexhook.Base.{
  ℕ, ◌+◌, ◌≤◌, ◌≡◌, ◌⊎◌, refl, sym, ap, ◌∙◌, String, true, not, ◌&&◌, Option, none, some, List, [],
  ◌∷◌, ◌++◌, keep, any, arith, eqb, Bool-cases, Option-cases, inl, inr,
}
use codexhook.Base.Dict.{get, set, delete, has, IsDistinct, set-IsDistinct, delete-IsDistinct}
use codexhook.Json.{field, is_the_text}
use codexhook.Desktop.Decoder.{desktop_stream_envelope, DesktopStreamEnvelope}
use codexhook.Ipc.Owners.{
  OwnerWaitResult, owner, unroutable_wait, reset_wait, closed_wait, timeout_wait,
  DesktopThreadOwners, new_owners, Resolved, includes, add, remove, add_all, resolve_thread,
  resolve_waiters, drop_owner, invalidate, begin_refresh, reset, close, observe_source,
  observe_stream, observe, wait, without_waiter, or_nobody, time_out, Call, drops, invalidates,
  begins_refresh, resets, closes, observes, waits, times_out, step, run,
}
use codexhook.Ipc.Owners.Counts.{
  one_if, times, answered, waiting_in, waiting, asks, asked, times-append, answered-append,
  answered-answers, answered-answer_all, waiting_in-delete, waiting_in-set, times-keep, any-times,
}
use codexhook.Ipc.Owners.Waiting.{IsSettled, run-IsSettled}

-- A call that a waiter makes so often: its answers and waits are those of before, and these.
record IsAccounted (waiter asking : ℕ) (before : ℕ) (r : Resolved × DesktopThreadOwners)
    : Type 0 where
  balance : answered waiter r.0 + waiting waiter r.1 ≡ asking + before
  distinct : IsDistinct r.1.waiters

module _ (waiter : ℕ) where
  quiet-IsAccounted :
      (s : DesktopThreadOwners)
      → IsDistinct s.waiters
      → IsAccounted waiter 0 (waiting waiter s) ([], s)
  unfolding answered
  quiet-IsAccounted s d = record { balance = refl; distinct = d }

  resolve_thread-IsAccounted :
      (thread_id : String) (value : OwnerWaitResult) (s : DesktopThreadOwners)
      → IsDistinct s.waiters
      → IsAccounted waiter 0 (waiting waiter s) (resolve_thread thread_id value s)
  unfolding resolve_thread times
  resolve_thread-IsAccounted thread_id value s d = elim (Option-cases (get thread_id s.waiters)) [
    | inl nobody ↦ rw (nobody, resolve_thread) (quiet-IsAccounted s d)
    | inr (pending, here) ↦
        let told = answered-answers waiter value pending in
        let left : waiting_in waiter (delete thread_id s.waiters) + times waiter pending
            ≡ waiting waiter s =
          ap (λ o. waiting_in waiter (delete thread_id s.waiters) + times waiter (or_nobody o))
            (sym here)
          ∙ waiting_in-delete waiter thread_id s.waiters d in
        rw (here, resolve_thread)
          (record { balance = omega arith; distinct = delete-IsDistinct thread_id s.waiters d })
  ]

  resolve_waiters-IsAccounted :
      (value : OwnerWaitResult) (s : DesktopThreadOwners)
      → IsAccounted waiter 0 (waiting waiter s) (resolve_waiters value s)
  unfolding resolve_waiters waiting_in
  resolve_waiters-IsAccounted value s = record {
    balance = omega (arith, answered-answer_all waiter value s.waiters);
    distinct = tt;
  }

  observe_source-IsAccounted :
      (thread_id : String) (source : Option String) (s : DesktopThreadOwners)
      → IsDistinct s.waiters
      → IsAccounted waiter 0 (waiting waiter s) (observe_source thread_id source s)
  unfolding observe_source
  observe_source-IsAccounted thread_id source s d = elim (Bool-cases (has thread_id s.owners)) [
    | inl known ↦ rw (known, observe_source) (quiet-IsAccounted s d)
    | inr unknown ↦ elim (Option-cases source) [
      | inl nobody ↦
          rw (unknown, observe_source, nobody)
            (resolve_thread-IsAccounted thread_id unroutable_wait
              (record s { unroutable = add thread_id s.unroutable }) d)
      | inr (client, named) ↦
          rw (unknown, observe_source, named)
            (resolve_thread-IsAccounted thread_id (owner client)
              (record s {
                unroutable = remove thread_id s.unroutable;
                owners = set thread_id client s.owners;
              })
              d)
    ]
  ]

  observe_stream-IsAccounted :
      (stream : Option DesktopStreamEnvelope) (source : Option String)
      (followed_threads : List String) (s : DesktopThreadOwners)
      → IsDistinct s.waiters
      → IsAccounted waiter 0 (waiting waiter s) (observe_stream stream source followed_threads s)
  unfolding observe_stream
  observe_stream-IsAccounted none source followed_threads s d = quiet-IsAccounted s d
  observe_stream-IsAccounted (some stream) source followed_threads s d =
      elim (Bool-cases (
        is_the_text "snapshot" (field "type" stream.change)
        && includes stream.thread_id followed_threads)) [
          | inl shown ↦
              rw (shown, observe_stream) (observe_source-IsAccounted stream.thread_id source s d)
          | inr hidden ↦ rw (hidden, observe_stream) (quiet-IsAccounted s d)
        ]

  answered_at_once :
      (other : ℕ) (value : OwnerWaitResult) (s : DesktopThreadOwners)
      → IsDistinct s.waiters
      → IsAccounted waiter (one_if (eqb other waiter)) (waiting waiter s) ((other, value) ∷ [], s)
  unfolding answered
  answered_at_once other value s d = record { balance = omega arith; distinct = d }

  -- The state in which the other one waits as well.
  abbrev joined : ℕ → String → DesktopThreadOwners → DesktopThreadOwners
  joined other thread_id s = record s {
    waiters = set thread_id (or_nobody (get thread_id s.waiters) ++ other ∷ []) s.waiters;
  }

  joined-IsAccounted :
      (other : ℕ) (thread_id : String) (s : DesktopThreadOwners)
      → IsDistinct s.waiters
      → IsAccounted waiter
          (one_if (eqb other waiter))
          (waiting waiter s)
          ([], joined other thread_id s)
  unfolding times answered
  joined-IsAccounted other thread_id s d =
      let pending = or_nobody (get thread_id s.waiters) in
      let longer = times-append waiter pending (other ∷ []) in
      record {
        balance = omega (arith, waiting_in-set waiter thread_id (pending ++ other ∷ []) s.waiters);
        distinct = set-IsDistinct thread_id (pending ++ other ∷ []) s.waiters d;
      }

  -- A waiter is answered at once, or joins those who wait.
  wait-cases :
      (other : ℕ) (thread_id : String) (s : DesktopThreadOwners)
      → ((value : OwnerWaitResult) × (wait other thread_id s ≡ ((other, value) ∷ [], s)))
        ⊎ (wait other thread_id s ≡ ([], joined other thread_id s))
  unfolding wait
  wait-cases other thread_id s = elim (Option-cases (get thread_id s.owners)) [
    | inr (client, known) ↦ inl (owner client, ground arith)
    | inl unknown ↦ elim (Bool-cases s.closed) [
      | inl over ↦ inl (closed_wait, ground arith)
      | inr opened ↦ elim (Bool-cases (includes thread_id s.unroutable)) [
        | inl lost ↦ inl (unroutable_wait, ground arith)
        | inr fine ↦ inr (ground arith)
      ]
    ]
  ]

  wait-IsAccounted :
      (other : ℕ) (thread_id : String) (s : DesktopThreadOwners)
      → IsDistinct s.waiters
      → IsAccounted waiter (one_if (eqb other waiter)) (waiting waiter s) (wait other thread_id s)
  wait-IsAccounted other thread_id s d = elim (wait-cases other thread_id s) [
    | inl (value, now) ↦
        subst (IsAccounted waiter (one_if (eqb other waiter)) (waiting waiter s)) (sym now)
          (answered_at_once other value s d)
    | inr later ↦
        subst (IsAccounted waiter (one_if (eqb other waiter)) (waiting waiter s)) (sym later)
          (joined-IsAccounted other thread_id s d)
  ]

  without_waiter-IsDistinct :
      (thread_id : String) (rest : List ℕ) (waiters : List (String × List ℕ))
      → IsDistinct waiters
      → IsDistinct (without_waiter thread_id rest waiters)
  unfolding without_waiter
  without_waiter-IsDistinct thread_id [] waiters d = delete-IsDistinct thread_id waiters d
  without_waiter-IsDistinct thread_id (n ∷ rest) waiters d =
      set-IsDistinct thread_id (n ∷ rest) waiters d

  waiting_in-without_waiter :
      (thread_id : String) (rest : List ℕ) (waiters : List (String × List ℕ))
      → IsDistinct waiters
      → waiting_in waiter (without_waiter thread_id rest waiters)
          + times waiter (or_nobody (get thread_id waiters))
        ≡ waiting_in waiter waiters + times waiter rest
  unfolding without_waiter times
  waiting_in-without_waiter thread_id [] waiters d =
      omega (arith, waiting_in-delete waiter thread_id waiters d)
  waiting_in-without_waiter thread_id (n ∷ rest) waiters d =
      waiting_in-set waiter thread_id (n ∷ rest) waiters

  timed_out :
      (other : ℕ) (thread_id : String) (value : OwnerWaitResult) (s : DesktopThreadOwners)
      → IsDistinct s.waiters
      → waiting waiter s ≤ 1
      → any (λ n. eqb n other) (or_nobody (get thread_id s.waiters)) ≡ true
      → answered waiter ((other, value) ∷ [])
          + waiting_in waiter (
              without_waiter thread_id
                (keep (λ n. not (eqb n other)) (or_nobody (get thread_id s.waiters)))
                s.waiters)
        ≡ 0 + waiting waiter s
  unfolding answered
  timed_out other thread_id value s d once present =
      let pending = or_nobody (get thread_id s.waiters) in
      let rest = keep (λ n. not (eqb n other)) pending in
      let left = waiting_in-without_waiter thread_id rest s.waiters d in
      let all = waiting_in-delete waiter thread_id s.waiters d in
      let kept = times-keep waiter other pending in
      elim (Bool-cases (eqb other waiter)) [
        | inl same ↦
            let here : 1 ≤ times waiter pending = ground (arith, any-times waiter pending) in
            ground arith
        | inr another ↦ ground arith
      ]

  -- A waiter that waits once at most gets one answer at its timer.
  time_out-IsAccounted :
      (other : ℕ) (thread_id : String) (s : DesktopThreadOwners)
      → IsDistinct s.waiters
      → waiting waiter s ≤ 1
      → IsAccounted waiter 0 (waiting waiter s) (time_out other thread_id s)
  unfolding time_out
  time_out-IsAccounted other thread_id s d once =
      let pending = or_nobody (get thread_id s.waiters) in
      let rest = keep (λ n. not (eqb n other)) pending in
      elim (Bool-cases (any (λ n. eqb n other) pending)) [
        | inr absent ↦ rw (absent, time_out) (quiet-IsAccounted s d)
        | inl present ↦
            rw (present, time_out)
              (record {
                balance = timed_out other thread_id timeout_wait s d once present;
                distinct = without_waiter-IsDistinct thread_id rest s.waiters d;
              })
      ]

  step-IsAccounted :
      (call : Call) (s : DesktopThreadOwners)
      → IsDistinct s.waiters
      → waiting waiter s ≤ 1
      → IsAccounted waiter (asks waiter call) (waiting waiter s) (step call s)
  unfolding step reset close observe invalidate drop_owner begin_refresh
  step-IsAccounted (drops thread_id) s d once = quiet-IsAccounted (drop_owner thread_id s) d
  step-IsAccounted (invalidates thread_id) s d once =
      resolve_thread-IsAccounted thread_id unroutable_wait
        (record s { owners = delete thread_id s.owners; unroutable = add thread_id s.unroutable }) d
  step-IsAccounted (begins_refresh thread_id) s d once =
      quiet-IsAccounted (begin_refresh thread_id s) d
  step-IsAccounted (resets refresh_threads) s d once =
      resolve_waiters-IsAccounted reset_wait
        (record s { owners = []; unroutable = add_all refresh_threads [] })
  step-IsAccounted closes s d once =
      resolve_waiters-IsAccounted closed_wait
        (record s { closed = true; owners = []; unroutable = [] })
  step-IsAccounted (observes message followed_threads) s d once =
      observe_stream-IsAccounted (desktop_stream_envelope message) _ followed_threads s d
  step-IsAccounted (waits other thread_id) s d once = wait-IsAccounted other thread_id s d
  step-IsAccounted (times_out other thread_id) s d once =
      time_out-IsAccounted other thread_id s d once

  run-balance :
      (calls : List Call) (s : DesktopThreadOwners)
      → IsDistinct s.waiters
      → asked waiter calls + waiting waiter s ≤ 1
      → answered waiter (run calls s).0 + waiting waiter (run calls s).1
        ≡ asked waiter calls + waiting waiter s
  unfolding run asked answered
  run-balance [] s d once = refl
  run-balance (call ∷ calls) s d once =
      let next = step-IsAccounted call s d (omega arith) in
      let balance = next.balance in
      let rest = run-balance calls (step call s).1 next.distinct (omega arith) in
      let both = answered-append waiter (step call s).0 (run calls (step call s).1).0 in omega arith

  -- After any calls on new owners, nobody waits for the owner of a thread whose owner is known, which
  -- is marked as unroutable, or after close; and a waiter who has begun to wait, which each does
  -- once, has got one answer or still waits, but not both, and nobody else has got an answer.
  pub new_owners-IsSettled :
      (calls : List Call)
      → asked waiter calls ≤ 1
      → IsSettled (run calls new_owners).1
        × (answered waiter (run calls new_owners).0 + waiting waiter (run calls new_owners).1
            ≡ asked waiter calls)
  unfolding get waiting_in
  new_owners-IsSettled calls once =
      let balance = run-balance calls new_owners tt (omega arith) in
      (run-IsSettled calls new_owners (λ j. refl), omega arith)

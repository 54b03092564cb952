-- ===== src/Ipc/Owners/Counts.antt =====
-- How often a waiter waits and is answered (src/transport/desktop-ipc/thread-owners.ts).
use codexhook.Base.{
  ℕ, ◌+◌, ◌≤◌, ◌≡◌, refl, ◌==◌, eq_iff, String, Bool, true, false, not, none, List, [], ◌∷◌, ◌++◌,
  keep, any, arith, eqb, Bool-cases, inl, inr, if◌then◌else◌,
}
use codexhook.Base.Dict.{get, set, delete, IsDistinct}
use codexhook.Ipc.Owners.{
  OwnerWaitResult, DesktopThreadOwners, Resolved, answers, answer_all, or_nobody, Call, waits,
}

abbrev pub one_if : Bool → ℕ
one_if true = 1
one_if false = 0

-- How often a number is in a list.
unfoldable pub times : ℕ → List ℕ → ℕ
times n [] = 0
times n (other ∷ others) = one_if (eqb other n) + times n others

-- How many answers a waiter has got.
unfoldable pub answered : ℕ → Resolved → ℕ
answered waiter [] = 0
answered waiter ((other, value) ∷ resolved) = one_if (eqb other waiter) + answered waiter resolved

unfoldable pub waiting_in : ℕ → List (String × List ℕ) → ℕ
waiting_in waiter [] = 0
waiting_in waiter ((thread_id, pending) ∷ waiters) =
    times waiter pending + waiting_in waiter waiters

-- How often a waiter waits.
abbrev pub waiting : ℕ → DesktopThreadOwners → ℕ
waiting waiter s = waiting_in waiter s.waiters

abbrev pub asks : ℕ → Call → ℕ
asks waiter (waits other thread_id) = one_if (eqb other waiter)
asks waiter _ = 0

-- How often a waiter has begun to wait.
unfoldable pub asked : ℕ → List Call → ℕ
asked waiter [] = 0
asked waiter (call ∷ calls) = asks waiter call + asked waiter calls

pub times-append : (n : ℕ) (xs ys : List ℕ) → times n (xs ++ ys) ≡ times n xs + times n ys
unfolding times
times-append n [] ys = omega arith
times-append n (x ∷ xs) ys = ground (arith, times-append n xs ys)

pub answered-append :
    (waiter : ℕ) (xs ys : Resolved)
    → answered waiter (xs ++ ys) ≡ answered waiter xs + answered waiter ys
unfolding answered
answered-append waiter [] ys = omega arith
answered-append waiter ((other, value) ∷ xs) ys = ground (arith, answered-append waiter xs ys)

pub answered-answers :
    (waiter : ℕ) (value : OwnerWaitResult) (pending : List ℕ)
    → answered waiter (answers value pending) ≡ times waiter pending
unfolding answered times
answered-answers waiter value [] = refl
answered-answers waiter value (other ∷ pending) =
    ground (arith, answered-answers waiter value pending)

pub answered-answer_all :
    (waiter : ℕ) (value : OwnerWaitResult) (waiters : List (String × List ℕ))
    → answered waiter (answer_all value waiters) ≡ waiting_in waiter waiters
unfolding answered answer_all waiting_in
answered-answer_all waiter value [] = refl
answered-answer_all waiter value ((thread_id, pending) ∷ waiters) = omega (
  arith,
  answered-append waiter (answers value pending) (answer_all value waiters),
  answered-answers waiter value pending,
  answered-answer_all waiter value waiters,
)

pub delete-missing :
    (thread_id : String) (waiters : List (String × List ℕ))
    → get thread_id waiters ≡ none
    → delete thread_id waiters ≡ waiters
unfolding get delete
delete-missing thread_id [] h = refl
delete-missing thread_id ((other, pending) ∷ waiters) h =
    ground (arith, delete-missing thread_id waiters)

pub waiting_in-delete :
    (waiter : ℕ) (thread_id : String) (waiters : List (String × List ℕ))
    → IsDistinct waiters
    → waiting_in waiter (delete thread_id waiters)
        + times waiter (or_nobody (get thread_id waiters))
      ≡ waiting_in waiter waiters
unfolding waiting_in get delete times
waiting_in-delete waiter thread_id [] d = refl
waiting_in-delete waiter thread_id ((other, pending) ∷ waiters) (fresh, d) =
    elim (Bool-cases (other == thread_id)) [
      | inl same ↦
          let gone : get thread_id waiters ≡ none = ground (arith, eq_iff other thread_id) in
          rw (same, delete, get, delete-missing thread_id waiters gone) (omega arith)
      | inr new ↦
          rw (new, delete, get) (omega (arith, waiting_in-delete waiter thread_id waiters d))
    ]

pub waiting_in-set :
    (waiter : ℕ) (thread_id : String) (pending : List ℕ) (waiters : List (String × List ℕ))
    → waiting_in waiter (set thread_id pending waiters)
        + times waiter (or_nobody (get thread_id waiters))
      ≡ waiting_in waiter waiters + times waiter pending
unfolding waiting_in get set times
waiting_in-set waiter thread_id pending [] = omega arith
waiting_in-set waiter thread_id pending ((other, old) ∷ waiters) =
    elim (Bool-cases (other == thread_id)) [
      | inl same ↦ rw (same, set, get) (omega arith)
      | inr new ↦
          rw (new, set, get) (omega (arith, waiting_in-set waiter thread_id pending waiters))
    ]

pub times-keep :
    (waiter other : ℕ) (pending : List ℕ)
    → times waiter (keep (λ n. not (eqb n other)) pending)
      ≡ (if eqb other waiter then 0 else times waiter pending)
unfolding times keep
times-keep waiter other [] = ground arith
times-keep waiter other (n ∷ pending) = ground (arith, times-keep waiter other pending)

pub any-times :
    (waiter : ℕ) (pending : List ℕ)
    → any (λ n. eqb n waiter) pending ≡ true
    → 1 ≤ times waiter pending
unfolding times any
any-times waiter [] h = absurd (ground arith)
any-times waiter (n ∷ pending) h = ground (arith, any-times waiter pending)

-- ===== src/RateLimit/Window.antt =====
-- The rate limiter's map (src/rate-limit.ts) against a log of the allowed deliveries.
use mathlib.Core.Path.{subst}
use codexhook.Base.{
  ℕ, ◌+◌, ◌≤◌, ◌≡◌, refl, sym, ap, ◌∙◌, String, true, false, none, List, [], ◌∷◌, ◌++◌, length,
  keep, leb, if◌then◌else◌, arith, Bool-cases, inl, inr, ◌==◌, eq_iff, eq_refl,
}
use codexhook.Base.Dict.{get, set, get-set}
use codexhook.RateLimit.{
  Events, recent_of, is_empty, forget, or_empty, allow, answers, count, expected,
}

module _ (limit window : ℕ) where
  abbrev within : ℕ → List ℕ → ℕ
  within now ts = length (recent_of limit window now ts)

  within-append : (now : ℕ) (xs ys : List ℕ) → within now (xs ++ ys) ≡ within now xs + within now ys
  unfolding keep
  within-append now [] ys = omega arith
  within-append now (x ∷ xs) ys = ground (arith, within-append now xs ys)

  -- What is too old at an earlier time is too old later.
  within-recent :
      (now later : ℕ) (ts : List ℕ)
      → now ≤ later
      → within later (recent_of limit window now ts) ≡ within later ts
  unfolding keep
  within-recent now later [] h = refl
  within-recent now later (t ∷ ts) h = ground (arith, within-recent now later ts h)

  abbrev times : String → Events → List ℕ
  times k events = or_empty limit window (get k events)

  -- No task twice.
  abbrev pub IsMap : Events → Type 0
  IsMap [] = Unit
  IsMap ((id, ts) ∷ events) = (get id events ≡ none) × IsMap events

  forget-none :
      (k : String) (now : ℕ) (events : Events)
      → get k events ≡ none
      → get k (forget limit window now events) ≡ none
  unfolding forget get
  forget-none k now [] h = refl
  forget-none k now ((id, ts) ∷ events) h = ground (arith, forget-none k now events)

  forget-IsMap : (now : ℕ) (events : Events) → IsMap events → IsMap (forget limit window now events)
  unfolding forget
  forget-IsMap now [] h = tt
  forget-IsMap now ((id, ts) ∷ events) (fresh, h) =
      ground (arith, forget-none id now events fresh, forget-IsMap now events h)

  set-IsMap : (k : String) (ts : List ℕ) (events : Events) → IsMap events → IsMap (set k ts events)
  unfolding set get
  set-IsMap k ts [] h = (refl, tt)
  set-IsMap k ts ((id, old) ∷ events) (fresh, h) = elim (Bool-cases (id == k)) [
    | inl same ↦ rw same (subst (λ j. get j events ≡ none) ((eq_iff id k).0 same) fresh, h)
    | inr other ↦
        rw other (
          get-set k id ts events ∙ ground (arith, eq_iff id k, eq_iff k id),
          set-IsMap k ts events h,
        )
  ]

  within-nil : (later : ℕ) (ts : List ℕ) → is_empty limit window ts ≡ true → within later ts ≡ 0
  unfolding keep
  within-nil later [] e = refl
  within-nil later (t ∷ ts) e = absurd (ground arith)

  within-empty :
      (now later : ℕ) (ts : List ℕ)
      → now ≤ later
      → is_empty limit window (recent_of limit window now ts) ≡ true
      → within later ts ≡ 0
  within-empty now later ts h e =
      sym (within-recent now later ts h) ∙ within-nil later (recent_of limit window now ts) e

  within-none :
      (k : String) (later : ℕ) (events : Events)
      → get k events ≡ none
      → within later (times k events) ≡ 0
  unfolding keep
  within-none k later events e = rw e refl

  within-forget :
      (k : String) (now later : ℕ) (events : Events)
      → now ≤ later
      → IsMap events
      → within later (times k (forget limit window now events)) ≡ within later (times k events)
  unfolding forget get
  within-forget k now later [] h m = refl
  within-forget k now later ((id, ts) ∷ events) h (fresh, m) =
      let rest = within-forget k now later events h m in
      elim (Bool-cases (is_empty limit window (recent_of limit window now ts))) [
        | inl old ↦ elim (Bool-cases (id == k)) [
          | inl same ↦
              rw (old, same)
                (rest
                  ∙ within-none k later events
                      (subst (λ j. get j events ≡ none) ((eq_iff id k).0 same) fresh)
                  ∙ sym (within-empty now later ts h old))
          | inr other ↦ rw (old, other) rest
        ]
        | inr kept ↦ elim (Bool-cases (id == k)) [
          | inl same ↦ rw (kept, same) (within-recent now later ts h)
          | inr other ↦ rw (kept, other) rest
        ]
      ]

  -- The map and the log of the allowed deliveries agree from a time on.
  abbrev Agrees : ℕ → Events → List (String × ℕ) → Type 0
  Agrees now events log =
      IsMap events
      × ((k : String) (later : ℕ)
          → now ≤ later
          → within later (times k events) ≡ count limit window k later log)

  forgotten :
      (events : Events) (log : List (String × ℕ)) (now : ℕ)
      → Agrees now events log
      → Agrees now (forget limit window now events) log
  forgotten events log now (m, a) =
      (forget-IsMap now events m, λ k later h. within-forget k now later events h m ∙ a k later h)

  abbrev recents : String → ℕ → Events → List ℕ
  recents k now events = recent_of limit window now (times k (forget limit window now events))

  -- An entry that counts like the log's may be stored.
  stored :
      (thread_id : String) (ts : List ℕ) (now : ℕ) (events : Events) (log log' : List (String × ℕ))
      → Agrees now events log
      → ((k : String) (later : ℕ)
          → now ≤ later
          → count limit window k later log'
            ≡ (if thread_id == k then within later ts else count limit window k later log))
      → Agrees now (set thread_id ts events) log'
  stored thread_id ts now events log log' (m, a) same = (
    set-IsMap thread_id ts events m,
    λ k later h. elim (Bool-cases (thread_id == k)) [
      | inl own ↦ rw (get-set thread_id k ts events, own) (sym (same k later h ∙ rw own refl))
      | inr other ↦
          rw (get-set thread_id k ts events, other)
            (a k later h ∙ sym (same k later h ∙ rw other refl))
    ],
  )

  recents-count :
      (k : String) (now later : ℕ) (events : Events) (log : List (String × ℕ))
      → Agrees now events log
      → now ≤ later
      → within later (recents k now events) ≡ count limit window k later log
  recents-count k now later events log a h =
      within-recent now later (times k (forget limit window now events)) h
      ∙ (forgotten events log now a).1 k later h

  keep-idle :
      (now : ℕ) (ts : List ℕ)
      → length (recent_of limit window now ts) ≡ within now (recent_of limit window now ts)
  keep-idle now ts = sym (within-recent now now ts (omega arith))

  rejected-count :
      (thread_id k : String) (now later : ℕ) (events : Events) (log : List (String × ℕ))
      → Agrees now events log
      → now ≤ later
      → count limit window k later log ≡ (
          if thread_id == k
          then within later (recents thread_id now events)
          else count limit window k later log)
  rejected-count thread_id k now later events log a h = elim (Bool-cases (thread_id == k)) [
    | inl own ↦ rw own (
        subst (λ j. count limit window j later log ≡ within later (recents thread_id now events))
          ((eq_iff thread_id k).0 own) (sym (recents-count thread_id now later events log a h)))
    | inr other ↦ rw other refl
  ]

  count-own :
      (k : String) (now later : ℕ) (log : List (String × ℕ))
      → count limit window k later ((k, now) ∷ log)
        ≡ count limit window k later log + within later (now ∷ [])
  unfolding count keep
  count-own k now later log = ground (arith, eq_refl k)

  allowed-own :
      (k : String) (now later : ℕ) (events : Events) (log : List (String × ℕ))
      → Agrees now events log
      → now ≤ later
      → count limit window k later ((k, now) ∷ log)
        ≡ within later (recents k now events ++ now ∷ [])
  allowed-own k now later events log a h = omega (
    arith,
    count-own k now later log,
    within-append later (recents k now events) (now ∷ []),
    recents-count k now later events log a h,
  )

  allowed-count :
      (thread_id k : String) (now later : ℕ) (events : Events) (log : List (String × ℕ))
      → Agrees now events log
      → now ≤ later
      → count limit window k later ((thread_id, now) ∷ log) ≡ (
          if thread_id == k
          then within later (recents thread_id now events ++ now ∷ [])
          else count limit window k later log)
  unfolding count
  allowed-count thread_id k now later events log a h = elim (Bool-cases (thread_id == k)) [
    | inl own ↦
        subst
          (λ j.
            count limit window j later ((thread_id, now) ∷ log)
            ≡ within later (recents thread_id now events ++ now ∷ []))
          ((eq_iff thread_id k).0 own) (allowed-own thread_id now later events log a h)
        ∙ ap
            (λ b.
              if b
              then within later (recents thread_id now events ++ now ∷ [])
              else count limit window k later log)
            (sym own)
    | inr other ↦ rw other refl
  ]

  allow-false :
      (events : Events) (log : List (String × ℕ)) (thread_id : String) (now : ℕ)
      → Agrees now events log
      → leb limit (count limit window thread_id now log) ≡ true
      → ((allow limit window events thread_id now).0 ≡ false)
        × Agrees now (allow limit window events thread_id now).1 log
  unfolding allow
  allow-false events log thread_id now a full =
      let same =
        keep-idle now (times thread_id (forget limit window now events))
        ∙ recents-count thread_id now now events log a (omega arith) in
      rw (same, full)
        (
          refl,
          stored thread_id (recents thread_id now events) now _ log log (forgotten events log now a)
              (λ k later h. rejected-count thread_id k now later events log a h),
        )

  allow-true :
      (events : Events) (log : List (String × ℕ)) (thread_id : String) (now : ℕ)
      → Agrees now events log
      → leb limit (count limit window thread_id now log) ≡ false
      → ((allow limit window events thread_id now).0 ≡ true)
        × Agrees now (allow limit window events thread_id now).1 ((thread_id, now) ∷ log)
  unfolding allow
  allow-true events log thread_id now a room =
      let same =
        keep-idle now (times thread_id (forget limit window now events))
        ∙ recents-count thread_id now now events log a (omega arith) in
      rw (same, room)
        (
          refl,
          stored thread_id (recents thread_id now events ++ now ∷ []) now _ log
              ((thread_id, now) ∷ log) (forgotten events log now a)
              (λ k later h. allowed-count thread_id k now later events log a h),
        )

  -- The calls come in the order of the clock, from a time on.
  abbrev pub IsOrdered : ℕ → List (String × ℕ) → Type 0
  IsOrdered t [] = Unit
  IsOrdered t ((_, now) ∷ calls) = (t ≤ now) × IsOrdered now calls

  start : Agrees 0 [] []
  unfolding get count keep
  start = (tt, λ k later h. refl)

  later-Agrees :
      (t now : ℕ) (events : Events) (log : List (String × ℕ))
      → t ≤ now
      → Agrees t events log
      → Agrees now events log
  later-Agrees t now events log h (m, a) = (m, λ k later g. a k later (omega arith))

  answers-expected :
      (t : ℕ) (events : Events) (log calls : List (String × ℕ))
      → Agrees t events log
      → IsOrdered t calls
      → answers limit window events calls ≡ expected limit window log calls
  unfolding answers expected
  answers-expected t events log [] a h = refl
  answers-expected t events log ((thread_id, now) ∷ calls) a (after, h) =
      let b = later-Agrees t now events log after a in
      elim (Bool-cases (leb limit (count limit window thread_id now log))) [
        | inl full ↦
            let (refused, c) = allow-false events log thread_id now b full in
            rw (refused, full) (ap (◌∷◌ false) (answers-expected now _ log calls c h))
        | inr room ↦
            let (admitted, c) = allow-true events log thread_id now b room in
            rw (admitted, room)
              (ap (◌∷◌ true) (answers-expected now _ ((thread_id, now) ∷ log) calls c h))
      ]

-- The limiter answers as the sliding window says: for calls in the order of the clock on a new
-- limiter, a call is allowed exactly if fewer than the limit of the deliveries allowed before to
-- the same task are still within the window.
pub answers_window :
    (limit window : ℕ) (calls : List (String × ℕ))
    → IsOrdered limit window 0 calls
    → answers limit window [] calls ≡ expected limit window [] calls
answers_window limit window calls h =
    answers-expected limit window 0 [] [] calls (start limit window) h

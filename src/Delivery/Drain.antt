-- ===== src/Delivery/Drain.antt =====
-- The answers of `drain` (src/delivery/delivery.ts).
use mathlib.Core.List.{Memᴰ}
use codexhook.Base.{
  ℕ, ◌≤◌, ◌<◌, ◌≡◌, refl, String, true, false, none, some, List, [], ◌∷◌, arith, length,
  Option-cases, Bool-cases, inl, inr, ltb, leb, All,
}
use codexhook.Base.Dict.{get}
use codexhook.Delivery.{Job, Lane, Service, sum_pending, pending_count, drain}
use codexhook.Delivery.Lanes.{IsValid, lane_worker, worker_lane}

-- No task has a lane or a worker, and no steer job runs.
pub record IsDone (s : Service) : Type 0 where
  pub no_lane : (k : String) → get k s.lanes ≡ none
  pub no_worker : (k : String) → get k s.workers ≡ none
  pub no_steer : s.steering ≡ []

pending-le-sum :
    (k : String) (lane : Lane) (lanes : List (String × Lane))
    → get k lanes ≡ some lane
    → lane.pending ≤ sum_pending lanes
unfolding sum_pending get
pending-le-sum k lane [] e = cc
pending-le-sum k lane ((j, other) ∷ lanes) e = ground (arith, pending-le-sum k lane lanes)

nil_of_empty : (jobs : List Job) → length jobs ≡ 0 → jobs ≡ []
nil_of_empty [] h = refl
nil_of_empty (job ∷ jobs) h = absurd (omega arith)

module _ (s : Service) (v : IsValid s) (zero_pending : pending_count s ≡ 0) where
  no_lane : (k : String) → get k s.lanes ≡ none
  unfolding pending_count
  no_lane k = elim (Option-cases (get k s.lanes)) [
    | inl missing ↦ missing
    | inr (lane, e) ↦
        let (u, w, a) = lane_worker s v k lane e in
        absurd (omega (arith, a, zero_pending, pending-le-sum k lane s.lanes e))
  ]

  no_worker : (k : String) → get k s.workers ≡ none
  no_worker k = elim (Option-cases (get k s.workers)) [
    | inl missing ↦ missing
    | inr (w, e) ↦ let (lane, held, _) = worker_lane s v k w e in cc (no_lane k, held)
  ]

  pub zero-IsDone : IsDone s
  unfolding pending_count
  zero-IsDone = record {
    no_lane = no_lane;
    no_worker = no_worker;
    no_steer = nil_of_empty s.steering (omega (arith, v.steering, zero_pending));
  }

-- If `drain` answers true, then in one of the states that it has looked at nothing was left: no task
-- had a lane or a worker and no steer job ran, provided that those states are valid.
pub drain-IsDone :
    (deadline : ℕ) (rounds : List (Service × ℕ))
    → All (λ r. IsValid (r.0)) rounds
    → drain deadline rounds ≡ some true
    → (s : Service) × (now : ℕ) × Memᴰ (s, now) rounds × IsDone s
unfolding drain
drain-IsDone deadline [] v e = absurd (cc)
drain-IsDone deadline ((s, now) ∷ rounds) v e = elim (Bool-cases (ltb 0 (pending_count s))) [
  | inl left ↦
      let (t, at, member, done) = drain-IsDone deadline rounds v.1 (ground arith) in
      (t, at, Memᴰ.tail member, done)
  | inr clear ↦ (s, now, Memᴰ.head refl, zero-IsDone s v.0 (ground arith))
]

-- `drain` answers false only after its deadline, with work still pending.
pub drain-late :
    (deadline : ℕ) (rounds : List (Service × ℕ))
    → drain deadline rounds ≡ some false
    → (s : Service) × (now : ℕ) × Memᴰ (s, now) rounds × (deadline ≤ now) × (0 < pending_count s)
unfolding drain
drain-late deadline [] e = absurd (cc)
drain-late deadline ((s, now) ∷ rounds) e = elim (Bool-cases (ltb 0 (pending_count s))) [
  | inl more ↦ elim (Bool-cases (leb deadline now)) [
    | inl late ↦ (s, now, Memᴰ.head refl, ground arith, ground arith)
    | inr early ↦
        let (t, at, member, late, left) = drain-late deadline rounds (ground arith) in
        (t, at, Memᴰ.tail member, late, left)
  ]
  | inr clear ↦ absurd (ground arith)
]

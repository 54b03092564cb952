-- ===== src/Coordinator/Cases.antt =====
-- The ways through a turn of the queue loop and through a delivery, as rules for any predicate.
use codexhook.Base.{
  ℕ, ◌<◌, ◌≡◌, ◌≢◌, refl, Bool, true, false, none, some, List, [], ◌∷◌, arith, leb, Bool-cases,
  Option-cases, inl, inr, ◌⊎◌,
}
use codexhook.Base.Result.{Result, ok, err}
use codexhook.Types.{DeliveryMode, queue, steer}
use codexhook.Contracts.{DeliveryRequest, SanitizedDiagnostic}
use codexhook.Coordinator.Support.{RoutingResult}
use codexhook.Coordinator.Watch.{
  await_idle, await_activity_cycle, IdleInspection, idle, active, inspection_failed, inspect_idle,
}
use codexhook.Coordinator.Route.{Write}
use codexhook.Coordinator.Deliver.{
  Breakers, GatedResult, routed, retries, Routed, route, finish, Delivered, QueueRound, Turn, done,
  again, give_up, after_route, queue_turn, queue_delivery, add_writes, steer_delivery, deliver,
  DeliverWorld, deadline_of,
}

pub Result-cases :
    {E A : Type 0} (r : Result E A) → ((e : E) × (r ≡ err e)) ⊎ ((a : A) × (r ≡ ok a))
Result-cases (err e) = inl (e, refl)
Result-cases (ok a) = inr (a, refl)

pub Gated-cases :
    (g : GatedResult) → ((r : RoutingResult) × (g ≡ routed r)) ⊎ ((b : Bool) × (g ≡ retries b))
Gated-cases (routed r) = inl (r, refl)
Gated-cases (retries b) = inr (b, refl)

pub Turn-cases :
    (t : Turn)
    → ((d : Delivered) × (t ≡ done d))
      ⊎ ((b : Breakers) × (writes : List Write) × (t ≡ again b writes))
Turn-cases (done d) = inl (d, refl)
Turn-cases (again b writes) = inr (b, writes, refl)

Inspection-cases :
    (i : IdleInspection)
    → ((i ≡ idle) ⊎ (i ≡ active)) ⊎ ((d : SanitizedDiagnostic) × (i ≡ inspection_failed d))
Inspection-cases idle = inl (inl refl)
Inspection-cases active = inl (inr refl)
Inspection-cases (inspection_failed d) = inr (d, refl)

pub mode-cases : (m : DeliveryMode) → (m ≡ queue) ⊎ (m ≡ steer)
mode-cases queue = inl refl
mode-cases steer = inr refl

module _ (request : DeliveryRequest) (deadline : ℕ) where
  pub after_route_cases {ℓ} :
      (P : Turn → Type ℓ) (r : Routed) (round : QueueRound)
      → ((result : RoutingResult)
          → r.result ≡ routed result
          → P (done (finish request deadline result r.breakers r.writes round.finish_world)))
      → ((b : Bool) → r.result ≡ retries b → P (again r.breakers r.writes))
      → ((b : Bool) (d : SanitizedDiagnostic)
          → r.result ≡ retries b
          → P (give_up request deadline d r.breakers r.writes))
      → P (after_route request deadline r round)
  unfolding after_route
  after_route_cases P r round ends loops fails = elim (Gated-cases r.result) [
    | inl (result, e) ↦ rw (e, after_route) (ends result e)
    | inr (false, e) ↦ rw (e, after_route) (loops false e)
    | inr (true, e) ↦ elim (Option-cases (await_activity_cycle round.cycle)) [
      | inl cycled ↦ rw (e, cycled, after_route) (loops true e)
      | inr (d, failed) ↦ rw (e, failed, after_route) (fails true d e)
    ]
  ]

  pub queue_turn_cases {ℓ} :
      (P : Turn → Type ℓ) (breakers : Breakers) (round : QueueRound)
      → ((d : SanitizedDiagnostic) (b : Breakers) → P (give_up request deadline d b []))
      → (round.now < deadline → P (again (round.others breakers) []))
      → (round.now < deadline
          → await_idle round.idle_stream ≡ none
          → inspect_idle round.inspection ≡ idle
          → P (
              after_route request deadline
                (route request deadline (round.others breakers) round.route_world)
                round))
      → P (queue_turn request deadline breakers round)
  unfolding queue_turn
  queue_turn_cases P breakers round fails loops routes =
      elim (Bool-cases (leb deadline round.now)) [
        | inl over ↦ rw over (fails _ breakers)
        | inr early ↦ elim (Option-cases (await_idle round.idle_stream)) [
          | inr (d, e) ↦ rw (early, e, queue_turn) (fails d breakers)
          | inl e ↦ elim (Inspection-cases (inspect_idle round.inspection)) [
            | inr (d, f) ↦ rw (early, e, f, queue_turn) (fails d _)
            | inl (inr f) ↦ rw (early, e, f, queue_turn) (loops (ground arith))
            | inl (inl f) ↦ rw (early, e, f, queue_turn) (routes (ground arith) e f)
          ]
        ]
      ]

  -- A delivery that has ended: its last turn, or an earlier one and the rest of the loop.
  pub queue_delivery_cases :
      (breakers : Breakers) (round : QueueRound) (rounds : List QueueRound) (d : Delivered)
      → queue_delivery request deadline breakers (round ∷ rounds) ≡ some d
      → (queue_turn request deadline breakers round ≡ done d)
        ⊎ ((kept : Breakers) × (writes : List Write) × (rest : Delivered) × (queue_turn request
                deadline breakers round
              ≡ again kept writes)
            × (queue_delivery request deadline kept rounds ≡ some rest)
            × (d ≡ add_writes request deadline writes rest))
  unfolding queue_delivery
  queue_delivery_cases breakers round rounds d e =
      elim (Turn-cases (queue_turn request deadline breakers round)) [
        | inl (last, t) ↦ inl (let same = rw (t, queue_delivery) at e in cc)
        | inr (kept, writes, t) ↦
            elim (Option-cases (queue_delivery request deadline kept rounds)) [
              | inl more ↦ absurd (let same = rw (t, more, queue_delivery) at e in cc)
              | inr (rest, ended) ↦ inr (
                kept,
                writes,
                rest,
                t,
                ended,
                let same = rw (t, ended, queue_delivery) at e in cc,
              )
            ]
      ]

  pub queue_delivery_nil :
      (breakers : Breakers) (d : Delivered) → queue_delivery request deadline breakers [] ≢ some d
  unfolding queue_delivery
  queue_delivery_nil breakers d e = cc

-- A delivery that has ended, by its mode.
pub deliver_cases :
    (request : DeliveryRequest) (breakers : Breakers) (w : DeliverWorld) (d : Delivered)
    → deliver request breakers w ≡ some d
    → ((request.mode ≡ queue)
        × (queue_delivery request (deadline_of request w.started_at) breakers w.rounds ≡ some d))
      ⊎ ((request.mode ≡ steer)
          × (steer_delivery request
                (deadline_of request w.started_at)
                breakers
                w.steer_world
                w.steer_finish
              ≡ d))
unfolding deliver
deliver_cases request breakers w d e = elim (mode-cases request.mode) [
  | inl m ↦ inl (m, ground arith)
  | inr m ↦ inr (m, ground arith)
]

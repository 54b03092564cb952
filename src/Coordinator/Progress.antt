-- ===== src/Coordinator/Progress.antt =====
-- The end of the queue loop (`queueDelivery` of src/delivery/coordinator.ts).
use codexhook.Base.{ℕ, ◌≤◌, ◌≡◌, ◌⊎◌, some, List, [], ◌∷◌, arith, inl, inr}
use codexhook.Contracts.{DeliveryRequest, diagnostic, timeout, await_turn, app_server}
use codexhook.Coordinator.Deliver.{
  Breakers, QueueRound, Delivered, done, again, give_up, queue_turn, queue_delivery, add_writes,
  idle_unavailable,
}
use codexhook.Coordinator.Cases.{Turn-cases}

-- One of the rounds begins at the deadline or later.
abbrev pub Expires : ℕ → List QueueRound → Type 0
Expires deadline [] = ⊥
Expires deadline (round ∷ rounds) = (deadline ≤ round.now) ⊎ Expires deadline rounds

module _ (request : DeliveryRequest) (deadline : ℕ) where
  expired_turn :
      (breakers : Breakers) (round : QueueRound)
      → deadline ≤ round.now
      → (d : Delivered) × (queue_turn request deadline breakers round ≡ done d)
  unfolding queue_turn give_up
  expired_turn breakers round late = (
    record {
      result = idle_unavailable request deadline (diagnostic timeout await_turn app_server);
      breakers = breakers;
      writes = [];
    },
    ground arith,
  )

  ends_now :
      (breakers : Breakers) (round : QueueRound) (rounds : List QueueRound) (d : Delivered)
      → queue_turn request deadline breakers round ≡ done d
      → queue_delivery request deadline breakers (round ∷ rounds) ≡ some d
  unfolding queue_delivery
  ends_now breakers round rounds d e = rw (e, queue_delivery)

  ends_later :
      (breakers kept : Breakers) (round : QueueRound) (rounds : List QueueRound) (writes : _)
      (d : Delivered)
      → queue_turn request deadline breakers round ≡ again kept writes
      → queue_delivery request deadline kept rounds ≡ some d
      → queue_delivery request deadline breakers (round ∷ rounds)
        ≡ some (add_writes request deadline writes d)
  unfolding queue_delivery
  ends_later breakers kept round rounds writes d e f = rw (e, f, queue_delivery)

  -- The queue loop terminates: if the clock at the start of one of the rounds has reached the
  -- deadline, the delivery has ended with an outcome by that round, whatever the planes and the
  -- event streams answer.
  pub queue_delivery_ends :
      (breakers : Breakers) (rounds : List QueueRound)
      → Expires deadline rounds
      → (d : Delivered) × (queue_delivery request deadline breakers rounds ≡ some d)
  queue_delivery_ends breakers [] h = absurd h
  queue_delivery_ends breakers (round ∷ rounds) (inl late) =
      let (d, e) = expired_turn breakers round late in (d, ends_now breakers round rounds d e)
  queue_delivery_ends breakers (round ∷ rounds) (inr later) =
      elim (Turn-cases (queue_turn request deadline breakers round)) [
        | inl (d, e) ↦ (d, ends_now breakers round rounds d e)
        | inr (kept, writes, e) ↦
            let (d, ended) = queue_delivery_ends kept rounds later in
            (
              add_writes request deadline writes d,
              ends_later breakers kept round rounds writes d e ended,
            )
      ]

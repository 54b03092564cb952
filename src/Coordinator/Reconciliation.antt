-- ===== src/Coordinator/Reconciliation.antt =====
-- What the reconciliation of an ambiguous write concludes from the event stream (`reconcile` of
-- src/delivery/coordinator.ts, `reconcileDelivery` of src/delivery/coordinator-support.ts).
use mathlib.Core.List.{Memᴰ}
use mathlib.Core.Path.{subst}
use codexhook.Base.{
  ℕ, ◌-◌, ◌≡◌, ◌⊎◌, refl, sym, String, true, Option, none, some, List, [], ◌∷◌, ◌++◌, arith, inl,
  inr, ◌==◌, eq_iff, eq_refl, Option-cases, Bool-cases, any, find,
}
use codexhook.Contracts.{
  DeliveryRoute, desktop, app_server, DeliveryRequest, DeliveryOutcome, DeliveryAttempt, Failure,
  OutcomeTag, confirmed_tag, ambiguous_tag, SanitizedDiagnostic, reconcile_app_server,
  confirmed_desktop, confirmed_app_server, is_ambiguous, LocalTurn, LocalTaskEvent,
}
use codexhook.Coordinator.Support.{
  PendingReconciliation, pending, turns_of, carries, ending_diagnostic, failure_of, event_turn,
  first_turn, reconcile_delivery, confirm,
}
use codexhook.Coordinator.Route.{Write}
use codexhook.Coordinator.Deliver.{
  Breakers, FinishWorld, finish, reconcile, Delivered, operation_of,
}

-- A turn of one of the events has the delivery's id.
abbrev pub Observed : List LocalTaskEvent → String → String → Type 0
Observed events delivery_id turn_id =
    (event : LocalTaskEvent) × Memᴰ event events
    × (turn : LocalTurn) × Memᴰ turn (turns_of event)
    × Memᴰ delivery_id turn.delivery_ids
    × (turn.id ≡ turn_id)

-- The turn that an outcome confirms on the route.
abbrev pub Confirms : DeliveryRoute → DeliveryOutcome → String → Type 0
Confirms desktop (confirmed_desktop c) turn_id = c.turn_id ≡ turn_id
Confirms app_server (confirmed_app_server c) turn_id = c.turn_id ≡ turn_id
Confirms _ _ _ = ⊥

abbrev pub IsAmbiguous : DeliveryRoute → DeliveryOutcome → Type 0
IsAmbiguous route (is_ambiguous r _) = r ≡ route
IsAmbiguous _ _ = ⊥

carries→Mem :
    (ids : List String) (delivery_id : String)
    → any (λ id. id == delivery_id) ids ≡ true
    → Memᴰ delivery_id ids
unfolding any
carries→Mem [] delivery_id h = absurd (cc)
carries→Mem (id ∷ ids) delivery_id h = elim (Bool-cases (id == delivery_id)) [
  | inl same ↦ Memᴰ.head (ground (arith, eq_iff id delivery_id))
  | inr other ↦ Memᴰ.tail (carries→Mem ids delivery_id (ground arith))
]

Mem→carries :
    (ids : List String) (delivery_id : String)
    → Memᴰ delivery_id ids
    → any (λ id. id == delivery_id) ids ≡ true
unfolding any
Mem→carries [] delivery_id m = elim m [ ]
Mem→carries (id ∷ ids) delivery_id (Memᴰ.head e) = ground (arith, eq_refl delivery_id)
Mem→carries (id ∷ ids) delivery_id (Memᴰ.tail m) = ground (arith, Mem→carries ids delivery_id m)

find_sound :
    (delivery_id : String) (turns : List LocalTurn) (turn : LocalTurn)
    → find (carries delivery_id) turns ≡ some turn
    → Memᴰ turn turns × Memᴰ delivery_id turn.delivery_ids
unfolding find
find_sound delivery_id [] turn h = absurd (cc)
find_sound delivery_id (t ∷ turns) turn h = elim (Bool-cases (carries delivery_id t)) [
  | inl there ↦
      let same : turn ≡ t = ground arith in
      (
        Memᴰ.head same,
        subst (λ x. Memᴰ delivery_id x.delivery_ids) (sym same)
            (carries→Mem t.delivery_ids delivery_id there),
      )
  | inr absent ↦ let (m, c) = find_sound delivery_id turns turn (ground arith) in (Memᴰ.tail m, c)
]

find_complete :
    (delivery_id : String) (turns : List LocalTurn) (turn : LocalTurn)
    → find (carries delivery_id) turns ≡ none
    → Memᴰ turn turns
    → ¬ Memᴰ delivery_id turn.delivery_ids
unfolding find
find_complete delivery_id [] turn h m c = elim m [ ]
find_complete delivery_id (t ∷ turns) turn h (Memᴰ.head e) c =
    let there =
      Mem→carries t.delivery_ids delivery_id (subst (λ x. Memᴰ delivery_id x.delivery_ids) e c) in
    ground arith
find_complete delivery_id (t ∷ turns) turn h (Memᴰ.tail m) c =
    find_complete delivery_id turns turn (ground arith) m c

event_sound :
    (event : LocalTaskEvent) (delivery_id turn_id : String)
    → event_turn event delivery_id ≡ some turn_id
    → (turn : LocalTurn) × Memᴰ turn (turns_of event)
      × Memᴰ delivery_id turn.delivery_ids
      × (turn.id ≡ turn_id)
unfolding event_turn
event_sound event delivery_id turn_id h =
    elim (Option-cases (find (carries delivery_id) (turns_of event))) [
      | inl missing ↦ absurd (ground arith)
      | inr (turn, found) ↦
          let (m, c) = find_sound delivery_id (turns_of event) turn found in
          (turn, m, c, ground arith)
    ]

event_complete :
    (event : LocalTaskEvent) (delivery_id : String) (turn : LocalTurn)
    → event_turn event delivery_id ≡ none
    → Memᴰ turn (turns_of event)
    → ¬ Memᴰ delivery_id turn.delivery_ids
unfolding event_turn
event_complete event delivery_id turn h m c =
    elim (Option-cases (find (carries delivery_id) (turns_of event))) [
      | inl missing ↦ find_complete delivery_id (turns_of event) turn missing m c
      | inr (other, found) ↦ absurd (ground arith)
    ]

first_turn_sound :
    (events : List LocalTaskEvent) (delivery_id turn_id : String)
    → first_turn events delivery_id ≡ some turn_id
    → Observed events delivery_id turn_id
unfolding first_turn
first_turn_sound [] delivery_id turn_id h = absurd (cc)
first_turn_sound (event ∷ events) delivery_id turn_id h =
    elim (Option-cases (event_turn event delivery_id)) [
      | inr (found, e) ↦
          let (turn, m, c, id) = event_sound event delivery_id found e in
          (event, Memᴰ.head refl, turn, m, c, ground arith)
      | inl missing ↦
          let (other, m, turn, t, c, id) =
            first_turn_sound events delivery_id turn_id (ground arith) in
          (other, Memᴰ.tail m, turn, t, c, id)
    ]

tail-none :
    (event : LocalTaskEvent) (events : List LocalTaskEvent) (delivery_id : String)
    → first_turn (event ∷ events) delivery_id ≡ none
    → first_turn events delivery_id ≡ none
unfolding first_turn
tail-none event events delivery_id h = elim (Option-cases (event_turn event delivery_id)) [
  | inl missing ↦ ground arith
  | inr (found, e) ↦ absurd (ground arith)
]

head-none :
    (event : LocalTaskEvent) (events : List LocalTaskEvent) (delivery_id : String)
    → first_turn (event ∷ events) delivery_id ≡ none
    → event_turn event delivery_id ≡ none
unfolding first_turn
head-none event events delivery_id h = elim (Option-cases (event_turn event delivery_id)) [
  | inl missing ↦ missing
  | inr (found, e) ↦ absurd (ground arith)
]

first_turn_complete :
    (events : List LocalTaskEvent) (delivery_id turn_id : String)
    → first_turn events delivery_id ≡ none
    → ¬ Observed events delivery_id turn_id
unfolding first_turn
first_turn_complete [] delivery_id turn_id h (event, m, turn, t, c, id) = elim m [ ]
first_turn_complete (first ∷ events) delivery_id turn_id h (event, Memᴰ.head e, turn, m, c, id) =
    event_complete first delivery_id turn (head-none first events delivery_id h)
      (subst (λ x. Memᴰ turn (turns_of x)) e m) c
first_turn_complete (first ∷ events) delivery_id turn_id h (event, Memᴰ.tail m, turn, t, c, id) =
    first_turn_complete events delivery_id turn_id (tail-none first events delivery_id h)
      (event, m, turn, t, c, id)

confirm-Confirms :
    (route : DeliveryRoute) (request : DeliveryRequest) (turn_id : String) (operation : _)
    (attempts : _)
    → Confirms route (confirm route request turn_id operation attempts) turn_id
unfolding confirm
confirm-Confirms desktop request turn_id operation attempts = refl
confirm-Confirms app_server request turn_id operation attempts = refl

module _ (request : DeliveryRequest) (deadline : ℕ) (p : PendingReconciliation)
    (breakers : Breakers) (writes : List Write) (w : FinishWorld) where
  abbrev finished : Delivered
  finished = finish request deadline (pending p) breakers writes w

  abbrev last : OutcomeTag → Option SanitizedDiagnostic → DeliveryAttempt
  last tag d = record {
    route = p.route;
    stage = reconcile_app_server;
    outcome = tag;
    elapsed_ms = w.ended_at - w.started_at;
    diagnostic = d;
  }

  finish-some :
      (turn_id : String)
      → first_turn w.stream.events request.delivery_id ≡ some turn_id
      → (attempts : List DeliveryAttempt) × (finished.result
          ≡ confirm p.route request turn_id (operation_of request deadline request.mode) attempts)
  unfolding finish reconcile reconcile_delivery
  finish-some turn_id e = (
    p.attempts ++ last confirmed_tag none ∷ [],
    rw (e, reconcile_delivery, reconcile, finish) refl,
  )

  finish-none :
      first_turn w.stream.events request.delivery_id ≡ none
      → (failure : Failure) × (finished.result ≡ is_ambiguous p.route failure)
  unfolding finish reconcile reconcile_delivery
  finish-none e =
      let d = ending_diagnostic w.stream.ending p.route in
      (
        failure_of request (p.attempts ++ last ambiguous_tag (some d) ∷ []) d,
        rw (e, reconcile_delivery, reconcile, finish) refl,
      )

  finish-writes : finished.writes ≡ writes
  unfolding finish
  finish-writes = refl

  finish_known :
      ((turn_id : String) × Observed w.stream.events request.delivery_id turn_id
        × Confirms p.route finished.result turn_id)
      ⊎ (((turn_id : String) → ¬ Observed w.stream.events request.delivery_id turn_id)
          × IsAmbiguous p.route finished.result)
  finish_known = elim (Option-cases (first_turn w.stream.events request.delivery_id)) [
    | inr (turn_id, e) ↦
        let (attempts, same) = finish-some turn_id e in
        inl (
          turn_id,
          first_turn_sound _ _ _ e,
          subst (λ o. Confirms p.route o turn_id) (sym same)
              (confirm-Confirms p.route request turn_id _ attempts),
        )
    | inl e ↦
        let (failure, same) = finish-none e in
        inr (
          (λ turn_id. first_turn_complete _ _ turn_id e),
          subst (λ o. IsAmbiguous p.route o) (sym same) refl,
        )
  ]

-- The reconciliation of an ambiguous write is exact on the events it sees: the delivery is
-- confirmed, on the route of the write, with a turn that one of the events shows with the delivery's
-- id, or no event shows such a turn and the delivery stays ambiguous on that route. It writes
-- nothing.
pub finish-pending :
    (request : DeliveryRequest) (deadline : ℕ) (p : PendingReconciliation) (breakers : Breakers)
    (writes : List Write) (w : FinishWorld)
    → let d = finish request deadline (pending p) breakers writes w in
      (((turn_id : String) × Observed w.stream.events request.delivery_id turn_id
          × Confirms p.route d.result turn_id)
        ⊎ (((turn_id : String) → ¬ Observed w.stream.events request.delivery_id turn_id)
            × IsAmbiguous p.route d.result))
      × (d.writes ≡ writes)
finish-pending request deadline p breakers writes w = (
  finish_known request deadline p breakers writes w,
  finish-writes request deadline p breakers writes w,
)

-- ===== src/Desktop/State/Deltas.antt =====
-- The deltas, the snapshots and the other calls of `DesktopThreadState`
-- (src/transport/desktop-state.ts).
use mathlib.Core.Path.{subst}
use codexhook.Base.{
  ◌≡◌, refl, sym, ◌==◌, eq_iff, String, true, false, Option, some, List, [], ◌∷◌, arith, Bool-cases,
  Option-cases, inl, inr, All, any,
}
use codexhook.Base.Dict.{delete-IsDistinct, get, set, delete, has, get-set}
use codexhook.Contracts.{TurnStatus}
use codexhook.Desktop.{
  Turn, TurnError, DesktopTurnEntity, DesktopDeliveryBinding, DesktopTurnDelta, upsert, bind,
  status_delta, error_delta, remove, snapshot, patches, Snapshot, Patches,
}
use codexhook.Desktop.State.{
  Observed, DesktopThreadState, new_state, clear_observed_state, has_value, put_turn, bind_turn,
  bind_entities, bind_deliveries, observe_deliveries, or_empty, turn_at, set_status, set_error,
  remove_key, apply_delta, apply_deltas, apply_snapshot, patch_from, begin_connecting, begin_resync,
  disconnected, begin_following, set_injection, apply_patches, apply_change, apply, Call,
  begins_connecting, begins_resync, disconnects, begins_following, sets_injection, applies, step,
  run,
}
use codexhook.Desktop.State.Bindings.{
  has_value-get, has_value-delete_absent, has_value-delete_other, has_value-set_only,
}
use codexhook.Desktop.State.Consistent.{
  IsOwn, IsConsistent, drop_unbound-IsConsistent, set-IsOwn, bind_turn-IsConsistent,
}

remove_key-IsConsistent :
    (key : String) (o : Observed) → IsConsistent o → IsConsistent (remove_key key o)
unfolding remove_key
remove_key-IsConsistent key o v = elim (Option-cases (get key o.entity_turns)) [
  | inl absent ↦
      rw (absent, remove_key)
        (record {
          distinct = delete-IsDistinct key o.entity_turns v.distinct;
          bound = λ id.
              let b = v.bound id in
              ground (arith, has_value-delete_absent key id o.entity_turns absent);
          own = v.own;
          delivered = λ id h.
              let d = v.delivered id h in
              ground (arith, has_value-delete_absent key id o.entity_turns absent);
        })
  | inr (turn_id, here) ↦
      let others : (id : String)
          → (turn_id == id) ≡ false
          → has_value id (delete key o.entity_turns) ≡ has_value id o.entity_turns =
        λ id ne. has_value-delete_other key turn_id id o.entity_turns v.distinct here ne in
      let bound = v.bound turn_id in
      rw (here, remove_key)
        (drop_unbound-IsConsistent turn_id (record o { entity_turns = delete key o.entity_turns })
          (record {
            distinct = delete-IsDistinct key o.entity_turns v.distinct;
            bound = λ id ne. let b = v.bound id in ground (arith, others id ne);
            known = λ h. ground (arith, has_value-get key turn_id o.entity_turns here);
            own = v.own;
            delivered = λ id ne h. let d = v.delivered id h in ground (arith, others id ne);
          }))
]

-- Putting a turn that is known under its id.
put_turn-IsConsistent :
    (turn : Turn) (o : Observed)
    → IsConsistent o
    → has turn.id o.turns ≡ true
    → IsConsistent (put_turn turn o)
unfolding put_turn
put_turn-IsConsistent turn o v known = record {
  distinct = v.distinct;
  bound = λ id.
      let b = v.bound id in ground (arith, eq_iff turn.id id, get-set turn.id id turn o.turns);
  own = set-IsOwn turn o.turns v.own;
  delivered = v.delivered;
}

get-IsOwn :
    (key : String) (turn : Turn) (m : List (String × Turn))
    → All IsOwn m
    → get key m ≡ some turn
    → turn.id ≡ key
unfolding get
get-IsOwn key turn [] h e = absurd (cc)
get-IsOwn key turn ((j, w) ∷ m) (p, h) e = elim (Bool-cases (j == key)) [
  | inl same ↦ ground (arith, eq_iff j key)
  | inr other ↦ get-IsOwn key turn m h (ground arith)
]

turn_at-known :
    (key : String) (turn : Turn) (o : Observed)
    → IsConsistent o
    → turn_at key o ≡ some turn
    → has turn.id o.turns ≡ true
unfolding turn_at
turn_at-known key turn o v h = elim (Option-cases (get key o.entity_turns)) [
  | inl absent ↦ absurd (ground arith)
  | inr (turn_id, here) ↦
      let found : get turn_id o.turns ≡ some turn = ground arith in
      let own = get-IsOwn turn_id turn o.turns v.own found in
      subst (λ id. has id o.turns ≡ true) (sym own) (ground arith)
]

set_status-IsConsistent :
    (key : String) (status : TurnStatus) (o : Observed)
    → IsConsistent o
    → IsConsistent (set_status (turn_at key o) status o)
unfolding set_status
set_status-IsConsistent key status o v = elim (Option-cases (turn_at key o)) [
  | inl absent ↦ rw (absent) v
  | inr (turn, here) ↦ rw (here) (
      put_turn-IsConsistent (record turn { status = status }) o v (turn_at-known key turn o v here))
]

set_error-IsConsistent :
    (key : String) (error : TurnError) (o : Observed)
    → IsConsistent o
    → IsConsistent (set_error (turn_at key o) error o)
unfolding set_error
set_error-IsConsistent key error o v = elim (Option-cases (turn_at key o)) [
  | inl absent ↦ rw (absent) v
  | inr (turn, here) ↦
      rw (here) (
        put_turn-IsConsistent (record turn { error = error }) o v (turn_at-known key turn o v here))
]

apply_delta-IsConsistent :
    (delta : DesktopTurnDelta) (o : Observed) → IsConsistent o → IsConsistent (apply_delta delta o)
unfolding apply_delta
apply_delta-IsConsistent (upsert entity) o v = bind_turn-IsConsistent entity.key entity.turn o v
apply_delta-IsConsistent (bind key turn_id) o v = bind_turn-IsConsistent key _ o v
apply_delta-IsConsistent (status_delta key status) o v = set_status-IsConsistent key status o v
apply_delta-IsConsistent (error_delta key error) o v = set_error-IsConsistent key error o v
apply_delta-IsConsistent (remove key) o v = remove_key-IsConsistent key o v

apply_deltas-IsConsistent :
    (deltas : List DesktopTurnDelta) (o : Observed)
    → IsConsistent o
    → IsConsistent (apply_deltas deltas o)
unfolding apply_deltas
apply_deltas-IsConsistent [] o v = v
apply_deltas-IsConsistent (delta ∷ deltas) o v =
    apply_deltas-IsConsistent deltas (apply_delta delta o) (apply_delta-IsConsistent delta o v)

bind_entities-IsConsistent :
    (entities : List DesktopTurnEntity) (o : Observed)
    → IsConsistent o
    → IsConsistent (bind_entities entities o)
unfolding bind_entities
bind_entities-IsConsistent [] o v = v
bind_entities-IsConsistent (entity ∷ entities) o v =
    bind_entities-IsConsistent entities (bind_turn entity.key entity.turn o)
      (bind_turn-IsConsistent entity.key entity.turn o v)

-- The turn of every delivery is that of an entity.
abbrev AreBound : List (String × String) → List (String × String) → Type 0
AreBound entity_turns m = (id : String) → has_value id m ≡ true → has_value id entity_turns ≡ true

bind_deliveries-AreBound :
    (bindings : List DesktopDeliveryBinding) (entity_turns m : List (String × String))
    → AreBound entity_turns m
    → AreBound entity_turns (bind_deliveries bindings entity_turns m)
unfolding bind_deliveries
bind_deliveries-AreBound [] entity_turns m v = v
bind_deliveries-AreBound (binding ∷ bindings) entity_turns m v =
    elim (Option-cases (get binding.key entity_turns)) [
      | inl absent ↦ rw (absent) (bind_deliveries-AreBound bindings entity_turns m v)
      | inr (turn_id, here) ↦ rw (here) (
          bind_deliveries-AreBound bindings entity_turns (set binding.delivery_id turn_id m)
            (λ id h. elim (has_value-set_only binding.delivery_id turn_id id m h) [
              | inl same ↦
                  ground
                    (arith, eq_iff turn_id id, has_value-get binding.key turn_id entity_turns here)
              | inr old ↦ v id old
            ]))
    ]

observe_deliveries-IsConsistent :
    (ids : List String) (bindings : Option (List DesktopDeliveryBinding)) (o : Observed)
    → IsConsistent o
    → IsConsistent (observe_deliveries ids bindings o)
unfolding observe_deliveries
observe_deliveries-IsConsistent ids bindings o v = record {
  distinct = v.distinct;
  bound = v.bound;
  own = v.own;
  delivered =
      bind_deliveries-AreBound (or_empty bindings) o.entity_turns o.delivery_turns v.delivered;
}

cleared-IsConsistent : IsConsistent clear_observed_state
unfolding get has_value any
cleared-IsConsistent = record {
  distinct = tt;
  bound = λ id. refl;
  own = tt;
  delivered = λ id h. absurd (cc);
}

apply_snapshot-IsConsistent :
    (change : Snapshot) (s : DesktopThreadState)
    → IsConsistent s.observed
    → IsConsistent (apply_snapshot change s).1.observed
unfolding apply_snapshot begin_resync
apply_snapshot-IsConsistent change s v =
    let fresh =
      observe_deliveries-IsConsistent change.delivery_ids change.delivery_bindings
        (bind_entities change.entities clear_observed_state)
        (bind_entities-IsConsistent change.entities clear_observed_state cleared-IsConsistent) in
    ground arith

apply_patches-IsConsistent :
    (change : Patches) (s : DesktopThreadState)
    → IsConsistent s.observed
    → IsConsistent (apply_patches change s).1.observed
unfolding apply_patches begin_resync patch_from
apply_patches-IsConsistent change s v =
    let patched =
      observe_deliveries-IsConsistent change.delivery_ids change.delivery_bindings
        (apply_deltas change.deltas s.observed)
        (apply_deltas-IsConsistent change.deltas s.observed v) in
    ground arith

step-IsConsistent :
    (s : DesktopThreadState) (call : Call)
    → IsConsistent s.observed
    → IsConsistent (step s call).observed
unfolding step begin_connecting begin_resync disconnected begin_following set_injection apply
    apply_change
step-IsConsistent s begins_connecting v = v
step-IsConsistent s begins_resync v = v
step-IsConsistent s disconnects v = v
step-IsConsistent s (begins_following generation) v = cleared-IsConsistent
step-IsConsistent s (sets_injection value) v = v
step-IsConsistent s (applies (snapshot change) generation) v =
    ground (arith, apply_snapshot-IsConsistent change s v)
step-IsConsistent s (applies (patches change) generation) v =
    ground (arith, apply_patches-IsConsistent change s v)

run-IsConsistent :
    (s : DesktopThreadState) (calls : List Call)
    → IsConsistent s.observed
    → IsConsistent (run s calls).observed
unfolding run
run-IsConsistent s [] v = v
run-IsConsistent s (call ∷ calls) v =
    run-IsConsistent (step s call) calls (step-IsConsistent s call v)

-- After any calls on a new state, the keys of the entities are distinct, a turn is known exactly if
-- some entity has it, and under its own id, and every delivery that belongs to a turn belongs to a
-- known one.
pub new_state-IsConsistent :
    (thread_id : String) (calls : List Call)
    → IsConsistent (run (new_state thread_id) calls).observed
new_state-IsConsistent thread_id calls =
    run-IsConsistent (new_state thread_id) calls cleared-IsConsistent

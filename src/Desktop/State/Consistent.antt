-- ===== src/Desktop/State/Consistent.antt =====
-- The turns, the entities that they belong to, and the turns of deliveries in `DesktopThreadState`
-- (src/transport/desktop-state.ts).
use mathlib.Core.Path.{subst}
use codexhook.Base.{
  ◌≡◌, ◌⊎◌, refl, sym, ◌==◌, eq_iff, String, true, false, none, some, List, [], ◌∷◌, arith,
  Bool-cases, Option-cases, inl, inr, All,
}
use codexhook.Base.Dict.{IsDistinct, set-IsDistinct, get, set, delete, has, get-set, get-delete}
use codexhook.Desktop.{Turn}
use codexhook.Desktop.State.{Observed, has_value, drop_unbound, drop_previous, put_turn, bind_turn}
use codexhook.Desktop.State.Bindings.{
  has_value-get, has_value-set_same, has_value-set_other, has_value-drop,
}

-- A turn is kept under its own id.
abbrev pub IsOwn : String × Turn → Type 0
IsOwn (key, turn) = turn.id ≡ key

-- The keys are distinct; a turn is known exactly if some entity has it, and under its own id; and a
-- delivery belongs only to a known turn.
pub record IsConsistent (o : Observed) : Type 0 where
  pub distinct : IsDistinct o.entity_turns
  pub bound : (id : String) → has id o.turns ≡ has_value id o.entity_turns
  pub own : All IsOwn o.turns
  pub delivered :
      (id : String) → has_value id o.delivery_turns ≡ true → has_value id o.entity_turns ≡ true

pub set-IsOwn :
    (turn : Turn) (m : List (String × Turn)) → All IsOwn m → All IsOwn (set turn.id turn m)
unfolding set
set-IsOwn turn [] h = (refl, tt)
set-IsOwn turn ((j, w) ∷ m) (p, h) = elim (Bool-cases (j == turn.id)) [
  | inl same ↦ rw (same, set) (refl, h)
  | inr new ↦ rw (new, set) (p, set-IsOwn turn m h)
]

delete-IsOwn : (key : String) (m : List (String × Turn)) → All IsOwn m → All IsOwn (delete key m)
unfolding delete
delete-IsOwn key [] h = tt
delete-IsOwn key ((j, w) ∷ m) (p, h) = elim (Bool-cases (j == key)) [
  | inl same ↦ rw (same, delete) (delete-IsOwn key m h)
  | inr new ↦ rw (new, delete) (p, delete-IsOwn key m h)
]

-- All is consistent but for the turn `loose`, which may be known without an entity.
pub record IsLoose (loose : String) (o : Observed) : Type 0 where
  pub distinct : IsDistinct o.entity_turns
  pub bound : (id : String) → (loose == id) ≡ false → has id o.turns ≡ has_value id o.entity_turns
  pub known : has_value loose o.entity_turns ≡ true → has loose o.turns ≡ true
  pub own : All IsOwn o.turns
  pub delivered :
      (id : String)
      → (loose == id) ≡ false
      → has_value id o.delivery_turns ≡ true
      → has_value id o.entity_turns ≡ true

pub drop_unbound-IsConsistent :
    (loose : String) (o : Observed) → IsLoose loose o → IsConsistent (drop_unbound loose o)
unfolding drop_unbound
drop_unbound-IsConsistent loose o v = elim (Bool-cases (has_value loose o.entity_turns)) [
  | inl still ↦
      rw (still, drop_unbound)
        (record {
          distinct = v.distinct;
          bound =
              λ id. let b = v.bound id in let k = v.known still in ground (arith, eq_iff loose id);
          own = v.own;
          delivered = λ id h. let d = v.delivered id in ground (arith, eq_iff loose id);
        })
  | inr gone ↦
      rw (gone, drop_unbound)
        (record {
          distinct = v.distinct;
          bound = λ id.
              let b = v.bound id in ground (arith, eq_iff loose id, get-delete loose id o.turns);
          own = delete-IsOwn loose o.turns v.own;
          delivered = λ id h.
              let d = v.delivered id in
              ground (arith, eq_iff loose id, has_value-drop loose id o.delivery_turns);
        })
]

delete-set :
    (key other : String) (turn : Turn) (m : List (String × Turn))
    → (other == key) ≡ false
    → set key turn (delete other m) ≡ delete other (set key turn m)
unfolding set delete
delete-set key other turn [] ne = ground (arith, eq_iff key other, eq_iff other key)
delete-set key other turn ((j, w) ∷ m) ne = ground (
  arith,
  eq_iff j key,
  eq_iff j other,
  eq_iff key other,
  eq_iff other key,
  delete-set key other turn m ne,
)

put_turn-drop_unbound :
    (previous : String) (turn : Turn) (o : Observed)
    → (previous == turn.id) ≡ false
    → put_turn turn (drop_unbound previous o) ≡ drop_unbound previous (put_turn turn o)
unfolding put_turn drop_unbound
put_turn-drop_unbound previous turn o ne = elim (Bool-cases (has_value previous o.entity_turns)) [
  | inl still ↦ rw (still) refl
  | inr gone ↦ rw (gone, delete-set turn.id previous turn o.turns ne) refl
]

-- The state of `bind_turn` before the previous turn is dropped.
abbrev bound_to : String → Turn → Observed → Observed
bound_to key turn o = put_turn turn (record o { entity_turns = set key turn.id o.entity_turns })

-- The values of the other turns are as before.
abbrev Keeps : String → Turn → Observed → String → Type 0
Keeps key turn o id =
    (turn.id == id) ≡ false
    → has_value id (set key turn.id o.entity_turns) ≡ has_value id o.entity_turns

bound_to-bound :
    (key : String) (turn : Turn) (o : Observed) (id : String)
    → IsConsistent o
    → Keeps key turn o id
    → has id (set turn.id turn o.turns) ≡ has_value id (set key turn.id o.entity_turns)
bound_to-bound key turn o id v keeps =
    let bound = v.bound id in
    ground (
      arith,
      eq_iff turn.id id,
      get-set turn.id id turn o.turns,
      has_value-set_same key turn.id o.entity_turns,
    )

bound_to-delivered :
    (key : String) (turn : Turn) (o : Observed) (id : String)
    → IsConsistent o
    → Keeps key turn o id
    → has_value id o.delivery_turns ≡ true
    → has_value id (set key turn.id o.entity_turns) ≡ true
bound_to-delivered key turn o id v keeps h =
    let delivered = v.delivered id h in
    ground (arith, eq_iff turn.id id, has_value-set_same key turn.id o.entity_turns)

-- A key that gets a new turn leaves at most its previous one loose.
bound_to-IsLoose :
    (key previous : String) (turn : Turn) (o : Observed)
    → IsConsistent o
    → get key o.entity_turns ≡ some previous
    → IsLoose previous (bound_to key turn o)
unfolding put_turn
bound_to-IsLoose key previous turn o v before =
    let keeps : (id : String) → (previous == id) ≡ false → Keeps key turn o id = λ id ne new.
      has_value-set_other key turn.id id o.entity_turns new (inr (previous, before, ne)) in
    record {
      distinct = set-IsDistinct key turn.id o.entity_turns v.distinct;
      bound = λ id ne. bound_to-bound key turn o id v (keeps id ne);
      known = λ h.
          let bound = v.bound previous in
          ground (
            arith,
            get-set turn.id previous turn o.turns,
            has_value-get key previous o.entity_turns before,
          );
      own = set-IsOwn turn o.turns v.own;
      delivered = λ id ne. bound_to-delivered key turn o id v (keeps id ne);
    }

-- One whose turn is the one that it had, or that is new, leaves none.
bound_to-IsConsistent :
    (key : String) (turn : Turn) (o : Observed)
    → IsConsistent o
    → (get key o.entity_turns ≡ none)
      ⊎ ((p : String) × (get key o.entity_turns ≡ some p) × ((p == turn.id) ≡ true))
    → IsConsistent (bound_to key turn o)
unfolding put_turn
bound_to-IsConsistent key turn o v before =
    let keeps : (id : String) → Keeps key turn o id = λ id new.
      has_value-set_other key turn.id id o.entity_turns new (elim before [
        | inl absent ↦ inl absent
        | inr (p, here, same) ↦ inr (p, here, ground (arith, eq_iff p turn.id))
      ]) in
    record {
      distinct = set-IsDistinct key turn.id o.entity_turns v.distinct;
      bound = λ id. bound_to-bound key turn o id v (keeps id);
      own = set-IsOwn turn o.turns v.own;
      delivered = λ id. bound_to-delivered key turn o id v (keeps id);
    }

pub bind_turn-IsConsistent :
    (key : String) (turn : Turn) (o : Observed)
    → IsConsistent o
    → IsConsistent (bind_turn key turn o)
unfolding bind_turn drop_previous
bind_turn-IsConsistent key turn o v = elim (Option-cases (get key o.entity_turns)) [
  | inl absent ↦ rw (absent) (bound_to-IsConsistent key turn o v (inl absent))
  | inr (previous, before) ↦ elim (Bool-cases (previous == turn.id)) [
    | inl same ↦
        rw (before, same) (bound_to-IsConsistent key turn o v (inr (previous, before, same)))
    | inr other ↦
        rw (before, other)
          (subst (λ o. IsConsistent o)
            (sym (
              put_turn-drop_unbound previous turn
                (record o { entity_turns = set key turn.id o.entity_turns }) other))
            (drop_unbound-IsConsistent previous (bound_to key turn o)
              (bound_to-IsLoose key previous turn o v before)))
  ]
]

-- ===== src/Desktop/State/Bindings.antt =====
-- The maps of `DesktopThreadState` (src/transport/desktop-state.ts) from and to texts, by their
-- values.
use codexhook.Base.{
  ◌≡◌, ◌⊎◌, refl, ◌==◌, eq_iff, eq_refl, String, true, false, none, some, List, [], ◌∷◌, keep, any,
  arith, if◌then◌else◌,
}
use codexhook.Base.Dict.{IsDistinct, get, set, delete}
use codexhook.Desktop.State.{has_value, drop_turn_deliveries}

pub has_value-get :
    (key value : String) (m : List (String × String))
    → get key m ≡ some value
    → has_value value m ≡ true
unfolding has_value any get
has_value-get key value [] h = absurd (cc)
has_value-get key value ((j, w) ∷ m) h = ground (arith, eq_iff w value, has_value-get key value m)

-- A key that is set has its value, and the values of the others are as before.
pub has_value-set_same :
    (key value : String) (m : List (String × String)) → has_value value (set key value m) ≡ true
unfolding has_value any set
has_value-set_same key value [] = ground (arith, eq_refl value)
has_value-set_same key value ((j, w) ∷ m) =
    ground (arith, eq_refl value, has_value-set_same key value m)

pub has_value-set_other :
    (key value other : String) (m : List (String × String))
    → (value == other) ≡ false
    → (get key m ≡ none) ⊎ ((p : String) × (get key m ≡ some p) × ((p == other) ≡ false))
    → has_value other (set key value m) ≡ has_value other m
unfolding has_value any set get
has_value-set_other key value other [] ne h = ground arith
has_value-set_other key value other ((j, w) ∷ m) ne h =
    ground (arith, has_value-set_other key value other m ne)

-- A key that is deleted takes only its value away.
delete-absent : (key : String) (m : List (String × String)) → get key m ≡ none → delete key m ≡ m
unfolding get delete
delete-absent key [] h = refl
delete-absent key ((j, w) ∷ m) h = ground (arith, delete-absent key m)

pub has_value-delete_absent :
    (key value : String) (m : List (String × String))
    → get key m ≡ none
    → has_value value (delete key m) ≡ has_value value m
has_value-delete_absent key value m h = rw (delete-absent key m h) refl

pub has_value-delete_other :
    (key value other : String) (m : List (String × String))
    → IsDistinct m
    → get key m ≡ some value
    → (value == other) ≡ false
    → has_value other (delete key m) ≡ has_value other m
unfolding has_value any get delete
has_value-delete_other key value other [] d h ne = refl
has_value-delete_other key value other ((j, w) ∷ m) (fresh, d) h ne = ground (
  arith,
  eq_iff j key,
  has_value-delete_absent key other m,
  has_value-delete_other key value other m d,
)

pub has_value-drop :
    (turn_id other : String) (m : List (String × String))
    → has_value other (drop_turn_deliveries turn_id m)
      ≡ (if turn_id == other then false else has_value other m)
unfolding has_value any drop_turn_deliveries keep
has_value-drop turn_id other [] = ground arith
has_value-drop turn_id other ((j, w) ∷ m) =
    ground (
      arith,
      eq_iff w turn_id,
      eq_iff turn_id other,
      eq_iff w other,
      has_value-drop turn_id other m,
    )

-- A value after a `set` is the new one or one of before.
pub has_value-set_only :
    (key value other : String) (m : List (String × String))
    → has_value other (set key value m) ≡ true
    → ((value == other) ≡ true) ⊎ (has_value other m ≡ true)
unfolding has_value any set
has_value-set_only key value other [] h = ground arith
has_value-set_only key value other ((j, w) ∷ m) h =
    ground (arith, has_value-set_only key value other m)

-- ===== src/Base/Dict.antt =====
-- JavaScript's `Map` and Effect's `HashMap` with text keys: an association list in the order of
-- first insertion. `set` on a key that is there keeps the key's place, `delete` takes it out.
use Prim.Native.Nat.{suc, ◌≤◌}
use Prim.Native.String.{String}
use mathlib.Core.Path.{◌≡◌, refl}
use mathlib.Core.Bool.{Bool}
use mathlib.Core.List.{List, [], ◌∷◌}
use mathlib.Core.Option.{Option, none, some}
use native.Mathlib.Omega.{arith}
use text.Mathlib.Text.{◌==◌}
use text.Mathlib.TextEquality.{eq_iff}
use mathlib.Core.Logic.{inl, inr}
use codexhook.Base.Tests.{Bool-cases, if◌then◌else◌, is_some}
use codexhook.Base.Lists.{length}

module _ {ℓ} {V : Type ℓ} where
  unfoldable pub get : String → List (String × V) → Option V
  get k [] = none
  get k ((j, v) ∷ m) = if j == k then some v else get k m

  unfoldable pub set : String → V → List (String × V) → List (String × V)
  set k v [] = (k, v) ∷ []
  set k v ((j, w) ∷ m) = if j == k then (k, v) ∷ m else (j, w) ∷ set k v m

  unfoldable pub delete : String → List (String × V) → List (String × V)
  delete k [] = []
  delete k ((j, w) ∷ m) = if j == k then delete k m else (j, w) ∷ delete k m

  abbrev pub has : String → List (String × V) → Bool
  has k m = is_some (get k m)

  pub get-set :
      (k j : String) (v : V) (m : List (String × V))
      → get j (set k v m) ≡ (if k == j then some v else get j m)
  unfolding get set
  get-set k j v [] = refl
  get-set k j v ((i, w) ∷ m) = ground (arith, eq_iff k j, eq_iff i k, eq_iff i j, get-set k j v m)

  pub get-delete :
      (k j : String) (m : List (String × V))
      → get j (delete k m) ≡ (if k == j then none else get j m)
  unfolding get delete
  get-delete k j [] = ground arith
  get-delete k j ((i, w) ∷ m) = ground (arith, eq_iff k j, eq_iff i k, eq_iff i j, get-delete k j m)

  pub length-delete-le : (k : String) (m : List (String × V)) → length (delete k m) ≤ length m
  unfolding delete
  length-delete-le k [] = omega arith
  length-delete-le k ((i, w) ∷ m) = ground (arith, length-delete-le k m)

  -- A new key adds one entry, and a key that is there adds none.
  pub length-set :
      (k : String) (v : V) (m : List (String × V))
      → length (set k v m) ≡ (if has k m then length m else suc (length m))
  unfolding get set
  length-set k v [] = refl
  length-set k v ((i, w) ∷ m) = ground (arith, length-set k v m)

-- The keys are distinct.
abbrev pub IsDistinct {ℓ} : {V : Type ℓ} → List (String × V) → Type ℓ
IsDistinct {V} [] = Unit
IsDistinct {V} ((key, value) ∷ m) = (get key m ≡ none) × IsDistinct m

pub set-IsDistinct {ℓ} :
    {V : Type ℓ} (key : String) (value : V) (m : List (String × V))
    → IsDistinct m
    → IsDistinct (set key value m)
unfolding set get
set-IsDistinct key value [] d = (refl, tt)
set-IsDistinct {V} key value ((j, w) ∷ m) (fresh, d) = elim (Bool-cases (j == key)) [
  | inl same ↦ rw (same, set) (ground (arith, eq_iff j key), d)
  | inr new ↦
      rw (new, set)
        (
          ground (arith, eq_iff j key, eq_iff key j, get-set key j value m),
          set-IsDistinct key value m d,
        )
]

pub delete-IsDistinct {ℓ} :
    {V : Type ℓ} (key : String) (m : List (String × V)) → IsDistinct m → IsDistinct (delete key m)
unfolding delete
delete-IsDistinct key [] d = tt
delete-IsDistinct {V} key ((j, w) ∷ m) (fresh, d) = elim (Bool-cases (j == key)) [
  | inl same ↦ rw (same, delete) (delete-IsDistinct key m d)
  | inr new ↦
      rw (new, delete)
        (ground (arith, eq_iff j key, eq_iff key j, get-delete key j m), delete-IsDistinct key m d)
]

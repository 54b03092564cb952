-- ===== src/Registry/Rows.antt =====
-- Searches and changes of the registry's table (src/registry.ts).
use codexhook.Base.{
  ℕ, ◌≡◌, ◌≢◌, refl, sym, ap, ◌∙◌, String, Bool, true, false, not, none, some, [], ◌∷◌, map, arith,
  All, keep, find, any, false, ◌==◌, eq_iff, eq_refl, inl, inr, Bool-cases,
}
use mathlib.Core.Path.{subst}
use codexhook.Registry.{
  WebhookRow, Table, find_hash, find_id, is_hash_taken, delete_id, overwrite, decrement,
  is_positive,
}

-- The row's key and hash occur in none of the others.
abbrev pub IsFresh : WebhookRow → Table → Type 0
IsFresh r = All (λ x. (x.id ≢ r.id) × (x.token_hash ≢ r.token_hash))

-- Distinct keys, distinct token hashes, and no count at 0.
abbrev pub IsValid : Table → Type 0
IsValid [] = Unit
IsValid (r ∷ t) = IsFresh r t × (is_positive r.remaining_deliveries ≡ true) × IsValid t

module _ (p : WebhookRow → Bool) where
  keep-IsFresh : (r : WebhookRow) (t : Table) → IsFresh r t → IsFresh r (keep p t)
  unfolding keep
  keep-IsFresh r [] h = tt
  keep-IsFresh r (x ∷ t) h = ground (arith, keep-IsFresh r t h.1)

  pub keep-IsValid : (t : Table) → IsValid t → IsValid (keep p t)
  unfolding keep
  keep-IsValid [] v = tt
  keep-IsValid (r ∷ t) v = ground (arith, keep-IsValid t v.2, keep-IsFresh r t v.0)

pub delete_id-IsValid : (id : String) (t : Table) → IsValid t → IsValid (delete_id id t)
unfolding delete_id
delete_id-IsValid id t v = keep-IsValid (λ x. not (x.id == id)) t v

-- A row that the table's search finds has another key than one that is fresh for the table.
find_hash-ne :
    (x : WebhookRow) (h : String) (t : Table) (r : WebhookRow)
    → IsFresh x t
    → find_hash h t ≡ some r
    → r.id ≢ x.id
unfolding find_hash find
find_hash-ne x h [] r f e = cc
find_hash-ne x h (y ∷ t) r f e = ground (arith, find_hash-ne x h t r f.1)

pub find_hash-eq :
    (h : String) (t : Table) (r : WebhookRow) → find_hash h t ≡ some r → r.token_hash ≡ h
unfolding find_hash find
find_hash-eq h [] r e = cc
find_hash-eq h (x ∷ t) r e = ground (arith, find_hash-eq h t r, eq_iff x.token_hash h)

-- A key that the search does not find, with a hash that no row has, is fresh.
pub none-IsFresh :
    (r : WebhookRow) (t : Table) → is_hash_taken r t ≡ false → find_id r.id t ≡ none → IsFresh r t
unfolding is_hash_taken any find_id find
none-IsFresh r [] h k = tt
none-IsFresh r (x ∷ t) h k =
    ground (arith, eq_iff x.id r.id, eq_iff x.token_hash r.token_hash, none-IsFresh r t)

-- Behind the row with the key, nobody has a hash that no other row has.
untaken-find_hash :
    (new x : WebhookRow) (t : Table)
    → IsFresh x t
    → x.id ≡ new.id
    → is_hash_taken new t ≡ false
    → find_hash new.token_hash t ≡ none
unfolding is_hash_taken any find_hash find
untaken-find_hash new x [] f same h = refl
untaken-find_hash new x (y ∷ t) f same h =
    ground (arith, eq_iff y.id new.id, untaken-find_hash new x t f.1 same)

-- `decrement` touches no row with another key.
map-decrement_fresh : (r : WebhookRow) (t : Table) → IsFresh r t → map (decrement r.id) t ≡ t
unfolding decrement
map-decrement_fresh r [] f = refl
map-decrement_fresh r (x ∷ t) f = ground (arith, eq_iff x.id r.id, map-decrement_fresh r t f.1)

decrement-IsFresh :
    (id : String) (x : WebhookRow) (t : Table) → IsFresh x t → IsFresh x (map (decrement id) t)
unfolding decrement
decrement-IsFresh id x [] f = tt
decrement-IsFresh id x (y ∷ t) f = ground (arith, decrement-IsFresh id x t f.1)

decrement_self-IsFresh : (r : WebhookRow) (t : Table) → IsFresh r t → IsFresh (decrement r.id r) t
unfolding decrement
decrement_self-IsFresh r [] f = tt
decrement_self-IsFresh r (x ∷ t) f = ground (arith, eq_refl r.id, decrement_self-IsFresh r t f.1)

decrement_self-positive :
    (r : WebhookRow) (n : ℕ)
    → r.remaining_deliveries ≡ some n
    → n ≢ 1
    → is_positive r.remaining_deliveries ≡ true
    → is_positive (decrement r.id r).remaining_deliveries ≡ true
unfolding decrement is_positive
decrement_self-positive r n e k p = ground (arith, eq_refl r.id)

decrement_other : (x r : WebhookRow) → x.id ≢ r.id → decrement r.id x ≡ x
unfolding decrement
decrement_other x r k = ground (arith, eq_iff x.id r.id)

decrement_head-IsValid :
    (x : WebhookRow) (t : Table) (n : ℕ)
    → IsValid (x ∷ t)
    → x.remaining_deliveries ≡ some n
    → n ≢ 1
    → IsValid (map (decrement x.id) (x ∷ t))
decrement_head-IsValid x t n v m k =
    rw (map-decrement_fresh x t v.0)
      (decrement_self-IsFresh x t v.0, decrement_self-positive x n m k v.1, v.2)

pub decrement-IsValid :
    (h : String) (t : Table) (r : WebhookRow) (n : ℕ)
    → IsValid t
    → find_hash h t ≡ some r
    → r.remaining_deliveries ≡ some n
    → n ≢ 1
    → IsValid (map (decrement r.id) t)
unfolding find_hash find
decrement-IsValid h [] r n v e m k = tt
decrement-IsValid h (x ∷ t) r n v e m k = elim (Bool-cases (x.token_hash == h)) [
  | inl hit ↦
      let same : r ≡ x = ground arith in
      subst (λ y. IsValid (map (decrement y.id) (x ∷ t))) (sym same)
        (decrement_head-IsValid x t n v
          (ap (λ (y : WebhookRow). y.remaining_deliveries) (sym same) ∙ m) k)
  | inr miss ↦
      let found : find_hash h t ≡ some r = ground arith in
      let other = find_hash-ne x h t r v.0 found in
      rw (decrement_other x r (λ same. other (sym same)))
        (decrement-IsFresh r.id x t v.0, v.1, decrement-IsValid h t r n v.2 found m k)
]

map-overwrite_fresh :
    (new r : WebhookRow) (t : Table) → r.id ≡ new.id → IsFresh r t → map (overwrite new) t ≡ t
unfolding overwrite
map-overwrite_fresh new r [] same f = refl
map-overwrite_fresh new r (x ∷ t) same f =
    ground (arith, eq_iff x.id new.id, map-overwrite_fresh new r t same f.1)

overwrite-IsFresh :
    (new x : WebhookRow) (t : Table)
    → x.token_hash ≢ new.token_hash
    → IsFresh x t
    → IsFresh x (map (overwrite new) t)
unfolding overwrite
overwrite-IsFresh new x [] k f = tt
overwrite-IsFresh new x (y ∷ t) k f =
    ground (arith, eq_iff y.id new.id, overwrite-IsFresh new x t k f.1)

overwritten-IsFresh :
    (new r : WebhookRow) (t : Table)
    → r.id ≡ new.id
    → find_hash new.token_hash t ≡ none
    → IsFresh r t
    → IsFresh (overwrite new r) t
unfolding overwrite find_hash find
overwritten-IsFresh new r [] same h f = tt
overwritten-IsFresh new r (x ∷ t) same h f = ground (
  arith,
  eq_iff r.id new.id,
  eq_iff x.token_hash new.token_hash,
  overwritten-IsFresh new r t same,
)

overwritten-positive :
    (new r : WebhookRow)
    → r.id ≡ new.id
    → is_positive new.remaining_deliveries ≡ true
    → is_positive (overwrite new r).remaining_deliveries ≡ true
unfolding overwrite
overwritten-positive new r same p = ground (arith, eq_iff r.id new.id)

overwrite_other : (new x : WebhookRow) → (x.id == new.id) ≡ false → overwrite new x ≡ x
unfolding overwrite
overwrite_other new x miss = rw miss

pub overwrite-IsValid :
    (new : WebhookRow) (t : Table)
    → IsValid t
    → is_hash_taken new t ≡ false
    → is_positive new.remaining_deliveries ≡ true
    → IsValid (map (overwrite new) t)
unfolding is_hash_taken any
overwrite-IsValid new [] v h p = tt
overwrite-IsValid new (x ∷ t) v h p =
    let rest : is_hash_taken new t ≡ false = ground arith in
    elim (Bool-cases (x.id == new.id)) [
      | inl hit ↦
          let same = (eq_iff x.id new.id).0 hit in
          let nobody = untaken-find_hash new x t v.0 same rest in
          rw (map-overwrite_fresh new x t same v.0)
            (overwritten-IsFresh new x t same nobody v.0, overwritten-positive new x same p, v.2)
      | inr miss ↦
          let other : x.token_hash ≢ new.token_hash =
            ground (arith, eq_iff x.token_hash new.token_hash) in
          rw (overwrite_other new x miss)
            (overwrite-IsFresh new x t other v.0, v.1, overwrite-IsValid new t v.2 rest p)
    ]

-- Deleting rows finds no new ones: no row with a fresh row's hash appears.
find_hash_fresh :
    (x : WebhookRow) (p : WebhookRow → Bool) (t : Table)
    → IsFresh x t
    → find_hash x.token_hash (keep p t) ≡ none
unfolding find_hash find keep
find_hash_fresh x p [] f = refl
find_hash_fresh x p (y ∷ t) f =
    ground (arith, eq_iff y.token_hash x.token_hash, find_hash_fresh x p t f.1)

-- With distinct hashes, a row that is deleted by its key is not found by its hash.
pub find_hash-delete_id :
    (h : String) (t : Table) (r : WebhookRow)
    → IsValid t
    → find_hash h t ≡ some r
    → find_hash h (delete_id r.id t) ≡ none
unfolding find_hash find delete_id keep
find_hash-delete_id h [] r v e = refl
find_hash-delete_id h (x ∷ t) r v e = elim (Bool-cases (x.token_hash == h)) [
  | inl hit ↦ ground (
    arith,
    eq_iff x.token_hash h,
    eq_refl x.id,
    find_hash_fresh x (λ y. not (y.id == r.id)) t v.0,
  )
  | inr miss ↦ ground (arith, eq_iff x.token_hash h, find_hash-delete_id h t r v.2)
]

-- A search by hash sees through a change of rows that leaves the hashes alone.
pub find_hash-decrement :
    (h id : String) (t : Table) (r : WebhookRow)
    → find_hash h t ≡ some r
    → find_hash h (map (decrement id) t) ≡ some (decrement id r)
unfolding find_hash find decrement
find_hash-decrement h id [] r e = cc
find_hash-decrement h id (x ∷ t) r e = ground (arith, find_hash-decrement h id t r)

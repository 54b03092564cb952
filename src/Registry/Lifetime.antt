-- ===== src/Registry/Lifetime.antt =====
-- What `create` makes reachable and whom it replaces (src/registry.ts).
use codexhook.Base.{
  ℕ, ◌≡◌, ◌≢◌, refl, String, true, false, none, some, [], ◌∷◌, map, arith, ◌==◌, eq_iff, eq_refl,
  Option-cases, Bool-cases, inl, inr, find, any,
}
use codexhook.Base.Result.{ok}
use codexhook.Types.{CreatedWebhook}
use codexhook.Registry.{
  WebhookRow, Table, CreateWebhookInput, find_hash, find_id, is_hash_taken, is_expired, upsert,
  overwrite, row_of, row_to_record, inspect_row, claim_row, create, inspect_token, claim_token,
}
use codexhook.Registry.Format.{token_pattern}
use codexhook.Registry.Rows.{IsFresh, IsValid}

find_hash-overwrite :
    (new old : WebhookRow) (t : Table)
    → find_id new.id t ≡ some old
    → old.thread_id ≡ new.thread_id
    → is_hash_taken new t ≡ false
    → find_hash new.token_hash (map (overwrite new) t) ≡ some new
unfolding find_hash find_id find overwrite is_hash_taken any
find_hash-overwrite new old [] e s h = cc
find_hash-overwrite new old (x ∷ t) e s h = ground (
  arith,
  eq_iff x.id new.id,
  eq_iff x.token_hash new.token_hash,
  eq_refl new.token_hash,
  find_hash-overwrite new old t,
)

find_hash_head : (r : WebhookRow) (t : Table) → find_hash r.token_hash (r ∷ t) ≡ some r
unfolding find_hash find
find_hash_head r t = rw (eq_refl r.token_hash)

upsert-find_hash :
    (new : WebhookRow) (t t' : Table)
    → upsert new t ≡ ok t'
    → find_hash new.token_hash t' ≡ some new
unfolding upsert
upsert-find_hash new t t' e = elim (Option-cases (find_id new.id t)) [
  | inl missing ↦ ground (arith, find_hash_head new t)
  | inr (old, found) ↦
      ground (arith, eq_iff old.thread_id new.thread_id, find_hash-overwrite new old t found)
]

-- A hook that `create` has returned is found by its token, unchanged and with the fields of the
-- input, at every time at which it has not expired, provided that the token has the token format.
pub inspect_token-create :
    (token_hash : String → String) (t t' : Table) (token : String) (input : CreateWebhookInput)
    (now later : ℕ) (hook : CreatedWebhook)
    → token_pattern token ≡ true
    → create token_hash t token input now ≡ ok (hook, t')
    → is_expired later (row_of (token_hash token) input now) ≡ false
    → (inspect_token token_hash t' token later ≡ (some hook.webhook, t'))
      × (hook.webhook ≡ row_to_record (row_of (token_hash token) input now))
      × (hook.token ≡ token)
unfolding create inspect_token inspect_row
inspect_token-create token_hash t t' token input now later hook p e live =
    let new = row_of (token_hash token) input now in ground (arith, upsert-find_hash new t t')

fresh-overwritten :
    (new x : WebhookRow) (t : Table)
    → IsFresh x t
    → x.token_hash ≢ new.token_hash
    → find_hash x.token_hash (map (overwrite new) t) ≡ none
unfolding find_hash find overwrite
fresh-overwritten new x [] f k = refl
fresh-overwritten new x (y ∷ t) f k = ground (
  arith,
  eq_iff new.token_hash x.token_hash,
  eq_iff y.token_hash x.token_hash,
  fresh-overwritten new x t f.1,
)

find_id-ne_hash :
    (x : WebhookRow) (id : String) (t : Table) (r : WebhookRow)
    → IsFresh x t
    → find_id id t ≡ some r
    → r.token_hash ≢ x.token_hash
unfolding find_id find
find_id-ne_hash x id [] r f e = cc
find_id-ne_hash x id (y ∷ t) r f e = ground (arith, find_id-ne_hash x id t r f.1)

-- The hash of a hook that is overwritten is gone.
find_hash-overwritten :
    (new old : WebhookRow) (t : Table)
    → IsValid t
    → find_id new.id t ≡ some old
    → old.token_hash ≢ new.token_hash
    → find_hash old.token_hash (map (overwrite new) t) ≡ none
unfolding find_hash find_id find overwrite
find_hash-overwritten new old [] v e k = refl
find_hash-overwritten new old (x ∷ t) v e k = elim (Bool-cases (x.id == new.id)) [
  | inl hit ↦ ground (
    arith,
    eq_iff new.token_hash old.token_hash,
    eq_iff x.token_hash old.token_hash,
    fresh-overwritten new x t v.0,
  )
  | inr miss ↦
      let found : find_id new.id t ≡ some old = ground arith in
      ground (
        arith,
        eq_iff x.token_hash old.token_hash,
        find_id-ne_hash x new.id t old v.0 found,
        find_hash-overwritten new old t v.2 found k,
      )
]

upsert-overwritten :
    (new old : WebhookRow) (t t' : Table)
    → IsValid t
    → find_id new.id t ≡ some old
    → old.token_hash ≢ new.token_hash
    → upsert new t ≡ ok t'
    → find_hash old.token_hash t' ≡ none
unfolding upsert
upsert-overwritten new old t t' v found other e =
    ground (arith, find_hash-overwritten new old t v found other)

find_id-overwrite_other :
    (new r : WebhookRow) (id : String) (t : Table)
    → id ≢ new.id
    → find_id id t ≡ some r
    → find_id id (map (overwrite new) t) ≡ some r
unfolding find_id find overwrite
find_id-overwrite_other new r id [] k e = cc
find_id-overwrite_other new r id (x ∷ t) k e =
    ground (arith, eq_iff x.id id, eq_iff x.id new.id, find_id-overwrite_other new r id t k)

find_id_head :
    (new r : WebhookRow) (id : String) (t : Table)
    → find_id new.id t ≡ none
    → find_id id t ≡ some r
    → find_id id (new ∷ t) ≡ some r
unfolding find_id find
find_id_head new r id t e f = ground (arith, eq_iff new.id id)

upsert-others :
    (new r : WebhookRow) (id : String) (t t' : Table)
    → r.thread_id ≢ new.thread_id
    → find_id id t ≡ some r
    → upsert new t ≡ ok t'
    → find_id id t' ≡ some r
unfolding upsert
upsert-others new r id t t' k f e = elim (Option-cases (find_id new.id t)) [
  | inl missing ↦ ground (arith, find_id_head new r id t missing f)
  | inr (old, found) ↦
      ground (arith, eq_iff old.thread_id new.thread_id, find_id-overwrite_other new r id t)
]

module _ (token_hash : String → String) (t t' : Table) (token : String) (input : CreateWebhookInput)
    (now : ℕ) (hook : CreatedWebhook)
    (created : create token_hash t token input now ≡ ok (hook, t')) where
  create-upsert : upsert (row_of (token_hash token) input now) t ≡ ok t'
  unfolding create
  create-upsert = ground arith

  -- Creating a hook under an id that the table holds makes the id's earlier token useless: neither
  -- an inspection nor a claim with it finds a hook or changes the table, at any time. The table is
  -- valid, the earlier token is one whose hash the id's row has, and the new token has another hash.
  pub create-revokes_old :
      (old : WebhookRow) (old_token : String) (later : ℕ)
      → IsValid t
      → find_id input.id t ≡ some old
      → token_hash old_token ≡ old.token_hash
      → old.token_hash ≢ token_hash token
      → (inspect_token token_hash t' old_token later ≡ (none, t'))
        × (claim_token token_hash t' old_token later ≡ (none, t'))
  unfolding inspect_token claim_token inspect_row claim_row
  create-revokes_old old old_token later v found same other = ground (
    arith,
    upsert-overwritten (row_of (token_hash token) input now) old t t' v found other create-upsert,
  )

  -- A successful `create` leaves every hook of another thread as it was, under its id.
  pub create-keeps_others :
      (id : String) (r : WebhookRow)
      → find_id id t ≡ some r
      → r.thread_id ≢ input.thread_id
      → find_id id t' ≡ some r
  create-keeps_others id r found other =
      upsert-others (row_of (token_hash token) input now) r id t t' other found create-upsert

-- ===== src/Registry/Invariant.antt =====
-- The table's keys and counts under the methods of `WebhookRegistry` (src/registry.ts).
use codexhook.Base.{
  ℕ, ◌≡◌, String, true, Option, none, some, List, [], ◌∷◌, arith, Option-cases, inl, inr,
}
use codexhook.Base.Result.{Result, ok, err}
use codexhook.Registry.{
  WebhookRow, CreateWebhookInput, Table, find_hash, is_positive, upsert, spend, inspect_row,
  claim_row, row_of, create, inspect_token, claim_token, delete_expired, revoke, revoke_thread,
  revoke_all, Error,
}
use codexhook.Registry.Rows.{
  IsValid, keep-IsValid, delete_id-IsValid, none-IsFresh, decrement-IsValid, overwrite-IsValid,
}

pub upsert-IsValid :
    (row : WebhookRow) (t t' : Table)
    → IsValid t
    → is_positive row.remaining_deliveries ≡ true
    → upsert row t ≡ ok t'
    → IsValid t'
unfolding upsert
upsert-IsValid row t t' v p e = ground (arith, none-IsFresh row t, overwrite-IsValid row t v)

pub spend-IsValid :
    (h : String) (t : Table) (row : WebhookRow)
    → IsValid t
    → find_hash h t ≡ some row
    → IsValid (spend row t)
unfolding spend
spend-IsValid h t row v e = elim (Option-cases row.remaining_deliveries) [
  | inl unlimited ↦ rw (unlimited, spend) v
  | inr (n, limited) ↦
      rw (limited, spend)
        (ground (arith, delete_id-IsValid row.id t v, decrement-IsValid h t row n v e limited))
]

-- A method's call with its arguments; the token of `create` is the random one.
pub data Call : Type 0 where
  creates : String → CreateWebhookInput → ℕ → Call
  inspects claims : String → ℕ → Call
  revokes revokes_thread : String → Call
  revokes_all : Call
  deletes_expired : ℕ → Call

-- A call of `create` that throws leaves the table as it was.
abbrev created {ℓ} : {A : Type ℓ} → Table → Result Error (A × Table) → Table
created table (ok (_, after)) = after
created table (err _) = table

module _ (token_hash : String → String) where
  -- The table after a call.
  pub step : Table → Call → Table
  step t (creates token input now) = created t (create token_hash t token input now)
  step t (inspects token now) = (inspect_token token_hash t token now).1
  step t (claims token now) = (claim_token token_hash t token now).1
  step t (revokes id) = (revoke t id).1
  step t (revokes_thread thread_id) = (revoke_thread t thread_id).1
  step t revokes_all = (revoke_all t).1
  step t (deletes_expired now) = (delete_expired t now).1

  pub run : Table → List Call → Table
  run t [] = t
  run t (c ∷ cs) = run (step t c) cs

  create-IsValid :
      (t : Table) (token : String) (input : CreateWebhookInput) (now : ℕ)
      → IsValid t
      → IsValid (created t (create token_hash t token input now))
  unfolding create
  create-IsValid t token input now v =
      grind (arith, upsert-IsValid (row_of (token_hash token) input now) t)

  inspect-IsValid :
      (t : Table) (now : ℕ) (found : Option WebhookRow)
      → IsValid t
      → IsValid (inspect_row t now found).1
  unfolding inspect_row
  inspect-IsValid t now none v = v
  inspect-IsValid t now (some row) v = ground (arith, delete_id-IsValid row.id t v)

  claim-IsValid :
      (t : Table) (h : String) (now : ℕ) → IsValid t → IsValid (claim_row t now (find_hash h t)).1
  unfolding claim_row
  claim-IsValid t h now v = elim (Option-cases (find_hash h t)) [
    | inl missing ↦ rw (missing, claim_row) v
    | inr (row, found) ↦
        rw (found, claim_row)
          (ground (arith, delete_id-IsValid row.id t v, spend-IsValid h t row v found))
  ]

  pub step-IsValid : (t : Table) (c : Call) → IsValid t → IsValid (step t c)
  unfolding step inspect_token claim_token revoke revoke_thread revoke_all delete_expired
  step-IsValid t (creates token input now) v = create-IsValid t token input now v
  step-IsValid t (inspects token now) v =
      ground (arith, inspect-IsValid t now (find_hash (token_hash token) t) v)
  step-IsValid t (claims token now) v = ground (arith, claim-IsValid t (token_hash token) now v)
  step-IsValid t (revokes id) v = delete_id-IsValid id t v
  step-IsValid t (revokes_thread thread_id) v = keep-IsValid _ t v
  step-IsValid t revokes_all v = tt
  step-IsValid t (deletes_expired now) v = keep-IsValid _ t v

  -- From a table with distinct ids, distinct token hashes and no row whose count is 0, any sequence
  -- of calls of the registry's methods leads to such a table again.
  pub run-IsValid : (t : Table) (cs : List Call) → IsValid t → IsValid (run t cs)
  unfolding run
  run-IsValid t [] v = v
  run-IsValid t (c ∷ cs) v = run-IsValid (step t c) cs (step-IsValid t c v)

-- ===== src/Registry/Claims.antt =====
-- How often a token can be claimed (`claimToken` of src/registry.ts).
use Prim.Native.Nat.{min}
use codexhook.Base.{
  ℕ, ◌+◌, ◌-◌, ◌<◌, ◌≡◌, ◌≢◌, refl, String, true, false, none, some, List, [], ◌∷◌, map, arith, All,
  length, eqb, if◌then◌else◌, Bool-cases, inl, inr, is_some, eq_refl, ◌∙◌, find,
}
use codexhook.Registry.{
  WebhookRow, Table, find_hash, delete_id, is_expired, is_positive, spend, claim_row, claim_token,
  decrement, row_to_record,
}
use codexhook.Registry.Format.{token_pattern}
use codexhook.Registry.Rows.{IsValid, find_hash-delete_id, find_hash-decrement, decrement-IsValid}

decrement_expiry :
    (now : ℕ) (row : WebhookRow) → is_expired now (decrement row.id row) ≡ is_expired now row
unfolding is_expired decrement
decrement_expiry now row = ground (arith, eq_refl row.id)

decrement_count :
    (row : WebhookRow) (n : ℕ)
    → row.remaining_deliveries ≡ some n
    → (decrement row.id row).remaining_deliveries ≡ some (n - 1)
unfolding decrement
decrement_count row n e = ground (arith, eq_refl row.id)

found-positive :
    (h : String) (t : Table) (row : WebhookRow)
    → IsValid t
    → find_hash h t ≡ some row
    → is_positive row.remaining_deliveries ≡ true
unfolding find_hash find
found-positive h [] row v e = cc
found-positive h (x ∷ t) row v e = ground (arith, found-positive h t row v.2)

found-count :
    (h : String) (t : Table) (row : WebhookRow) (n : ℕ)
    → IsValid t
    → find_hash h t ≡ some row
    → row.remaining_deliveries ≡ some n
    → 0 < n
unfolding is_positive
found-count h t row n v e m = ground (arith, found-positive h t row v e)

-- The hook has not expired at any of the times.
abbrev pub IsLive : WebhookRow → List ℕ → Type 0
IsLive row = All (λ now. is_expired now row ≡ false)

decrement-IsLive :
    (row : WebhookRow) (times : List ℕ) → IsLive row times → IsLive (decrement row.id row) times
decrement-IsLive row [] h = tt
decrement-IsLive row (now ∷ times) h =
    (decrement_expiry now row ∙ h.0, decrement-IsLive row times h.1)

spend_last :
    (t : Table) (row : WebhookRow)
    → row.remaining_deliveries ≡ some 1
    → spend row t ≡ delete_id row.id t
unfolding spend
spend_last t row e = ground arith

spend_other :
    (t : Table) (row : WebhookRow) (n : ℕ)
    → row.remaining_deliveries ≡ some n
    → n ≢ 1
    → spend row t ≡ map (decrement row.id) t
unfolding spend
spend_other t row n e k = ground arith

spend_unlimited : (t : Table) (row : WebhookRow) → row.remaining_deliveries ≡ none → spend row t ≡ t
unfolding spend
spend_unlimited t row e = ground arith

module _ (token_hash : String → String) (token : String) where
  -- How many of the claims at the given times succeed, one after the other.
  pub successes : Table → List ℕ → ℕ
  successes t [] = 0
  successes t (now ∷ times) =
      let (claimed, after) = claim_token token_hash t token now in
      (if is_some claimed then 1 else 0) + successes after times

  claim_live :
      (t : Table) (now : ℕ) (row : WebhookRow)
      → token_pattern token ≡ true
      → find_hash (token_hash token) t ≡ some row
      → is_expired now row ≡ false
      → claim_token token_hash t token now ≡ (some (row_to_record row), spend row t)
  unfolding claim_token claim_row
  claim_live t now row p e live = ground arith

  claim_missing :
      (t : Table) (now : ℕ)
      → find_hash (token_hash token) t ≡ none
      → claim_token token_hash t token now ≡ (none, t)
  unfolding claim_token claim_row
  claim_missing t now e = ground arith

  successes_missing :
      (t : Table) (times : List ℕ) → find_hash (token_hash token) t ≡ none → successes t times ≡ 0
  unfolding successes
  successes_missing t [] e = refl
  successes_missing t (now ∷ times) e =
      rw (claim_missing t now e) (omega (arith, successes_missing t times e))

  -- From a valid table that holds the token's hook with a limit of n deliveries, of claims at times
  -- at which the hook has not expired exactly the first n succeed: their number is the smaller of n
  -- and the number of claims.
  pub successes_limited :
      (times : List ℕ) (t : Table) (row : WebhookRow) (n : ℕ)
      → token_pattern token ≡ true
      → IsValid t
      → find_hash (token_hash token) t ≡ some row
      → row.remaining_deliveries ≡ some n
      → IsLive row times
      → successes t times ≡ min n (length times)
  unfolding successes
  successes_limited [] t row n p v e m live = omega arith
  successes_limited (now ∷ times) t row n p v e m live =
      rw (claim_live t now row p e live.0) (elim (Bool-cases (eqb n 1)) [
        | inl last ↦
            let one : row.remaining_deliveries ≡ some 1 = ground arith in
            let gone = find_hash-delete_id (token_hash token) t row v e in
            rw (spend_last t row one)
              (ground (arith, successes_missing (delete_id row.id t) times gone))
        | inr more ↦
            let many : n ≢ 1 = ground arith in
            let positive = found-count (token_hash token) t row n v e m in
            let rest =
              successes_limited times (map (decrement row.id) t) (decrement row.id row) (n - 1) p
                (decrement-IsValid (token_hash token) t row n v e m many)
                (find_hash-decrement (token_hash token) row.id t row e) (decrement_count row n m)
                (decrement-IsLive row times live.1) in
            rw (spend_other t row n m many) (omega (arith, rest, positive))
      ])

  -- A hook without a limit is claimed every time, as long as it has not expired.
  pub successes_unlimited :
      (times : List ℕ) (t : Table) (row : WebhookRow)
      → token_pattern token ≡ true
      → find_hash (token_hash token) t ≡ some row
      → row.remaining_deliveries ≡ none
      → IsLive row times
      → successes t times ≡ length times
  unfolding successes
  successes_unlimited [] t row p e m live = refl
  successes_unlimited (now ∷ times) t row p e m live =
      rw (claim_live t now row p e live.0, spend_unlimited t row m)
        (omega (arith, successes_unlimited times t row p e m live.1))

-- ===== src/Registry.antt =====
-- The webhook registry (src/registry.ts): one SQLite table, as a list of rows. Text identifiers are
-- native strings, times are seconds, and an error thrown by a method is a value. SHA-256 is the
-- section's parameter `token_hash`, and the random token of `create` is an argument. Failures of
-- the disk and the schema set-up of the constructor are not modelled.
pub mod Format
pub mod Rows
pub mod Invariant
pub mod Claims
pub mod Lifetime
mod Examples
use Prim.Native.String.{len}
use codexhook.Base.{
  ℕ, zero, suc, ◌-◌, ◌+◌, String, Bool, true, false, not, ◌&&◌, any, Option, none, some, List, [],
  ◌∷◌, map, length, keep, find, ltb, leb, eqb, if◌then◌else◌, ◌==◌, ◌*◌,
}
use codexhook.Base.Result.{Result, ok, err, ◌>>=◌, ◌>>◌, guard}
use codexhook.Types.{DeliveryMode, WebhookRecord, CreatedWebhook}
use Format.{hook_id_pattern, token_pattern}

pub record WebhookRow : Type 0 where
  pub id : String
  pub token_hash : String
  pub thread_id : String
  pub mode : DeliveryMode
  pub prepend_body : String
  pub expires_at : Option ℕ
  pub remaining_deliveries : Option ℕ
  pub created_at : ℕ

pub record CreateWebhookInput : Type 0 where
  pub id : String
  pub thread_id : String
  pub mode : DeliveryMode
  pub prepend_body : String
  pub expires_at : Option ℕ
  pub max_deliveries : Option ℕ

pub data Error : Type 0 where
  bad_id thread_required prepend_too_large not_in_future limit_not_positive : Error
  id_taken token_collision : Error

abbrev pub Table : Type 0
Table = List WebhookRow

abbrev pub max_prepend_bytes : ℕ
max_prepend_bytes = 4 * 1024

pub row_to_record : WebhookRow → WebhookRecord
row_to_record row = record {
  id = row.id;
  thread_id = row.thread_id;
  mode = row.mode;
  prepend_body = row.prepend_body;
  expires_at = row.expires_at;
  remaining_deliveries = row.remaining_deliveries;
  created_at = row.created_at;
}

-- `SELECT * FROM webhooks WHERE token_hash = ?`; the column is unique.
pub find_hash : String → Table → Option WebhookRow
find_hash hash = find (λ row. row.token_hash == hash)

pub find_id : String → Table → Option WebhookRow
find_id id = find (λ row. row.id == id)

-- `DELETE FROM webhooks WHERE id = ?`.
pub delete_id : String → Table → Table
delete_id id = keep (λ row. not (row.id == id))

-- `row.expires_at != null && row.expires_at <= now`.
pub is_expired : ℕ → WebhookRow → Bool
is_expired now row = elim row.expires_at [ none ↦ false | some at ↦ leb at now ]

pub in_future : ℕ → Option ℕ → Bool
in_future now none = true
in_future now (some at) = ltb now at

pub is_positive : Option ℕ → Bool
is_positive none = true
is_positive (some n) = ltb 0 n

-- `DO UPDATE SET …`: the key and the owner stay.
pub overwrite : WebhookRow → WebhookRow → WebhookRow
overwrite excluded row =
    if row.id == excluded.id
    then record row {
      token_hash = excluded.token_hash;
      mode = excluded.mode;
      prepend_body = excluded.prepend_body;
      expires_at = excluded.expires_at;
      remaining_deliveries = excluded.remaining_deliveries;
      created_at = excluded.created_at;
    }
    else row

-- Another row has the hash; the column is unique.
pub is_hash_taken : WebhookRow → Table → Bool
is_hash_taken row table =
    any (λ other. not (other.id == row.id) && other.token_hash == row.token_hash) table

-- `INSERT … ON CONFLICT(id) DO UPDATE … WHERE webhooks.thread_id = excluded.thread_id`. The conflict
-- on the key comes first: the row of another thread is left alone, and no row is changed. The unique
-- column `token_hash` has no conflict clause, so a hash that another row has is a thrown error.
pub upsert : WebhookRow → Table → Result Error Table
upsert row table = elim (find_id row.id table) [
  | none ↦ if is_hash_taken row table then err token_collision else ok (row ∷ table)
  | some old ↦
      if old.thread_id == row.thread_id
      then (if is_hash_taken row table then err token_collision else ok (map (overwrite row) table))
      else err id_taken
]

-- `SET remaining_deliveries = remaining_deliveries - 1`; the row's count is 2 or more.
pub decrement : String → WebhookRow → WebhookRow
decrement id row =
    if row.id == id
    then record row {
      remaining_deliveries = elim row.remaining_deliveries [ none ↦ none | some n ↦ some (n - 1) ];
    }
    else row

-- What a claim leaves of the row: nothing after the last delivery.
pub spend : WebhookRow → Table → Table
spend row table = elim row.remaining_deliveries [
  | none ↦ table
  | some n ↦ if eqb n 1 then delete_id row.id table else map (decrement row.id) table
]

pub inspect_row : Table → ℕ → Option WebhookRow → Option WebhookRecord × Table
inspect_row table now none = (none, table)
inspect_row table now (some row) =
    if is_expired now row then (none, delete_id row.id table) else (some (row_to_record row), table)

pub claim_row : Table → ℕ → Option WebhookRow → Option WebhookRecord × Table
claim_row table now none = (none, table)
claim_row table now (some row) =
    if is_expired now row
    then (none, delete_id row.id table)
    else (some (row_to_record row), spend row table)

abbrev pub row_of : String → CreateWebhookInput → ℕ → WebhookRow
row_of hash input now = record {
  id = input.id;
  token_hash = hash;
  thread_id = input.thread_id;
  mode = input.mode;
  prepend_body = input.prepend_body;
  expires_at = input.expires_at;
  remaining_deliveries = input.max_deliveries;
  created_at = now;
}

module _ (token_hash : String → String) where
  pub create : Table → String → CreateWebhookInput → ℕ → Result Error (CreatedWebhook × Table)
  create table token input now = do
    guard (hook_id_pattern input.id) bad_id
    guard (not (input.thread_id == "")) thread_required
    guard (leb (len input.prepend_body) max_prepend_bytes) prepend_too_large
    guard (in_future now input.expires_at) not_in_future
    guard (is_positive input.max_deliveries) limit_not_positive
    let row = row_of (token_hash token) input now
    written ← upsert row table
    ok (record { webhook = row_to_record row; token = token }, written)

  pub inspect_token : Table → String → ℕ → Option WebhookRecord × Table
  inspect_token table token now =
      if token_pattern token
      then inspect_row table now (find_hash (token_hash token) table)
      else (none, table)

  pub claim_token : Table → String → ℕ → Option WebhookRecord × Table
  claim_token table token now =
      if token_pattern token
      then claim_row table now (find_hash (token_hash token) table)
      else (none, table)

-- The methods that delete return the number of changed rows.
pub changes : Table → Table → ℕ
changes before after = length before - length after

pub delete_expired : Table → ℕ → ℕ × Table
delete_expired table now =
    let kept = keep (λ row. not (is_expired now row)) table in (changes table kept, kept)

pub revoke : Table → String → Bool × Table
revoke table id = let kept = delete_id id table in (ltb 0 (changes table kept), kept)

pub revoke_thread : Table → String → ℕ × Table
revoke_thread table thread_id =
    let kept = keep (λ row. not (row.thread_id == thread_id)) table in (changes table kept, kept)

pub revoke_all : Table → ℕ × Table
revoke_all table = (length table, [])

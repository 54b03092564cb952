-- ===== src/Registry/Examples.antt =====
-- The registry's theorems at a concrete table, and tests.
use codexhook.Base.{◌≡◌, refl, String, true, none, some, [], ◌∷◌, find, any, keep, text_ne}
use codexhook.Base.Result.{ok, err}
use codexhook.Types.{queue}
use codexhook.Registry.{
  WebhookRow, Table, CreateWebhookInput, create, inspect_token, claim_token, row_of, row_to_record,
  find_hash, find_id, delete_id, is_expired, in_future, is_positive, is_hash_taken, upsert,
  overwrite, claim_row, spend, id_taken, token_collision, bad_id,
}
use codexhook.Registry.Format.{token_pattern, hook_id_pattern}
use codexhook.Registry.Rows.{IsValid}
use codexhook.Registry.Invariant.{creates, claims, revokes, deletes_expired, run, run-IsValid}
use codexhook.Registry.Claims.{successes, successes_limited}
use codexhook.Registry.Lifetime.{inspect_token-create, create-revokes_old, create-keeps_others}

-- Any function serves as the hash in a test; this one keeps the token.
abbrev plain_hash : String → String
plain_hash token = token

abbrev first_token : String
first_token = "AAAAAAAAAAAAAAAAAAAAAAAAAAAAAAAAAAAAAAAAAA1"

abbrev second_token : String
second_token = "AAAAAAAAAAAAAAAAAAAAAAAAAAAAAAAAAAAAAAAAAA2"

abbrev input : CreateWebhookInput
input = record {
  id = "build-result";
  thread_id = "t1";
  mode = queue;
  prepend_body = "";
  expires_at = some 3600;
  max_deliveries = some 2;
}

abbrev first_row : WebhookRow
first_row = row_of first_token input 100

abbrev second_row : WebhookRow
second_row = row_of second_token input 200

abbrev other_row : WebhookRow
other_row = record first_row {
  id = "deploy";
  token_hash = "x";
  thread_id = "t2";
  remaining_deliveries = none;
}

abbrev table : Table
table = first_row ∷ other_row ∷ []

abbrev replaced : Table
replaced = second_row ∷ other_row ∷ []

first_token_format : token_pattern first_token ≡ true
unfolding token_pattern
first_token_format = refl

table-IsValid : IsValid table
unfolding is_positive
table-IsValid = (((text_ne _ _ refl, text_ne _ _ refl), tt), refl, (tt, refl, tt))

create_again :
    create plain_hash table second_token input 200
    ≡ ok (record { webhook = row_to_record second_row; token = second_token }, replaced)
unfolding create hook_id_pattern in_future is_positive upsert is_hash_taken any find_hash find_id
    find overwrite
create_again = refl

create_taken :
    create plain_hash table second_token (record input { thread_id = "t3" }) 200 ≡ err id_taken
unfolding create hook_id_pattern in_future is_positive upsert is_hash_taken any find_hash find_id
    find
create_taken = refl

-- The token that the row has already may be written again, that of another row may not.
create_same :
    create plain_hash table first_token input 100
    ≡ ok (record { webhook = row_to_record first_row; token = first_token }, table)
unfolding create hook_id_pattern in_future is_positive upsert is_hash_taken any find_id find
    overwrite
create_same = refl

create_collision : create plain_hash table "x" input 200 ≡ err token_collision
unfolding create hook_id_pattern in_future is_positive upsert is_hash_taken any find_id find
create_collision = refl

create_bad_id : create plain_hash table second_token (record input { id = ".x" }) 200 ≡ err bad_id
unfolding create hook_id_pattern
create_bad_id = refl

claim_then_gone :
    (claim_token plain_hash
      (record first_row { remaining_deliveries = some 1 } ∷ [])
      first_token
      100).1
    ≡ []
unfolding claim_token token_pattern find_hash find claim_row is_expired spend delete_id keep
claim_then_gone = refl

run-IsValid_example : IsValid (
    run plain_hash table (
      creates second_token input 200
      ∷ claims second_token 300
      ∷ revokes "deploy"
      ∷ deletes_expired 4000
      ∷ []))
run-IsValid_example = run-IsValid plain_hash table _ table-IsValid

successes_limited_example : successes plain_hash first_token table (100 ∷ 200 ∷ 300 ∷ []) ≡ 2
unfolding find_hash find is_expired
successes_limited_example =
    successes_limited plain_hash first_token (100 ∷ 200 ∷ 300 ∷ []) table first_row 2
      first_token_format table-IsValid refl refl (refl, (refl, (refl, tt)))

inspect_token-create_example :
    inspect_token plain_hash replaced second_token 300 ≡ (some (row_to_record second_row), replaced)
unfolding is_expired token_pattern
inspect_token-create_example =
    (inspect_token-create plain_hash table replaced second_token input 200 300 _ refl create_again
      refl).0

create-revokes_old_example : claim_token plain_hash replaced first_token 300 ≡ (none, replaced)
unfolding find_id find
create-revokes_old_example =
    (create-revokes_old plain_hash table replaced second_token input 200 _ create_again first_row
      first_token 300 table-IsValid refl refl (text_ne _ _ refl)).1

create-keeps_others_example : find_id "deploy" replaced ≡ some other_row
unfolding find_id find
create-keeps_others_example =
    create-keeps_others plain_hash table replaced second_token input 200 _ create_again "deploy"
      other_row refl (text_ne _ _ refl)

-- ===== src/Server/Examples.antt =====
-- The handler's theorems at concrete requests.
use codexhook.Base.{◌≡◌, ◌↔◌, refl, String, true, false, none, some, [], ◌∷◌}
use codexhook.Lifecycle.{new_lifecycle, is_ready}
use codexhook.Delivery.{initial}
use codexhook.Server.{Server, Exchange, handle}
use codexhook.Server.Address.{route_token, token_here, strip, is_token_text}
use codexhook.Registry.{WebhookRow}
use codexhook.Registry.Format.{all, codes, is_token_character, is_alphanumeric}
use codexhook.Types.{queue}
use codexhook.Server.Body.{complete, Fits, concat, read_body, read_body-complete}
use codexhook.Server.Claims.{entered, Outcome, handle-Outcome}

abbrev token : String
token = "aaaaaaaaaaaaaaaaaaaaaaaaaaaaaaaaaaaaaaaaaaa"

abbrev hook_row : WebhookRow
hook_row = record {
  id = "build";
  token_hash = token;
  thread_id = "t1";
  mode = queue;
  prepend_body = "";
  expires_at = none;
  remaining_deliveries = some 1;
  created_at = 0;
}

abbrev server : Server
server = record {
  lifecycle = record new_lifecycle { phase = is_ready };
  table = hook_row ∷ [];
  events = [];
  service = initial;
}

abbrev exchange : Exchange
exchange = record {
  method = "POST";
  path = some "/prefix/w/aaaaaaaaaaaaaaaaaaaaaaaaaaaaaaaaaaaaaaaaaaa";
  authorizes_health = some true;
  authorizes = λ hook. some true;
  task_access = true;
  desktop_access = true;
  declared_length = some 3;
  chunks = (104 ∷ []) ∷ (105 ∷ 33 ∷ []) ∷ [];
  aborted = false;
  decode = λ bytes. "hi!";
  inspect_time = 100;
  allow_time = 100000;
  claim_time = 100;
  delivery_id = "d1";
  during_authorize = λ s. s;
  during_body = λ s. s;
}

abbrev hash : String → String
hash token = token

address :
    route_token "/prefix/w/aaaaaaaaaaaaaaaaaaaaaaaaaaaaaaaaaaaaaaaaaaa"
    ≡ some "aaaaaaaaaaaaaaaaaaaaaaaaaaaaaaaaaaaaaaaaaaa"
unfolding route_token token_here strip is_token_text all codes is_token_character is_alphanumeric
address = refl

handle-Outcome_example :
    Outcome hash 10 60000 exchange server.service
      (entered server)
      "/prefix/w/aaaaaaaaaaaaaaaaaaaaaaaaaaaaaaaaaaaaaaaaaaa"
      (handle hash 10 60000 server exchange)
handle-Outcome_example =
    handle-Outcome hash 10 60000 server exchange
      "/prefix/w/aaaaaaaaaaaaaaaaaaaaaaaaaaaaaaaaaaaaaaaaaaa" ((λ s. refl), (λ s. refl)) refl

read_body-complete_example :
    (read_body exchange.declared_length exchange.chunks false ≡ complete (104 ∷ 105 ∷ 33 ∷ [])) ↔ (
      (104 ∷ 105 ∷ 33 ∷ [] ≡ concat exchange.chunks)
      × Fits exchange.declared_length exchange.chunks false)
read_body-complete_example =
    read_body-complete exchange.declared_length exchange.chunks false (104 ∷ 105 ∷ 33 ∷ [])

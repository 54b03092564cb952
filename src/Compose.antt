-- ===== src/Compose.antt =====
-- The message of a delivery (src/delivery/compose.ts). A replacement text that `replaceAll` would
-- read a `$` pattern in is no webhook id (src/registry.ts), so the id is put in as it is.
use Prim.Native.String
use codexhook.Base.{ℕ, zero, suc, String, true, false}
use text.Mathlib.Text.{starts_with}
use codexhook.Types.{WebhookRecord}

abbrev pub placeholder : String
placeholder = "{hookId}"

-- `replaceAll(placeholder, id)` from left to right; `skip` characters of a match are left to drop.
replace_from : ℕ → String → String → String
replace_from skip id String.[] = ""
replace_from (suc skip) id (String.◌∷◌ c s) = replace_from skip id s
replace_from zero id (String.◌∷◌ c s) = elim (starts_with (String.◌∷◌ c s) placeholder) [
  | true ↦ String.◌++◌ id (replace_from 7 id s)
  | false ↦ String.◌∷◌ c (replace_from zero id s)
]

unfoldable pub compose_message : WebhookRecord → String → String
unfolding replace_from
compose_message hook body = String.◌++◌ (replace_from 0 hook.id hook.prepend_body) body

-- ===== src/Server/Address.antt =====
-- The address of a hook (src/server.ts): `/\/w\/([A-Za-z0-9_-]+)$/`, which finds the leftmost place
-- from which the path is `/w/` and one or more token characters.
use Prim.Native.Char.{code}
use codexhook.Base.{◌&&◌, ◌||◌, String, Bool, not, Option, none, some, eqb, if◌then◌else◌, ◌==◌}
use codexhook.Registry.Format.{codes, all, is_token_character}

-- What follows a prefix.
unfoldable pub strip : String → String → Option String
strip String.[] s = some s
strip (String.◌∷◌ p prefix) String.[] = none
strip (String.◌∷◌ p prefix) (String.◌∷◌ c s) =
    if eqb (code p) (code c) then strip prefix s else none

unfoldable pub is_token_text : String → Bool
is_token_text s = not (s == "") && all is_token_character (codes s)

unfoldable pub token_here : String → Option String
token_here s = elim (strip "/w/" s) [
  | none ↦ none
  | some rest ↦ if is_token_text rest then some rest else none
]

unfoldable pub route_token : String → Option String
route_token String.[] = none
route_token (String.◌∷◌ c s) = elim (token_here (String.◌∷◌ c s)) [
  | some token ↦ some token
  | none ↦ route_token s
]

-- `endsWith`.
unfoldable pub ends_with : String → String → Bool
ends_with String.[] suffix = suffix == ""
ends_with (String.◌∷◌ c s) suffix = ((String.◌∷◌ c s) == suffix) || ends_with s suffix

-- ===== src/Registry/Format.antt =====
-- The two patterns of src/registry.ts, over the code points of a text. Their classes hold ASCII
-- characters only, so a match in UTF-16 units is a match in code points.
use Prim.Native.Char.{code}
use codexhook.Base.{ℕ, String, Bool, true, false, List, [], ◌∷◌, length, leb, eqb, ◌&&◌, ◌||◌}

unfoldable pub codes : String → List ℕ
codes String.[] = []
codes (String.◌∷◌ c s) = code c ∷ codes s

unfoldable pub all : (ℕ → Bool) → List ℕ → Bool
all p [] = true
all p (c ∷ cs) = p c && all p cs

-- `[A-Za-z0-9]`.
unfoldable pub is_alphanumeric : ℕ → Bool
is_alphanumeric c =
    (leb b'A' c && leb c b'Z') || (leb b'a' c && leb c b'z') || (leb b'0' c && leb c b'9')

-- `[A-Za-z0-9._-]`.
is_id_character : ℕ → Bool
unfolding is_alphanumeric
is_id_character c = is_alphanumeric c || eqb c b'.' || eqb c b'_' || eqb c b'-'

-- `[A-Za-z0-9_-]`.
unfoldable pub is_token_character : ℕ → Bool
unfolding is_alphanumeric
is_token_character c = is_alphanumeric c || eqb c b'_' || eqb c b'-'

-- `/^[A-Za-z0-9][A-Za-z0-9._-]{0,63}$/`.
id_codes : List ℕ → Bool
unfolding all is_alphanumeric is_id_character
id_codes [] = false
id_codes (c ∷ cs) = is_alphanumeric c && (all is_id_character cs && leb (length cs) 63)

unfoldable pub hook_id_pattern : String → Bool
unfolding codes id_codes
hook_id_pattern id = id_codes (codes id)

-- `/^[A-Za-z0-9_-]{43}$/`.
unfoldable pub token_pattern : String → Bool
unfolding codes all is_token_character
token_pattern token = all is_token_character (codes token) && eqb (length (codes token)) 43

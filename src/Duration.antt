-- ===== src/Duration.antt =====
-- Expirations and delivery limits as text (src/duration.ts). A text is the list of its code units.
-- `Number` of digits is exact up to 2 ^ 53, and what is more is not a safe integer however it is
-- rounded.
pub mod Printed
mod Examples
use codexhook.Base.{
  is_digit, ℕ, zero, suc, ◌+◌, ◌-◌, ◌*◌, ◌%◌, ◌^◌, ◌||◌, Bool, true, false, ◌&&◌, Option, none,
  some, List, [], ◌∷◌, eqb, leb, if◌then◌else◌,
}
use codexhook.Base.Result.{Result, ok, err}
use codexhook.Contracts.Diagnostics.{max_safe_integer}

pub data Error : Type 0 where
  not_positive too_large : Error

unfoldable pub unit_seconds : ℕ → Option ℕ
unit_seconds c =
    if eqb c b'm'
    then some 60
    else (if eqb c b'h'
        then some (60 * 60)
        else (if eqb c b'd'
            then some (24 * 60 * 60)
            else (if eqb c b'w' then some (7 * 24 * 60 * 60) else none)))

abbrev pub never : List ℕ
never = b'n' ∷ b'e' ∷ b'v' ∷ b'e' ∷ b'r' ∷ []

abbrev pub unlimited : List ℕ
unlimited = b'u' ∷ b'n' ∷ b'l' ∷ b'i' ∷ b'm' ∷ b'i' ∷ b't' ∷ b'e' ∷ b'd' ∷ []

unfoldable pub is_same : List ℕ → List ℕ → Bool
is_same [] [] = true
is_same [] (d ∷ ds) = false
is_same (c ∷ cs) [] = false
is_same (c ∷ cs) (d ∷ ds) = eqb c d && is_same cs ds

-- `[1-9]` at the start.
abbrev pub starts_positive : List ℕ → Bool
starts_positive [] = false
starts_positive (c ∷ cs) = leb b'1' c && leb c b'9'

-- The number that the digits give after those before.
unfoldable pub read_digits : ℕ → List ℕ → Option ℕ
read_digits n [] = some n
read_digits n (c ∷ cs) = if is_digit c then read_digits (10 * n + (c - b'0')) cs else none

-- `[1-9]\d*`.
unfoldable pub positive_integer : List ℕ → Option ℕ
positive_integer cs = if starts_positive cs then read_digits 0 cs else none

abbrev pub cons_first : ℕ → Option (List ℕ × ℕ) → Option (List ℕ × ℕ)
cons_first c none = none
cons_first c (some (cs, last)) = some (c ∷ cs, last)

-- What is before the last character, and that character.
unfoldable pub split_last : List ℕ → Option (List ℕ × ℕ)
split_last [] = none
split_last (c ∷ []) = some ([], c)
split_last (c ∷ next ∷ cs) = cons_first c (split_last (next ∷ cs))

-- The sum of two safe integers as numbers: over 2 ^ 53 the nearest even number, and in the middle the
-- one that 4 divides.
unfoldable pub add_numbers : ℕ → ℕ → ℕ
add_numbers a b =
    let sum = a + b in
    if leb sum (2 ^ 53) || eqb (sum % 2) 0
    then sum
    else (if eqb (sum % 4) 1 then sum - 1 else sum + 1)

abbrev pub seconds_of : Option ℕ → Option ℕ → ℕ → Result Error (Option ℕ)
seconds_of (some amount) (some unit) now =
    if leb (amount * unit) max_safe_integer
    then ok (some (add_numbers now (amount * unit)))
    else err too_large
seconds_of _ _ now = err not_positive

abbrev pub matched : Option (List ℕ × ℕ) → ℕ → Result Error (Option ℕ)
matched none now = err not_positive
matched (some (digits, last)) now = seconds_of (positive_integer digits) (unit_seconds last) now

-- `none` is `null`: there is no end. The time is a safe integer.
unfoldable pub parse_expiration : List ℕ → ℕ → Result Error (Option ℕ)
parse_expiration value now = if is_same value never then ok none else matched (split_last value) now

abbrev pub safe_limit : Option ℕ → Result Error (Option ℕ)
safe_limit none = err not_positive
safe_limit (some parsed) = if leb parsed max_safe_integer then ok (some parsed) else err too_large

unfoldable pub parse_delivery_limit : List ℕ → Result Error (Option ℕ)
parse_delivery_limit value =
    if is_same value unlimited then ok none else safe_limit (positive_integer value)

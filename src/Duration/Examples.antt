-- ===== src/Duration/Examples.antt =====
-- Durations and limits at concrete texts.
use codexhook.Base.{◌+◌, ◌*◌, ◌≡◌, refl, none, some, [], ◌∷◌, ◌++◌, arith}
use codexhook.Base.Result.{ok, err}
use codexhook.Duration.{
  not_positive, never, unit_seconds, is_same, add_numbers, positive_integer, split_last,
  parse_expiration,
}
use codexhook.Duration.Printed.{decimals, parse_expiration-decimals}

parse_expiration-never : parse_expiration never 5 ≡ ok none
unfolding parse_expiration is_same
parse_expiration-never = refl

-- `07d` has a digit that is not allowed at the start.
parse_expiration-leading_zero : parse_expiration (b'0' ∷ b'7' ∷ b'd' ∷ []) 5 ≡ err not_positive
unfolding parse_expiration is_same split_last positive_integer
parse_expiration-leading_zero = refl

day : unit_seconds b'd' ≡ some 86400
unfolding unit_seconds
day = refl

parse_expiration-decimals_example :
    parse_expiration (decimals 12 12 ++ b'd' ∷ []) 1000 ≡ ok (some (1000 + 12 * 86400))
parse_expiration-decimals_example =
    parse_expiration-decimals 12 b'd' 86400 1000 (omega arith) day (omega arith)

-- The sum is not a safe integer, and is rounded.
rounded : add_numbers 1700000001 (150119987579016 * 60) ≡ 9007200954740960
unfolding add_numbers
rounded = refl

-- ===== src/Duration/Printed.antt =====
-- Durations and limits that are printed in decimals are read back (src/duration.ts).
use mathlib.Core.Path.{subst}
use codexhook.Base.{
  is_digit, ℕ, zero, suc, ◌+◌, ◌-◌, ◌*◌, ◌/◌, ◌%◌, ◌≤◌, ◌<◌, ◌≡◌, refl, true, false, some, List, [],
  ◌∷◌, ◌++◌, ltb, arith, Bool-cases, inl, inr, if◌then◌else◌,
}
use codexhook.Base.Result.{ok}
use codexhook.Contracts.Diagnostics.{max_safe_integer}
use codexhook.Duration.{
  unit_seconds, never, unlimited, is_same, starts_positive, read_digits, positive_integer,
  add_numbers, split_last, parse_expiration, parse_delivery_limit,
}

-- A number in decimals; as much fuel as the number is enough.
unfoldable pub decimals : ℕ → ℕ → List ℕ
decimals zero n = (n + b'0') ∷ []
decimals (suc fuel) n =
    let rest = decimals fuel (n / 10) in
    if ltb n 10 then (n + b'0') ∷ [] else rest ++ (n % 10 + b'0') ∷ []

record IsDecimal (n : ℕ) (cs : List ℕ) : Type 0 where
  starts : starts_positive cs ≡ true
  reads : read_digits 0 cs ≡ some n

read_digits-snoc :
    (m : ℕ) (cs : List ℕ) (n d : ℕ)
    → read_digits m cs ≡ some n
    → d < 10
    → read_digits m (cs ++ (d + b'0') ∷ []) ≡ some (10 * n + d)
unfolding read_digits is_digit
read_digits-snoc m [] n d h small = ground arith
read_digits-snoc m (c ∷ cs) n d h small = elim (Bool-cases (is_digit c)) [
  | inl digit ↦ let rest = read_digits-snoc (10 * m + (c - b'0')) cs n d in ground arith
  | inr other ↦ absurd (ground arith)
]

IsDecimal-snoc :
    (n d : ℕ) (cs : List ℕ)
    → IsDecimal n cs
    → d < 10
    → IsDecimal (10 * n + d) (cs ++ (d + b'0') ∷ [])
IsDecimal-snoc n d [] v small = absurd (let s = v.starts in ground arith)
IsDecimal-snoc n d (c ∷ cs) v small = record {
  starts = v.starts;
  reads = read_digits-snoc 0 (c ∷ cs) n d v.reads small;
}

IsDecimal-digit : (n : ℕ) → 1 ≤ n → n < 10 → IsDecimal n ((n + b'0') ∷ [])
unfolding read_digits is_digit
IsDecimal-digit n h small = record { starts = ground arith; reads = ground arith }

decimals-IsDecimal : (fuel n : ℕ) → 1 ≤ n → n ≤ fuel → IsDecimal n (decimals fuel n)
unfolding decimals
decimals-IsDecimal zero n h enough = absurd (omega arith)
decimals-IsDecimal (suc fuel) n h enough = elim (Bool-cases (ltb n 10)) [
  | inl small ↦ rw (small, decimals) (IsDecimal-digit n h (ground arith))
  | inr large ↦
      let big : 10 ≤ n = ground arith in
      let rest = decimals-IsDecimal fuel (n / 10) (omega arith) (omega arith) in
      let same : 10 * (n / 10) + n % 10 ≡ n = omega arith in
      rw (large, decimals)
        (subst (λ k. IsDecimal k (decimals fuel (n / 10) ++ (n % 10 + b'0') ∷ [])) same
          (IsDecimal-snoc (n / 10) (n % 10) (decimals fuel (n / 10)) rest (omega arith)))
]

split_last-snoc : (cs : List ℕ) (c : ℕ) → split_last (cs ++ c ∷ []) ≡ some (cs, c)
unfolding split_last
split_last-snoc [] c = refl
split_last-snoc (d ∷ []) c = refl
split_last-snoc (d ∷ next ∷ cs) c = let rest = split_last-snoc (next ∷ cs) c in ground arith

starts_positive-never :
    (cs : List ℕ) (c : ℕ) → starts_positive cs ≡ true → is_same (cs ++ c ∷ []) never ≡ false
unfolding is_same
starts_positive-never [] c h = absurd (ground arith)
starts_positive-never (d ∷ cs) c h = ground arith

starts_positive-unlimited : (cs : List ℕ) → starts_positive cs ≡ true → is_same cs unlimited ≡ false
unfolding is_same
starts_positive-unlimited [] h = absurd (ground arith)
starts_positive-unlimited (d ∷ cs) h = ground arith

positive_integer-IsDecimal : (n : ℕ) (cs : List ℕ) → IsDecimal n cs → positive_integer cs ≡ some n
unfolding positive_integer
positive_integer-IsDecimal n cs v = let starts = v.starts in let reads = v.reads in ground arith

-- A duration of at least one unit, printed in decimals before the unit, is read as the time that is
-- so many units after now, exactly, provided that this time is a safe integer.
pub parse_expiration-decimals :
    (n c unit now : ℕ)
    → 1 ≤ n
    → unit_seconds c ≡ some unit
    → now + n * unit ≤ max_safe_integer
    → parse_expiration (decimals n n ++ c ∷ []) now ≡ ok (some (now + n * unit))
unfolding parse_expiration add_numbers
parse_expiration-decimals n c unit now h known safe =
    let v = decimals-IsDecimal n n h (omega arith) in
    rw
      (
        starts_positive-never (decimals n n) c v.starts,
        split_last-snoc (decimals n n) c,
        positive_integer-IsDecimal n (decimals n n) v,
        known,
      )
      (ground arith)

-- A positive safe integer, printed in decimals, is read as that delivery limit.
pub parse_delivery_limit-decimals :
    (n : ℕ) → 1 ≤ n → n ≤ max_safe_integer → parse_delivery_limit (decimals n n) ≡ ok (some n)
unfolding parse_delivery_limit
parse_delivery_limit-decimals n h safe =
    let v = decimals-IsDecimal n n h (omega arith) in
    rw
      (
        starts_positive-unlimited (decimals n n) v.starts,
        positive_integer-IsDecimal n (decimals n n) v,
      )
      (ground arith)

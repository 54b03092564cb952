-- ===== src/RateLimit/Examples.antt =====
-- The rate limiter's theorem at a concrete sequence of calls.
use codexhook.Base.{ℕ, ◌≡◌, String, List, [], ◌∷◌, arith}
use codexhook.RateLimit.{answers, expected}
use codexhook.RateLimit.Window.{answers_window}

abbrev calls : List (String × ℕ)
calls = ("a", 10) ∷ ("a", 15) ∷ ("b", 15) ∷ ("a", 19) ∷ ("a", 20) ∷ []

answers_window_example : answers 2 10 [] calls ≡ expected 2 10 [] calls
answers_window_example =
    answers_window 2 10 calls
      (ground arith, (ground arith, (ground arith, (ground arith, (ground arith, tt)))))

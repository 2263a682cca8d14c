-- ===== src/Tests/Limiting.antt =====
-- The theorems on the rate limiter at concrete inputs.
use photogallery.Prelude.{ℕ, ◌+◌, ◌-◌, ◌*◌, ◌≤◌, List, [], ◌∷◌, arith}
use photogallery.Prelude.Text.{Text, bytes}
use photogallery.Auth.RateLimit.{token, second, allow}
use photogallery.Auth.RateLimit.Level.{IsValid, Serves, allow-Serves}
use photogallery.Auth.RateLimit.Rate.{admitted, admitted-le-rate}
use photogallery.Tests.World.{limiter}

limiter-IsValid : IsValid limiter 0
limiter-IsValid = record { table = tt; bounded = omega arith }

allow-Serves_example : Serves limiter 0 (bytes "ip") (allow limiter (bytes "ip") 0)
allow-Serves_example = allow-Serves limiter 0 (bytes "ip") limiter-IsValid

abbrev calls : List (ℕ × Text)
calls = (0, bytes "x") ∷ (1, bytes "y") ∷ (second, bytes "x") ∷ []

admitted-le-rate_example : admitted (bytes "x") limiter calls * token ≤ 5 * token + (second - 0) * 5
admitted-le-rate_example =
    admitted-le-rate (bytes "x") limiter 0 second calls limiter-IsValid
      (omega arith, (omega arith, (omega arith, omega arith)))

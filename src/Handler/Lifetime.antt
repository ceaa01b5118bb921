-- ===== src/Handler/Lifetime.antt =====
-- The lifetime that `Create` of app/turl/handler.go asks for: the seconds of the request as a
-- time.Duration.
use turl.Base.{ℕ, ◌*◌, ◌+◌, ◌≤◌, ◌^◌, ◌≡◌, ◌%◌, arith, ap, ◌∙◌}
use turl.Base.Int.{pos, of_word64, to_word64, of_word64-to_word64}
use turl.Handler.{seconds_ttl}

-- Up to 9223372036 seconds the lifetime is that number of seconds in nanoseconds.
seconds_ttl_exact : (n : ℕ) → n ≤ 9223372036 → seconds_ttl (pos n) ≡ pos (n * 1000000000)
unfolding seconds_ttl
seconds_ttl_exact n h = of_word64-to_word64 (pos (n * 1000000000)) (omega arith, omega arith)

-- Up to 9223372036 seconds the lifetime of a request is that number of seconds in nanoseconds, and so it
-- is for each number of seconds that is greater by a multiple of 2 ^ 55: the huge lifetime wraps around to
-- the short one.
pub seconds_ttl_wraps :
    (n k : ℕ) → n ≤ 9223372036 → seconds_ttl (pos (n + k * 2 ^ 55)) ≡ pos (n * 1000000000)
unfolding seconds_ttl to_word64
seconds_ttl_wraps n k h =
    let same : (n + k * 2 ^ 55) * 1000000000 % 2 ^ 64 ≡ n * 1000000000 % 2 ^ 64 = omega arith in
    ap of_word64 same ∙ seconds_ttl_exact n h

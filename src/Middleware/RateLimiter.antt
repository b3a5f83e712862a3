-- ===== src/Middleware/RateLimiter.antt =====
-- core/middleware/pipeline.go: `RateLimiter`. Times are nanoseconds on the monotonic clock, and the
-- rate is not negative.
use fast_server.Base.{
  All, Bool, List, [], arith, false, if◌then◌else◌, length, ltb, suc, true, ℕ, ◌+◌, ◌-◌, ◌∷◌, ◌≡◌,
  ◌≤◌,
}

pub record Limiter : Type 0 where
  pub tokens : ℕ
  pub last_refill : ℕ

abbrev pub second : ℕ
second = 1000000000

-- `RateLimiter(requestsPerSecond)`, at a time.
abbrev pub new_limiter : ℕ → ℕ → Limiter
new_limiter rate now = record { tokens = rate; last_refill = now }

abbrev refilled : ℕ → ℕ → Limiter → Limiter
refilled rate now l =
    if ltb second (now - l.last_refill) then record { tokens = rate; last_refill = now } else l

-- One request: whether it passes. One that does not is aborted with the status 429.
pub allow : ℕ → ℕ → Limiter → Bool × Limiter
allow rate now l =
    let r = refilled rate now l in
    if ltb 0 r.tokens then (true, record r { tokens = r.tokens - 1 }) else (false, r)

-- How many of the requests at some times pass.
pub passes : ℕ → List ℕ → Limiter → ℕ
passes rate [] l = 0
passes rate (now ∷ times) l =
    let (ok, r) = allow rate now l in
    let rest = passes rate times r in if ok then suc rest else rest

-- Of requests that all come within a second of the last refill, as many pass as there are tokens,
-- and all of them if there are enough.
pub passes-window :
    (rate : ℕ) (times : List ℕ) (l : Limiter)
    → All (λ now. now ≤ l.last_refill + second) times
    → passes rate times l ≡ (if ltb (length times) l.tokens then length times else l.tokens)
unfolding passes allow
passes-window rate [] l w = ground arith
passes-window rate (now ∷ times) l w = ground (
  arith,
  w.0,
  passes-window rate times (record l { tokens = l.tokens - 1 }) w.1,
  passes-window rate times l w.1,
)

-- ===== src/Llm/Limiter.antt =====
-- llm/rate_limiter.py: a token bucket. A time is a number of microseconds on the monotonic clock,
-- and the refill is computed exactly, where the source divides floats.
pub mod Rate
use Prim.Native.Nat.{◌/◌}
use mathlib.Core.Path.{◌≡◌}
use prima_next.Base.{
  ℕ, ◌+◌, ◌-◌, ◌*◌, ◌≤◌, min, max, Bool, true, false, List, [], ◌∷◌, ltb, leb, count_by,
  if◌then◌else◌, arith,
}

pub record RateLimiter : Type 0 where
  pub capacity : ℕ
  pub tokens : ℕ
  pub last : ℕ

abbrev pub minute : ℕ
minute = 60_000_000

-- `RateLimiter(rate_per_minute)` at a time.
abbrev pub new_limiter : ℕ → ℕ → RateLimiter
new_limiter rate now =
    let capacity = max 1 rate in record { capacity = capacity; tokens = capacity; last = now }

-- The part of `allow` that refills the bucket.
unfoldable pub refilled : ℕ → RateLimiter → RateLimiter
refilled now l =
    let refill = ((now - l.last) * l.capacity) / 60_000_000 in
    if ltb 0 refill then record l { tokens = min l.capacity (l.tokens + refill); last = now } else l

-- `allow(cost)`
unfoldable pub allow : ℕ → ℕ → RateLimiter → Bool × RateLimiter
unfolding refilled
allow cost now l =
    let l' = refilled now l in
    if leb cost l'.tokens then (true, record l' { tokens = l'.tokens - cost }) else (false, l')

-- Calls of `allow` at the given times: how many were allowed, and the limiter after them.
unfoldable pub allow_all : List ℕ → RateLimiter → ℕ × RateLimiter
unfolding allow
allow_all [] l = (0, l)
allow_all (now ∷ times) l =
    let (granted, l') = allow 1 now l in
    let (count, l'') = allow_all times l' in ((if granted then 1 else 0) + count, l'')

-- The times rise, from a first one to a last one.
abbrev pub IsRising : ℕ → ℕ → List ℕ → Type 0
IsRising from to [] = from ≤ to
IsRising from to (t ∷ ts) = (from ≤ t) × IsRising t to ts

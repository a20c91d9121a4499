-- ===== src/Llm/Limiter/Rate.antt =====
-- The rate that a token bucket admits (llm/rate_limiter.py).
use Prim.Native.Nat.{◌/◌}
use native.Mathlib.Nat.{add-mul}
use prima_next.Base.{ℕ, ◌+◌, ◌-◌, ◌*◌, ◌≤◌, max, ◌≡◌, ap, ◌∙◌, List, [], ◌∷◌, if◌then◌else◌, arith}
use prima_next.Llm.Limiter.{RateLimiter, new_limiter, refilled, allow, allow_all, IsRising}

mul_split : (a b c k : ℕ) → a ≤ b → b ≤ c → (c - a) * k ≡ (c - b) * k + (b - a) * k
mul_split a b c k h h' = ap (λ (d : ℕ). d * k) (omega arith) ∙ add-mul (c - b) (b - a) k

refill-le : (n : ℕ) → 60_000_000 * (n / 60_000_000) ≤ n
refill-le n = omega arith

IsRising-earlier : (a b to : ℕ) (ts : List ℕ) → a ≤ b → IsRising b to ts → IsRising a to ts
IsRising-earlier a b to [] h r = omega arith
IsRising-earlier a b to (t ∷ ts) h r = (omega arith, r.1)

IsRising-le : (a to : ℕ) (ts : List ℕ) → IsRising a to ts → a ≤ to
IsRising-le a to [] r = r
IsRising-le a to (t ∷ ts) r = omega (arith, IsRising-le t to ts r.1)

-- What the bucket holds and may still gain until a time, in millionths of a minute's share.
abbrev supply : ℕ → RateLimiter → ℕ
supply to l = l.tokens * 60_000_000 + (to - l.last) * l.capacity

refilled-supply :
    (now to : ℕ) (l : RateLimiter)
    → l.last ≤ now
    → now ≤ to
    → (supply to (refilled now l) ≤ supply to l)
      × ((refilled now l).last ≤ now)
      × ((refilled now l).capacity ≡ l.capacity)
unfolding refilled
refilled-supply now to l h h' =
    ground (arith, refill-le ((now - l.last) * l.capacity), mul_split l.last now to l.capacity h h')

allow-supply :
    (now to : ℕ) (l : RateLimiter)
    → l.last ≤ now
    → now ≤ to
    → let (granted, l') = allow 1 now l in
      ((if granted then 1 else 0) * 60_000_000 + supply to l' ≤ supply to l) × (l'.last ≤ now)
unfolding allow
allow-supply now to l h h' = ground (arith, refilled-supply now to l h h')

allow_all-supply :
    (to : ℕ) (times : List ℕ) (l : RateLimiter)
    → IsRising l.last to times
    → (allow_all times l).0 * 60_000_000 ≤ supply to l
unfolding allow_all
allow_all-supply to [] l r = omega arith
allow_all-supply to (now ∷ times) l r =
    let (fall, kept) = allow-supply now to l r.0 (IsRising-le now to times r.1) in
    let l' = (allow 1 now l).1 in
    omega (
      arith,
      fall,
      add-mul (if (allow 1 now l).0 then 1 else 0) (allow_all times l').0 60_000_000,
      allow_all-supply to times l' (IsRising-earlier l'.last now to times kept r.1),
    )

-- However its calls are spread over time, a limiter made for a rate grants no more than one full
-- bucket and what that rate refills until the end: in millionths of a minute, the number of calls
-- granted is at most the capacity times a minute and the time that has passed.
pub new_limiter-bounds :
    (rate start to : ℕ) (times : List ℕ)
    → IsRising start to times
    → (allow_all times (new_limiter rate start)).0 * 60_000_000
      ≤ max 1 rate * (60_000_000 + (to - start))
new_limiter-bounds rate start to times r =
    grind (arith, allow_all-supply to times (new_limiter rate start) r)

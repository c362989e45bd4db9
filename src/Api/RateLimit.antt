-- ===== src/Api/RateLimit.antt =====
-- Proofs about `_RateLimiter` of apps/api/aro_api/main.py: how many calls it allows up to an instant.
use native.Mathlib.Nat.{mul-suc, mul-le-mul_left}
use agent_runtime_observator.Prelude.{
  ℕ, suc, ◌+◌, ◌-◌, ◌*◌, ◌/◌, ◌≤◌, ◌<◌, ◌≡◌, inl, inr, true, false, List, [], ◌∷◌, All, arith, leb,
  Bool-cases, if◌then◌else◌,
}
use agent_runtime_observator.Api.{RateLimiter, allow}

-- How many of the calls at these instants, in the order in which they take the lock, are allowed.
abbrev pub allowed : List ℕ → RateLimiter → ℕ
allowed [] limiter = 0
allowed (now ∷ instants) limiter =
    let (passed, next) = allow now limiter in (if passed then 1 else 0) + allowed instants next

minutes :
    (start now last : ℕ)
    → start + 60000000000 ≤ now
    → now ≤ last
    → suc ((last - now) / 60000000000) ≤ (last - start) / 60000000000
minutes start now last h k = omega (arith, h, k)

-- A window that has ended lies a whole minute back.
minutes-le :
    (limit start now last : ℕ)
    → start + 60000000000 ≤ now
    → now ≤ last
    → limit + limit * ((last - now) / 60000000000) ≤ limit * ((last - start) / 60000000000)
minutes-le limit start now last h k = omega (
  arith,
  mul-suc limit ((last - now) / 60000000000),
  mul-le-mul_left limit (minutes start now last h k),
)

module _ (limit last : ℕ) (some_limit : 0 < limit) where
  -- The calls up to the instant `last` that a limiter allows are those left in its window, and a
  -- full limit for every further minute.
  pub allowed-le :
      (limiter : RateLimiter) (instants : List ℕ)
      → limiter.per_minute ≡ limit
      → All (λ now. now ≤ last) instants
      → allowed instants limiter
        ≤ (limit - limiter.count) + limit * ((last - limiter.window_start) / 60000000000)
  unfolding allow
  allowed-le limiter [] same h = omega arith
  allowed-le limiter (now ∷ instants) same (k, h) =
      elim (Bool-cases (leb 60000000000 (now - limiter.window_start))) [
        | inl new ↦
            let opened = record limiter { window_start = now; count = 0 } in
            let counted = record opened { count = 1 } in
            let full : leb limiter.per_minute 0 ≡ false = ground (arith, same, some_limit) in
            let first : leb 1 limiter.per_minute ≡ true = ground (arith, same, some_limit) in
            let rest = allowed-le counted instants same h in
            rw (full, new, first, allow)
              (omega (
                arith,
                rest,
                some_limit,
                minutes-le limit limiter.window_start now last (ground (arith, new)) k,
              ))
        | inr same_window ↦
            let counted = record limiter { count = suc limiter.count } in
            let full : leb limiter.per_minute 0 ≡ false = ground (arith, same, some_limit) in
            let rest = allowed-le counted instants same h in
            elim (Bool-cases (leb (suc limiter.count) limiter.per_minute)) [
              | inl e ↦ rw (full, same_window, e, allow) (ground (arith, rest, e, same))
              | inr e ↦ rw (full, same_window, e, allow) (ground (arith, rest, e, same))
            ]
      ]

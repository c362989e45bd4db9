-- ===== src/Examples/Limits.antt =====
-- The theorems on the polling loop and on the rate limiter, at a queue with one run that fails once,
-- and at three calls with a limit of two.
use agent_runtime_observator.Prelude.{◌≤◌, ◌+◌, ◌-◌, ◌*◌, ◌/◌, ◌≡◌, refl, List, [], ◌∷◌, arith}
use agent_runtime_observator.Runtime.Store.{enqueue, new_store}
use agent_runtime_observator.Worker.{Times}
use agent_runtime_observator.Worker.Drain.{Drains, poll-Drains}
use agent_runtime_observator.Api.{RateLimiter, allow}
use agent_runtime_observator.Api.RateLimit.{allowed, allowed-le}
use agent_runtime_observator.Examples.{platform}
use agent_runtime_observator.Examples.Services.{settings, times, queued, queued-IsSound}

abbrev instants : List Times
instants = times ∷ times ∷ times ∷ times ∷ []

poll-Drains_example : Drains platform settings 3 instants queued
unfolding enqueue new_store
poll-Drains_example =
    poll-Drains platform settings 3 instants queued queued-IsSound (omega arith) (omega arith)

abbrev limiter : RateLimiter
limiter = record { per_minute = 2; window_start = 0; count = 0 }

four_calls : allowed (100000000000 ∷ 101000000000 ∷ 102000000000 ∷ 160000000000 ∷ []) limiter ≡ 3
unfolding allow
four_calls = refl

allowed-le_example :
    allowed (100000000000 ∷ 101000000000 ∷ 102000000000 ∷ 160000000000 ∷ []) limiter
    ≤ (2 - limiter.count) + 2 * ((160000000000 - limiter.window_start) / 60000000000)
allowed-le_example =
    allowed-le 2 160000000000 (omega arith) limiter
      (100000000000 ∷ 101000000000 ∷ 102000000000 ∷ 160000000000 ∷ []) refl
      (omega arith, (omega arith, (omega arith, (omega arith, tt))))

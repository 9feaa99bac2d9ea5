-- ===== src/Examples/Rates.antt =====
-- Runs of the rate limiter of src/policy/rate-limiter.ts.
use folder_forge.Base.{
  ℕ, ◌+◌, ◌≤◌, String, ◌≡◌, refl, true, false, none, some, List, [], ◌∷◌, arith, count,
}
use folder_forge.Policy.RateLimiter.{
  RateLimitRule, RateLimitConfig, RateLimiter, check, rule_for, day_ms, evaluate,
}
use folder_forge.Policy.RateLimiter.Window.{
  accepted, inside, fresh, accepted-le-max_calls, accepted-le-daily_quota,
}
use folder_forge.Policy.RateLimiter.Retry.{check-retry_after_ms, check-retry_after_ms_with_quota}

abbrev two_a_second : RateLimitRule
two_a_second = record { window_ms = 1000; max_calls = 2; daily_quota = none }

abbrev with_quota : RateLimitRule
with_quota = record { window_ms = 1000; max_calls = 2; daily_quota = some 3 }

abbrev config : RateLimitConfig
config = record { enabled = true; default = two_a_second; overrides = ("deploy", with_quota) ∷ [] }

abbrev calls : List (String × ℕ)
calls = ("read", 10) ∷ ("read", 20) ∷ ("read", 30) ∷ ("deploy", 40) ∷ ("read", 1010) ∷ []

abbrev full : RateLimiter
full = record { config = config; buckets = ("read", 10 ∷ 20 ∷ []) ∷ ("deploy", 10 ∷ 20 ∷ []) ∷ [] }

accepted-le-max_calls_example :
    count
      (inside 10 (rule_for (fresh config) "read").window_ms)
      (accepted (fresh config) "read" calls)
    ≤ (rule_for (fresh config) "read").max_calls
accepted-le-max_calls_example =
    accepted-le-max_calls config "read" calls 10 refl
      (omega arith, (omega arith, (omega arith, (omega arith, (omega arith, tt)))))

accepted-le-daily_quota_example :
    count (inside 10 day_ms) (accepted (fresh config) "deploy" calls) ≤ 3
unfolding rule_for
accepted-le-daily_quota_example =
    accepted-le-daily_quota config "deploy" calls 10 3 refl
      (omega arith, (omega arith, (omega arith, (omega arith, (omega arith, tt))))) refl

check-retry_after_ms_example : (check (check full "read" 500).1 "read" (500 + 510)).0.allowed ≡ true
unfolding check rule_for evaluate
check-retry_after_ms_example =
    check-retry_after_ms full "read" 500 510 refl refl (omega arith) (omega arith) refl

check-retry_after_ms_with_quota_example :
    (check (check full "deploy" 500).1 "deploy" (500 + 510)).0.allowed ≡ false
unfolding check rule_for evaluate
check-retry_after_ms_with_quota_example =
    check-retry_after_ms_with_quota full "deploy" 500 510 2 1000 refl refl (omega arith)
      ((omega arith, tt), (tt, tt)) refl refl

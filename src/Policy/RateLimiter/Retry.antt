-- ===== src/Policy/RateLimiter/Retry.antt =====
-- What `retryAfterMs` promises: the wait after which the sliding window admits a call again.
use folder_forge.Base.{
  ℕ, ◌+◌, ◌≤◌, ◌<◌, String, ◌≡◌, refl, ap, Bool, true, false, none, some, List, [], ◌∷◌, arith,
  string_eq, length, filter, beq_refl, All, All-filter, ◌∙◌,
}
use mathlib.Core.Path.{ap₂}
use native.Mathlib.Nat.{le_refl}
use folder_forge.Policy.RateLimiter.{
  RateLimiter, RateLimitRule, Verdict, rate_limit, window_full, day_full, admitted, day_ms,
  has_quota, horizon, live, since, window_hits, retry_after, verdict, decide, bucket, evaluate,
  check, rule_for,
}
use folder_forge.Policy.RateLimiter.Buckets.{
  is_admitted, next_hits, allowed-evaluate, bucket-evaluate, config-evaluate,
}

not_more_later :
    (rule : RateLimitRule) (t t' : ℕ) (hits : List ℕ)
    → t ≤ t'
    → length (window_hits rule t' (live rule t' hits)) ≤ length (window_hits rule t hits)
unfolding window_hits live
not_more_later rule t t' [] le = omega arith
not_more_later rule t t' (x ∷ hits) le = ground (arith, not_more_later rule t t' hits le)

-- At the time when the oldest hit leaves the window, the window holds fewer hits.
fewer_later :
    (rule : RateLimitRule) (t o : ℕ) (hits rest : List ℕ)
    → rule.daily_quota ≡ none
    → window_hits rule t hits ≡ o ∷ rest
    → (t ≤ o + rule.window_ms)
      × (length (window_hits rule (o + rule.window_ms) (live rule (o + rule.window_ms) hits))
          < length (o ∷ rest))
unfolding window_hits live horizon
fewer_later rule t o [] rest q e = cc
fewer_later rule t o (x ∷ hits) rest q e = ground (
  arith,
  fewer_later rule t o hits rest q,
  not_more_later rule t (o + rule.window_ms) hits,
  ap (length {A = ℕ}) e,
)

-- With a quota the hit that leaves the window stays in the bucket and still counts at that time.
as_many_later :
    (rule : RateLimitRule) (t o : ℕ) (hits : List ℕ)
    → has_quota rule ≡ true
    → rule.window_ms < day_ms
    → All (λ ts. o ≤ ts) (window_hits rule t hits)
    → length (window_hits rule t hits)
      ≤ length (window_hits rule (o + rule.window_ms) (live rule (o + rule.window_ms) hits))
unfolding window_hits live horizon
as_many_later rule t o [] q short later = omega arith
as_many_later rule t o (x ∷ hits) q short later =
    ground (arith, as_many_later rule t o hits q short)

-- The oldest hit first, as `push` keeps it.
abbrev pub Chronological : List ℕ → Type 0
Chronological [] = Unit
Chronological (x ∷ xs) = All (λ y. x ≤ y) xs × Chronological xs

filter-Chronological : (p : ℕ → Bool) (xs : List ℕ) → Chronological xs → Chronological (filter p xs)
filter-Chronological p [] h = tt
filter-Chronological p (x ∷ xs) h =
    ground (arith, filter-Chronological p xs h.1, All-filter (λ y. x ≤ y) p xs h.0)

unrecorded : (t : ℕ) (hits : List ℕ) (v : Verdict) → next_hits t false hits v ≡ hits
unrecorded t hits window_full = refl
unrecorded t hits day_full = refl
unrecorded t hits admitted = refl

module _ (l : RateLimiter) (tool : String) (t : ℕ) (enabled : l.config.enabled ≡ true) where
  abbrev rule : RateLimitRule
  rule = rule_for l tool

  abbrev hits : List ℕ
  hits = live rule t (bucket l tool)

  decision-check : (check l tool t).0 ≡ decide rule tool t false hits (verdict rule t hits)
  unfolding check evaluate
  decision-check = rw enabled

  rule-check : rule_for (check l tool t).1 tool ≡ rule
  unfolding check rule_for
  rule-check = rw (config-evaluate l tool t false)

  bucket-check : bucket (check l tool t).1 tool ≡ hits
  unfolding check
  bucket-check =
      rw (bucket-evaluate l tool t false enabled tool, beq_refl tool)
        (unrecorded t hits (verdict rule t hits))

  -- a second check, later
  check_again :
      (t' : ℕ)
      → (check (check l tool t).1 tool t').0.allowed
        ≡ is_admitted (verdict rule t' (live rule t' hits))
  unfolding check
  check_again t' =
      let still : (check l tool t).1.config.enabled ≡ true = rw config-evaluate enabled in
      allowed-evaluate (check l tool t).1 tool t' false still
      ∙ ap₂ (λ (x : RateLimitRule) (xs : List ℕ). is_admitted (verdict x t' (live x t' xs)))
          rule-check bucket-check

  full_with_reason :
      (r m w : ℕ)
      → (check l tool t).0.reason ≡ some (rate_limit tool m w)
      → (check l tool t).0.retry_after_ms ≡ some r
      → (rule.max_calls ≤ length (window_hits rule t hits))
        × (r ≡ retry_after (window_hits rule t hits) rule.window_ms t)
  unfolding verdict decide
  full_with_reason r m w why e =
      let e' : (decide rule tool t false hits (verdict rule t hits)).retry_after_ms ≡ some r =
        rw decision-check at e in
      let why' : (decide rule tool t false hits (verdict rule t hits)).reason
          ≡ some (rate_limit tool m w) =
        rw decision-check at why in
      ground arith

  full_without_quota :
      (r : ℕ)
      → rule.daily_quota ≡ none
      → (check l tool t).0.retry_after_ms ≡ some r
      → ((check l tool t).0.window_count ≡ length (window_hits rule t hits))
        × (rule.max_calls ≤ length (window_hits rule t hits))
        × (r ≡ retry_after (window_hits rule t hits) rule.window_ms t)
  unfolding verdict decide
  full_without_quota r q e = rw decision-check (
      let e' : (decide rule tool t false hits (verdict rule t hits)).retry_after_ms ≡ some r =
        rw decision-check at e in
      ground arith)

admitted_below :
    (rule : RateLimitRule) (t : ℕ) (hits : List ℕ)
    → rule.daily_quota ≡ none
    → length (window_hits rule t hits) < rule.max_calls
    → is_admitted (verdict rule t hits) ≡ true
unfolding verdict
admitted_below rule t hits q lt = ground arith

full_above :
    (rule : RateLimitRule) (t : ℕ) (hits : List ℕ)
    → rule.max_calls ≤ length (window_hits rule t hits)
    → is_admitted (verdict rule t hits) ≡ false
unfolding verdict
full_above rule t hits le = ground arith

room_at_retry :
    (rule : RateLimitRule) (t r : ℕ) (hits window : List ℕ)
    → window_hits rule t hits ≡ window
    → rule.daily_quota ≡ none
    → 0 < rule.max_calls
    → length window ≤ rule.max_calls
    → r ≡ retry_after window rule.window_ms t
    → length (window_hits rule (t + r) (live rule (t + r) hits)) < rule.max_calls
unfolding retry_after
room_at_retry rule t r hits [] same q pos le e =
    omega (arith, not_more_later rule t (t + r) hits, ap (length {A = ℕ}) same)
room_at_retry rule t r hits (o ∷ rest) same q pos le e =
    let (reached, fewer) = fewer_later rule t o hits rest q same in
    let at_end : t + r ≡ o + rule.window_ms = omega arith in rw at_end (omega arith)

first_passes :
    (p : ℕ → Bool) (xs : List ℕ) (o : ℕ) (rest : List ℕ) → filter p xs ≡ o ∷ rest → p o ≡ true
first_passes p [] o rest e = cc
first_passes p (x ∷ xs) o rest e = ground (arith, first_passes p xs o rest)

full_at_retry :
    (rule : RateLimitRule) (t r : ℕ) (hits window : List ℕ)
    → window_hits rule t hits ≡ window
    → has_quota rule ≡ true
    → rule.window_ms < day_ms
    → rule.max_calls ≤ length window
    → Chronological window
    → r ≡ retry_after window rule.window_ms t
    → rule.max_calls ≤ length (window_hits rule (t + r) (live rule (t + r) hits))
unfolding retry_after window_hits
full_at_retry rule t r hits [] same q short full old e = omega arith
full_at_retry rule t r hits (o ∷ rest) same q short full old e =
    let reached : t ≤ o + rule.window_ms =
      ground (arith, first_passes (since t rule.window_ms) hits o rest same) in
    let at_end : t + r ≡ o + rule.window_ms = omega arith in
    let oldest : All (λ y. o ≤ y) (window_hits rule t hits) = rw same (le_refl o, old.0) in
    rw at_end (omega (arith, as_many_later rule t o hits q short oldest, ap (length {A = ℕ}) same))

-- Where the rule has no daily quota and allows at least one call, the limiter is enabled, and the
-- window holds no more calls than the rule allows: a check that is blocked with `retryAfterMs = r` is followed by an accepted one at `t + r`.
pub check-retry_after_ms :
    (l : RateLimiter) (tool : String) (t r : ℕ)
    → l.config.enabled ≡ true
    → (rule_for l tool).daily_quota ≡ none
    → 0 < (rule_for l tool).max_calls
    → (check l tool t).0.window_count ≤ (rule_for l tool).max_calls
    → (check l tool t).0.retry_after_ms ≡ some r
    → (check (check l tool t).1 tool (t + r)).0.allowed ≡ true
check-retry_after_ms l tool t r on q pos le e =
    let (counted, full, after) = full_without_quota l tool t on r q e in
    check_again l tool t on (t + r)
    ∙ admitted_below (rule_for l tool) (t + r) _ q
        (room_at_retry (rule_for l tool) t r _ _ refl q pos (rw counted at le) after)

-- Where the rule has a daily quota other than 0 and a window shorter than a day, and the bucket's
-- hits are in the order of time: a check that the window blocks with `retryAfterMs = r` is still
-- blocked at `t + r`.
pub check-retry_after_ms_with_quota :
    (l : RateLimiter) (tool : String) (t r m w : ℕ)
    → l.config.enabled ≡ true
    → has_quota (rule_for l tool) ≡ true
    → (rule_for l tool).window_ms < day_ms
    → Chronological (bucket l tool)
    → (check l tool t).0.reason ≡ some (rate_limit tool m w)
    → (check l tool t).0.retry_after_ms ≡ some r
    → (check (check l tool t).1 tool (t + r)).0.allowed ≡ false
unfolding live window_hits
check-retry_after_ms_with_quota l tool t r m w on q short old why e =
    let (full, after) = full_with_reason l tool t on r m w why e in
    check_again l tool t on (t + r)
    ∙ full_above (rule_for l tool) (t + r) _ (
        full_at_retry (rule_for l tool) t r _ _ refl q short full
          (filter-Chronological _ _ (filter-Chronological _ _ old)) after)

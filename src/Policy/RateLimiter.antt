-- ===== src/Policy/RateLimiter.antt =====
-- src/policy/rate-limiter.ts. Times are milliseconds, natural numbers; `t - x < y` is written
-- `t < x + y`, which also covers a clock that went back. The clock's reading is an argument.
pub mod Buckets
pub mod Window
pub mod Retry
use folder_forge.Base.{
  ℕ, ◌+◌, ◌*◌, ◌-◌, max, String, Bool, true, false, Option, none, some, List, [], ◌∷◌, ◌++◌, map,
  ltb, leb, if◌then◌else◌, ◌==◌, get_or, is_some, string_eq, length, head?, filter, count, lookup,
  insert, erase,
}

-- `RateLimitRule` and `RateLimitConfig` of src/core/types.ts
pub record RateLimitRule : Type 0 where
  pub window_ms : ℕ
  pub max_calls : ℕ
  pub daily_quota : Option ℕ

pub record RateLimitConfig : Type 0 where
  pub enabled : Bool
  pub default : RateLimitRule
  pub overrides : List (String × RateLimitRule)

pub data RateReason : Type 0 where
  rate_limit : (tool : String) (max_calls window_ms : ℕ) → RateReason
  quota_reached : (tool : String) (quota : ℕ) → RateReason

pub record RateDecision : Type 0 where
  pub allowed : Bool
  pub reason : Option RateReason
  pub retry_after_ms : Option ℕ
  pub window_count : ℕ
  pub daily_count : ℕ

abbrev pub day_ms : ℕ
day_ms = 24 * 60 * 60 * 1000

-- The buckets' `hits` arrays by tool.
pub record RateLimiter : Type 0 where
  pub config : RateLimitConfig
  pub buckets : List (String × List ℕ)

unfoldable pub rule_for : RateLimiter → String → RateLimitRule
unfolding lookup
rule_for l tool = get_or (lookup tool l.config.overrides) l.config.default

-- JavaScript's truth of `rule.dailyQuota`: neither missing nor 0.
abbrev pub has_quota : RateLimitRule → Bool
has_quota rule = elim rule.daily_quota [ none ↦ false | some q ↦ ltb 0 q ]

unfoldable pub horizon : RateLimitRule → ℕ
horizon rule = max rule.window_ms (if has_quota rule then day_ms else 0)

unfoldable pub live : RateLimitRule → ℕ → List ℕ → List ℕ
unfolding horizon
live rule t hits = filter (λ ts. ltb t (ts + horizon rule)) hits

-- `ts >= t - span`
abbrev pub since : ℕ → ℕ → ℕ → Bool
since t span ts = leb t (ts + span)

unfoldable pub window_hits : RateLimitRule → ℕ → List ℕ → List ℕ
window_hits rule t hits = filter (since t rule.window_ms) hits

unfoldable pub day_hits : RateLimitRule → ℕ → List ℕ → List ℕ
day_hits rule t hits = if has_quota rule then filter (since t day_ms) hits else []

-- `Math.max(0, oldest + span - t)`, where `oldest` is the first hit or `t`
unfoldable pub retry_after : List ℕ → ℕ → ℕ → ℕ
retry_after hits span t = (get_or (head? hits) t + span) - t

pub data Verdict : Type 0 where
  window_full day_full admitted : Verdict

-- The two limits, on the hits within the horizon.
unfoldable pub verdict : RateLimitRule → ℕ → List ℕ → Verdict
unfolding window_hits day_hits
verdict rule t hits =
    if leb rule.max_calls (length (window_hits rule t hits))
    then window_full
    else elim rule.daily_quota [
      | none ↦ admitted
      | some q ↦ if leb q (length (day_hits rule t hits)) then day_full else admitted
    ]

abbrev blocked : RateReason → ℕ → ℕ → ℕ → RateDecision
blocked reason retry window day = record {
  allowed = false;
  reason = some reason;
  retry_after_ms = some retry;
  window_count = window;
  daily_count = day;
}

abbrev passed : ℕ → ℕ → RateDecision
passed window day = record {
  allowed = true;
  reason = none;
  retry_after_ms = none;
  window_count = window;
  daily_count = day;
}

unfoldable pub decide : RateLimitRule → String → ℕ → Bool → List ℕ → Verdict → RateDecision
unfolding window_hits day_hits retry_after
decide rule tool t recording hits window_full =
    blocked (rate_limit tool rule.max_calls rule.window_ms)
      (retry_after (window_hits rule t hits) rule.window_ms t) (length (window_hits rule t hits))
      (length (day_hits rule t hits))
decide rule tool t recording hits day_full =
    blocked (quota_reached tool (get_or rule.daily_quota 0))
      (retry_after (day_hits rule t hits) day_ms t) (length (window_hits rule t hits))
      (length (day_hits rule t hits))
decide rule tool t recording hits admitted =
    passed (length (window_hits rule t hits) + (if recording then 1 else 0))
      (length (day_hits rule t hits) + (if recording then 1 else 0))

-- A blocked call filters a bucket that is in the map in place, and puts no new one there.
unfoldable pub store :
    String → ℕ → Bool → List ℕ → Verdict → List (String × List ℕ) → List (String × List ℕ)
unfolding insert lookup
store tool t recording hits admitted buckets =
    insert tool (if recording then hits ++ t ∷ [] else hits) buckets
store tool t recording hits _ buckets =
    if is_some (lookup tool buckets) then insert tool hits buckets else buckets

abbrev pub bucket : RateLimiter → String → List ℕ
bucket l tool = get_or (lookup tool l.buckets) []

unfoldable pub evaluate : RateLimiter → String → ℕ → Bool → RateDecision × RateLimiter
unfolding rule_for live verdict decide store
evaluate l tool t recording =
    let rule = rule_for l tool in
    let hits = live rule t (bucket l tool) in
    let v = verdict rule t hits in
    if l.config.enabled
    then (
      decide rule tool t recording hits v,
      record l { buckets = store tool t recording hits v l.buckets },
    )
    else (passed 0 0, l)

unfoldable pub check : RateLimiter → String → ℕ → RateDecision × RateLimiter
check l tool t = evaluate l tool t false

unfoldable pub hit : RateLimiter → String → ℕ → RateDecision × RateLimiter
hit l tool t = evaluate l tool t true

-- One row for each bucket: the tool, the two counts and the rule.
unfoldable pub snapshot : RateLimiter → ℕ → List (String × ℕ × ℕ × RateLimitRule)
unfolding rule_for
snapshot l t =
    map
      (λ b. (
        b.0,
        count (since t (rule_for l b.0).window_ms) b.1,
        count (since t day_ms) b.1,
        rule_for l b.0,
      ))
      l.buckets

-- `reset(tool?)`; an empty name counts as none.
unfoldable pub reset : RateLimiter → Option String → RateLimiter
unfolding erase
reset l none = record l { buckets = [] }
reset l (some tool) =
    if tool == "" then record l { buckets = [] } else record l { buckets = erase tool l.buckets }

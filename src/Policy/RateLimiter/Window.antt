-- ===== src/Policy/RateLimiter/Window.antt =====
-- What the limiter promises over a history of calls: no window and no day holds more accepted calls
-- of a tool than its rule allows, whatever the other tools do.
use folder_forge.Base.{
  ℕ, ◌+◌, ◌≤◌, ◌<◌, String, ◌≡◌, refl, sym, ◌∙◌, Bool, true, false, ◌&&◌, some, List, [], ◌∷◌, ◌++◌,
  arith, ltb, leb, if◌then◌else◌, ◌==◌, string_eq, Bool-cases, inl, inr, length, filter, count,
  count-append, beq_refl, subst, lookup,
}
use mathlib.Core.List.{append_assoc, append-nil}
use folder_forge.Policy.RateLimiter.{
  RateLimiter, RateLimitRule, RateLimitConfig, Verdict, window_full, day_full, admitted, day_ms,
  horizon, live, since, verdict, bucket, hit, rule_for,
}
use folder_forge.Policy.RateLimiter.Buckets.{
  live-live, live-append, is_admitted, is_admitted_lem, next_hits, allowed-evaluate,
  bucket-evaluate, config-evaluate,
}

-- The times of the calls of `tool` that `hit` accepts, among calls of any tools.
unfoldable pub accepted : RateLimiter → String → List (String × ℕ) → List ℕ
accepted l tool [] = []
accepted l tool ((k, t) ∷ cs) =
    let rest = accepted (hit l k t).1 tool cs in
    if k == tool && (hit l k t).0.allowed then t ∷ rest else rest

-- The clock never goes back.
abbrev pub Ordered : ℕ → List (String × ℕ) → Type 0
Ordered last [] = Unit
Ordered last ((k, t) ∷ cs) = (last ≤ t) × Ordered t cs

-- `u ≤ ts < u + span`
abbrev pub inside : ℕ → ℕ → ℕ → Bool
inside u span ts = leb u ts && ltb ts (u + span)

count-inside-le :
    (rule : RateLimitRule) (u span t : ℕ) (past : List ℕ)
    → span ≤ horizon rule
    → u ≤ t
    → t < u + span
    → count (inside u span) past ≤ length (filter (since t span) (live rule t past))
unfolding live
count-inside-le rule u span t [] fits p q = omega arith
count-inside-le rule u span t (x ∷ past) fits p q =
    ground (arith, count-inside-le rule u span t past fits p q)

-- A limit of `cap` calls in `span`, which an admission keeps.
module _ (rule : RateLimitRule) (tool : String) (span cap : ℕ)
    (fits : (t : ℕ) (hits : List ℕ) → verdict rule t hits ≡ admitted → span ≤ horizon rule)
    (limited : (t : ℕ) (hits : List ℕ)
      → verdict rule t hits ≡ admitted
      → length (filter (since t span) hits) < cap) where
  -- The bucket holds what is alive of the accepted calls, now and later.
  record Tracks (last : ℕ) (l : RateLimiter) (past : List ℕ) : Type 0 where
    enabled : l.config.enabled ≡ true
    ruled : rule_for l tool ≡ rule
    same : (t : ℕ) → last ≤ t → live rule t (bucket l tool) ≡ live rule t past
    capped : (u : ℕ) → count (inside u span) past ≤ cap

  admit :
      {last t : ℕ} {l : RateLimiter} {past : List ℕ}
      → Tracks last l past
      → last ≤ t
      → verdict rule t (live rule t past) ≡ admitted
      → (u : ℕ) → count (inside u span) (past ++ t ∷ []) ≤ cap
  admit {last} {t} {past = past} v le ok u = ground (
    arith,
    count-append (inside u span) past (t ∷ []),
    v.capped u,
    limited t (live rule t past) ok,
    count-inside-le rule u span t past (fits t (live rule t past) ok),
  )

  ruled_after :
      (l : RateLimiter) (k : String) (t : ℕ) → rule_for (hit l k t).1 tool ≡ rule_for l tool
  unfolding rule_for hit
  ruled_after l k t = rw (config-evaluate l k t true)

  step_other :
      {last : ℕ} {l : RateLimiter} {past : List ℕ} (k : String) (t : ℕ)
      → Tracks last l past
      → last ≤ t
      → (k == tool) ≡ false
      → Tracks t (hit l k t).1 past
  unfolding hit
  step_other {last} {l} {past} k t v le other = record {
    enabled = rw config-evaluate v.enabled;
    ruled = ruled_after l k t ∙ v.ruled;
    same =
        λ t' le'. rw (bucket-evaluate l k t true v.enabled tool, other) (v.same t' (omega arith));
    capped = v.capped;
  }

  -- the new bucket of the tool, against the accepted calls
  next-same :
      {t t' : ℕ} (past : List ℕ) (d : Verdict)
      → t ≤ t'
      → live rule t' (next_hits t true (live rule t past) d)
        ≡ live rule t' (if is_admitted d then past ++ t ∷ [] else past)
  next-same {t} {t'} past window_full le = live-live rule t t' past le
  next-same {t} {t'} past day_full le = live-live rule t t' past le
  next-same {t} {t'} past admitted le =
      rw (live-append rule t' (live rule t past) (t ∷ []), live-live rule t t' past le, live-append)

  module _ {last : ℕ} {l : RateLimiter} {past : List ℕ} (t : ℕ) (v : Tracks last l past)
      (le : last ≤ t) where
    allowed_self : (hit l tool t).0.allowed ≡ is_admitted (verdict rule t (live rule t past))
    unfolding hit
    allowed_self = rw (allowed-evaluate l tool t true v.enabled, v.ruled, v.same t le)

    bucket_self :
        bucket (hit l tool t).1 tool
        ≡ next_hits t true (live rule t past) (verdict rule t (live rule t past))
    unfolding hit
    bucket_self =
        rw (bucket-evaluate l tool t true v.enabled tool, beq_refl tool, v.ruled, v.same t le)

    step_self :
        Tracks t (hit l tool t).1 (if (hit l tool t).0.allowed then past ++ t ∷ [] else past)
    step_self = record {
      enabled = unfold hit in rw config-evaluate v.enabled;
      ruled = ruled_after l tool t ∙ v.ruled;
      same = λ t' le'. rw (bucket_self, allowed_self) (next-same past _ le');
      capped = λ u. elim (Bool-cases (is_admitted (verdict rule t (live rule t past)))) [
        | inl ok ↦ rw (allowed_self, ok) (admit v le (is_admitted_lem _ ok) u)
        | inr blocked ↦ rw (allowed_self, blocked) (v.capped u)
      ];
    }

  capped_run :
      (cs : List (String × ℕ)) (last : ℕ) (l : RateLimiter) (past : List ℕ)
      → Tracks last l past
      → Ordered last cs
      → (u : ℕ) → count (inside u span) (past ++ accepted l tool cs) ≤ cap
  unfolding accepted
  capped_run [] last l past v o u = rw append-nil (v.capped u)
  capped_run ((k, t) ∷ cs) last l past v (le, o) u = elim (Bool-cases (k == tool)) [
    | inl self ↦
        let e : k ≡ tool = (string_eq.equals_iff k tool).0 self in
        let ih : Tracks t (hit l k t).1 (if (hit l k t).0.allowed then past ++ t ∷ [] else past) =
          subst
            (λ j. Tracks t (hit l j t).1 (if (hit l j t).0.allowed then past ++ t ∷ [] else past))
            (sym e) (step_self t v le) in
        elim (Bool-cases (hit l k t).0.allowed) [
          | inl ok ↦
              rw (self, ok)
                (subst (λ xs. count (inside u span) xs ≤ cap)
                  (append_assoc past (t ∷ []) (accepted (hit l k t).1 tool cs))
                  (capped_run cs t (hit l k t).1 (past ++ t ∷ []) (rw ok at ih) o u))
          | inr blocked ↦
              rw (self, blocked) (capped_run cs t (hit l k t).1 past (rw blocked at ih) o u)
        ]
    | inr other ↦ rw other (capped_run cs t (hit l k t).1 past (step_other k t v le other) o u)
  ]

  capped_from_empty :
      (config : RateLimitConfig) (cs : List (String × ℕ))
      → config.enabled ≡ true
      → rule_for (record { config = config; buckets = [] }) tool ≡ rule
      → Ordered 0 cs
      → (u : ℕ)
      → count (inside u span) (accepted (record { config = config; buckets = [] }) tool cs) ≤ cap
  unfolding lookup
  capped_from_empty config cs on ruled o u =
      capped_run cs 0 _ []
        (record { enabled = on; ruled = ruled; same = λ t _. refl; capped = λ u. omega arith }) o u

window_limited :
    (rule : RateLimitRule) (t : ℕ) (hits : List ℕ)
    → verdict rule t hits ≡ admitted
    → length (filter (since t rule.window_ms) hits) < rule.max_calls
unfolding verdict
window_limited rule t hits h = ground arith

day_limited :
    (rule : RateLimitRule) (q : ℕ)
    → rule.daily_quota ≡ some q
    → (t : ℕ) (hits : List ℕ) → verdict rule t hits ≡ admitted
    → length (filter (since t day_ms) hits) < q
unfolding verdict
day_limited rule q e t hits h = ground arith

window-le-horizon :
    (rule : RateLimitRule) (t : ℕ) (hits : List ℕ)
    → verdict rule t hits ≡ admitted
    → rule.window_ms ≤ horizon rule
unfolding horizon
window-le-horizon rule t hits h = omega arith

day-le-horizon :
    (rule : RateLimitRule) (q : ℕ)
    → rule.daily_quota ≡ some q
    → (t : ℕ) (hits : List ℕ) → verdict rule t hits ≡ admitted
    → day_ms ≤ horizon rule
unfolding horizon verdict
day-le-horizon rule q e t hits h = ground arith

abbrev pub fresh : RateLimitConfig → RateLimiter
fresh config = record { config = config; buckets = [] }

-- With an enabled configuration and a clock that never goes back: among the calls of any tools,
-- of those that `hit` accepts for one tool at most `maxCalls` lie in any window
-- `[u, u + windowMs)`, for the rule that applies to the tool.
pub accepted-le-max_calls :
    (config : RateLimitConfig) (tool : String) (cs : List (String × ℕ)) (u : ℕ)
    → config.enabled ≡ true
    → Ordered 0 cs
    → count (inside u (rule_for (fresh config) tool).window_ms) (accepted (fresh config) tool cs)
      ≤ (rule_for (fresh config) tool).max_calls
accepted-le-max_calls config tool cs u on o =
    let rule = rule_for (fresh config) tool in
    capped_from_empty rule tool rule.window_ms rule.max_calls (window-le-horizon rule)
      (window_limited rule) config cs on refl o u

-- With an enabled configuration and a clock that never goes back: at most `dailyQuota` of the calls
-- of a tool that `hit` accepts lie in any 24 hours, where the rule has a quota, 0 included.
pub accepted-le-daily_quota :
    (config : RateLimitConfig) (tool : String) (cs : List (String × ℕ)) (u q : ℕ)
    → config.enabled ≡ true
    → Ordered 0 cs
    → (rule_for (fresh config) tool).daily_quota ≡ some q
    → count (inside u day_ms) (accepted (fresh config) tool cs) ≤ q
accepted-le-daily_quota config tool cs u q on o e =
    let rule = rule_for (fresh config) tool in
    capped_from_empty rule tool day_ms q (day-le-horizon rule q e) (day_limited rule q e) config cs
      on refl o u

-- ===== src/Policy/RateLimiter/Buckets.antt =====
-- What one call does to each bucket, on every branch.
use folder_forge.Base.{
  ℕ, ◌+◌, ◌≤◌, String, ◌≡◌, refl, Bool, true, false, ◌&&◌, List, [], ◌∷◌, ◌++◌, arith, eq_iff, ltb,
  ap, none, inl, inr, get_or, is_some, insert, if◌then◌else◌, ◌==◌, string_eq, Option-cases, filter,
  lookup-insert, lookup,
}
use folder_forge.Policy.RateLimiter.{
  RateLimiter, RateLimitRule, Verdict, window_full, day_full, admitted, horizon, live, verdict,
  decide, store, bucket, evaluate, rule_for,
}

-- Filtering again at a later time keeps what the later time keeps.
filter-filter {ℓ} :
    {A : Type ℓ} (p q : A → Bool) (xs : List A)
    → ((x : A) → q x ≡ true → p x ≡ true)
    → filter q (filter p xs) ≡ filter q xs
filter-filter p q [] h = refl
filter-filter p q (x ∷ xs) h = ground (arith, filter-filter p q xs h, h x)

pub live-live :
    (rule : RateLimitRule) (t t' : ℕ) (hits : List ℕ)
    → t ≤ t'
    → live rule t' (live rule t hits) ≡ live rule t' hits
unfolding live
live-live rule t t' hits le =
    filter-filter (λ ts. ltb t (ts + horizon rule)) (λ ts. ltb t' (ts + horizon rule)) hits
      (λ ts h. ground arith)

pub live-append :
    (rule : RateLimitRule) (t : ℕ) (xs ys : List ℕ)
    → live rule t (xs ++ ys) ≡ live rule t xs ++ live rule t ys
unfolding live
live-append rule t [] ys = refl
live-append rule t (x ∷ xs) ys = ground (arith, live-append rule t xs ys)

abbrev pub is_admitted : Verdict → Bool
is_admitted admitted = true
is_admitted _ = false

pub is_admitted_lem : (v : Verdict) → is_admitted v ≡ true → v ≡ admitted
is_admitted_lem window_full h = cc
is_admitted_lem day_full h = cc
is_admitted_lem admitted h = refl

-- The bucket of the called tool.
abbrev pub next_hits : ℕ → Bool → List ℕ → Verdict → List ℕ
next_hits t recording hits v = if is_admitted v && recording then hits ++ t ∷ [] else hits

allowed-decide :
    (rule : RateLimitRule) (tool : String) (t : ℕ) (recording : Bool) (hits : List ℕ) (v : Verdict)
    → (decide rule tool t recording hits v).allowed ≡ is_admitted v
unfolding decide
allowed-decide rule tool t recording hits window_full = refl
allowed-decide rule tool t recording hits day_full = refl
allowed-decide rule tool t recording hits admitted = refl

module _ (tool j : String) (t : ℕ) (recording : Bool) (hits : List ℕ)
    (buckets : List (String × List ℕ)) (fresh : lookup tool buckets ≡ none → hits ≡ []) where
  kept_in_place :
      get_or
        (lookup j (if is_some (lookup tool buckets) then insert tool hits buckets else buckets))
        []
      ≡ (if tool == j then hits else get_or (lookup j buckets) [])
  kept_in_place = elim (Option-cases (lookup tool buckets)) [
    | inl e ↦ rw e (ground (arith, eq_iff tool j, fresh e, ap (λ k. lookup k buckets)))
    | inr (b, e) ↦ rw e (ground (arith, lookup-insert tool j hits buckets))
  ]

  bucket-store :
      (v : Verdict)
      → get_or (lookup j (store tool t recording hits v buckets)) []
        ≡ (if tool == j then next_hits t recording hits v else get_or (lookup j buckets) [])
  unfolding store
  bucket-store window_full = kept_in_place
  bucket-store day_full = kept_in_place
  bucket-store admitted =
      ground (arith, lookup-insert tool j (if recording then hits ++ t ∷ [] else hits) buckets)

live-none :
    (rule : RateLimitRule) (t : ℕ) (tool : String) (l : RateLimiter)
    → lookup tool l.buckets ≡ none
    → live rule t (bucket l tool) ≡ []
unfolding live
live-none rule t tool l e = rw e

module _ (l : RateLimiter) (tool : String) (t : ℕ) (recording : Bool)
    (enabled : l.config.enabled ≡ true) where
  abbrev kept : List ℕ
  kept = live (rule_for l tool) t (bucket l tool)

  pub allowed-evaluate :
      (evaluate l tool t recording).0.allowed ≡ is_admitted (verdict (rule_for l tool) t kept)
  unfolding evaluate
  allowed-evaluate = rw enabled (allowed-decide (rule_for l tool) tool t recording kept _)

  pub bucket-evaluate :
      (j : String)
      → bucket (evaluate l tool t recording).1 j ≡ (
          if tool == j
          then next_hits t recording kept (verdict (rule_for l tool) t kept)
          else bucket l j)
  unfolding evaluate
  bucket-evaluate j = rw enabled (
      bucket-store tool j t recording kept l.buckets (live-none (rule_for l tool) t tool l)
        (verdict (rule_for l tool) t kept))

pub config-evaluate :
    (l : RateLimiter) (tool : String) (t : ℕ) (recording : Bool)
    → (evaluate l tool t recording).1.config ≡ l.config
unfolding evaluate
config-evaluate l tool t recording = ground arith

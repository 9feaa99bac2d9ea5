-- ===== src/Distributed/Next.antt =====
-- The job that `leaseJob` of src/distributed/coordinator.ts picks is a queued one of the store.
use folder_forge.Base.{
  ℕ, suc, ◌≤◌, String, ◌≡◌, sym, subst, true, Option, none, some, List, [], ◌∷◌, arith, All,
  All-filter, find_All, filter, leb, if◌then◌else◌, ◌==◌, nat_eq, Bool-cases, inl, inr,
}
use folder_forge.Distributed.Store.{JobRecord}
use folder_forge.Distributed.Leases.{
  Placed, placed_from, change_place, insert_by_age, by_age, can_run, waits, next_job,
}
use folder_forge.Distributed.Machine.{IsSound, IsStep}
use folder_forge.Distributed.Progress.{Progress, Progress-refl, step-Reached, stay-Reached}

-- The object at a place of an array that starts at place `i`.
unfoldable job_at : ℕ → ℕ → List JobRecord → Option JobRecord
job_at place i [] = none
job_at place i (job ∷ jobs) =
    let rest = job_at place (suc i) jobs in if place == i then some job else rest

pub IsAt : ℕ → List JobRecord → Placed → Type 0
IsAt i jobs x = (i ≤ x.0) × (job_at x.0 i jobs ≡ some x.1)

later :
    (i : ℕ) (job : JobRecord) (jobs : List JobRecord) (x : Placed)
    → IsAt (suc i) jobs x
    → IsAt i (job ∷ jobs) x
unfolding IsAt job_at
later i job jobs x v = ground arith

All-later :
    (i : ℕ) (job : JobRecord) (jobs : List JobRecord) (xs : List Placed)
    → All (IsAt (suc i) jobs) xs
    → All (IsAt i (job ∷ jobs)) xs
All-later i job jobs [] v = v
All-later i job jobs (x ∷ xs) v = (later i job jobs x v.0, All-later i job jobs xs v.1)

placed_from-IsAt : (i : ℕ) (jobs : List JobRecord) → All (IsAt i jobs) (placed_from i jobs)
unfolding placed_from IsAt job_at
placed_from-IsAt i [] = tt
placed_from-IsAt i (job ∷ jobs) =
    ((omega arith, ground arith), All-later i job jobs _ (placed_from-IsAt (suc i) jobs))

insert_by_age-All {ℓ} :
    (P : Placed → Type ℓ) (x : Placed) (xs : List Placed)
    → P x
    → All P xs
    → All P (insert_by_age x xs)
unfolding insert_by_age
insert_by_age-All P x [] new v = (new, v)
insert_by_age-All P x (y ∷ ys) new v = elim (Bool-cases (leb x.1.created_at y.1.created_at)) [
  | inl b ↦ rw (b, insert_by_age) (new, v)
  | inr b ↦ rw (b, insert_by_age) (v.0, insert_by_age-All P x ys new v.1)
]

by_age-All {ℓ} : (P : Placed → Type ℓ) (xs : List Placed) → All P xs → All P (by_age xs)
unfolding by_age
by_age-All P [] v = v
by_age-All P (x ∷ xs) v = insert_by_age-All P x (by_age xs) v.0 (by_age-All P xs v.1)

All-waits : (xs : List Placed) → All (λ x. waits x ≡ true) (filter waits xs)
All-waits [] = tt
All-waits (x ∷ xs) =
    let rest = All-waits xs in
    elim (Bool-cases (waits x)) [ inl b ↦ rw b (b, rest) | inr b ↦ rw b rest ]

pub next_job-queued :
    (capabilities : List String) (jobs : List JobRecord) (x : Placed)
    → next_job capabilities jobs ≡ some x
    → IsAt 0 jobs x × (waits x ≡ true)
unfolding next_job
next_job-queued capabilities jobs x e =
    let sorted = by_age (filter waits (placed_from 0 jobs)) in
    (
      find_All (IsAt 0 jobs) (can_run capabilities) sorted
          (by_age-All _ _ (All-filter _ waits _ (placed_from-IsAt 0 jobs))) e,
      find_All (λ y. waits y ≡ true) (can_run capabilities) sorted
          (by_age-All _ _ (All-waits (placed_from 0 jobs))) e,
    )

pub change_place-Progress :
    (last i place : ℕ) (f : JobRecord → JobRecord) (jobs : List JobRecord) (job : JobRecord)
    → IsAt i jobs (place, job)
    → IsStep last job (f job)
    → All (IsSound last) jobs
    → Progress last jobs (change_place place i f jobs)
unfolding change_place IsAt job_at
change_place-Progress last i place f [] job at_place step v = v
change_place-Progress last i place f (k ∷ jobs) job at_place step v =
    elim (Bool-cases (place == i)) [
      | inl b ↦
          let same : k ≡ job = ground arith in
          rw (b, change_place)
            (
              step-Reached (subst (λ x. IsStep last x (f x)) (sym same) step),
              Progress-refl last jobs v.1,
            )
      | inr b ↦
          rw (b, change_place)
            (
              stay-Reached v.0,
              change_place-Progress last (suc i) place f jobs job (ground arith) step v.1,
            )
    ]

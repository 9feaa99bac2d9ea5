-- ===== src/Distributed/Progress.antt =====
-- How the jobs of src/distributed/coordinator.ts change from one store to a later one.
use folder_forge.Base.{
  ℕ, ◌≤◌, ◌≡◌, refl, sym, ◌∙◌, subst, Bool, true, false, some, List, [], ◌∷◌, ◌++◌, arith, All,
  find, Bool-cases, inl, inr,
}
use folder_forge.Distributed.Store.{
  ReplayPolicy, JobState, JobRecord, CoordinatorStore, CoordinatorError, Result, ok, fail,
  change_first, map_jobs, recover_in_store, recover_job, settle, mutate,
}
use folder_forge.Distributed.Machine.{Moves, done, then_move, IsSound, IsStep, recover_job-IsStep}

-- What a job came to be: in order, and reached by moves of the state machine.
pub record Reached (last : ℕ) (before after : JobRecord) : Type 0 where
  pub sound : IsSound last after
  pub same_policy : after.replay_policy ≡ before.replay_policy
  pub moves : Moves before.replay_policy before.state after.state

-- No job is lost or changes its place, and each is reached from what it was; jobs may be added.
abbrev pub Progress : ℕ → List JobRecord → List JobRecord → Type 0
Progress last [] ks = All (IsSound last) ks
Progress last (j ∷ js) [] = true ≡ false
Progress last (j ∷ js) (k ∷ ks) = Reached last j k × Progress last js ks

abbrev pub WellFormed : CoordinatorStore → Type 0
WellFormed s = All (IsSound s.next_fencing_token) s.jobs

pub record Evolves (s t : CoordinatorStore) : Type 0 where
  pub fencing : s.next_fencing_token ≤ t.next_fencing_token
  pub progress : Progress t.next_fencing_token s.jobs t.jobs

pub step-Reached : {last : ℕ} {j k : JobRecord} → IsStep last j k → Reached last j k
step-Reached v = record {
  sound = v.sound;
  same_policy = v.same_policy;
  moves = then_move done v.move;
}

raise : {last : ℕ} (higher : ℕ) (j : JobRecord) → last ≤ higher → IsSound last j → IsSound higher j
raise higher j le v = record {
  holds = v.holds;
  acknowledged = v.acknowledged;
  fenced = let old = v.fenced in omega arith;
  no_blocked_replay = v.no_blocked_replay;
}

pub stay-Reached : {last : ℕ} {j : JobRecord} → IsSound last j → Reached last j j
stay-Reached v = record { sound = v; same_policy = refl; moves = done }

pub raise-All :
    {last : ℕ} (higher : ℕ) (js : List JobRecord)
    → last ≤ higher
    → All (IsSound last) js
    → All (IsSound higher) js
raise-All higher [] le v = v
raise-All higher (j ∷ js) le v = (raise higher j le v.0, raise-All higher js le v.1)

Moves-trans : {r : ReplayPolicy} {a b c : JobState} → Moves r a b → Moves r b c → Moves r a c
Moves-trans before done = before
Moves-trans before (then_move later last) = then_move (Moves-trans before later) last

Reached-trans : {m n : ℕ} {i j k : JobRecord} → Reached m i j → Reached n j k → Reached n i k
Reached-trans {k = k} u v = record {
  sound = v.sound;
  same_policy = v.same_policy ∙ u.same_policy;
  moves = Moves-trans u.moves (rw u.same_policy at v.moves);
}

Progress-IsSound : (last : ℕ) (js ks : List JobRecord) → Progress last js ks → All (IsSound last) ks
Progress-IsSound last [] ks g = g
Progress-IsSound last (j ∷ js) [] g = absurd (ground arith)
Progress-IsSound last (j ∷ js) (k ∷ ks) g = (g.0.sound, Progress-IsSound last js ks g.1)

Progress-trans :
    (m n : ℕ) (is js ks : List JobRecord) → Progress m is js → Progress n js ks → Progress n is ks
Progress-trans m n [] js ks g h = Progress-IsSound n js ks h
Progress-trans m n (i ∷ is) [] ks g h = absurd (ground arith)
Progress-trans m n (i ∷ is) (j ∷ js) [] g h = h
Progress-trans m n (i ∷ is) (j ∷ js) (k ∷ ks) g h =
    (Reached-trans g.0 h.0, Progress-trans m n is js ks g.1 h.1)

pub Progress-refl : (last : ℕ) (js : List JobRecord) → All (IsSound last) js → Progress last js js
Progress-refl last [] v = v
Progress-refl last (j ∷ js) v =
    (record { sound = v.0; same_policy = refl; moves = done }, Progress-refl last js v.1)

pub Progress-append :
    {last : ℕ} (k : JobRecord) (js : List JobRecord)
    → IsSound last k
    → All (IsSound last) js
    → Progress last js (js ++ k ∷ [])
Progress-append k [] new v = (new, v)
Progress-append k (j ∷ js) new v =
    (record { sound = v.0; same_policy = refl; moves = done }, Progress-append k js new v.1)

pub map_jobs-Progress :
    {last : ℕ} (f : JobRecord → JobRecord) (js : List JobRecord)
    → ((j : JobRecord) → IsSound last j → IsStep last j (f j))
    → All (IsSound last) js
    → Progress last js (map_jobs f js)
unfolding map_jobs
map_jobs-Progress f [] step v = v
map_jobs-Progress f (j ∷ js) step v = (step-Reached (step j v.0), map_jobs-Progress f js step v.1)

-- The job that a test finds first is the one that changes.
pub change_first-Progress :
    {last : ℕ} (p : JobRecord → Bool) (f : JobRecord → JobRecord) (js : List JobRecord)
    (j : JobRecord)
    → find p js ≡ some j
    → IsStep last j (f j)
    → All (IsSound last) js
    → Progress last js (change_first p f js)
unfolding change_first
change_first-Progress {last} p f [] j found step v = v
change_first-Progress {last} p f (k ∷ js) j found step v = elim (Bool-cases (p k)) [
  | inl b ↦
      let same : k ≡ j = ground arith in
      rw (b, change_first)
        (step-Reached (subst (λ x. IsStep last x (f x)) (sym same) step), Progress-refl last js v.1)
  | inr b ↦
      rw (b, change_first)
        (
          record { sound = v.0; same_policy = refl; moves = done },
          change_first-Progress p f js j (ground arith) step v.1,
        )
]

pub Evolves-WellFormed : (s t : CoordinatorStore) → Evolves s t → WellFormed t
Evolves-WellFormed s t v = Progress-IsSound t.next_fencing_token s.jobs t.jobs v.progress

pub Evolves-refl : (s : CoordinatorStore) → WellFormed s → Evolves s s
Evolves-refl s v = record {
  fencing = omega arith;
  progress = Progress-refl s.next_fencing_token s.jobs v;
}

pub Evolves-trans : (s t u : CoordinatorStore) → Evolves s t → Evolves t u → Evolves s u
Evolves-trans s t u v w = record {
  fencing = let one = v.fencing in let two = w.fencing in omega arith;
  progress =
      Progress-trans t.next_fencing_token u.next_fencing_token s.jobs t.jobs u.jobs v.progress
        w.progress;
}

pub recover_in_store-Evolves :
    (now : ℕ) (s : CoordinatorStore) → WellFormed s → Evolves s (recover_in_store now s)
unfolding recover_in_store
recover_in_store-Evolves now s v = record {
  fencing = omega arith;
  progress =
      map_jobs-Progress (recover_job now) s.jobs
        (λ j w. recover_job-IsStep s.next_fencing_token now j w) v;
}

-- A result, if there is one, has `P`.
pub data Post {ℓ κ} {A : Type ℓ} (P : A → Type κ) : Result A → Type (ℓ ⊔ κ) where
  fails : {error : CoordinatorError} → Post P (fail error)
  gives : {a : A} → P a → Post P (ok a)

-- Every result of an operation's body is reached from the store that it is given.
abbrev pub IsSafe {ℓ} : {A : Type ℓ} → (CoordinatorStore → Result (A × CoordinatorStore)) → Type ℓ
IsSafe f = (s : CoordinatorStore) → WellFormed s → Post (λ x. Evolves s x.1) (f s)

settle-Evolves {ℓ} :
    {A : Type ℓ} (s m : CoordinatorStore) (r : Result (A × CoordinatorStore))
    → WellFormed s
    → Evolves s m
    → Post (λ x. Evolves m x.1) r
    → Evolves s (settle s r).1
settle-Evolves s m (fail error) v w fails = Evolves-refl s v
settle-Evolves s m (ok (a, t)) v w (gives safe) = Evolves-trans s m t w safe

pub mutate-Evolves {ℓ} :
    {A : Type ℓ} (now : ℕ) (f : CoordinatorStore → Result (A × CoordinatorStore))
    (s : CoordinatorStore)
    → IsSafe f
    → WellFormed s
    → Evolves s (mutate now f s).1
unfolding mutate
mutate-Evolves now f s safe v =
    let w = recover_in_store-Evolves now s v in
    settle-Evolves s (recover_in_store now s) (f (recover_in_store now s)) v w
      (safe (recover_in_store now s) (Evolves-WellFormed s (recover_in_store now s) w))

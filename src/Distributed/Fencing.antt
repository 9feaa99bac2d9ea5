-- ===== src/Distributed/Fencing.antt =====
-- Fencing tokens, and the retry of a blocked job, of src/distributed/coordinator.ts.
use folder_forge.Base.{
  ℕ, suc, ◌<◌, String, ◌≡◌, ◌≢◌, refl, sym, ap, subst, ◌⊎◌, true, Option, none, some, List, [], ◌∷◌,
  arith, All, find, find_All, Bool-cases, Option-cases, inl, inr,
}
use folder_forge.Distributed.Store.{
  JobRecord, WorkerRecord, CoordinatorStore, Result, ok, fail, has_job_id, is_blocked,
  is_idempotent, recover_in_store, mutate, ◌>>=◌, or_fail,
}
use folder_forge.Distributed.Guards.{TokenClaims, Host, Limits, Clock, bound_ttl, find_job}
use folder_forge.Distributed.Leases.{
  retry_blocked, grant, lease_job, lease_in_store, hold_or_grant, grant_next, next_job, lease_view,
  held_by, new_lease,
}
use folder_forge.Distributed.Machine.{IsSound, fence}
use folder_forge.Distributed.Progress.{
  WellFormed, Post, fails, gives, Evolves-WellFormed, recover_in_store-Evolves,
}
use folder_forge.Distributed.Ownership.{IsAuthentic, authenticate-IsAuthentic, settle-Post}
use folder_forge.Distributed.LeaseSteps.{
  Result-cases, bind-Post, bind_known, require-Post, or_fail-Post,
}

module _ (h : Host) (l : Limits) (c : Clock) where
  retry_body :
      (id : String) (s : CoordinatorStore)
      → WellFormed s
      → (job : JobRecord) → find (has_job_id id) s.jobs ≡ some job
      → is_blocked job.state ≡ true
      → is_idempotent job.replay_policy ≡ true
      → ⊥
  retry_body id s v job found stopped again =
      let sound = find_All (IsSound s.next_fencing_token) (has_job_id id) s.jobs v found in
      let never = sound.no_blocked_replay in ground arith

  -- On a store whose jobs are in order, `retryBlocked` returns no job, whatever the id: it throws.
  pub retry_blocked-fails :
      (id : String) (s : CoordinatorStore) (job : JobRecord)
      → WellFormed s
      → (retry_blocked h l c id s).0 ≢ ok job
  unfolding retry_blocked mutate find_job
  retry_blocked-fails id s job v e = elim (Bool-cases (h.is_job_id id)) [
    | inr b ↦ absurd (ground arith)
    | inl b ↦
        let m = recover_in_store c.recovery s in
        let w = Evolves-WellFormed s m (recover_in_store-Evolves c.recovery s v) in
        settle-Post (λ y. ⊥) s _ job
          (or_fail-Post _ _ _ (λ found there. require-Post _ _ _ (λ stopped.
            require-Post _ _ _ (λ again. absurd (retry_body id m w found there stopped again)))))
          (rw (b, retry_blocked) at e)
  ]

  -- What the caller gets where its worker held this job, or none.
  unfoldable pub IsLeased :
      Option JobRecord → CoordinatorStore → Option (JobRecord × String) × CoordinatorStore → Type 0
  IsLeased held s (none, t) = (held ≡ none) × (t.next_fencing_token ≡ s.next_fencing_token)
  IsLeased held s (some view, t) =
      ((held ≡ some view.0) × (t.next_fencing_token ≡ s.next_fencing_token))
      ⊎ ((held ≡ none)
          × ((fence view.0.lease ≡ t.next_fencing_token)
              × All (λ j. fence j.lease < t.next_fencing_token) s.jobs))

  -- The caller's worker, and what it gets.
  unfoldable pub IsFenced :
      String → CoordinatorStore → Option (JobRecord × String) × CoordinatorStore → Type 0
  unfolding IsLeased
  IsFenced token s y =
      (who : WorkerRecord × TokenClaims) × (IsAuthentic h c.token token s who
        × IsLeased (held_by who.0.id s.jobs) s y)

  All-below :
      (last : ℕ) (jobs : List JobRecord)
      → All (IsSound last) jobs
      → All (λ j. fence j.lease < suc last) jobs
  All-below last [] v = tt
  All-below last (j ∷ jobs) v = let le = v.0.fenced in (omega arith, All-below last jobs v.1)

  lease_view_same :
      (job : JobRecord) (view : JobRecord × String) → lease_view h l job ≡ ok view → view.0 ≡ job
  unfolding lease_view ◌>>=◌ or_fail
  lease_view_same job view e = ground arith

  grant_next-IsLeased :
      (lease_id : String) (worker : WorkerRecord) (claims : TokenClaims) (now ttl : ℕ)
      (s m : CoordinatorStore)
      → WellFormed s
      → m.next_fencing_token ≡ s.next_fencing_token
      → Post (IsLeased none s) (grant_next h l lease_id worker claims now ttl m)
  unfolding grant_next IsLeased lease_view grant
  grant_next-IsLeased lease_id worker claims now ttl s m v same =
      elim (Option-cases (next_job worker.capabilities m.jobs)) [
        | inl e ↦ rw (e, grant_next) (gives (refl, same))
        | inr (x, e) ↦
            rw (e, grant_next)
              (bind-Post _ _ (λ view shown. gives (
                inr (
                  refl,
                  (
                    ap (λ j. fence j.lease)
                        (lease_view_same
                          (grant (new_lease h l lease_id worker claims now ttl m) x.1) view shown),
                    subst (λ n. All (λ j. fence j.lease < suc n) s.jobs) (sym same)
                        (All-below s.next_fencing_token s.jobs v),
                  ),
                ))))
      ]

  hold_or_grant-IsLeased :
      (held : Option JobRecord) (lease_id : String) (worker : WorkerRecord) (claims : TokenClaims)
      (now ttl : ℕ) (s m : CoordinatorStore)
      → WellFormed s
      → m.next_fencing_token ≡ s.next_fencing_token
      → Post (IsLeased held s) (hold_or_grant h l held lease_id worker claims now ttl m)
  unfolding hold_or_grant IsLeased
  hold_or_grant-IsLeased (some job) lease_id worker claims now ttl s m v same =
      bind-Post _ _
        (λ view shown. gives (inl (sym (ap some (lease_view_same job view shown)), same)))
  hold_or_grant-IsLeased none lease_id worker claims now ttl s m v same =
      grant_next-IsLeased lease_id worker claims now ttl s m v same

  IsLeased-IsFenced :
      (token : String) (s : CoordinatorStore) (who : WorkerRecord × TokenClaims)
      (r : Result (Option (JobRecord × String) × CoordinatorStore))
      → IsAuthentic h c.token token s who
      → Post (IsLeased (held_by who.0.id s.jobs) s) r
      → Post (IsFenced token s) r
  unfolding IsFenced
  IsLeased-IsFenced token s who (fail error) authentic leased = fails
  IsLeased-IsFenced token s who (ok y) authentic (gives leased) = gives (who, (authentic, leased))

  -- Where `leaseJob` returns on a store whose jobs are in order, and `s` is that store after the
  -- recovery of expired leases: the token is valid for an active worker, and one of three holds. No
  -- job is returned, the worker held none in `s`, and no fencing token is given out; or the returned
  -- job is the one that the worker held in `s`, and no token is given out; or the worker held none
  -- and the lease of the returned job has the store's new last fencing token, which is above the
  -- token of every lease of `s`.
  pub lease_job-IsFenced :
      (lease_id token : String) (ttl : ℕ) (s : CoordinatorStore)
      (result : Option (JobRecord × String))
      → WellFormed s
      → (lease_job h l c lease_id token ttl s).0 ≡ ok result
      → IsFenced token
          (recover_in_store c.recovery s)
          (result, (lease_job h l c lease_id token ttl s).1)
  unfolding lease_job mutate lease_in_store
  lease_job-IsFenced lease_id token ttl s result v e =
      elim (Result-cases (bound_ttl h ttl l.max_lease_ttl_ms)) [
        | inl (error, b) ↦ absurd (ground arith)
        | inr (t, b) ↦
            let m = recover_in_store c.recovery s in
            let w = Evolves-WellFormed s m (recover_in_store-Evolves c.recovery s v) in
            rw (b, lease_job)
              (settle-Post (IsFenced token m) s _ result
                (bind_known _ _ (authenticate-IsAuthentic h l c c.token token m) (λ who authentic.
                  IsLeased-IsFenced token m who _ authentic (
                    hold_or_grant-IsLeased (held_by who.0.id m.jobs) lease_id who.0 who.1
                      c.operation t m _ w refl)))
                (rw (b, lease_job) at e))
      ]

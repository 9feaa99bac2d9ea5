-- ===== src/Policy/Approvals/Spending/Restored.antt =====
-- Requests that are put into the map, and those that are put back as they were.
use folder_forge.Base.{
  String, ◌≡◌, refl, sym, subst, ◌⊎◌, inl, inr, not, is_some, Option-cases, Bool, false, ◌&&◌, some,
  List, arith, string_eq, lookup, insert, All, eq_iff, lookup-insert, beq_refl,
}
use folder_forge.Base.Keys.{Distinct, insert-Distinct, All-insert, insert-restore}
use folder_forge.Policy.Approvals.Spending.{IsKeyed}
use folder_forge.Policy.Approvals.{
  ApprovalRequest, ApprovalEngine, Outcome, returned, raised, is_approved, commit, append, put,
}

abbrev pub Requests : Type 0
Requests = List (String × ApprovalRequest)

-- The map after some requests with `P` were put in.
pub data Writes (P : ApprovalRequest → Type 0) (m : Requests) : Requests → Type 0 where
  unchanged : Writes P m m
  wrote : {n : Requests} (r : ApprovalRequest) → P r → Writes P m n → Writes P m (insert r.id r n)

-- Nobody can spend it: it is not approved, or it was consumed.
abbrev pub Unspendable : ApprovalRequest → Type 0
Unspendable r = (is_approved r.state && not (is_some r.consumed_at)) ≡ false

pub commit_cases {ℓ} :
    {A : Type ℓ} (disk : ApprovalRequest → Bool) (old new : ApprovalRequest) (a : A)
    (e : ApprovalEngine)
    → lookup old.id e.requests ≡ some old
    → new.id ≡ old.id
    → ((commit disk old new a e).1.requests ≡ e.requests)
      ⊎ ((commit disk old new a e).1.requests ≡ insert new.id new e.requests)
unfolding commit
commit_cases disk old new a e found same =
    let back : insert old.id old (insert new.id new e.requests) ≡ e.requests =
      subst (λ k. insert old.id old (insert k new e.requests) ≡ e.requests) (sym same)
        (insert-restore old.id old new e.requests found) in
    ground arith

append-requests :
    (disk : ApprovalRequest → Bool) (req : ApprovalRequest) (e e' : ApprovalEngine)
    → append disk req e ≡ some e'
    → e'.requests ≡ e.requests
unfolding append
append-requests disk req e e' h = ground arith

pub one_write :
    {P : ApprovalRequest → Type 0} (r : ApprovalRequest) (m n : Requests)
    → P r
    → (n ≡ m) ⊎ (n ≡ insert r.id r m)
    → Writes P m n
one_write {P} r m n h (inl same) = subst (Writes P m) (sym same) unchanged
one_write {P} r m n h (inr new) = subst (Writes P m) (sym new) (wrote r h unchanged)

-- Writes after writes.
pub both :
    {P : ApprovalRequest → Type 0} {m n o : Requests} → Writes P m n → Writes P n o → Writes P m o
both w unchanged = w
both w (wrote r h v) = wrote r h (both w v)

keyed_by-Writes :
    {P : ApprovalRequest → Type 0} {m n : List (String × ApprovalRequest)}
    → Writes P m n
    → All (λ b. b.0 ≡ b.1.id) m × Distinct m
    → All (λ b. b.0 ≡ b.1.id) n × Distinct n
keyed_by-Writes unchanged h = h
keyed_by-Writes (wrote {n} r p w) h =
    let (own, distinct) = keyed_by-Writes w h in
    (
      All-insert _ r.id r n (λ j same. (eq_iff j r.id).0 same) own,
      insert-Distinct r.id r n distinct,
    )

pub Writes-IsKeyed :
    {P : ApprovalRequest → Type 0} (e f : ApprovalEngine)
    → Writes P e.requests f.requests
    → IsKeyed e
    → IsKeyed f
Writes-IsKeyed e f w v =
    let (own, distinct) = keyed_by-Writes w (v.own, v.distinct) in
    record { own = own; distinct = distinct }

-- A returned request is in the map.
abbrev pub IsFound : Outcome ApprovalRequest → ApprovalEngine → Type 0
IsFound (returned req) e = lookup req.id e.requests ≡ some req
IsFound (raised x) e = Unit

pub commit-IsFound :
    (disk : ApprovalRequest → Bool) (old new : ApprovalRequest) (e : ApprovalEngine)
    → IsFound (commit disk old new new e).0 (commit disk old new new e).1
unfolding commit
commit-IsFound disk old new e = elim (Option-cases (append disk new (put new e))) [
  | inl full ↦ rw (full, commit) tt
  | inr (e', stored) ↦
      rw (stored, commit)
        (rw (append-requests disk new (put new e) e' stored)
          (unfold put in rw (lookup-insert new.id new.id new e.requests, beq_refl new.id) refl))
]

-- ===== src/Policy/Approvals/Spending.antt =====
-- A one-time approval is spent at most once, over any history of operations.
pub mod Restored
pub mod Writes
pub mod History
use folder_forge.Base.{
  ℕ, suc, ◌+◌, ◌≤◌, String, ◌≡◌, refl, sym, ap, ◌∙◌, ◌⊎◌, leb, Bool, true, false, not, ◌&&◌, Option,
  none, some, List, [], ◌∷◌, map, arith, ltb, if◌then◌else◌, ◌==◌, string_eq, eq_iff, lookup,
  insert, filter, count, All, Option-cases, Bool-cases, inl, inr, All-filter, subst,
}
use folder_forge.Base.Keys.{
  Distinct, insert-Distinct, Distinct-lookup, All-insert, count-insert-le, count-insert-taken,
}
use folder_forge.Json.{Value, Platform}
use folder_forge.Core.{ToolPrincipal, RiskLevel}
use folder_forge.Policy.Approvals.{
  ApprovalRequest, ApprovalEngine, Outcome, returned, raised, append, put, commit, requests_of,
  consume_once, earliest, is_spendable, create, new_request,
}
use folder_forge.Policy.Approvals.Evidence.{fingerprint}
use folder_forge.Policy.Approvals.Binding.{approval_binding, binding_key}
use folder_forge.Policy.Approvals.Resolve.{
  expire_if_needed, approve_request, approve, deny_request, deny, get, expire_all, pending_requests,
  all_requests,
}

-- Each request stands under its own id, and each id once.
pub record IsKeyed (e : ApprovalEngine) : Type 0 where
  pub own : All (λ b. b.0 ≡ b.1.id) e.requests
  pub distinct : Distinct e.requests

put-IsKeyed : (req : ApprovalRequest) (e : ApprovalEngine) → IsKeyed e → IsKeyed (put req e)
unfolding put
put-IsKeyed req e v = record {
  own = All-insert _ req.id req e.requests (λ j same. (eq_iff j req.id).0 same) v.own;
  distinct = insert-Distinct req.id req e.requests v.distinct;
}

-- The approvals that `consumeOnce` could spend for a requester, a tool and arguments.
abbrev pub spendable : Platform → String → String → String → ApprovalEngine → ℕ
spendable p key tool print e = count (is_spendable p key tool print) (requests_of e)

spendable-put-le :
    (p : Platform) (key tool print : String) (req : ApprovalRequest) (e : ApprovalEngine)
    → spendable p key tool print (put req e)
      ≤ spendable p key tool print e + (if is_spendable p key tool print req then 1 else 0)
unfolding put
spendable-put-le p key tool print req e =
    count-insert-le (is_spendable p key tool print) req.id req e.requests

earliest_cases :
    (r m : ApprovalRequest) (rs : List ApprovalRequest)
    → earliest (r ∷ rs) ≡ some m
    → (m ≡ r) ⊎ (earliest rs ≡ some m)
unfolding earliest
earliest_cases r m rs e = elim (Option-cases (earliest rs)) [
  | inl none_left ↦ inl (ground arith)
  | inr (k, found) ↦ elim (Bool-cases (leb r.created_at k.created_at)) [
    | inl first ↦ inl (ground arith)
    | inr later ↦ inr (ground arith)
  ]
]

-- What `earliest` picks has every property of the candidates.
earliest-All {ℓ} :
    (P : ApprovalRequest → Type ℓ) (rs : List ApprovalRequest) (m : ApprovalRequest)
    → All P rs
    → earliest rs ≡ some m
    → P m
earliest-All P [] m h e = unfold earliest in cc
earliest-All P (r ∷ rs) m h e = elim (earliest_cases r m rs e) [
  | inl same ↦ subst P (sym same) h.0
  | inr later ↦ earliest-All P rs m h.1 later
]

earliest-none : (rs : List ApprovalRequest) → earliest rs ≡ none → rs ≡ []
unfolding earliest
earliest-none [] e = refl
earliest-none (r ∷ rs) e = ground arith

filter_passes {ℓ} : {A : Type ℓ} (q : A → Bool) (xs : List A) → All (λ x. q x ≡ true) (filter q xs)
filter_passes q [] = tt
filter_passes q (x ∷ xs) = ground (arith, filter_passes q xs)

module _ {e : ApprovalEngine} (v : IsKeyed e) where
  found_under_own_id : All (λ r. lookup r.id e.requests ≡ some r) (requests_of e)
  found_under_own_id = go e.requests v.own (Distinct-lookup e.requests v.distinct)
    where
      go :
          (m : List (String × ApprovalRequest))
          → All (λ b. b.0 ≡ b.1.id) m
          → All (λ b. lookup b.0 e.requests ≡ some b.1) m
          → All (λ r. lookup r.id e.requests ≡ some r) (map (λ b. b.1) m)
      go [] own found = tt
      go (b ∷ m) own found =
          (subst (λ k. lookup k e.requests ≡ some b.1) own.0 found.0, go m own.1 found.1)

-- A request that its key finds has that key as its id.
pub found_own :
    (id : String) (req : ApprovalRequest) (e : ApprovalEngine)
    → IsKeyed e
    → lookup id e.requests ≡ some req
    → lookup req.id e.requests ≡ some req
unfolding lookup
found_own id req e v found = go e.requests v.own found
  where
    go :
        (m : List (String × ApprovalRequest))
        → All (λ b. b.0 ≡ b.1.id) m
        → lookup id m ≡ some req
        → lookup req.id e.requests ≡ some req
    go [] own there = cc
    go (b ∷ m) own there = elim (Bool-cases (b.0 == id)) [
      | inr other ↦ go m own.1 (rw other at there)
      | inl same ↦
          let this : b.1 ≡ req = ground arith in
          let key : id ≡ req.id = sym ((eq_iff b.0 id).0 same) ∙ own.0 ∙ ap (λ r. r.id) this in
          subst (λ k. lookup k e.requests ≡ some req) key found
    ]

-- What `consumeOnce` picks is in the map.
pub picked_found :
    (q : ApprovalRequest → Bool) (e : ApprovalEngine) (m : ApprovalRequest)
    → IsKeyed e
    → earliest (filter q (requests_of e)) ≡ some m
    → lookup m.id e.requests ≡ some m
picked_found q e m v found =
    earliest-All (λ r. lookup r.id e.requests ≡ some r) _ m
      (All-filter _ q (requests_of e) (found_under_own_id v)) found

module _ (p : Platform) (disk : ApprovalRequest → Bool) (now : ℕ) (tool : String) (args : Value)
    (who : ToolPrincipal) (e : ApprovalEngine) where
  abbrev wanted : ApprovalRequest → Bool
  wanted = is_spendable p (binding_key p (approval_binding who)) tool (fingerprint p args)

  -- `consumeOnce` has spent `m`, or found nothing, or thrown.
  consumed :
      (e' : ApprovalEngine)
      → consume_once p disk now tool args who e ≡ (returned true, e')
      → (m : ApprovalRequest) × (earliest (filter wanted (requests_of e)) ≡ some m)
        × (e'.requests ≡ insert m.id (record m { consumed_at = some now }) e.requests)
  unfolding consume_once
  consumed e' h = elim (Option-cases (earliest (filter wanted (requests_of e)))) [
    | inl nothing ↦ absurd (ground arith)
    | inr (m, found) ↦ (m, found, ground arith)
  ]

  consume_once_spends :
      (e' : ApprovalEngine)
      → IsKeyed e
      → consume_once p disk now tool args who e ≡ (returned true, e')
      → suc (count wanted (requests_of e')) ≡ count wanted (requests_of e)
  unfolding is_spendable
  consume_once_spends e' v h =
      let (m, found, stored) = consumed e' h in
      let passes : wanted m ≡ true =
        earliest-All (λ r. wanted r ≡ true) _ m (filter_passes wanted (requests_of e)) found in
      let own : lookup m.id e.requests ≡ some m = picked_found wanted e m v found in
      rw stored (
        count-insert-taken wanted m.id (record m { consumed_at = some now }) m e.requests own passes
          (ground arith))

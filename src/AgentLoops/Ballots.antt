-- ===== src/AgentLoops/Ballots.antt =====
-- The votes of a run of src/agent-loops/agent-loop-manager.ts: a new vote of an expert takes the
-- place of the one before.
use folder_forge.Base.{
  ℕ, ◌+◌, ◌≤◌, ◌≡◌, refl, ap, String, Bool, true, false, not, ◌&&◌, List, [], ◌∷◌, ◌++◌, All,
  All-filter, All-append, subst, filter, arith, ◌==◌, string_eq, nat_eq, count-append, Bool-cases,
  inl, inr,
}
use folder_forge.AgentLoops.{AgentLoopVote}
use folder_forge.AgentLoops.Invariant.{same_ballot, OneVote, votes_in}

module _ {T : Type 0} where
  -- The votes that `submitVote` keeps.
  abbrev pub others : ℕ → String → List (AgentLoopVote T) → List (AgentLoopVote T)
  others iteration expert votes =
      filter (λ v. not (v.iteration == iteration && v.expert_id == expert)) votes

  filter_passes :
      (p : AgentLoopVote T → Bool) (votes : List (AgentLoopVote T))
      → All (λ v. p v ≡ false) (filter (λ v. not (p v)) votes)
  filter_passes p [] = tt
  filter_passes p (v ∷ votes) = elim (Bool-cases (p v)) [
    | inl b ↦ rw b (filter_passes p votes)
    | inr b ↦ rw b (b, filter_passes p votes)
  ]

  filter_unchanged :
      (p : AgentLoopVote T → Bool) (votes : List (AgentLoopVote T))
      → All (λ v. p v ≡ false) votes
      → filter (λ v. not (p v)) votes ≡ votes
  filter_unchanged p [] h = refl
  filter_unchanged p (v ∷ votes) h = rw h.0 (ap (λ r. v ∷ r) (filter_unchanged p votes h.1))

  OneVote-filter :
      (p : AgentLoopVote T → Bool) (votes : List (AgentLoopVote T))
      → OneVote votes
      → OneVote (filter p votes)
  OneVote-filter p [] h = tt
  OneVote-filter p (v ∷ votes) h = elim (Bool-cases (p v)) [
    | inl b ↦ rw b (All-filter _ p votes h.0, OneVote-filter p votes h.1)
    | inr b ↦ rw b (OneVote-filter p votes h.1)
  ]

  same_ballot_sym :
      (v w : AgentLoopVote T)
      → same_ballot w.iteration w.expert_id v ≡ false
      → same_ballot v.iteration v.expert_id w ≡ false
  same_ballot_sym v w h = ground (
    arith,
    string_eq.equals_iff v.expert_id w.expert_id,
    string_eq.equals_iff w.expert_id v.expert_id,
  )

  OneVote-snoc :
      (votes : List (AgentLoopVote T)) (w : AgentLoopVote T)
      → OneVote votes
      → All (λ v. same_ballot w.iteration w.expert_id v ≡ false) votes
      → OneVote (votes ++ w ∷ [])
  OneVote-snoc [] w h new = (tt, tt)
  OneVote-snoc (v ∷ votes) w h new = (
    All-append _ votes (w ∷ []) h.0 (same_ballot_sym v w new.0, tt),
    OneVote-snoc votes w h.1 new.1,
  )

  pub vote-OneVote :
      (votes : List (AgentLoopVote T)) (w : AgentLoopVote T)
      → OneVote votes
      → OneVote (others w.iteration w.expert_id votes ++ w ∷ [])
  vote-OneVote votes w h =
      OneVote-snoc _ w (OneVote-filter _ votes h)
        (filter_passes (same_ballot w.iteration w.expert_id) votes)

  ballot_eq :
      (iteration : ℕ) (expert : String) (v : AgentLoopVote T)
      → same_ballot iteration expert v ≡ true
      → (v.iteration ≡ iteration) × (v.expert_id ≡ expert)
  ballot_eq iteration expert v b =
      (ground arith, (string_eq.equals_iff v.expert_id expert).0 (ground arith))

  alone :
      (iteration : ℕ) (expert : String) (v : AgentLoopVote T) (votes : List (AgentLoopVote T))
      → same_ballot iteration expert v ≡ true
      → All (λ w. same_ballot v.iteration v.expert_id w ≡ false) votes
      → All (λ w. same_ballot iteration expert w ≡ false) votes
  alone iteration expert v votes b h =
      let (same, who) = ballot_eq iteration expert v b in
      subst (λ i. All (λ w. same_ballot i expert w ≡ false) votes) same
        (subst (λ x. All (λ w. same_ballot v.iteration x w ≡ false) votes) who h)

  -- At most one vote is taken away.
  kept :
      (iteration : ℕ) (expert : String) (votes : List (AgentLoopVote T))
      → OneVote votes
      → votes_in iteration votes ≤ votes_in iteration (others iteration expert votes) + 1
  kept iteration expert [] h = omega arith
  kept iteration expert (v ∷ votes) h = elim (Bool-cases (same_ballot iteration expert v)) [
    | inl b ↦
        rw
          (
            b,
            filter_unchanged (same_ballot iteration expert) votes
                (alone iteration expert v votes b h.0),
          )
          (ground arith)
    | inr b ↦ rw b (ground (arith, kept iteration expert votes h.1))
  ]

  pub votes_in-vote :
      (votes : List (AgentLoopVote T)) (w : AgentLoopVote T)
      → OneVote votes
      → votes_in w.iteration votes
        ≤ votes_in w.iteration (others w.iteration w.expert_id votes ++ w ∷ [])
  votes_in-vote votes w h = ground (
    arith,
    kept w.iteration w.expert_id votes h,
    count-append (λ v. v.iteration == w.iteration) (others w.iteration w.expert_id votes) (w ∷ []),
  )

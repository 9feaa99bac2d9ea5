-- ===== src/AgentLoops/Council.antt =====
-- src/agent-loops/agent-loop-manager.ts: `submitProposal`, `submitVote` and `decide`.
use folder_forge.Base.{
  String, Bool, true, false, not, ◌&&◌, ◌||◌, Option, none, some, List, [], ◌∷◌, ◌++◌, filter, find,
  any, length, if◌then◌else◌, ltb, leb, ◌==◌, string_eq, nat_eq, get_or, map,
}
use folder_forge.Base.Results.{Result, ok, fail, ◌>>=◌, require, or_fail}
use folder_forge.Json.{num, bool, str, field, no_fields, ◌⧺◌}
use folder_forge.Core.{ToolPrincipal}
use folder_forge.AgentLoops.{
  AgentLoopPhase, council, AgentLoopExpert, AgentLoopProposal, AgentLoopVote, Ranking, AgentLoopRun,
  LoopHost, LoopError, not_proposing, unknown_expert, summary_required, not_voting,
  unknown_proposal, bad_score, no_proposals, no_quorum, no_consensus, is_running, is_discovery,
  is_council,
}
use folder_forge.AgentLoops.Files.{
  LoopClock, Runs, Change, changed, append_event, operate, clean_items, max_text, max_items,
}

pub record ProposalInput : Type 0 where
  pub expert_id : String
  pub phase : Option AgentLoopPhase
  pub summary : String
  pub plan : List String
  pub risks : List String
  pub evidence : List String

pub record VoteInput (T : Type 0) : Type 0 where
  pub expert_id : String
  pub proposal_id : String
  pub score : T
  pub approve : Bool
  pub rationale : String

-- `proposal.iteration === iteration`, `vote.iteration === iteration`
abbrev pub proposals_of : {T : Type 0} → AgentLoopRun T → List AgentLoopProposal
proposals_of run = filter (λ p. p.iteration == run.iteration) run.proposals

abbrev pub votes_of : {T : Type 0} → AgentLoopRun T → List (AgentLoopVote T)
votes_of run = filter (λ v. v.iteration == run.iteration) run.votes

module _ {T : Type 0} (h : LoopHost T) where
  abbrev zero_score : T
  zero_score = h.doubles.of_nat 0

  unfoldable pub weight_of : List (AgentLoopExpert T) → String → T
  weight_of experts id = elim (find (λ e. e.id == id) experts) [
    | none ↦ h.doubles.of_nat 1
    | some e ↦ e.weight
  ]

  -- The two sums over the votes of a proposal.
  unfoldable pub weighted_onto : List (AgentLoopExpert T) → T → List (AgentLoopVote T) → T
  unfolding weight_of
  weighted_onto experts total [] = total
  weighted_onto experts total (v ∷ votes) =
      weighted_onto experts
        (h.doubles.add total (h.doubles.mul v.score (weight_of experts v.expert_id))) votes

  unfoldable pub weights_onto : List (AgentLoopExpert T) → T → List (AgentLoopVote T) → T
  unfolding weight_of
  weights_onto experts total [] = total
  weights_onto experts total (v ∷ votes) =
      weights_onto experts (h.doubles.add total (weight_of experts v.expert_id)) votes

  unfoldable pub rank :
      List (AgentLoopExpert T) → List (AgentLoopVote T) → AgentLoopProposal → Ranking T
  unfolding weighted_onto weights_onto
  rank experts votes proposal =
      let cast = filter (λ v. v.proposal_id == proposal.id) votes in
      let weight = weights_onto experts zero_score cast in
      record {
        proposal_id = proposal.id;
        consensus =
            if h.doubles.truthy weight
            then h.doubles.div (weighted_onto experts zero_score cast) weight
            else zero_score;
        approval_rate =
            if ltb 0 (length cast)
            then h.doubles.div (h.doubles.of_nat (length (filter (λ v. v.approve) cast)))
                (h.doubles.of_nat (length cast))
            else zero_score;
        vote_count = length cast;
      }

  -- The comparison of the sort is below 0: `a` stands before `b`.
  unfoldable pub ranks_above : Ranking T → Ranking T → Bool
  ranks_above a b =
      if h.doubles.lt b.consensus a.consensus
      then true
      else if h.doubles.lt a.consensus b.consensus
      then false
      else if h.doubles.lt b.approval_rate a.approval_rate
      then true
      else if h.doubles.lt a.approval_rate b.approval_rate
      then false
      else ltb b.vote_count a.vote_count

  -- The sort is stable: `r`, which stood first, stays before its equals.
  unfoldable pub insert_ranking : Ranking T → List (Ranking T) → List (Ranking T)
  unfolding ranks_above
  insert_ranking r [] = r ∷ []
  insert_ranking r (s ∷ rest) =
      let later = insert_ranking r rest in if ranks_above s r then s ∷ later else r ∷ s ∷ rest

  unfoldable pub sort_rankings : List (Ranking T) → List (Ranking T)
  unfolding insert_ranking
  sort_rankings [] = []
  sort_rankings (r ∷ rest) = insert_ranking r (sort_rankings rest)

  unfoldable pub first_ranking : List (Ranking T) → Result LoopError (Ranking T)
  first_ranking [] = fail no_proposals
  first_ranking (r ∷ rest) = ok r

  module _ (c : LoopClock) where
    unfoldable pub add_proposal :
        String → ProposalInput → AgentLoopRun T → Result LoopError (Change h)
    unfolding append_event clean_items
    add_proposal id input run =
        let summary = h.trim input.summary in
        let made : AgentLoopExpert T → AgentLoopProposal = λ expert. record {
          id = id;
          iteration = run.iteration;
          expert_id = expert.id;
          phase = get_or input.phase run.phase;
          summary = h.slice max_text summary;
          plan = clean_items h input.plan max_items;
          risks = clean_items h input.risks max_items;
          evidence = clean_items h input.evidence max_items;
          created_at = c.operation;
        } in
        do
          open_phase ←
              require (is_running run.state && (is_discovery run.phase || is_council run.phase))
                not_proposing
          expert ← or_fail (find (λ e. e.id == input.expert_id) run.experts) unknown_expert
          stated ← require (not (summary == "")) summary_required
          ok (
              changed (
                append_event h c.event "proposal.submitted"
                  ("Proposal submitted by " ⧺ expert.id ⧺ ".")
                  (field "proposalId" (str id) (field "expertId" (str expert.id) no_fields))
                  (record run { proposals = run.proposals ++ made expert ∷ []; phase = council })))

    unfoldable pub submit_proposal :
        String
        → String
        → ProposalInput
        → ToolPrincipal
        → Runs h
        → Result LoopError (AgentLoopRun T × Runs h)
    unfolding operate add_proposal
    submit_proposal proposal_id id input principal =
        operate h c id principal (add_proposal proposal_id input)

    unfoldable pub new_vote : String → VoteInput T → AgentLoopRun T → AgentLoopVote T
    new_vote id input run = record {
      id = id;
      iteration = run.iteration;
      expert_id = input.expert_id;
      proposal_id = input.proposal_id;
      score = input.score;
      approve = input.approve;
      rationale = h.slice max_text (h.trim input.rationale);
      created_at = c.operation;
    }

    -- A vote of the expert in this iteration takes the place of the one before.
    unfoldable pub cast_vote : String → VoteInput T → AgentLoopRun T → Result LoopError (Change h)
    unfolding append_event new_vote
    cast_vote id input run =
        let others =
          filter (λ v. not (v.iteration == run.iteration && v.expert_id == input.expert_id))
            run.votes in
        do
          open_phase ← require (is_running run.state && is_council run.phase) not_voting
          known ← require (any (λ e. e.id == input.expert_id) run.experts) unknown_expert
          there ←
              require
                (any (λ p. p.id == input.proposal_id && p.iteration == run.iteration) run.proposals)
                unknown_proposal
          in_range ←
              require
                (h.doubles.is_finite input.score
                  && not (h.doubles.lt input.score zero_score)
                  && not (h.doubles.lt (h.doubles.of_nat 1) input.score))
                bad_score
          ok (
              changed (
                append_event h c.event "vote.submitted"
                  ("Vote submitted by " ⧺ input.expert_id ⧺ ".")
                  (field "expertId" (str input.expert_id) (
                    field "proposalId" (str input.proposal_id) (
                      field "score" (h.doubles.json input.score)
                        (field "approve" (bool input.approve) no_fields))))
                  (record run { votes = others ++ new_vote id input run ∷ [] })))

    unfoldable pub submit_vote :
        String
        → String
        → VoteInput T
        → ToolPrincipal
        → Runs h
        → Result LoopError (AgentLoopRun T × Runs h)
    unfolding operate cast_vote
    submit_vote vote_id id input principal = operate h c id principal (cast_vote vote_id input)

    unfoldable pub decide_run : AgentLoopRun T → Result LoopError (Change h)
    unfolding append_event rank sort_rankings first_ranking
    decide_run run =
        let ranked = sort_rankings (map (rank run.experts (votes_of run)) (proposals_of run)) in
        do
          open_phase ← require (is_running run.state && is_council run.phase) not_voting
          some_proposal ← require (ltb 0 (length (proposals_of run))) no_proposals
          quorum ← require (leb run.council_min_votes (length (votes_of run))) no_quorum
          winner ← first_ranking ranked
          agreed ←
              require
                (not (h.doubles.lt winner.consensus run.council_threshold)
                  && not (h.doubles.lt winner.approval_rate h.doubles.half))
                no_consensus
          ok (
              changed (
                append_event h c.event "council.decided"
                  ("Council selected proposal " ⧺ winner.proposal_id ⧺ ".")
                  (field "proposalId" (str winner.proposal_id) (
                    field "consensus" (h.doubles.json winner.consensus) (
                      field "approvalRate" (h.doubles.json winner.approval_rate)
                        (field "voteCount" (num (h.decimal winner.vote_count)) no_fields))))
                  (record run {
                    decision =
                        some
                          (record { winner = winner; decided_at = c.operation; ranked = ranked });
                    phase = AgentLoopPhase.implementation;
                  })))

    unfoldable pub decide :
        String → ToolPrincipal → Runs h → Result LoopError (AgentLoopRun T × Runs h)
    unfolding operate decide_run
    decide id principal = operate h c id principal decide_run

-- ===== src/AgentLoops/Calls.antt =====
-- The calls of src/agent-loops/agent-loop-manager.ts that write files, and a history of them.
use folder_forge.Base.{String, List, [], ◌∷◌, string_eq}
use folder_forge.Base.Results.{Result, ok, fail}
use folder_forge.Core.{ToolPrincipal}
use folder_forge.AgentLoops.{AgentLoopRun, LoopHost, LoopError}
use folder_forge.AgentLoops.Files.{LoopClock, Runs, Change, operate}
use folder_forge.AgentLoops.Creation.{LoopInput, create}
use folder_forge.AgentLoops.Lifecycle.{claim_run, start_run, pause_run, cancel_run, fail_runner}
use folder_forge.AgentLoops.Council.{ProposalInput, VoteInput, add_proposal, cast_vote, decide_run}
use folder_forge.AgentLoops.Delivery.{
  ImplementationInput, VerificationInput, report_run, verify_run,
}

-- An operation on one loop, with the ids that it makes.
pub data LoopCall (T : Type 0) : Type 0 where
  claim : (idempotency_key : String) → LoopCall T
  start : LoopCall T
  pause : (reason : String) → LoopCall T
  cancel : (reason : String) → LoopCall T
  runner_error : (message : String) → LoopCall T
  propose : (proposal_id : String) → ProposalInput → LoopCall T
  vote : (vote_id : String) → VoteInput T → LoopCall T
  decide : LoopCall T
  implement : ImplementationInput → LoopCall T
  verify : VerificationInput → LoopCall T

-- A request to the manager: a new loop under the id that is made for it, or an operation.
pub data Request (T : Type 0) : Type 0 where
  create_loop : (id root : String) → (tenths : T × T) → LoopInput T → Request T
  on_loop : (id : String) → LoopCall T → Request T

module _ {T : Type 0} (h : LoopHost T) where
  unfoldable pub body : LoopClock → LoopCall T → AgentLoopRun T → Result LoopError (Change h)
  body c (claim key) = claim_run h c key
  body c start = start_run h c
  body c (pause reason) = pause_run h c reason
  body c (cancel reason) = cancel_run h c reason
  body c (runner_error message) = fail_runner h c message
  body c (propose id input) = add_proposal h c id input
  body c (vote id input) = cast_vote h c id input
  body c decide = decide_run h c
  body c (implement input) = report_run h c input
  body c (verify input) = verify_run h c input

  -- What is on the disk after a call that returned or threw.
  unfoldable pub written : Runs h → Result LoopError (AgentLoopRun T × Runs h) → Runs h
  written runs (fail error) = runs
  written runs (ok (run, after)) = after

  unfoldable pub after : LoopClock × ToolPrincipal × Request T → Runs h → Runs h
  unfolding written operate body
  after (c, principal, create_loop id root tenths input) runs =
      written runs (create h c id root tenths input principal runs)
  after (c, principal, on_loop id call) runs =
      written runs (operate h c id principal (body c call) runs)

  unfoldable pub history : List (LoopClock × ToolPrincipal × Request T) → Runs h → Runs h
  unfolding after
  history [] runs = runs
  history (call ∷ calls) runs = history calls (after call runs)

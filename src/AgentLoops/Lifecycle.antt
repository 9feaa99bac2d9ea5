-- ===== src/AgentLoops/Lifecycle.antt =====
-- src/agent-loops/agent-loop-manager.ts: `claimRunInvocation`, `start`, `pause`, `cancel` and
-- `recordRunnerError`. The default reason of the code is an argument that its callers pass.
use folder_forge.Base.{
  String, Bool, true, false, not, ◌&&◌, ◌||◌, none, some, if◌then◌else◌, leb, ◌==◌, string_eq,
  get_or,
}
use folder_forge.Base.Results.{Result, ok, ◌>>=◌, require}
use folder_forge.Json.{str, field, no_fields, ◌⧺◌}
use folder_forge.Core.{ToolPrincipal}
use folder_forge.AgentLoops.{
  AgentLoopPhase, AgentLoopState, discovery, AgentLoopRun, LoopHost, LoopError, is_terminal_error,
  invalid_key, other_key, is_terminal,
}
use folder_forge.AgentLoops.Files.{
  LoopClock, Runs, Change, unchanged, changed, append_event, operate, or_text,
}

-- `phase === 'paused' ? 'discovery' : phase`
unfoldable pub resumed_phase : AgentLoopPhase → AgentLoopPhase
resumed_phase AgentLoopPhase.paused = discovery
resumed_phase phase = phase

abbrev is_paused : AgentLoopState → Bool
is_paused AgentLoopState.paused = true
is_paused _ = false

module _ {T : Type 0} (h : LoopHost T) (c : LoopClock) where
  unfoldable pub claim_run : String → AgentLoopRun T → Result LoopError (Change h)
  unfolding append_event
  claim_run idempotency_key run =
      let key = h.trim idempotency_key in
      let hash = h.key_hash key in
      let claimed =
        append_event h c.event "run.claimed" "Background run accepted idempotently."
          (field "keyHash" (str (h.slice 16 hash)) no_fields)
          (record run { run_invocation_key_hash = some hash }) in
      let fresh = get_or run.run_invocation_key_hash "" == "" in
      do
        valid ← require (not (key == "") && leb (h.text_length key) 256) invalid_key
        same ← require (fresh || get_or run.run_invocation_key_hash "" == hash) other_key
        open_run ← require (not fresh || not (is_terminal run.state)) is_terminal_error
        ok (if fresh then changed claimed else unchanged run)

  unfoldable pub claim_run_invocation :
      String → String → ToolPrincipal → Runs h → Result LoopError (AgentLoopRun T × Runs h)
  unfolding operate claim_run
  claim_run_invocation id idempotency_key principal =
      operate h c id principal (claim_run idempotency_key)

  unfoldable pub start_run : AgentLoopRun T → Result LoopError (Change h)
  unfolding append_event resumed_phase
  start_run run =
      let started = record run {
        state = AgentLoopState.running;
        phase = resumed_phase run.phase;
        pause_reason = none;
        started_at = some (get_or run.started_at c.operation);
      } in
      let kind = if is_paused run.state then "resumed" else "started" in
      let message = if is_paused run.state then "Agent loop resumed." else "Agent loop started." in
      do
        open_run ← require (not (is_terminal run.state)) is_terminal_error
        ok (changed (append_event h c.event kind message no_fields started))

  unfoldable pub start :
      String → ToolPrincipal → Runs h → Result LoopError (AgentLoopRun T × Runs h)
  unfolding operate start_run
  start id principal = operate h c id principal start_run

  unfoldable pub pause_run : String → AgentLoopRun T → Result LoopError (Change h)
  unfolding append_event
  pause_run reason run =
      let text = or_text (h.slice 2000 (h.trim reason)) "Paused by operator." in
      let stopped = record run {
        state = AgentLoopState.paused;
        phase = AgentLoopPhase.paused;
        pause_reason = some text;
      } in
      do
        open_run ← require (not (is_terminal run.state)) is_terminal_error
        ok (changed (append_event h c.event "paused" text no_fields stopped))

  unfoldable pub pause :
      String → ToolPrincipal → String → Runs h → Result LoopError (AgentLoopRun T × Runs h)
  unfolding operate pause_run
  pause id principal reason = operate h c id principal (pause_run reason)

  unfoldable pub cancel_run : String → AgentLoopRun T → Result LoopError (Change h)
  unfolding append_event
  cancel_run reason run =
      let text = or_text (h.slice 2000 (h.trim reason)) "Cancelled by operator." in
      let stopped = record run {
        state = AgentLoopState.cancelled;
        phase = AgentLoopPhase.cancelled;
        pause_reason = some text;
        completed_at = some c.operation;
      } in
      ok (
        if is_terminal run.state
        then unchanged run
        else changed (append_event h c.event "cancelled" text no_fields stopped))

  unfoldable pub cancel :
      String → ToolPrincipal → String → Runs h → Result LoopError (AgentLoopRun T × Runs h)
  unfolding operate cancel_run
  cancel id principal reason = operate h c id principal (cancel_run reason)

  unfoldable pub fail_runner : String → AgentLoopRun T → Result LoopError (Change h)
  unfolding append_event
  fail_runner error run =
      let message = or_text (h.slice 2000 (h.trim error)) "Unknown runner error." in
      let text = "Runner stopped safely: " ⧺ message in
      let stopped = record run {
        state = AgentLoopState.paused;
        phase = AgentLoopPhase.paused;
        pause_reason = some text;
      } in
      ok (
        if is_terminal run.state
        then unchanged run
        else changed (
            append_event h c.event "runner.error" text (field "error" (str message) no_fields)
              stopped))

  unfoldable pub record_runner_error :
      String → ToolPrincipal → String → Runs h → Result LoopError (AgentLoopRun T × Runs h)
  unfolding operate fail_runner
  record_runner_error id principal error = operate h c id principal (fail_runner error)

-- ===== src/Examples/Tasks.antt =====
-- Runs of the tasks of src/server/mcp-task-manager.ts.
use folder_forge.Base.{
  ℕ, zero, suc, String, List, [], ◌∷◌, ◌≡◌, refl, true, false, none, some, lookup, insert,
}
use folder_forge.Base.Results.{fail}
use folder_forge.Json.{bool, obj, str, field, no_fields, ◌⧺◌}
use folder_forge.Core.{ToolPrincipal, agent}
use folder_forge.Server.Tasks.{
  TaskRecord, TaskManager, TaskHost, Execution, cancelled, failure, task_not_found, mark, clamp,
  require_owned, cancel, get,
}
use folder_forge.Server.Tasks.Runs.{
  TaskInput, resolved, rejected, running_record, create_tool_task, settle, settle_record, restart,
}
use folder_forge.Server.Tasks.Listing.{IsFollowed, list_page-next}
use folder_forge.Server.Tasks.Cells.{IsSound}
use folder_forge.Server.Tasks.Calls.{
  start, next, creates, cancels, settles, empty, Reachable-IsSound,
}
use folder_forge.Server.Tasks.Ends.{Reachable-IsKept}
use folder_forge.Server.Tasks.Table.{IsKept}
use folder_forge.Server.Tasks.Revival.{IsListed, settle-IsListed}
use folder_forge.Examples.Audit.{platform}

abbrev host : TaskHost
host = record {
  platform = platform;
  stringify = λ v. some "text";
  parse = λ text. some (obj (field "ok" (bool true) no_fields));
  redact = λ text. text;
  text_of = λ v. "value";
  json_bytes = λ v. 10;
  null_error = "Cannot read properties of null";
  tool_info = λ tool. some (record { for_agent = true; output_schema = false });
}

abbrev ann : ToolPrincipal
ann = record {
  id = "ann";
  role = agent;
  roles = none;
  organization_id = none;
  team_ids = none;
  project_id = none;
  session_id = none;
  oauth_client_id = none;
  capsule_id = none;
  task_id = none;
}

abbrev input : TaskInput
input = record {
  principal = ann;
  tool = "build";
  args = str "all";
  ttl = none;
  poll_interval = some 20000;
  id = "t1";
  cleaned = 1;
  created = 1;
  started = 2;
}

abbrev started : TaskManager
started = (create_tool_task host input empty).0

abbrev running : TaskRecord
running = running_record host input (record { for_agent = true; output_schema = false })

abbrev stopped : TaskManager
stopped = (cancel 5 "t1" ann started).0

abbrev run : Execution
run = record { aborted = true; last_progress_write = 0 }

-- An hour later, when the task has expired and its tool still runs.
abbrev expired : TaskManager
expired = (get 4000000 "t1" ann started).0

Reachable-IsSound_example : IsSound started
Reachable-IsSound_example = Reachable-IsSound host started (next start (creates input refl))

Reachable-IsKept_example :
    IsKept "t1"
      (mark cancelled "Cancelled by caller" 5 (some (failure "Task cancelled by caller.")) running)
      (settle host 7 "t1" (resolved (bool true)) stopped)
unfolding create_tool_task cancel require_owned lookup insert
Reachable-IsKept_example =
    Reachable-IsKept host stopped (settle host 7 "t1" (resolved (bool true)) stopped) "t1"
      (mark cancelled "Cancelled by caller" 5 (some (failure "Task cancelled by caller.")) running)
      (next (next start (creates input refl)) (cancels 5 "t1" ann))
      (settles 7 "t1" (resolved (bool true))) (refl, refl) refl

settle-IsListed_example :
    (require_owned "t1" ann expired ≡ fail task_not_found)
    × IsListed "t1"
        (settle_record host 4000001 run (rejected "aborted") running)
        (restart 4000002 (settle host 4000001 "t1" (rejected "aborted") expired))
unfolding create_tool_task get lookup insert clamp
settle-IsListed_example =
    settle-IsListed host 4000001 4000002 "t1" (rejected "aborted") ann expired run running refl refl
      refl refl refl

-- As many tasks, whose ids are texts of different lengths.
abbrev queue : ℕ → String → List TaskRecord
queue zero id = []
queue (suc n) id =
    record running { task = record running.task { task_id = id } } ∷ queue n (id ⧺ "x")

list_page-next_example : IsFollowed (queue 1 "t") (queue 60 "tx")
list_page-next_example = list_page-next (queue 1 "t") (queue 60 "tx") refl

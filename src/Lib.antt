-- ===== src/Lib.antt =====
-- FolderForge lets an agent call tools on a developer's machine. Each call passes a policy layer that
-- allows it, denies it or holds it for a person's approval, and work can be handed to remote workers
-- under leases. Calls are recorded in a chain of audit records, and long ones run as tasks of the MCP
-- server. This library models the policy layer, the coordinator of remote jobs, the agent loops, the
-- audit chain and the tasks.
--
-- The parts, the files that model them, and how they interact:
--   Base: lists, texts, dictionaries and results, which all parts use.
--   Core: src/core/types.ts and the order of risks of src/policy/risk.ts.
--   Json: JSON values and their canonical text, which fingerprints and digests are taken of.
--   Policy/RateLimiter: `RateLimiter` of src/policy/rate-limiter.ts; `check` and `hit` are `evaluate`
--     without and with the recording of the call.
--   Policy/GlobMatch: src/policy/glob-match.ts. A pattern is compiled to nodes, which stand for the
--     pieces of the regular expression that the source builds, and the nodes are matched. Meaning has the
--     texts of the nodes, Covers those of a pattern.
--   Policy/AsCode: src/policy/policy-as-code.ts, the rule that decides a call; its patterns are those
--     of GlobMatch.
--   Policy/CommandPolicy: src/policy/command-policy.ts, `classify` and its patterns.
--   Policy/Approvals: `ApprovalEngine` of src/policy/approvals.ts, in child modules Evidence and Binding
--     (what a request records), Resolve (approve, deny, get and the lists), Errors, Grants and Spending.
--   Policy/Engine: `PolicyEngine` of src/policy/policy-engine.ts: `evaluate` takes the answers of
--     CommandPolicy, AsCode and Approvals; Engine/Explain is its dry run `explain`.
--   Distributed: `DistributedCoordinator` of src/distributed/coordinator.ts. Store has the records and
--     `mutate`, Guards the checks, Leases, Workers, Submission and Completion the operations, Views what
--     only reads. Machine is the state machine of a job, Calls the calls and a history of them.
--   AgentLoops: `AgentLoopManager` of src/agent-loops/agent-loop-manager.ts and the loop of
--     `AgentLoopRunner` of src/agent-loops/agent-loop-runner.ts. Files has the directory of loops, `get`
--     and `save`; Creation, Lifecycle, Council and Delivery the operations; Calls a history of them;
--     Reports what the runner reads off the results of tools, Runner its rounds.
--   Evidence/Ports, Evidence/AuditChain: src/evidence/ports.ts and audit-chain.ts, records that are chained
--     by hashes. Intact has what an intact chain is, Verdict the loop that checks it, Growth and Tamper how
--     a chain is extended and changed.
--   Evidence/FileAuditStore: `FileAuditStore` of src/evidence/file-audit-store.ts over AuditChain.
--     Tail has what a sound store is; Append, Repair and Damage have the operations on it.
--   Server/Tasks: `McpTaskManager` of src/server/mcp-task-manager.ts; Runs has `createToolTask`, `execute`
--     and `load`, Listing the pages of `list`. Cells is what holds of a task, Settling and Starts that the
--     operations keep it, Calls the steps in any order; Table, Ends and Revival follow a task that is over,
--     and one that expires.
--   Examples: concrete runs.
--
-- State: an object with fields is a record that an operation takes and returns. A `Map` is an
-- association list; an object that the source changes in place is put under its key or place again, and
-- what a `catch` of Approvals restores is put back as it was. A `throw` is a value: of `Outcome` in
-- Approvals, `Ruling` in Engine, `Result` in Distributed, AgentLoops and Server, and `none` in
-- FileAuditStore and where a pattern is no regular expression. Times are natural numbers, and each
-- reading of the clock is an argument; so are random ids, and whether the store of approvals takes a
-- write. The strings that patterns and commands are matched on are lists of UTF-16 code units. A limit
-- of an agent loop that was created with NaN, stored as null, is 0.
--
-- Functions are by recursion on a list, on a pattern or on a JSON value, but for the rounds of the agent
-- loops' runner, which are counted; Termination bounds them. The text of an event is cut in rounds of 64
-- characters, so as many rounds as characters are enough. Scores and weights are of a type of doubles,
-- whose operations are a parameter.
--
-- The expressions that GlobMatch builds have here the meaning that ECMAScript gives them.
--
-- Not modelled: the files and locks behind the stores, cryptography, `RegExp`, `localeCompare` and
-- `node:path`, which are fields of the records Platform, CommandHost, Host, Signer, LoopHost, RunnerHost,
-- TaskHost and AuditHost; the parts of a write and the writer lock of the audit store; the loading of
-- stored approvals and the parsing of rule files; the tables of tools and the parts of the program that
-- are mainly I/O or user interface (servers, dashboards, adapters, managers of processes and files).
pub mod Base
pub mod Core
pub mod Json
pub mod Policy
pub mod Evidence
pub mod Server
pub mod AgentLoops
pub mod Distributed
pub mod Examples

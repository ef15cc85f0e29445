-- ===== src/Lib.antt =====
-- Loom, a harness that runs coding agents on an issue until a patch is verified and merged, or refused:
-- a model of its core and the theorems about it. All paths are from the repository's root.
--
-- The parts, and the files that model them:
-- Orchestrator (loom/orchestrator/task_graph.py). `TaskGraph.run` takes a run through six nodes. Merge is
-- `compute_merge_decision`; Graph holds the graph's state, its control operations and
-- `is_approval_required`, Graph/Sequence `get_sequence`; Retry is `_execute_node_with_retry`, Retry/Backoff
-- `_compute_backoff`; Run is the loop, Run/Guards the tests behind a node, Run/Finish the final status.
-- Runtime: Budget is `RunBudget.check_limits` (loom/runtime/budget.py), which the loop calls before each
-- node; Worker is what `RunWorker.run_forever` does when the execution of a job ends
-- (loom/runtime/worker.py) with the classes of loom/runtime/failure_policy.py; JobQueue is
-- loom/runtime/job_queue.py over the lease commands of Redis, an interface with their documented laws.
-- Verification: Decision is `compute_confidence` and `evaluate_decision` of loom/verification/runner.py,
-- whose answer the merge decision takes over; Pipeline is the rest of that file: builds, tests, the
-- reproduction and the scan of the diff, over a sandbox; Evidence is the evidence bundler of
-- loom/verification/bundle.py, with the hashes of an entry and the check of the chain in Evidence/Chain.
-- Auth: Context is loom/auth/context.py, ApiTokens the JSONL registry of loom/auth/api_tokens.py, which sets
-- the identity that Context keeps.
-- Business: Models holds the plans, tables and records of loom/business/models.py; Rbac, Entitlements,
-- UsageLedger, Billing and Rollup are the modules of loom/business of the same names. The ledger takes the events
-- that the orchestrator meters, billing turns its entries into credits and invoices.
-- Api: RunAccess is `require_run_access` (loom/api/run_authorization.py), over Rbac, Entitlements and
-- Context; RateLimiter is the in-memory window of `RedisRateLimiter` (loom/infra/distributed.py); Webhooks is
-- loom/api/webhooks.py, with its subscriptions, deliveries and dead letters.
-- Business also has PathPolicy, the commit gateway of loom/business/path_policy.py, and PostMerge, the reversal
-- of a patch and the rollback after a merge of loom/business/post_merge.py, which writes to the audit log and
-- dispatches a webhook.
-- Runtime/ProductionQueue is `_production_create_run` of loom/runtime/production_queue.py: the guards of the
-- entitlements and the quota before a record and a job.
-- Adapters: Router is loom/adapters/router.py, the choice of a model and, in Router/Consensus, the agreement
-- of several patches.
-- Context: Budget is `assemble_context` of loom/context/budget.py, the tokens of a prompt.
-- Telemetry: CostTracker is loom/telemetry/cost_tracker.py.
-- Sandbox: Tiers is the tier selection and Egress the egress enforcer of loom/sandbox/tiers.py; CommandPolicy
-- is loom/sandbox/command_policy.py.
-- Provisioning: Scim is loom/scim/provisioning.py: users and their deprovisioning, which reaches the registry
-- of tokens, the memberships and the audit log (Business/AuditLog, loom/business/audit_log.py); Scim/Groups,
-- Scim/Tasks and Scim/Files are its groups, tasks and files.
-- Base holds what the parts share: numbers and their tests, lists, and Python's dict.
--
-- How the code is modelled. Mutable objects are records that the operations take and return; an exception is
-- a value of the result. Identifiers, hashes and clock readings are numbers; money is counted in millionths
-- of a dollar and scores in whole parts, so that what the code does in floating point is exact here. Agents,
-- callbacks, clocks, hashes and the record store are arguments. Other coroutines act on a graph only while
-- it awaits, and are lists of commands for each await.
--
-- Bounds and fuel. The loop over the nodes and the attempts of a node are structural, as in the code. The
-- wait of a paused graph ends with the commands that are to come, and the run is then suspended. The drain
-- of the job queue takes fuel; the attempts that the jobs have left are enough.
--
-- Not modelled: agents and prompts, sandboxes and processes, HTTP routes, PostgreSQL, the rest of Redis, traces,
-- memory and repository indexing, the command line and the web front end. The hash functions are arguments.
pub mod Base
pub mod Auth
pub mod Business
pub mod Orchestrator
pub mod Runtime
pub mod Api
pub mod Sandbox
pub mod Verification
pub mod Context
pub mod Telemetry
pub mod Provisioning
pub mod Adapters

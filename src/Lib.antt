-- ===== src/Lib.antt =====
-- The engine of mirror-memory: how a user's beliefs are resolved, published, cooled and compacted, who
-- may use them, and how deletions are logged, replayed and sent to other devices.
--
-- The program keeps beliefs about a user, each with its evidence. A candidate from extraction is
-- resolved against the beliefs (src/mirror_memory/memory/identity.py) into an action; the action,
-- like each decision of the background planner (src/mirror_memory/metabolism/planner.py), becomes a
-- proposal, and the Publisher (src/mirror_memory/core/publisher.py) checks it against the live rows
-- and commits it through the repository (src/mirror_memory/core/repository.py), or refuses it.
--
-- Memory, the pure resolver, each file after the source of the same name in src/mirror_memory/memory:
--   Memory/Temporal: TemporalWindow, compare_windows, lifecycle_transition. An instant is the number
--     of microseconds of its UTC time; `none` is an open bound.
--   Memory/Relation: judge_relation, with the candidate (atom.py) and the dict of a belief as records.
--   Memory/Lifecycle: LifecyclePolicy.decide and its branches, to_action.
--   Memory/Polarity: infer_polarity, infer_lifecycle, the phrasing tests and their markers.
--   Memory/Resolution: the record Resolution of atom.py, of whose `detail` it has the entries
--     close_belief_ids and revival, and none of the texts for a reader; the helpers of identity.py.
--   Memory/Identity: resolve_identity, one definition for each branch.
-- Metabolism, after src/mirror_memory/metabolism: Tiers (tiers.py), Retention (policy.py), Protection
--   (protection.py), Heat (heat.py), Eligibility (eligibility.py), Compact and Compact/Digest
--   (compact.py), Planner (decide_tier of planner.py; its parameters are the records TierRules and
--   Signals). A tier is one of the four names or any other text; a KeyError is `none`.
-- Core: Rows (models.py), Proposal (proposal.py), Store (the tables of one database, with the reads by
--   key of the ORM), Repository (five groups of functions of repository.py) and Publisher: Gates
--   (_check_gates and the invariants), Commit (_commit and the handlers), Publish (publish with its
--   savepoint). A commit is an Outcome: done, a lost compare-and-swap, or an exception, each with the
--   store that it has come to, and the savepoint takes the store back in the last two.
-- Cycle: run_metabolism of planner.py: the scan, the planning loop with its cap, the Publisher's
--   answers and the report.
-- Access: the use of memory by purpose, after src/mirror_memory/core. Access (the rows of models.py),
--   Access/Authorize (authorize), Access/Grants (grant_purpose) and Access/Revocation (revoke_purpose,
--   record_purpose_invocation) after authorization.py; Access/Visibility after provenance.py, with
--   _visibility_sql_predicate and _digest_text_visible of repository.py. A call that changes a grant has the row that
--   it has read as an argument and writes to the tables as they are then, so that the sequences of
--   Access/History stand for every interleaving of sessions. Its other files are about these.
-- Deletion: the deletion log, after src/mirror_memory/core. Deletion (DeletionEntry and its payload),
--   Deletion/Log (FileDeletionLog, verify_chain) and Deletion/Config (deletion_log_from_config) after
--   deletion.py, a file being the list of its entries; Deletion/Replay (reconcile, apply_entry) after
--   replay.py, the tables being one list of rows, which the ambient tenant narrows; Deletion/Tombstones (from_deletion_entry,
--   export_from_log, validate_batch) and Deletion/Transport (the dict forms) after tombstones.py;
--   Deletion/Receive after apply_tombstones of api.py, over the deletion path of a device. Its other
--   files are about these. A restore that takes
--   the database back is a replay from an older watermark.
-- Worker: the job queue and its worker, after src/mirror_memory/worker. Worker (EvolutionJob of
--   core/models.py), Worker/Enqueue (enqueue_job), Worker/Lease (_claim_job, _renew_lease, the second
--   and effective _set_job_state, _block_job, the sweep and the scan), Worker/Process
--   (_process_single_job), Worker/Tick (process_pending, _claim_and_process, the backoff) and
--   Worker/Validate (_validate, _compile_policy) after evolution.py; Worker/Snapshot after snapshot.py.
--   The queue holds the jobs of all tenants, and the constraints of its table are part of the writes.
--   Worker/Steps has the enqueues, claims, renewals, changes of a job's state, sweeps and forgets that
--   sessions commit to it, in any order, and not the deletion of rows. Its other files are about these.
-- Prelude: lists, texts, sorting, and floats. Examples: runs on small inputs.
--
-- Parameters. Floating-point numbers and `math` are the record FloatOps (FloatLaws where a statement
-- needs what IEEE comparison promises); `str.lower` and `str.casefold` are functions, since their
-- tables are Unicode's; `datetime.fromisoformat` is `parse_iso`; the clock and the sequence of new
-- proposal ids are arguments. The Publisher's handlers for CREATE, SUPPORT, UPDATE, CONTRADICT,
-- CORRECT and FORGET, the snapshot writer and the ledger's append are the record Handlers, of which
-- nothing is assumed: what is said of a committed proposal's effects is said of the transitions whose
-- handlers are modelled.
--
-- SHA-256 of a canonical JSON text is a function of the payload, and so is the fingerprint of a row; no
-- statement needs that they do not collide. `datetime.isoformat`, `datetime.fromisoformat` and what
-- `int` reads from a text are functions too. The ambient tenant, the system scope and whether the
-- replay lock is held are arguments. In the worker, what the nodes between its two transactions give
-- (the language model's answer, validated and compiled) and what other sessions commit meanwhile are
-- arguments, and so is whether SQLite's lock is free before the deadline of the retries; the JSON text
-- of a watermark is a function.
--
-- Bounds. Identifiers and counters are natural numbers: Python's integers have no width, and the
-- columns hold no negative ones. Every loop is a recursion on the list that it runs over, without
-- fuel, but for the digits of a number in Prelude/Text, whose fuel is one more than the number: a number
-- has no more digits than that.
--
-- Instants are aware ones: a naive datetime as the clock of a cycle raises TypeError, which the model
-- does not have. The application's filter by tenant is on in a replay; the mode in which the
-- database filters instead, by row-level security, and the one for measurements are left out.
--
-- Not modelled: the claim handlers themselves; the deletion of queue rows; the deletions that write
-- the log, of which apply_tombstones takes the path of one scope as an argument (api.py); the log's
-- PostgreSQL backend, which is SQL; the context variables, guards and locks of tenancy.py; the
-- prompts, the evidence page and the asynchronous loop of the worker; extraction, rendering,
-- configuration, the schema migrations, the server and the benchmarks.
pub mod Prelude
pub mod Metabolism
pub mod Memory
pub mod Core
pub mod Cycle
pub mod Access
pub mod Deletion
pub mod Worker
mod Examples

-- ===== src/Lib.antt =====
-- DployDB: a verification library of the deployment tool in dploydb/.
--
-- The program deploys one release of an application that owns one SQLite database: it validates a
-- candidate on a copy, stops the running application, makes a final backup, migrates the production
-- database, starts and checks the new application, and switches traffic by hooks. Each stage is
-- durable before the next begins. A failure before the switch is rolled back, with a restore of the
-- final backup; after the switch the database is never restored automatically. A later run
-- recovers an interrupted deployment by a plan made from the durable and live evidence.
--
-- How the parts are modelled:
--   * Errors: dploydb/errors.py, the classes, exit codes and payloads of expected failures.
--   * Command: the results of commands (dploydb/subprocesses.py) and hooks (dploydb/traffic.py).
--   * Models: the records and validators of dploydb/models.py. A validator is the list of its tests,
--     in its order; the first that is violated is what pydantic raises.
--   * Raised: the exceptions that the coordinators distinguish.
--   * World: the durable files, the coordinator's `_Context`, and the journal of calls. The outside
--     (disk, clock, commands, containers, hooks, backups) is an `Environment`, with one function for
--     each call, of the journal so far: it may answer in any way, fail at any point, and answer
--     differently each time.
--   * Exec: Python code as a function of the world that returns or raises; what was done before a
--     raise stays done. Its children have the rules of Hoare triples and of invariants.
--   * Releases and Operations: `ReleaseStore` (dploydb/releases.py) and `StateStore`
--     (dploydb/state.py). A transition reads, computes, writes and reads again, as the code does.
--   * Calls, Cutover, Candidate: the boundary calls, dploydb/cutover.py and the stage of
--     dploydb/candidate.py that a deployment runs.
--   * Deploy: dploydb/deploy.py. `deploy_configured_release` is in Deploy/Release, `_run_deployment`
--     in Deploy/Coordinator, its steps, endings and rollback in Deploy/Steps, Deploy/Finish and
--     Deploy/Rollback. Deploy/Calm proves which calls can end a property of the journal.
--   * Recovery: dploydb/recovery.py. Recovery.antt has the plan, Recovery/Diagnose the reading of the
--     evidence, Recovery/Ownership the taking over of unfinished operations, Recovery/Execute the
--     actions and Recovery/Recover `recover_configured_deployment`.
--   * ManualRestore: dploydb/manual_restore.py; ManualRestore/Run has `restore_configured_release`.
--   * Retention: dploydb/retention.py.
--   * Locking: dploydb/locking.py, over a kernel lock and an owner file that all instances share.
--     Locking/Exclusion has the step relation: any calls of any instances, and ends of processes.
--   * Capture and Runner: the bounded capture and `SubprocessRunner` of dploydb/subprocesses.py, over
--     what each look at the child process gives.
--   * Health: dploydb/health.py, with the same capture for bodies.
--   * Tests: concrete runs, two of them of whole deployments.
--
-- The loops of the code run over finite lists, but for three that wait, on fuel of one turn more than
-- their timeout has clock ticks. In Health every turn that goes on sleeps, since the retry interval
-- is positive; in Runner every look is supposed to take a tick, since a cleanup may have nothing to
-- sleep for.
--
-- Identities, digests and times are numbers. Texts that are formatted into messages are left out, and
-- so is evidence that no code reads back. Byte limits, permissions, links and leftover files are
-- failures that the environment may answer with.
--
-- Not modelled: what is I/O (dploydb/backup.py, dploydb/restore.py, dploydb/storage/,
-- dploydb/runners/, the rehearsal of dploydb/migration.py, the candidate runtime of
-- dploydb/candidate.py), configuration, diagnostics and the command line.
pub mod Base
pub mod Errors
pub mod Command
pub mod Models
pub mod Raised
pub mod Releases
pub mod Recovery
pub mod World
pub mod Exec
pub mod Operations
pub mod Calls
pub mod Cutover
pub mod Candidate
pub mod Deploy
pub mod Retention
pub mod Sorting
pub mod Capture
pub mod Health
pub mod Locking
pub mod ManualRestore
pub mod Runner
pub mod Tests

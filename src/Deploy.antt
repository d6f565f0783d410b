-- ===== src/Deploy.antt =====
-- dploydb/deploy.py: the deployment coordinator, `_run_deployment` and
-- `deploy_configured_release`. Its boundary protocols are the calls of Calls.antt, the cut-over
-- database is that of Cutover.antt, and the candidate stage that of Candidate.antt.
pub mod Report
pub mod Steps
pub mod Finish
pub mod Rollback
pub mod Coordinator
pub mod Calm
pub mod Journal
pub mod RestoreSafety
pub mod Results
pub mod Release
pub mod ReleaseSafety
pub mod WriteAhead

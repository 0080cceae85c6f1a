-- ===== src/Scheduler.antt =====
-- backend/app/scheduler.py and backend/app/ingestion/coordination.py: the locks, the run requests
-- and the runs.
pub mod Requests
pub mod Bootstrap
pub mod Runs
mod Examples

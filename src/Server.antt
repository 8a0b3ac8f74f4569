-- ===== src/Server.antt =====
-- apps/cronpilot-api and apps/cronpilot-worker: the services behind the client.
pub mod Store
pub mod Answer
pub mod Jobs
pub mod AdminJobs
pub mod Executor
pub mod Scheduler
pub mod Query
pub mod Executions
pub mod Reports
pub mod Users
pub mod Middleware
pub mod Routes

-- ===== src/Pages.antt =====
-- apps/cronpilot-frontend/src/pages/.
pub mod JobDetail
pub mod Jobs
pub mod NewJob
pub mod EditJob
pub mod Credentials
pub mod Login
pub mod Register
pub mod Profile
pub mod AdminUsers
pub mod AdminJobs
pub mod Dashboard
pub mod Report
pub mod Submissions
pub mod Invalidation

-- ===== src/Components.antt =====
-- apps/cronpilot-frontend/src/components/.
pub mod StatusBadge
pub mod JobCard
pub mod ExecutionTable
pub mod JobForm
pub mod Header
pub mod Sidebar
pub mod Layout

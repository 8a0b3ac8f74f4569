-- ===== src/Tests.antt =====
-- Uses of the theorems at concrete inputs, and runs of the code.
mod Models
mod Sessions
mod Forms
mod Lists
mod Phrases
mod Services
mod Executions
mod Runs
mod Queries
mod Exports
mod Routing
mod Webhooks
mod Timetables
mod Accounts

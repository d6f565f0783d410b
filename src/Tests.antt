-- ===== src/Tests.antt =====
-- Concrete runs of the model: the data, and for each property with conditions a place where they
-- hold.
pub mod Data
pub mod Stores
pub mod Logs
pub mod Recoveries
pub mod Recovering
pub mod Backups
pub mod Cutovers
pub mod Histories
pub mod Deployments
pub mod Checks
pub mod Restores

-- ===== src/Controller.antt =====
-- service/controller: the node controller.
pub mod Stream
pub mod Builder
pub mod Diff
pub mod Core
pub mod Replace
pub mod Transaction
pub mod Traffic
pub mod Refund
pub mod Sync
pub mod Refresh
pub mod Resolved
pub mod Forced
pub mod Monitor
pub mod Ticks
pub mod Reports
pub mod Start
pub mod Started
pub mod Changed
pub mod Tests

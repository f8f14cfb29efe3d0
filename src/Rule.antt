-- ===== src/Rule.antt =====
-- common/rule: the audit rules of each inbound, and the refusals they caused.
pub mod Manager
pub mod Detection
pub mod Hits
pub mod Update
pub mod Ledger
pub mod Tests

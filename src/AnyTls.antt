-- ===== src/AnyTls.antt =====
-- proxy/anytls: the AnyTLS inbound.
pub mod Fallback
pub mod Blocked
pub mod Service
pub mod Revoke
pub mod Sessions
pub mod Hello
pub mod Server
pub mod Relay
pub mod Streams
pub mod Setup
pub mod Probe
pub mod Judged
pub mod Tests
pub mod Runs

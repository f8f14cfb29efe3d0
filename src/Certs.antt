-- ===== src/Certs.antt =====
-- common/legocmd/lego.go: certificates from an ACME client. The client itself is an argument.
pub mod Keys
pub mod System
pub mod Environment
pub mod Issue
pub mod Restore
pub mod Guard
pub mod Leak
pub mod Obtained
pub mod Overlap
pub mod Served
pub mod Tests

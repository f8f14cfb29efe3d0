-- ===== src/Limiter.antt =====
-- common/limiter: the devices and the rate of each user of each inbound.
pub mod Online
pub mod Slots
pub mod Rate
pub mod Registry
pub mod Admission
pub mod Prune
pub mod Race
pub mod Panics
pub mod Users
pub mod Tracked
pub mod Connections
pub mod Devices
pub mod Throttle
pub mod Tests

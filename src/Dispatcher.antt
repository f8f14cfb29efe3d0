-- ===== src/Dispatcher.antt =====
-- app/mydispatcher: the dispatcher, which every connection passes.
pub mod Presence
pub mod Link
pub mod Refine
pub mod Sound
pub mod Unhooked
pub mod Route
pub mod Cache
pub mod Sniff
pub mod First
pub mod Sniffer
pub mod FakeDns
pub mod Override
pub mod Dispatch
pub mod Obeys
pub mod Meter
pub mod Tests

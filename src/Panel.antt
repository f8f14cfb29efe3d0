-- ===== src/Panel.antt =====
-- api/v2board and common/regexutil: the client of the panel.
pub mod Json
pub mod Redact
pub mod Client
pub mod Kick
pub mod Illegal
pub mod Report
pub mod Push
pub mod Node
pub mod Users
pub mod Rules
pub mod Fetch
pub mod Url
pub mod Limits
pub mod Patterns
pub mod Tests

-- ===== src/Runner.antt =====
-- The process: panel/panel.go, panel/config.go, panel/defaultConfig.go, main/main.go and main/tools.
pub mod Config
pub mod Core
pub mod Panel
pub mod Watch
pub mod Tools
pub mod Reload
pub mod Stale
pub mod Tests

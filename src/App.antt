-- ===== src/App.antt =====
-- The package `app`.
pub mod XShell
pub mod VSock
pub mod Cygwin
pub mod Wsl
pub mod AppId
pub mod Clicks
pub mod Serving

-- ===== src/Tests.antt =====
-- Runs on concrete inputs.
mod Proxy
mod Policy
mod Launch
mod Settings
mod Startup
mod Session

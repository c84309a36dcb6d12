-- ===== src/Http.antt =====
-- internal/httpapi.
pub mod Validate
pub mod Proxies
pub mod Middleware
pub mod Redact
pub mod Accounts
pub mod Errors
pub mod Upload
pub mod Settings
pub mod Config
pub mod Processes
pub mod Runtime
pub mod Examples

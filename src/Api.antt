-- ===== src/Api.antt =====
-- internal/api: the management API.
pub mod Blocklist
pub mod Response
pub mod Domain
pub mod Handlers
pub mod ScanConfig
pub mod Pagination

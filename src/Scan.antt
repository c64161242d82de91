-- ===== src/Scan.antt =====
-- internal/scan: the malware scanning layer.
pub mod Status
pub mod Config
pub mod Filename
pub mod Cache
pub mod Clamd
pub mod Job
pub mod Trickle
pub mod Manager
pub mod Endpoint
pub mod Samples

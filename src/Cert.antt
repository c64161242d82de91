-- ===== src/Cert.antt =====
-- internal/cert: the certificates that the proxy shows to its clients.
pub mod Leaf

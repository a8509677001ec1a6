-- ===== src/Client.antt =====
-- The API client and the configuration (exoscale/client.go and exoscale/exoscale_config.go).
pub mod Config
pub mod Credentials
pub mod Locking
pub mod Setup
pub mod Precedence
pub mod Entry
pub mod Command

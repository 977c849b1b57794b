-- ===== src/Tests.antt =====
-- The theorems at concrete inputs.
mod Memory
mod Vault
mod Renewal
mod Crypto
pub mod Fetcher
mod Daemon
mod Delivery
mod Api
mod Backup
mod Startup
mod System
mod Routing
mod Threads
mod Filesystem
pub mod World
pub mod VaultWorld
pub mod Codecs
pub mod FileWorld
mod Fiber

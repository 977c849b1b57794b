-- ===== src/Fetcher.antt =====
-- cmd/acme-store-fetcher/main.go: the program that copies certificates from the API to files.
pub mod Keys
pub mod Files
pub mod Client
pub mod Traefik
pub mod Settings
pub mod Fetch
pub mod Daemon

-- ===== src/Api.antt =====
-- cmd/acme-store/httpserver.go: the handlers, over any keystore. A handler takes what it reads of
-- the request and the global `ks`, nil before the keystore is there, and returns its response and
-- the keystore. Log lines are left out.
pub mod Response
pub mod Certs
pub mod Domains
pub mod Backup
pub mod Health

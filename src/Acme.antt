-- ===== src/Acme.antt =====
-- pkg/acme: the DNS solvers and the renewal of one certificate.
pub mod Solvers
pub mod Renewal

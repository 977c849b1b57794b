-- ===== src/Lib.antt =====
-- acme-store, as a library of definitions and theorems: a daemon that keeps TLS certificates in a
-- keystore, renews them at an ACME provider and serves them over HTTP.
--
-- The parts. A `Keystore` (pkg/keystore/keystore.go) stores the ACME account, a certificate and a
-- key for each domain, and the list of managed domains. It has three back ends, in memory, in files
-- and in Vault. The worker (cmd/acme-store/worker.go) goes over the managed domains and renews each
-- certificate that needs it (pkg/acme) by what it reads in the certificate (pkg/crypto). The handlers
-- (cmd/acme-store/httpserver.go) change the keystore on request, and wake the worker. A second
-- program, the fetcher, copies certificates from the handlers to files.
--
-- The files.
--   Common            shared names, tests, lists, Go's pair of a value and an error, maps
--   Host              what the program takes from outside: paths and files, JSON, configuration
--   Keystore          the interface and its contract (Laws), the records (Types), NewCertAndKey
--                     (Issued), NewKeystoreFromViper (Select)
--   Keystore/Memory   pkg/keystore/memory.go
--   Keystore/Filesystem  pkg/keystore/filesystem.go
--   Keystore/Vault    pkg/keystore/vault.go
--   Keystore/Named, Keystore/Adoption  code that the back ends have in common
--   Crypto            pkg/crypto/certificates.go and keys.go
--   Acme              pkg/acme/acme.go (Renewal) and solvers.go (Solvers)
--   Log               pkg/log/logger.go
--   Meta              pkg/meta/version.go
--   Config            pkg/config/viper.go
--   Startup           cmd/acme-store/main.go, and initKeystore and keystoreRetryLoop of
--                     cmd/acme-store/keystore.go
--   Worker            cmd/acme-store/worker.go, and ensureKeystore of cmd/acme-store/keystore.go
--   Api               the handlers of cmd/acme-store/httpserver.go
--   System            the handlers, the retry loop and the daemon over one keystore: a schedule of
--                     requests and of the daemon's steps. Acme/Renewal/Split cuts a renewal in two,
--                     where it waits for the provider
--   Threads           the same handlers and runs of the daemon as threads, one call of the keystore at
--                     a time: what a thread has still to do (Handlers, Orders), that it does what its
--                     handler does where nobody disturbs it (Alone), and what any interleaving keeps
--                     (Discipline, Genuine, Frame) or may lose (LostUpdate)
--   Routing           httpServerDaemon of cmd/acme-store/httpserver.go and pkg/httpserver/fiber.go
--                     (Setup): the middleware, the routes, and who answers a request. Delivered has
--                     the fetcher over the routes of the server
--   Fetcher           cmd/acme-store-fetcher/main.go: performFetch (Fetch), the files of a domain
--                     (Files), key pairs (Keys), the API client (Client), the Traefik file
--                     (Traefik), the settings (Settings), main and runDaemon (Daemon)
--   Delivery          the requests of the fetcher answered by the handlers of the server, with the
--                     JSON between them as a parameter
--   Tests             the theorems at concrete inputs, over a small world
-- A definition has the name of its Go function in snake case. A method takes the state of its
-- receiver last and returns its result, and the new state if it writes. `RenewCertIfNeeded` is
-- `renew_cert_if_needed`, and a global that is nil until it is set is an `Option`.
--
-- What is a parameter. The zap library, the file system, the JSON and Vault codecs, the Vault
-- server, PEM and X.509, the ACME client, the fiber router and the configuration are records of
-- functions. Their laws are records of their own, named in the theorems that need them: a write
-- that succeeds is read back, other paths are left alone, an encoding is decoded, `pem.Decode`
-- consumes input.
--
-- Choices. A method that holds its lock from end to end is one step; where the filesystem back end
-- gives its lock up, what others do there is an argument. An absent and an empty slice are one
-- list. Iteration over a Go map takes the order of the association list. A read returns what the
-- state determines. The base path of the filesystem back end is absolute. `handlerDeleteCert` and
-- its like are functions from the request's parts to a response. Times are nanoseconds,
-- and a time.Duration wraps at 64 bits where the code multiplies one. A nil client of Vault and a nil
-- key are a result of their own, a panic.
--
-- Fuel. The loops over PEM blocks run on the length of the input plus one: `pem.Decode` returns a
-- shorter rest, so this is enough.
--
-- Not modelled. Logs but for the lines of loadDomainsFromVault, the pages of the metrics and the
-- web UI, TLS settings, the wrappers of pkg/log/funcs.go and wrapper.go, the set-up of signals and
-- tickers, whose signals and ticks are given; a Vault write that returns no secret and no error,
-- where StoreCertAndKey dereferences nil. In a schedule of System each request is one step, as is
-- the part of a renewal that writes; in Threads each call of the keystore is one step.
pub mod Common
pub mod Keystore
pub mod Host
pub mod Crypto
pub mod Acme
pub mod Log
pub mod Meta
pub mod Config
pub mod Startup
pub mod Worker
pub mod Api
pub mod System
pub mod Threads
pub mod Routing
pub mod Fetcher
pub mod Delivery
pub mod Tests

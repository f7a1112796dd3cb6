-- ===== src/Lib.antt =====
-- DistriMax distributes database files: a synchroniser fetches new versions, internal/db records
-- them, internal/storage keeps the files, and internal/api hands them out to clients that have an
-- API key or a temporary link. This library models its core and proves what these parts promise.
--
-- Db follows internal/db, one module for each source file. Db.Schema has the rows, Db.Sql the
-- clauses of the queries on tables as lists of rows in insertion order, Db.Store the connection: an
-- operation takes the tables and a list that says of each statement to come whether the driver
-- refuses it, and gives a result and what is left; `exec` and `query` are one statement each and
-- `with_tx` is WithTx, where a transaction that fails, be it at its commit, leaves the tables as before. Db.Versions is
-- products.go, Db.Users users.go, Db.ApiKeys api_keys.go, Db.Tokens download_tokens.go, Db.Settings
-- settings.go and Db.Audit audit.go. Unique keys and references of the schema are the failures of
-- the insertions. Db.Clock has time.Duration, a pattern of 64 bits whose products wrap.
--
-- Db.Migrator is migrator.go, over a schema of its own: the rows that say which scripts have run, and
-- what the scripts change.
--
-- Cache is internal/cache/manifest_cache.go. Storage is the interface of internal/storage/storage.go
-- and Storage.Manager its manager.go, over any two backends; what the theorems need of these is the
-- record Storage.Manager.Switching.IsStore. Storage.Filesystem is filesystem.go, over a disk that maps
-- paths to bytes and may refuse any call, in the same way as the database's driver; Storage.Paths has
-- Clean, Join and IsAbs of path/filepath by their documented rules, for a slash as separator.
--
-- Api follows internal/api: Api.Keys is RequireAPIKey and Api.DownloadAuth RequireDownloadAuth of
-- middleware.go, Api.AuditLogger its AuditLoggerMiddleware with SanitizeURL,
-- Api.Limiter its ConcurrencyLimiter as a relation between the states of a server,
-- Api.Download handlers_download.go, Api.Manifest handlers_manifest.go with the rollback of
-- internal/ui/ui.go, Api.Recover handlers_recover.go, Api.Proxy proxy.go, Api.Health
-- handlers_health.go. A handler is a function of the request, the values in its context and the
-- database. Auth.Generate has the generated secrets of internal/auth, Auth.Crypto its crypto.go and
-- session.go. Config is internal/config/config.go.
--
-- Syncer follows internal/syncer: Syncer.Maxmind is maxmind.go, Syncer.Archive archive.go,
-- Syncer.Validator validator.go. Syncer.Run is SyncProduct of syncer.go, on the state of
-- Syncer.State: the database, what the storage keeps, what the callback changes, and the locks. It
-- calls the storage through the interface, and the callback as a function. Workers.Cleanup is
-- internal/workers/cleanup.go, Workers.Backup backup.go, Workers.Webhook webhook.go, and
-- Workers.Scheduler scheduler.go, whose timers are a list of ticks. Program is the part of
-- cmd/distrimax/main.go that connects these: the callback that invalidates the cache and starts a
-- delivery, and the filesystem as the storage.
--
-- Conventions. A time is a number of nanoseconds since Go's zero time, and the clock is an argument;
-- one call reads it once. Text is a list of bytes, and white space is that of ASCII. Numbers that
-- the program never makes negative are natural numbers. All loops are structural, so that no fuel
-- is used; the attempts at a delivery count down from five. Where the program starts a goroutine to
-- count a use, the count happens before the next handler runs. Methods behind a mutex are one step
-- each. A nil dereference is an error of its own.
--
-- Parameters stand for the libraries: the Argon2 comparison and hash, AES-256-GCM, HMAC, checksums and
-- base64, the random source, the parsers of net, net/http, net/url and encoding/json, the HTTP client,
-- path.Clean and path.Base, the readers of archives and databases, the formats of times, the effect of
-- a migration's script, and the storage backends where not the filesystem is meant.
--
-- Not modelled: the S3 backend, EnsureDirectories, which only creates directories, the admin
-- pages but for the rollback, the external update tool, which nothing calls, the routes, and the
-- process around them. Directories hold nothing but files, and a write that is refused has written
-- nothing. Of the messages of errors only the code is kept.
pub mod Prelude
pub mod Db
pub mod Cache
pub mod Storage
pub mod Api
pub mod Workers
pub mod Auth
pub mod Syncer
pub mod Program
pub mod Config
mod Tests

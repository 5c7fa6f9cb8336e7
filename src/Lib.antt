-- ===== src/Lib.antt =====
-- Verification of the backup manager jagad (Go): its backups, restores, schedules, storage providers,
-- encryption, sessions and settings.
--
-- The program. The HTTP handlers call services, the services call repositories over PostgreSQL.
-- StartBackup stores a record and runs the dump in a goroutine that passes a semaphore of three
-- slots: the dump is compressed, encrypted if a key is configured, and streamed to the object storage
-- of a provider. The scheduler hands each stored schedule to a cron engine, whose jobs call StartBackup
-- and then enforce the retention of the schedule. Verification and restore read the object back. The
-- storage service keeps the credentials of the providers encrypted at rest. The auth service guards
-- every request with a session token.
--
-- The files, and the code that each models (paths from the root of the repository):
--   Prelude: lists over native numbers, maps, counting, text, results; no code of the program.
--   Table: a table behind database/sql, with the faults that the environment sends. A statement is one
--     query with its constraints; what an error leaves unchanged is in Table.Laws.
--   Encryption: internal/encryption/service.go (encrypt, decrypt, encrypt_stream, decrypt_stream,
--     write_frame for Write, close_writer for Close, next_frame and read for Read).
--   Storage: internal/storage/provider.go, crypto.go and provider_service.go, and
--     internal/repository/postgres/storage_provider.go (Storage.Repo). Its record ProviderService is
--     the interface that backups and restores use; Storage.Service.provider_service implements it.
--   Connection: internal/connection/model.go and service.go (Service for the connections, Databases for
--     the discovery), with internal/repository/postgres/connection.go.
--   Backup: internal/backup/model.go, service.go and incremental.go, and
--     internal/repository/postgres/backup.go (Backup.Repo). Service holds how a run ends, Start
--     StartBackup, Run the runs, Verify the verification, Manage the deletion, retention and
--     statistics, Slots the semaphore.
--   Restore: internal/restore/model.go and service.go, internal/repository/postgres/restore.go.
--   Schedule: internal/schedule/model.go, service.go and handler.go (Handler), scheduler.go
--     (Scheduler, Retention), internal/repository/postgres/schedule.go (Repo).
--   Notification: internal/notification/model.go and service.go (Handler: handler.go),
--     internal/repository/postgres/notification.go.
--   Monitoring: internal/monitoring/collector.go (Start, Stop, collect, collectConnection and
--     collectHealth; Source: openSourceDB; Collect: the visit to a server with all its collections).
--     Samples, Select, Decimal and Store: store.go and p2_models.go (Select builds the statements
--     with their placeholders, Decimal is itoa). Handler: handler.go.
--     Catalog: the tables that internal/repository/postgres/db.go creates for them.
--   Settings: internal/settings/service.go (Handler: its HTTP handlers). Auth:
--     internal/auth/service.go.
--   Http: internal/httputil/response.go. Backup.Handler, Connection.Handler and Storage.Handler:
--     internal/backup/handler.go, internal/connection/handler.go, internal/storage/provider_handler.go.
--   Configuration: internal/config/config.go. Startup: cmd/jagad/main.go. Auth.Handler and
--     Restore.Handler: the handlers of internal/auth/service.go and internal/restore/service.go.
--     Backup.Dump and Restore.Tools: the command lines of the dump and restore tools.
--   Backup.Reports: the three reports of internal/repository/postgres/backup.go.
--   Backup.Engines: internal/backup/xtrabackup.go (XtraBackup, Stderr), mariabackup.go (Mariabackup)
--     and pgbackrest.go (PgBackRest, with the rendered Config and the Stanza).
--   Tests: concrete ciphers, tables and engines, and each theorem at them.
--
-- How state and errors are modelled. A service is explicit state: its tables, the provider service and
-- what it has sent or deleted. An error is a value (Result, or Option String for error). A goroutine is
-- a separate function, run after the call that starts it; Slots interleaves the goroutines. The
-- constraints of the tables are in the statements that they refuse; the backups that the restores refer
-- to, which the database does not delete, are a field of the world of the backup service. Times and
-- sizes are natural numbers, and are not negative in the program. A retention limit below one is 0.
--
-- Bounds and fuel. The frame counter is kept modulo 2 ^ 64 and a frame's length modulo 2 ^ 32, as in
-- the code. Copying a decrypted stream runs on fuel of one more than the stream's length, and the round
-- trip shows that this is enough. The other loops are structural.
--
-- The loop of itoa runs on the 20 places of its buffer, and an int has at most 19 digits.
--
-- Parameters, for code outside the repository: the AEAD cipher and key derivation (Aead, with IsAead),
-- the cron engine (Cron, with IsCron), SHA-256, JSON, floating-point numbers, the dump, restore and
-- backup tools with the files they need, the monitored servers, gzip and the object storage, whose
-- answers are arguments. The incremental run takes an engine as a value; Backup.Engines has the three.
--
-- Not modelled: the routing, the server and its shutdown, the reading of JSON, the text of
-- the fixed queries on monitored servers and of the discovery, and the text of a notification.
pub mod Prelude
pub mod Table
pub mod Http
pub mod Encryption
pub mod Storage
pub mod Connection
pub mod Backup
pub mod Auth
pub mod Schedule
pub mod Settings
pub mod Restore
pub mod Notification
pub mod Monitoring
pub mod Tests
pub mod Configuration
pub mod Startup

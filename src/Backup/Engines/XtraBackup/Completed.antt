-- ===== src/Backup/Engines/XtraBackup/Completed.antt =====
-- What a run of runXtraBackup that succeeds has done (internal/backup/xtrabackup.go).
use backupeer.Prelude.{◌≡◌, refl, String, Option, none, some, Result, ok, err, arith, ◌↔◌, sym, ◌∙◌}
use backupeer.Connection.{Connection}
use backupeer.Storage.{Provider}
use backupeer.Backup.Service.{IncrementalSchedule, Metadata}
use backupeer.Backup.Engines.{resolve_provider, Stream, stream_args, stream_key, stream_error}
use backupeer.Backup.Engines.Stderr.{parse_xtra_stderr}
use backupeer.Backup.Engines.XtraBackup.{
  Host, client_config, stream_metadata, open_storage, run_xtra_backup,
}

-- Every stage of the pipe ended without an error.
abbrev pub IsComplete : Stream → Type 0
IsComplete r =
    (r.stdout_pipe ≡ none)
    × (r.start ≡ none)
    × (r.upload ≡ none)
    × (r.copy ≡ none)
    × (r.wait ≡ none)

stream_error-IsComplete : (tool : String) (r : Stream) → stream_error tool r ≡ none → IsComplete r
unfolding stream_error
stream_error-IsComplete tool r fine =
    (ground arith, ground arith, ground arith, ground arith, ground arith)

IsComplete-stream_error : (tool : String) (r : Stream) → IsComplete r → stream_error tool r ≡ none
unfolding stream_error
IsComplete-stream_error tool r (a, b, c, d, e) = ground (arith, a, b, c, d, e)

-- What is uploaded and how, for a provider.
abbrev pub streamed_by : Host → Connection → String → String → Provider → Stream
streamed_by h c backup_id last_lsn p =
    h.stream "xtrabackup" (stream_args c last_lsn) (client_config p)
      (stream_key "xtrabackup" c backup_id last_lsn)

abbrev pub described :
    Host → IncrementalSchedule → Connection → String → String → Provider → Metadata
described h sch c backup_id last_lsn p =
    stream_metadata "xtrabackup" sch c p (stream_key "xtrabackup" c backup_id last_lsn)
      (parse_xtra_stderr (streamed_by h c backup_id last_lsn p).stderr)

ends : Option String → Metadata → Result Metadata
ends none m = ok m
ends (some e) m = err e

ends_ok : (o : Option String) (d m : Metadata) → ends o d ≡ ok m → (o ≡ none) × (m ≡ d)
unfolding ends
ends_ok none d m same = (refl, ground (arith, same))
ends_ok (some e) d m same = ground (arith, same)

ends-none : (o : Option String) (d m : Metadata) → o ≡ none → m ≡ d → ends o d ≡ ok m
unfolding ends
ends-none o d m fine same = ground (arith, fine, same)

run_xtra_backup-ends :
    (h : Host) (sch : IncrementalSchedule) (c : Connection) (backup_id last_lsn : String)
    (p : Provider)
    → h.get_decrypted sch.storage_provider_id ≡ ok (some p)
    → h.new_s3_client (client_config p) ≡ none
    → run_xtra_backup h sch c backup_id last_lsn
      ≡ ends
          (stream_error "xtrabackup" (streamed_by h c backup_id last_lsn p))
          (described h sch c backup_id last_lsn p)
unfolding run_xtra_backup open_storage resolve_provider ends
run_xtra_backup-ends h sch c backup_id last_lsn p found opened = ground (arith, found, opened)

-- With a provider that is found and a client that is made, a run succeeds exactly when every stage
-- of the pipe ended without an error, and it then answers where the backup is and what was read of
-- it.
pub run_xtra_backup_success_iff :
    (h : Host) (sch : IncrementalSchedule) (c : Connection) (backup_id last_lsn : String)
    (p : Provider) (m : Metadata)
    → h.get_decrypted sch.storage_provider_id ≡ ok (some p)
    → h.new_s3_client (client_config p) ≡ none
    → (run_xtra_backup h sch c backup_id last_lsn ≡ ok m) ↔ (
        IsComplete (streamed_by h c backup_id last_lsn p)
        × (m ≡ described h sch c backup_id last_lsn p))
run_xtra_backup_success_iff h sch c backup_id last_lsn p m found opened =
    let r = streamed_by h c backup_id last_lsn p in
    let d = described h sch c backup_id last_lsn p in
    let run = run_xtra_backup-ends h sch c backup_id last_lsn p found opened in
    (
      (λ done.
          let (fine, same) = ends_ok (stream_error "xtrabackup" r) d m (sym run ∙ done) in
          (stream_error-IsComplete "xtrabackup" r fine, same)),
      (λ (whole, same).
          run
          ∙ ends-none (stream_error "xtrabackup" r) d m
              (IsComplete-stream_error "xtrabackup" r whole) same),
    )

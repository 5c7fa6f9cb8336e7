-- ===== src/Backup/Engines/Stderr/Defaults.antt =====
-- What is read from the progress of xtrabackup (internal/backup/xtrabackup.go).
use backupeer.Prelude.{◌≡◌, ◌≢◌, refl, String, false, arith, ◌==◌, eq_iff}
use backupeer.Backup.Engines.Stderr.{
  parse_xtra_stderr, or_default, found_point, split_lines, read_lines, find_check_point, trim_space,
  split_equals,
}

abbrev streamed : String
streamed =
    "xtrabackup: Transaction log\nThe latest check point (for incremental): '2784560'\nfrom_lsn = 100\n"

streamed_read :
    parse_xtra_stderr streamed
    ≡ record { to_lsn = "2784560"; from_lsn = "100"; backup_type = "full-prepared" }
unfolding parse_xtra_stderr find_check_point read_lines split_lines trim_space split_equals
streamed_read = refl

or_default-given : (s d : String) → (d == "") ≡ false → or_default s d ≢ ""
or_default-given s d given = ground (arith, eq_iff s "", eq_iff d "")

-- Whatever was printed, the type and the first position are there.
pub parse_xtra_stderr_given :
    (stderr : String)
    → ((parse_xtra_stderr stderr).backup_type ≢ "") × ((parse_xtra_stderr stderr).from_lsn ≢ "")
unfolding parse_xtra_stderr
parse_xtra_stderr_given stderr =
    let m = read_lines (split_lines stderr) (record {
      to_lsn = found_point (find_check_point stderr);
      from_lsn = "";
      backup_type = "";
    }) in
    (or_default-given m.backup_type "full-prepared" refl, or_default-given m.from_lsn "0" refl)

-- ===== src/Monitoring/Collect/Locks.antt =====
-- The locks that internal/monitoring/collector.go asks a server for.
use backupeer.Prelude.{
  ℕ, String, Bool, false, Option, none, some, List, [], map, filter, ok, err, ◌==◌, if◌then◌else◌,
}
use backupeer.Connection.{Connection}
use backupeer.Monitoring.Samples.{Floats, LockInfo}
use backupeer.Monitoring.Collect.Numbers.{Arithmetic}
use backupeer.Monitoring.Collect.Rows.{Answer, answered_rows, scanned_rows}
use backupeer.Monitoring.Collect.Metrics.{is_mysql}

module _ (R : Floats) where
  open R use {F}

  -- The columns of `pg_locks`, joined with itself.
  pub record PgLock : Type 0 where
    pub database_name : String
    pub relation_name : String
    pub lock_type : String
    pub lock_mode : String
    pub granted : Bool
    pub blocked_pid : ℕ
    pub blocked_user : String
    pub blocked_query : String
    pub blocked_duration : F
    pub blocking_pid : ℕ
    pub blocking_user : String
    pub blocking_query : String

  -- The columns of a waiting transaction of InnoDB.
  pub record InnodbLock : Type 0 where
    pub blocked_pid : ℕ
    pub blocked_user : String
    pub blocked_query : String
    pub blocked_duration : F
    pub lock_type : String
    pub lock_mode : String
    pub granted : Bool

  -- The columns of the list of processes.
  pub record Process : Type 0 where
    pub id : ℕ
    pub user : String
    pub info : String
    pub seconds : F

  pub record LockSource : Type 0 where
    pub pg_locks : Answer PgLock
    pub innodb_locks : Answer InnodbLock
    pub processes : Answer Process

module _ {R : Floats} (A : Arithmetic R) where
  open A use {nought, over_a_minute}

  abbrev pub no_lock : Connection → ℕ → LockInfo R
  no_lock c now = record {
    time = now;
    connection_id = c.id;
    db_type = c.db_type;
    database_name = "";
    relation_name = "";
    lock_type = "";
    lock_mode = "";
    granted = false;
    blocked_pid = 0;
    blocked_user = "";
    blocked_query = "";
    blocked_duration = nought;
    blocking_pid = 0;
    blocking_user = "";
    blocking_query = "";
    is_deadlock = false;
  }

  -- One turn of the loop of `collectPGLocks`.
  unfoldable pub pg_lock : Connection → ℕ → PgLock R → LockInfo R
  pg_lock c now r = record (no_lock c now) {
    database_name = r.database_name;
    relation_name = r.relation_name;
    lock_type = r.lock_type;
    lock_mode = r.lock_mode;
    granted = r.granted;
    blocked_pid = r.blocked_pid;
    blocked_user = r.blocked_user;
    blocked_query = r.blocked_query;
    blocked_duration = r.blocked_duration;
    blocking_pid = r.blocking_pid;
    blocking_user = r.blocking_user;
    blocking_query = r.blocking_query;
  }

  unfoldable pub innodb_lock : Connection → ℕ → InnodbLock R → LockInfo R
  innodb_lock c now r = record (no_lock c now) {
    database_name = c.name;
    lock_type = r.lock_type;
    lock_mode = r.lock_mode;
    granted = r.granted;
    blocked_pid = r.blocked_pid;
    blocked_user = r.blocked_user;
    blocked_query = r.blocked_query;
    blocked_duration = r.blocked_duration;
  }

  unfoldable pub long_running : Connection → ℕ → Process R → LockInfo R
  long_running c now p = record (no_lock c now) {
    lock_mode = "long_running";
    lock_type = "query";
    blocked_pid = p.id;
    blocked_user = p.user;
    blocked_query = p.info;
    blocked_duration = p.seconds;
  }

  -- `collectMySQLLocks`: without the table of transactions, processes of more than a minute.
  unfoldable pub mysql_locks : LockSource R → Connection → ℕ → List (LockInfo R)
  unfolding innodb_lock long_running
  mysql_locks s c now = elim s.innodb_locks [
    | ok rows ↦ map (innodb_lock c now) (scanned_rows rows)
    | err _ ↦
        filter (λ l. over_a_minute l.blocked_duration)
          (map (long_running c now) (answered_rows s.processes))
  ]

  -- `collectLocksAsync`: what it records, given the error of opening the server.
  unfoldable pub collect_locks : Option String → LockSource R → Connection → ℕ → List (LockInfo R)
  unfolding pg_lock mysql_locks
  collect_locks (some e) s c now = []
  collect_locks none s c now =
      if c.db_type == "postgresql"
      then map (pg_lock c now) (answered_rows s.pg_locks)
      else if is_mysql c
      then mysql_locks s c now
      else []

-- ===== src/Tests/Manage.antt =====
-- The theorems on deletion, retention, statistics, slots and settings at concrete data.
use backupeer.Prelude.{
  ◌<◌, ◌≤◌, ◌≡◌, refl, String, Bool, not, some, List, [], ◌∷◌, arith, filter, take, drop, length,
  ◌+◌, number, map_get, eq_iff, if◌then◌else◌,
}
use backupeer.Table.{find, delete_where}
use backupeer.Backup.{Backup}
use backupeer.Backup.Repo.Sorting.{IsOldestFirst}
use backupeer.Backup.Service.{World}
use backupeer.Backup.Manage.{delete, retain}
use backupeer.Backup.Manage.Deletion.{delete-restored}
use backupeer.Backup.Manage.Retention.{HasDistinctIds, is_copy, is_restored, copies, surplus}
use backupeer.Backup.Manage.Retention.Newest.{retain-keeps_newest}
use backupeer.Backup.Slots.{
  Slots, Work, Reachable, remaining, no_backups, Reachable-capacity, Work-progress,
}
use backupeer.Settings.{Setting, update_batch}
use backupeer.Settings.Batch.{
  HasDistinctKeys, are_allowed, or_else, is_none, calm_table, update_batch_calm,
}
use backupeer.Tests.{one_provider, minio, table}
use backupeer.Tests.Backups.{world, succeeded}

abbrev newer : Backup
newer = record succeeded { id = "b2"; created_at = 200 }

abbrev newest : Backup
newest = record succeeded { id = "b3"; created_at = 300 }

-- A restore refers to the oldest of the three.
abbrev three_copies : World one_provider
three_copies = record world {
  backups = table (newest ∷ newer ∷ succeeded ∷ []);
  restored = "b1" ∷ [];
}

three_copies-HasDistinctIds : HasDistinctIds three_copies.backups.rows
unfolding HasDistinctIds
three_copies-HasDistinctIds id = ground (
  arith,
  eq_iff "b1" id,
  eq_iff "b2" id,
  eq_iff "b3" id,
  eq_iff "b1" "b2",
  eq_iff "b1" "b3",
  eq_iff "b2" "b3",
)

retain-keeps_newest_example :
    IsOldestFirst (copies "s1" "full" three_copies.backups.rows)
    × ((p : Backup → Bool)
        → (number p (copies "s1" "full" three_copies.backups.rows)
            ≡ number p (filter (is_copy "s1" "full") three_copies.backups.rows))
          × (number p
                (filter (is_copy "s1" "full") (retain "s1" "full" 1 three_copies).backups.rows)
              ≡ number p (
                  filter (is_restored ("b1" ∷ [])) (
                    take
                      (surplus "s1" "full" 1 three_copies.backups.rows)
                      (copies "s1" "full" three_copies.backups.rows)))
                + number p (
                    drop
                      (surplus "s1" "full" 1 three_copies.backups.rows)
                      (copies "s1" "full" three_copies.backups.rows)))
          × (number p (
                filter
                  (λ b. not (is_copy "s1" "full" b))
                  (retain "s1" "full" 1 three_copies).backups.rows)
              ≡ number p (filter (λ b. not (is_copy "s1" "full" b)) three_copies.backups.rows)))
retain-keeps_newest_example =
    retain-keeps_newest "s1" "full" 1 three_copies refl three_copies-HasDistinctIds (omega arith)

delete-restored_example :
    ((delete "b1" three_copies).0
      ≡ some "delete backup b1: violates foreign key constraint (SQLSTATE 23503)")
    × ((delete "b1" three_copies).1.deleted ≡ (minio, succeeded.storage_path) ∷ [])
    × ((delete "b1" three_copies).1.backups ≡ three_copies.backups)
delete-restored_example =
    delete-restored "b1" succeeded minio three_copies refl refl refl refl refl refl

abbrev waiting_one : Slots
waiting_one = record no_backups { waiting = "b1" ∷ [] }

abbrev running_one : Slots
running_one = record no_backups { running = "b1" ∷ [] }

got_slot : Work waiting_one running_one
got_slot = Work.acquire [] [] [] [] "b1" (omega arith)

Reachable-capacity_example : length running_one.running ≤ 3
Reachable-capacity_example = Reachable-capacity running_one (
    Reachable.worked waiting_one running_one (Reachable.started no_backups "b1" Reachable.initial)
      got_slot)

waiting_one_remains : 0 < remaining waiting_one
unfolding remaining
waiting_one_remains = omega arith

Work-progress_example : (t : Slots) × Work waiting_one t
Work-progress_example = Work-progress waiting_one waiting_one_remains

abbrev request : List Setting
request = ("timezone", "Asia/Jakarta") ∷ ("compression", "gzip") ∷ []

abbrev rows : List Setting
rows = ("timezone", "UTC") ∷ []

request-HasDistinctKeys : HasDistinctKeys request
unfolding HasDistinctKeys
request-HasDistinctKeys = (refl, (refl, tt))

update_batch_calm_example :
    (is_none (update_batch request (calm_table rows)).0 ≡ are_allowed request)
    × ((k : String)
        → map_get k (update_batch request (calm_table rows)).1.rows ≡ (
            if are_allowed request
            then or_else (map_get k request) (map_get k rows)
            else map_get k rows))
update_batch_calm_example = update_batch_calm request rows request-HasDistinctKeys

abbrev bad_request : List Setting
bad_request = ("timezone", "Asia/Jakarta") ∷ ("theme", "dark") ∷ []

bad_request_refused : (update_batch bad_request (calm_table rows)).0 ≡ some "unknown setting: theme"
unfolding update_batch backupeer.Settings.is_allowed backupeer.Table.transaction
    backupeer.Settings.set_each
bad_request_refused = refl

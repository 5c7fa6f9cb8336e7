-- ===== src/Backup/Manage.antt =====
-- internal/backup/service.go: List, Delete, Download, Stats and EnforceRetention.
pub mod Deletion
pub mod Retention
pub mod Statistics
use backupeer.Prelude.{
  ℕ, suc, ◌+◌, String, Bool, true, false, not, Option, none, some, List, [], ◌∷◌, ◌++◌, ◌&&◌, ◌||◌,
  Result, ok, err, ◌<>◌, ◌==◌, wrap, ltb, eqb, if◌then◌else◌,
}
use backupeer.Storage.{Provider, ProviderService}
use backupeer.Backup.{Backup}
use backupeer.Backup.Repo as Repo
use backupeer.Backup.Service.{World, explicit_id, int64_or_zero, provider_or}

-- The page size of `List`
unfoldable pub page_limit : ℕ → ℕ
page_limit limit = if eqb limit 0 || ltb 100 limit then 50 else limit

module _ {PS : ProviderService} where
  unfoldable pub list : String → String → ℕ → ℕ → World PS → Result (List Backup) × World PS
  unfolding page_limit
  list connection_id database_id limit offset w =
      let answer = Repo.list connection_id database_id (page_limit limit) offset w.backups in
      (answer.0, record w { backups = answer.1 })

  unfoldable pub get : String → World PS → Result (Option Backup) × World PS
  get id w = let answer = Repo.get_by_id id w.backups in (answer.0, record w { backups = answer.1 })

  -- The attempt to delete the stored object; every error on the way is dropped.
  unfoldable pub delete_object : Backup → World PS → World PS
  delete_object b w =
      let id = explicit_id b.storage_provider_id in
      let found = PS.get_decrypted id w.provs in
      let w' = record w { provs = found.1 } in
      if id == "" then w else elim found.0 [
        | err _ ↦ w'
        | ok none ↦ w'
        | ok (some prov) ↦ elim (PS.create_client prov) [
          | some _ ↦ w'
          | none ↦ record w' { deleted = w.deleted ++ ((prov, b.storage_path) ∷ []) }
        ]
      ]

  delete_record : String → World PS → Option String × World PS
  delete_record id w =
      let done = Repo.delete w.restored id w.backups in (done.0, record w { backups = done.1 })

  unfoldable pub delete : String → World PS → Option String × World PS
  unfolding delete_record
  delete id w =
      let found = Repo.get_by_id id w.backups in
      let w' = record w { backups = found.1 } in
      elim found.0 [
        | err e ↦ (some e, w')
        | ok none ↦ (some "backup not found", w')
        | ok (some b) ↦ delete_record id (delete_object b w')
      ]

  -- What Download reads: the provider and the path, given the errors of the transfer.
  unfoldable pub download :
      String → Option String → World PS → Result (Provider × String) × World PS
  download id transfer w =
      let found = Repo.get_by_id id w.backups in
      let w' = record w { backups = found.1 } in
      elim found.0 [
        | err e ↦ (err ("get backup: " <> e), w')
        | ok none ↦ (err "backup not found", w')
        | ok (some b) ↦
            let prov = PS.get_decrypted (explicit_id b.storage_provider_id) w'.provs in
            if explicit_id b.storage_provider_id == ""
            then (err "backup has no storage provider", w')
            else (
              elim (provider_or "storage provider not found"
                  (wrap "get storage provider: " prov.0)) [
                    | err e ↦ err e
                    | ok p ↦ elim (PS.create_client p) [
                      | some e ↦ err ("create storage client: " <> e)
                      | none ↦ elim transfer [
                        | some e ↦ err ("download from storage: " <> e)
                        | none ↦ ok (p, b.storage_path)
                      ]
                    ]
                  ],
              record w' { provs = prov.1 },
            )
      ]

  -- The loop over the backups to delete; an error goes on to the next. Identifiers are UUIDs, so the
  -- eight bytes of one that the log shows are there.
  unfoldable pub delete_each : List Backup → World PS → World PS
  delete_each [] w = w
  delete_each (b ∷ bs) w = delete_each bs (delete b.id w).1

  -- One of the two halves of EnforceRetention.
  unfoldable pub retain : String → String → ℕ → World PS → World PS
  unfolding delete_each
  retain schedule_id backup_type keep w =
      let old = Repo.list_oldest_by_backup_type schedule_id backup_type keep w.backups in
      let w' = record w { backups = old.1 } in
      if ltb 0 keep then elim old.0 [ err _ ↦ w' | ok bs ↦ delete_each bs w' ] else w

  unfoldable pub enforce_retention : String → ℕ → ℕ → World PS → World PS
  unfolding retain
  enforce_retention schedule_id full incr w =
      retain schedule_id "incremental" incr (retain schedule_id "full" full w)

-- `m[k]++` on a `map[string]int`
unfoldable pub count_one : String → List (String × ℕ) → List (String × ℕ)
count_one k [] = (k, 1) ∷ []
count_one k ((j, n) ∷ m) = if j == k then (j, n + 1) ∷ m else (j, n) ∷ count_one k m

-- `m[k]`, 0 where it is missing
unfoldable pub count_of : String → List (String × ℕ) → ℕ
count_of k [] = 0
count_of k ((j, n) ∷ m) = if j == k then n else count_of k m

-- `StatsResponse`; the rate is kept as its numerator and denominator.
pub record Stats : Type 0 where
  pub total_backups : ℕ
  pub total_size : ℕ
  pub by_type : List (String × ℕ)
  pub by_status : List (String × ℕ)

abbrev no_stats : Stats
no_stats = record { total_backups = 0; total_size = 0; by_type = []; by_status = [] }

unfoldable pub add_backup : Backup → Stats → Stats
unfolding count_one
add_backup b s = record {
  total_backups = s.total_backups + 1;
  total_size = s.total_size + int64_or_zero b.size_bytes;
  by_type = count_one b.backup_type s.by_type;
  by_status = count_one b.status s.by_status;
}

unfoldable pub add_all : List Backup → Stats → Stats
unfolding add_backup
add_all [] s = s
add_all (b ∷ bs) s = add_all bs (add_backup b s)

-- The successes and the number of backups whose quotient, times 100, is the success rate.
unfoldable pub success_ratio : Stats → Option (ℕ × ℕ)
unfolding count_of
success_ratio s =
    if ltb 0 s.total_backups then some (count_of "success" s.by_status, s.total_backups) else none

module _ {PS : ProviderService} where
  unfoldable pub stats : World PS → Result Stats × World PS
  unfolding add_all
  stats w =
      let answer = Repo.list "" "" 10000 0 w.backups in
      (
        elim answer.0 [ err e ↦ err e | ok bs ↦ ok (add_all bs no_stats) ],
        record w { backups = answer.1 },
      )

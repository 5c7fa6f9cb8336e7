-- ===== src/Backup/Verify/Start.antt =====
-- StartVerification of internal/backup/service.go against the constraint on `verify_status` in the
-- schema of internal/repository/postgres/db.go.
use backupeer.Prelude.{
  ◌≡◌, ◌≢◌, ◌∙◌, refl, String, none, some, List, [], ◌∷◌, true, false, ok, arith, any, ◌==◌, eq_iff,
  Result-cases, Bool-cases, inl, inr,
}
use backupeer.Table.{Table, query, exec, find}
use backupeer.Storage.{ProviderService}
use backupeer.Backup.{Backup}
use backupeer.Backup.Repo as Repo
use backupeer.Backup.Repo.{has_id, scanned, scanned_row, update_row, is_admissible}
use backupeer.Backup.Service.{World}
use backupeer.Backup.Verify.{start_verification, mark_verifying}

found_row :
    (id : String) (rows : List Backup) (b : Backup)
    → scanned_row (find (has_id id) rows) ≡ some b
    → any (has_id b.id) rows ≡ true
found_row id [] b h = cc
found_row id (r ∷ rows) b h = ground (arith, found_row id rows b, eq_iff r.id id, eq_iff r.id b.id)

get_by_id_found :
    (id : String) (t : Table Backup) (b : Backup)
    → (Repo.get_by_id id t).0 ≡ ok (some b)
    → any (has_id b.id) (Repo.get_by_id id t).1.rows ≡ true
unfolding Repo.get_by_id query
get_by_id_found id t b h = ground (arith, found_row id t.rows b)

get_by_id_rows : (id : String) (t : Table Backup) → (Repo.get_by_id id t).1.rows ≡ t.rows
unfolding Repo.get_by_id query
get_by_id_rows id t = ground arith

-- An UPDATE of an existing row to a status that the constraint does not list fails.
update_refused :
    (b : Backup) (t : Table Backup)
    → is_admissible b ≡ false
    → any (has_id b.id) t.rows ≡ true
    → ((Repo.update b t).0 ≢ none) × ((Repo.update b t).1.rows ≡ t.rows)
unfolding Repo.update exec
update_refused b t h k = ground arith

verifying_inadmissible :
    (b : Backup)
    → is_admissible (record b { verify_status = "verifying"; status = "verifying" }) ≡ false
unfolding is_admissible
verifying_inadmissible b = refl

module _ {PS : ProviderService} where
  mark_verifying_refused :
      (b : Backup) (w : World PS)
      → any (has_id b.id) w.backups.rows ≡ true
      → ((j : Backup) → (mark_verifying b w).0 ≢ ok j)
        × ((mark_verifying b w).1.backups.rows ≡ w.backups.rows)
  unfolding mark_verifying
  mark_verifying_refused b w h =
      let b' = record b { verify_status = "verifying"; status = "verifying" } in
      let (fails, same) = update_refused b' w.backups (verifying_inadmissible b) h in
      ((λ j. ground arith), same)

-- StartVerification never hands a backup to the verification: on every branch it returns an error
-- and changes no row, since the status "verifying" that it writes into verify_status breaks the
-- constraint of that column.
pub start_verification_refused :
    (PS : ProviderService) (id : String) (w : World PS) (b : Backup)
    → ((start_verification id w).0 ≢ ok b)
      × ((start_verification id w).1.backups.rows ≡ w.backups.rows)
unfolding start_verification
start_verification_refused PS id w b =
    let found = Repo.get_by_id id w.backups in
    let w' = record w { backups = found.1 } in
    let same = get_by_id_rows id w.backups in
    elim (Result-cases found.0) [
      | inl (none, e) ↦ rw (e, start_verification) ((λ h. cc), same)
      | inl (some x, e) ↦
          let (fails, kept) = mark_verifying_refused x w' (get_by_id_found id w.backups x e) in
          elim (Bool-cases (x.status == "success")) [
            | inl k ↦ rw (e, k, start_verification) (fails b, kept ∙ same)
            | inr k ↦ rw (e, k, start_verification) ((λ h. cc), same)
          ]
      | inr (x, e) ↦ rw (e, start_verification) ((λ h. cc), same)
    ]

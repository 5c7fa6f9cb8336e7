-- ===== src/Backup/Manage/Deletion.antt =====
-- What Delete of internal/backup/service.go leaves in the table.
use backupeer.Prelude.{
  ◌≡◌, ◌∙◌, refl, ap, String, true, false, none, some, ok, is_one_of, ◌==◌, ◌<>◌, ◌++◌, List, [],
  ◌∷◌, arith, Option-cases, inl, inr,
}
use backupeer.Table.{Table, find, delete_where, foreign_key_violation}
use backupeer.Storage.{Provider, ProviderService}
use backupeer.Backup.{Backup}
use backupeer.Backup.Repo as Repo
use backupeer.Backup.Repo.Calm as Calm
use backupeer.Backup.Service.{World, explicit_id}
use backupeer.Backup.Manage.{delete, delete_object, delete_record}

delete_where-none :
    (restored : List String) (id : String) (rows : List Backup)
    → find (Repo.has_id id) rows ≡ none
    → delete_where (Calm.freed restored id) rows ≡ rows
delete_where-none restored id [] h = refl
delete_where-none restored id (b ∷ bs) h =
    let ih = delete_where-none restored id bs in ground (arith, ih)

backups-delete_object :
    {PS : ProviderService} (b : Backup) (w : World PS)
    → ((delete_object b w).backups ≡ w.backups) × ((delete_object b w).restored ≡ w.restored)
unfolding delete_object
backups-delete_object b w = (ground arith, ground arith)

pub table_eta : (t : Table Backup) → t.faults ≡ [] → t ≡ record { faults = []; rows = t.rows }
table_eta t calm = ap (λ f. record { faults = f; rows = t.rows }) calm

delete_record_calm :
    {PS : ProviderService} (id : String) (w : World PS) (restored : List String) (t : Table Backup)
    → (w.backups ≡ t) × (w.restored ≡ restored)
    → t.faults ≡ []
    → ((delete_record id w).1.backups
        ≡ record { faults = []; rows = delete_where (Calm.freed restored id) t.rows })
      × ((delete_record id w).1.restored ≡ restored)
unfolding delete_record
delete_record_calm id w restored t (same, refers) calm =
    (rw (same, refers) (Calm.delete_calm restored id t calm), refers)

-- With no fault of the database to come, Delete removes the rows with the identifier, unless a
-- restore refers to it, whatever the providers and the object storage answer.
pub delete_calm :
    {PS : ProviderService} (id : String) (w : World PS)
    → w.backups.faults ≡ []
    → ((delete id w).1.backups
        ≡ record { faults = []; rows = delete_where (Calm.freed w.restored id) w.backups.rows })
      × ((delete id w).1.restored ≡ w.restored)
unfolding delete
delete_calm id w calm = elim (Option-cases (find (Repo.has_id id) w.backups.rows)) [
  | inl e ↦
      rw
        (
          Calm.get_by_id_calm id w.backups calm,
          delete,
          e,
          delete_where-none w.restored id w.backups.rows e,
        )
        (rw (Calm.get_by_id_calm id w.backups calm) (table_eta w.backups calm), refl)
  | inr (b, e) ↦
      let w' = record w { backups = (Repo.get_by_id id w.backups).1 } in
      let left = backups-delete_object (Repo.scanned b) w' in
      let same = left.0 ∙ ap (λ a. a.1) (Calm.get_by_id_calm id w.backups calm) in
      rw (ap (λ a. a.0) (Calm.get_by_id_calm id w.backups calm), delete, e)
        (delete_record_calm id (delete_object (Repo.scanned b) w') w.restored w.backups
          (same, left.1) calm)
]

record_kept :
    {PS : ProviderService} (id : String) (b : Backup) (w : World PS) (restored : List String)
    (t : Table Backup)
    → (w.backups ≡ t) × (w.restored ≡ restored)
    → t.faults ≡ []
    → find (Repo.has_id id) t.rows ≡ some b
    → is_one_of id restored ≡ true
    → ((delete_record id w).0 ≡ some (("delete backup " <> id <> ": ") <> foreign_key_violation))
      × ((delete_record id w).1.backups ≡ t)
      × ((delete_record id w).1.deleted ≡ w.deleted)
unfolding delete_record
record_kept id b w restored t (same, refers) calm found kept =
    rw (same, refers, Calm.delete_refused restored id b t calm found kept) (refl, refl, refl)

delete_object_asked :
    {PS : ProviderService} (b : Backup) (prov : Provider) (w : World PS)
    → (explicit_id b.storage_provider_id == "") ≡ false
    → (PS.get_decrypted (explicit_id b.storage_provider_id) w.provs).0 ≡ ok (some prov)
    → PS.create_client prov ≡ none
    → (delete_object b w).deleted ≡ w.deleted ++ ((prov, b.storage_path) ∷ [])
unfolding delete_object
delete_object_asked b prov w named known client = ground (arith, named, known, client)

-- On a database that answers, Delete of a backup that a restore refers to, whose provider is found
-- and whose client can be made, asks the object storage to delete the object of the backup, and
-- then fails on the foreign key and leaves every row as it was.
pub delete-restored :
    {PS : ProviderService} (id : String) (b : Backup) (prov : Provider) (w : World PS)
    → w.backups.faults ≡ []
    → find (Repo.has_id id) w.backups.rows ≡ some b
    → is_one_of id w.restored ≡ true
    → (explicit_id b.storage_provider_id == "") ≡ false
    → (PS.get_decrypted (explicit_id b.storage_provider_id) w.provs).0 ≡ ok (some prov)
    → PS.create_client prov ≡ none
    → ((delete id w).0
        ≡ some (
            ("delete backup " <> id <> ": ") <> "violates foreign key constraint (SQLSTATE 23503)"))
      × ((delete id w).1.deleted ≡ w.deleted ++ ((prov, b.storage_path) ∷ []))
      × ((delete id w).1.backups ≡ w.backups)
unfolding delete
delete-restored id b prov w calm found refers named known client =
    let w' = record w { backups = (Repo.get_by_id id w.backups).1 } in
    let asked = Calm.get_by_id_calm id w.backups calm in
    let left = backups-delete_object (Repo.scanned b) w' in
    let same = left.0 ∙ ap (λ a. a.1) asked in
    let kept =
      record_kept id b (delete_object (Repo.scanned b) w') w.restored w.backups (same, left.1) calm
        found refers in
    let gone = delete_object_asked (Repo.scanned b) prov w' named known client in
    rw (ap (λ a. a.0) asked, delete, found) (kept.0, kept.2 ∙ gone, kept.1)

pub restored-delete :
    {PS : ProviderService} (id : String) (w : World PS) → (delete id w).1.restored ≡ w.restored
unfolding delete delete_record delete_object
restored-delete id w = ground arith

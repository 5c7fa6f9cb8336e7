-- ===== src/Schedule/Retention/Started.antt =====
-- What StartBackup of internal/backup/service.go leaves in the table before a round of retention.
use backupeer.Prelude.{
  ℕ, ◌≤◌, ◌≡◌, refl, ap, String, false, List, [], ◌∷◌, ◌++◌, arith, any, number, number-append,
  Bool-cases, inl, inr, ok, eq_iff, ◌==◌,
}
use backupeer.Table.{Table, exec}
use backupeer.Table.Laws.{exec_keeps}
use backupeer.Storage.{ProviderService}
use backupeer.Backup.{Backup}
use backupeer.Backup.Repo as Repo
use backupeer.Backup.Service.{World}
use backupeer.Backup.Start.{Order, fresh_backup, start_backup}
use backupeer.Backup.Manage.Retention.{HasDistinctIds}

create-calm :
    (id : String) (now : ℕ) (b : Backup) (t : Table Backup)
    → t.faults ≡ []
    → (Repo.create id now b t).1.faults ≡ []
unfolding Repo.create exec
create-calm id now b t calm = ground arith

pub start_backup-calm :
    {PS : ProviderService} (id : String) (now : ℕ) (o : Order) (w : World PS)
    → w.backups.faults ≡ []
    → (start_backup id now o w).1.backups.faults ≡ []
unfolding start_backup
start_backup-calm id now o w calm =
    let made = create-calm id now (fresh_backup o) w.backups calm in ground (arith, calm, made)

pub restored-start_backup :
    {PS : ProviderService} (id : String) (now : ℕ) (o : Order) (w : World PS)
    → (start_backup id now o w).1.restored ≡ w.restored
unfolding start_backup
restored-start_backup id now o w = ground arith

number_none :
    (id : String) (rows : List Backup)
    → any (Repo.has_id id) rows ≡ false
    → number (Repo.has_id id) rows ≡ 0
number_none id [] h = refl
number_none id (b ∷ bs) h = let ih = number_none id bs in ground (arith, ih, h)

number-insert_row :
    (b : Backup) (other : String) (before rows : List Backup)
    → number (Repo.has_id other) before ≤ 1
    → Repo.insert_row b before ≡ ok rows
    → number (Repo.has_id other) rows ≤ 1
unfolding Repo.insert_row
number-insert_row b other before rows one e =
    let b' = Repo.inserted b in
    let fresh : any (Repo.has_id b.id) before ≡ false = ground (arith, e) in
    let same : before ++ (b' ∷ []) ≡ rows = ground (arith, e) in
    let zero = number_none b.id before fresh in
    let sum = number-append (Repo.has_id other) before (b' ∷ []) in
    rw⁻¹ same (elim (Bool-cases (b.id == other)) [
      | inl e ↦
          let alike : b.id ≡ other = ground (arith, e, eq_iff b.id other) in
          let none = ap (λ i. number (Repo.has_id i) before) alike in
          ground (arith, sum, zero, none, e)
      | inr n ↦ ground (arith, sum, one, n)
    ])

create-HasDistinctIds :
    (id : String) (now : ℕ) (b : Backup) (t : Table Backup)
    → HasDistinctIds t.rows
    → HasDistinctIds (Repo.create id now b t).1.rows
unfolding HasDistinctIds Repo.create
create-HasDistinctIds id now b t distinct other =
    exec_keeps (λ rows. number (Repo.has_id other) rows ≤ 1)
      (Repo.insert_row (record b { id = id; created_at = now })) t (distinct other)
      λ rows e.
        number-insert_row (record b { id = id; created_at = now }) other t.rows rows
          (distinct other) e

pub start_backup-HasDistinctIds :
    {PS : ProviderService} (id : String) (now : ℕ) (o : Order) (w : World PS)
    → HasDistinctIds w.backups.rows
    → HasDistinctIds (start_backup id now o w).1.backups.rows
unfolding start_backup HasDistinctIds
start_backup-HasDistinctIds id now o w distinct other =
    let made = create-HasDistinctIds id now (fresh_backup o) w.backups distinct other in
    let one = distinct other in ground (arith, made, one)

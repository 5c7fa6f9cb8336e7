-- ===== src/Backup/Manage/Retention.antt =====
-- What EnforceRetention of internal/backup/service.go keeps.
pub mod Newest
use backupeer.Prelude.{
  ℕ, zero, suc, ◌+◌, ◌-◌, ◌≤◌, ◌<◌, ◌≡◌, ◌∙◌, refl, sym, ap, String, Bool, true, false, not, Option,
  none, some, List, [], ◌∷◌, ◌++◌, ◌&&◌, Result, ok, err, arith, All, any, filter, filter-filter,
  filter-append, map, length, take, drop, take-append-drop, number, number-filter, number-append,
  any_none, any-map, number-map, number_all, take-map, length-map, length-drop, ◌==◌, eq_iff,
  eq_refl, is_one_of, ltb, leb, Bool-cases, inl, inr, if◌then◌else◌,
}
use backupeer.Table.{Table, delete_where}
use backupeer.Storage.{ProviderService}
use backupeer.Backup.{Backup}
use backupeer.Backup.Repo as Repo
use backupeer.Backup.Repo.Calm as Calm
use backupeer.Backup.Repo.Sorting.{number-by_age, by_age-IsOldestFirst, IsOldestFirst}
use backupeer.Backup.Service.{World}
use backupeer.Backup.Manage.{delete, delete_each, retain, enforce_retention}
use backupeer.Backup.Manage.Deletion.{delete_calm, restored-delete}

-- The rows that are left once the backups of a list are deleted, where the database keeps those that
-- a restore refers to.
abbrev pub survives : List String → List Backup → Backup → Bool
survives restored bs r = not (any (Repo.has_id r.id) bs && not (is_one_of r.id restored))

survives-cons :
    (restored : List String) (b : Backup) (bs rows : List Backup)
    → filter (survives restored bs) (delete_where (Calm.freed restored b.id) rows)
      ≡ filter (survives restored (b ∷ bs)) rows
survives-cons restored b bs [] = refl
survives-cons restored b bs (r ∷ rs) =
    let ih = survives-cons restored b bs rs in
    ground (arith, ih, eq_iff r.id b.id, eq_iff b.id r.id)

survives_none :
    (restored : List String) (rows : List Backup) → filter (survives restored []) rows ≡ rows
survives_none restored [] = refl
survives_none restored (r ∷ rs) = ap (λ x. r ∷ x) (survives_none restored rs)

delete_each_calm :
    {PS : ProviderService} (bs : List Backup) (w : World PS)
    → w.backups.faults ≡ []
    → ((delete_each bs w).backups.faults ≡ [])
      × ((delete_each bs w).backups.rows ≡ filter (survives w.restored bs) w.backups.rows)
unfolding delete_each
delete_each_calm [] w calm = (calm, sym (survives_none w.restored w.backups.rows))
delete_each_calm (b ∷ bs) w calm =
    let (one, refers) = delete_calm b.id w calm in
    let (still, rest) = delete_each_calm bs (delete b.id w).1 (ap (λ t. t.faults) one) in
    (still, rest ∙ rw (refers, one) refl ∙ survives-cons w.restored b bs w.backups.rows)

pub restored-delete_each :
    {PS : ProviderService} (bs : List Backup) (w : World PS)
    → (delete_each bs w).restored ≡ w.restored
unfolding delete_each
restored-delete_each [] w = refl
restored-delete_each (b ∷ bs) w = restored-delete_each bs (delete b.id w).1 ∙ restored-delete b.id w

-- The rows that a round of retention deletes.
abbrev pub victims : String → String → ℕ → List Backup → List Backup
victims schedule_id backup_type keep rows =
    if ltb 0 keep then Repo.oldest schedule_id backup_type keep rows else []

pub retain_calm :
    {PS : ProviderService} (schedule_id backup_type : String) (keep : ℕ) (w : World PS)
    → w.backups.faults ≡ []
    → ((retain schedule_id backup_type keep w).backups.faults ≡ [])
      × ((retain schedule_id backup_type keep w).backups.rows
          ≡ filter
              (survives w.restored (victims schedule_id backup_type keep w.backups.rows))
              w.backups.rows)
unfolding retain
retain_calm schedule_id backup_type keep w calm = elim (Bool-cases (ltb 0 keep)) [
  | inl runs ↦
      let asked = Calm.list_oldest_calm schedule_id backup_type keep w.backups calm in
      let old = Repo.oldest schedule_id backup_type keep w.backups.rows in
      let w' = record w {
        backups = (Repo.list_oldest_by_backup_type schedule_id backup_type keep w.backups).1;
      } in
      let same = ap (λ a. a.1) asked in
      let (still, rest) = delete_each_calm old w' (ap (λ t. t.faults) same ∙ calm) in
      rw (ap (λ a. a.0) asked, retain, runs)
        (still, rest ∙ ap (λ t. filter (survives w.restored old) t.rows) same)
  | inr off ↦ rw off (calm, sym (survives_none w.restored w.backups.rows))
]

-- No two rows have one identifier.
unfoldable pub HasDistinctIds : List Backup → Type 0
HasDistinctIds rows = (id : String) → number (Repo.has_id id) rows ≤ 1

-- A successful backup of the schedule and the type.
abbrev pub is_copy : String → String → Backup → Bool
is_copy schedule_id backup_type b =
    (elim b.schedule_id [ none ↦ false | some s ↦ s == schedule_id ])
    && (b.backup_type == backup_type && b.status == "success")

-- The copies of a schedule and a type, oldest first.
abbrev pub copies : String → String → List Backup → List Backup
copies schedule_id backup_type rows = Repo.by_age (filter (is_copy schedule_id backup_type) rows)

-- With distinct identifiers, what follows a part of a list survives its deletion.
pub survives_rest :
    (restored : List String) (ds bs : List Backup) (p : Backup → Bool)
    → ((id : String) → number (Repo.has_id id) ds + number (Repo.has_id id) bs ≤ 1)
    → number p (filter (survives restored ds) bs) ≡ number p bs
survives_rest restored ds [] p h = refl
survives_rest restored ds (b ∷ bs) p h =
    let here = h b.id in
    let gone = any_none (Repo.has_id b.id) ds in
    let ih = survives_rest restored ds bs p (λ id. let each = h id in ground (arith, each)) in
    ground (arith, here, gone, ih, eq_refl b.id)

abbrev pub is_restored : List String → Backup → Bool
is_restored restored b = is_one_of b.id restored

-- Of rows whose identifiers are among those deleted, the restored ones survive.
pub survives_self :
    (restored : List String) (ds bs : List Backup) (p : Backup → Bool)
    → ((id : String) → any (Repo.has_id id) bs ≡ true → any (Repo.has_id id) ds ≡ true)
    → number p (filter (survives restored ds) bs) ≡ number p (filter (is_restored restored) bs)
survives_self restored ds [] p h = refl
survives_self restored ds (b ∷ bs) p h =
    let here = h b.id in
    let ih = survives_self restored ds bs p (λ id e. let each = h id in ground (arith, each, e)) in
    ground (arith, here, ih, eq_refl b.id)

number-split :
    (p q : Backup → Bool) (xs : List Backup)
    → number p (filter q xs) + number p (filter (λ x. not (q x)) xs) ≡ number p xs
number-split p q [] = omega arith
number-split p q (x ∷ xs) = let ih = number-split p q xs in ground (arith, ih)

pub filter_ext :
    (p q : Backup → Bool) (xs : List Backup)
    → ((x : Backup) → p x ≡ q x)
    → filter p xs ≡ filter q xs
filter_ext p q [] h = refl
filter_ext p q (x ∷ xs) h = let ih = filter_ext p q xs h in rw (h x, ih) refl

pub filter_comm :
    (p q : Backup → Bool) (xs : List Backup) → filter p (filter q xs) ≡ filter q (filter p xs)
filter_comm p q [] = refl
filter_comm p q (x ∷ xs) = let ih = filter_comm p q xs in ground (arith, ih)

-- A test counts as many of the filtered rows whichever order they stand in.
pub number-filter-by_age :
    (p q : Backup → Bool) (xs : List Backup)
    → number p (filter q xs) ≡ number p (filter q (Repo.by_age xs))
number-filter-by_age p q xs =
    ap length (filter-filter p q xs)
    ∙ sym (number-by_age (λ x. q x && p x) xs)
    ∙ sym (ap length (filter-filter p q (Repo.by_age xs)))

-- How many of the copies a round deletes.
abbrev pub surplus : String → String → ℕ → List Backup → ℕ
surplus schedule_id backup_type keep rows = length (copies schedule_id backup_type rows) - keep

all_but-take : (keep : ℕ) (bs : List Backup) → Repo.all_but keep bs ≡ take (length bs - keep) bs
unfolding Repo.all_but
all_but-take keep bs = elim (Bool-cases (leb (length bs) keep)) [
  | inl few ↦ let no_surplus : length bs - keep ≡ 0 = ground arith in rw (few, no_surplus) refl
  | inr many ↦ rw many refl
]

is_kept_copy-is_copy :
    (schedule_id backup_type : String) (b : Backup)
    → Repo.is_kept_copy schedule_id backup_type b ≡ is_copy schedule_id backup_type b
unfolding Repo.is_kept_copy
is_kept_copy-is_copy schedule_id backup_type b = ground arith

pub victims-copies :
    (schedule_id backup_type : String) (keep : ℕ) (rows : List Backup)
    → 0 < keep
    → victims schedule_id backup_type keep rows
      ≡ map Repo.scanned
          (take (surplus schedule_id backup_type keep rows) (copies schedule_id backup_type rows))
unfolding Repo.oldest
victims-copies schedule_id backup_type keep rows pos =
    let cs = copies schedule_id backup_type rows in
    let runs : victims schedule_id backup_type keep rows
        ≡ Repo.oldest schedule_id backup_type keep rows =
      ground arith in
    runs
    ∙ ap (λ bs. Repo.all_but keep (map Repo.scanned (Repo.by_age bs)))
        (filter_ext _ _ rows (is_kept_copy-is_copy schedule_id backup_type))
    ∙ all_but-take keep (map Repo.scanned cs)
    ∙ rw (length-map Repo.scanned cs) (take-map Repo.scanned (length cs - keep) cs)

-- What the round deletes and what it keeps are parts of the copies.
pub cut-IsDistinct :
    (schedule_id backup_type : String) (k : ℕ) (rows : List Backup) (id : String)
    → HasDistinctIds rows
    → (number (Repo.has_id id) (take k (copies schedule_id backup_type rows))
          + number (Repo.has_id id) (drop k (copies schedule_id backup_type rows))
        ≤ 1)
      × (number (Repo.has_id id) (take k (copies schedule_id backup_type rows))
            + number (Repo.has_id id) (filter (λ b. not (is_copy schedule_id backup_type b)) rows)
          ≤ 1)
unfolding HasDistinctIds
cut-IsDistinct schedule_id backup_type k rows id distinct =
    let cs = copies schedule_id backup_type rows in
    let kept = filter (is_copy schedule_id backup_type) rows in
    let whole = ap (number (Repo.has_id id)) (take-append-drop k cs) in
    let cut = number-append (Repo.has_id id) (take k cs) (drop k cs) in
    let split = number-split (Repo.has_id id) (is_copy schedule_id backup_type) rows in
    let all = number-by_age (Repo.has_id id) kept in
    let one = distinct id in
    (omega (arith, whole, cut, split, all, one), omega (arith, whole, cut, split, all, one))

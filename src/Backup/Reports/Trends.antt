-- ===== src/Backup/Reports/Trends.antt =====
-- What the daily trends of internal/repository/postgres/backup.go count.
use backupeer.Prelude.{
  ℕ, ◌+◌, ◌*◌, ◌<◌, ◌≡◌, ◌∙◌, refl, ap, Bool, true, false, List, [], ◌∷◌, ok, wrap, arith,
  Bool-cases, inl, inr, filter, length, All, number, ◌==◌, ltb, eqb, if◌then◌else◌,
}
use backupeer.Table.{Table}
use backupeer.Table.Laws.{query_calm}
use backupeer.Backup.{Backup}
use backupeer.Backup.Reports.{
  BackupTrend, add_row, trends_of, is_recent, list_trends, no_rows, with_row,
}

-- The entry of a day, or one that counts nothing.
abbrev pub entry : ℕ → List BackupTrend → BackupTrend
entry day [] = no_rows day
entry day (t ∷ ts) = if eqb day t.day then t else entry day ts

abbrev Above : ℕ → List BackupTrend → Type 0
Above d ts = All (λ t. d < t.day) ts

-- The days rise.
abbrev pub IsAscending : List BackupTrend → Type 0
IsAscending [] = Unit
IsAscending (t ∷ ts) = Above t.day ts × IsAscending ts

entry-Above : (d : ℕ) (ts : List BackupTrend) → Above d ts → entry d ts ≡ no_rows d
entry-Above d [] h = refl
entry-Above d (t ∷ ts) h = let ih = entry-Above d ts h.1 in ground (arith, ih, h.0)

Above-lt : (d e : ℕ) (ts : List BackupTrend) → d < e → Above e ts → Above d ts
Above-lt d e [] lt h = tt
Above-lt d e (t ∷ ts) lt h = let ih = Above-lt d e ts lt h.1 in (omega (arith, lt, h.0), ih)

module _ (add : BackupTrend → BackupTrend)
    (same_day : (t : BackupTrend) → (add t).day ≡ t.day) where
  add_row-Above :
      (d day : ℕ) (ts : List BackupTrend) → d < day → Above d ts → Above d (add_row add day ts)
  unfolding add_row
  add_row-Above d day [] lt h = rw (same_day (no_rows day)) (lt, tt)
  add_row-Above d day (t ∷ ts) lt h =
      let ih = add_row-Above d day ts lt h.1 in
      ground (arith, ih, h.0, h.1, lt, same_day t, same_day (no_rows day))

  add_row-IsAscending :
      (day : ℕ) (ts : List BackupTrend) → IsAscending ts → IsAscending (add_row add day ts)
  unfolding add_row
  add_row-IsAscending day [] h = (tt, tt)
  add_row-IsAscending day (t ∷ ts) h =
      let ih = add_row-IsAscending day ts h.1 in
      let above = add_row-Above t.day day ts in
      let below = Above-lt day t.day ts in
      ground (arith, ih, above, below, h.0, h.1, same_day t, same_day (no_rows day))

  entry_added :
      (d : ℕ) (t : BackupTrend) (ts : List BackupTrend)
      → entry d (add t ∷ ts) ≡ (if eqb d t.day then add t else entry d ts)
  entry_added d t ts = ap (λ day. if eqb d day then add t else entry d ts) (same_day t)

  new_case :
      (d day : ℕ)
      → (if eqb d day then add (no_rows day) else no_rows d)
        ≡ (if eqb d day then add (no_rows d) else no_rows d)
  new_case d day = elim (Bool-cases (eqb d day)) [
    | inl hit ↦ let e : d ≡ day = ground arith in rw e refl
    | inr miss ↦ rw miss refl
  ]

  same_case :
      (d day : ℕ) (t : BackupTrend) (ts : List BackupTrend)
      → eqb day t.day ≡ true
      → (if eqb d t.day then add t else entry d ts)
        ≡ (if eqb d day then add (entry d (t ∷ ts)) else entry d (t ∷ ts))
  same_case d day t ts same = elim (Bool-cases (eqb d t.day)) [
    | inl hit ↦ let both : eqb d day ≡ true = ground arith in rw (hit, both) refl
    | inr miss ↦ let neither : eqb d day ≡ false = ground arith in rw (miss, neither) refl
  ]

  early_case :
      (d day : ℕ) (t : BackupTrend) (ts : List BackupTrend)
      → ltb day t.day ≡ true
      → IsAscending (t ∷ ts)
      → (if eqb d day then add (no_rows day) else entry d (t ∷ ts))
        ≡ (if eqb d day then add (entry d (t ∷ ts)) else entry d (t ∷ ts))
  early_case d day t ts early h = elim (Bool-cases (eqb d day)) [
    | inl hit ↦
        let e : d ≡ day = ground arith in
        let before : d < t.day = ground arith in
        let absent = entry-Above d (t ∷ ts) (before, Above-lt d t.day ts before h.0) in
        rw (absent, e) refl
    | inr miss ↦ rw miss refl
  ]

  late_case :
      (d day : ℕ) (t : BackupTrend) (ts : List BackupTrend)
      → eqb day t.day ≡ false
      → (if eqb d t.day then t else (if eqb d day then add (entry d ts) else entry d ts))
        ≡ (if eqb d day then add (entry d (t ∷ ts)) else entry d (t ∷ ts))
  late_case d day t ts other = elim (Bool-cases (eqb d day)) [
    | inl hit ↦ let far : eqb d t.day ≡ false = ground arith in rw (hit, far) refl
    | inr miss ↦ rw miss refl
  ]

  entry-add_row :
      (d day : ℕ) (ts : List BackupTrend)
      → IsAscending ts
      → entry d (add_row add day ts) ≡ (if eqb d day then add (entry d ts) else entry d ts)
  unfolding add_row
  entry-add_row d day [] h = entry_added d (no_rows day) [] ∙ new_case d day
  entry-add_row d day (t ∷ ts) h =
      let ih = entry-add_row d day ts h.1 in
      elim (Bool-cases (eqb day t.day)) [
        | inl same ↦ rw (same, add_row) (entry_added d t ts ∙ same_case d day t ts same)
        | inr other ↦ elim (Bool-cases (ltb day t.day)) [
          | inl early ↦
              rw (other, early, add_row)
                (entry_added d (no_rows day) (t ∷ ts) ∙ early_case d day t ts early h)
          | inr late ↦ rw (other, late, add_row) (rw ih (late_case d day t ts other))
        ]
      ]

-- The aggregates of some rows.
abbrev pub aggregate : ℕ → List Backup → BackupTrend
aggregate day [] = no_rows day
aggregate day (b ∷ bs) = with_row b (aggregate day bs)

abbrev pub on_day : (ℕ → ℕ) → ℕ → Backup → Bool
on_day day_of d b = eqb d (day_of b.created_at)

trends_of-IsAscending : (day_of : ℕ → ℕ) (bs : List Backup) → IsAscending (trends_of day_of bs)
unfolding trends_of
trends_of-IsAscending day_of [] = tt
trends_of-IsAscending day_of (b ∷ bs) =
    add_row-IsAscending (with_row b) (λ t. refl) (day_of b.created_at) (trends_of day_of bs)
      (trends_of-IsAscending day_of bs)

entry-trends_of :
    (day_of : ℕ → ℕ) (d : ℕ) (bs : List Backup)
    → entry d (trends_of day_of bs) ≡ aggregate d (filter (on_day day_of d) bs)
unfolding trends_of
entry-trends_of day_of d [] = refl
entry-trends_of day_of d (b ∷ bs) =
    let ih = entry-trends_of day_of d bs in
    let one =
      entry-add_row (with_row b) (λ t. refl) d (day_of b.created_at) (trends_of day_of bs)
        (trends_of-IsAscending day_of bs) in
    ground (arith, ih, one)

-- The numbers of a day count its rows.
aggregate-counts :
    (d : ℕ) (bs : List Backup)
    → ((aggregate d bs).total_backups ≡ length bs)
      × ((aggregate d bs).success_count ≡ number (λ b. b.status == "success") bs)
      × ((aggregate d bs).failed_count ≡ number (λ b. b.status == "failed") bs)
aggregate-counts d [] = (refl, refl, refl)
aggregate-counts d (b ∷ bs) = let (x, y, z) = aggregate-counts d bs in ground (arith, x, y, z)

-- The daily report, on a database that answers: its days rise, and the entry of each day holds the
-- aggregates of the backups of that day whose age is less than the given number of days, counting all, the successful and the failed
-- ones; a day without backups has no entry or one that counts nothing.
pub list_trends_calm :
    (day_of : ℕ → ℕ) (now days : ℕ) (t : Table Backup)
    → t.faults ≡ []
    → (ts : List BackupTrend) × ((list_trends day_of now days t).0 ≡ ok ts)
      × IsAscending ts
      × ((d : ℕ)
          → let rows =
              filter
                (on_day day_of d)
                (filter (λ b. ltb now (b.created_at + days * 86400000)) t.rows) in
            (entry d ts ≡ aggregate d rows)
            × ((entry d ts).total_backups ≡ length rows)
            × ((entry d ts).success_count ≡ number (λ b. b.status == "success") rows)
            × ((entry d ts).failed_count ≡ number (λ b. b.status == "failed") rows))
unfolding list_trends is_recent
list_trends_calm day_of now days t calm =
    let recent = filter (is_recent now days) t.rows in
    let answered =
      query_calm (λ rows. trends_of day_of (filter (is_recent now days) rows)) t calm in
    (
      trends_of day_of recent,
      ap (λ a. wrap "list trends: " a.0) answered,
      trends_of-IsAscending day_of recent,
      (λ d.
          let rows = filter (on_day day_of d) recent in
          let e = entry-trends_of day_of d recent in
          let (x, y, z) = aggregate-counts d rows in
          (
            e,
            ap (λ a. a.total_backups) e ∙ x,
            ap (λ a. a.success_count) e ∙ y,
            ap (λ a. a.failed_count) e ∙ z,
          )),
    )

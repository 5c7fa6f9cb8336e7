-- ===== src/Backup/Repo/Sorting.antt =====
-- The two orders of internal/repository/postgres/backup.go list the rows that they are given.
use backupeer.Prelude.{ℕ, ◌≤◌, ◌≡◌, ◌∙◌, refl, Bool, List, [], ◌∷◌, arith, All, number}
use backupeer.Backup.{Backup}
use backupeer.Backup.Repo.{by_age, insert_by_age, newest_first, insert_newest_first}

number-insert_newest_first :
    (p : Backup → Bool) (b : Backup) (bs : List Backup)
    → number p (insert_newest_first b bs) ≡ number p (b ∷ bs)
unfolding insert_newest_first
number-insert_newest_first p b [] = refl
number-insert_newest_first p b (x ∷ xs) =
    let ih = number-insert_newest_first p b xs in ground (arith, ih)

pub number-newest_first :
    (p : Backup → Bool) (bs : List Backup) → number p (newest_first bs) ≡ number p bs
unfolding newest_first
number-newest_first p [] = refl
number-newest_first p (b ∷ bs) =
    let ih = number-newest_first p bs in
    number-insert_newest_first p b (newest_first bs) ∙ ground (arith, ih)

number-insert_by_age :
    (p : Backup → Bool) (b : Backup) (bs : List Backup)
    → number p (insert_by_age b bs) ≡ number p (b ∷ bs)
unfolding insert_by_age
number-insert_by_age p b [] = refl
number-insert_by_age p b (x ∷ xs) = let ih = number-insert_by_age p b xs in ground (arith, ih)

pub number-by_age : (p : Backup → Bool) (bs : List Backup) → number p (by_age bs) ≡ number p bs
unfolding by_age
number-by_age p [] = refl
number-by_age p (b ∷ bs) =
    let ih = number-by_age p bs in number-insert_by_age p b (by_age bs) ∙ ground (arith, ih)

abbrev pub AllFrom : ℕ → List Backup → Type 0
AllFrom t bs = All (λ x. t ≤ x.created_at) bs

-- Every row is at least as old as the rows after it.
abbrev pub IsOldestFirst : List Backup → Type 0
IsOldestFirst [] = Unit
IsOldestFirst (b ∷ bs) = AllFrom b.created_at bs × IsOldestFirst bs

AllFrom-le : (t u : ℕ) (bs : List Backup) → t ≤ u → AllFrom u bs → AllFrom t bs
AllFrom-le t u [] h a = tt
AllFrom-le t u (b ∷ bs) h (x, a) = (omega arith, AllFrom-le t u bs h a)

AllFrom-insert :
    (t : ℕ) (b : Backup) (bs : List Backup)
    → t ≤ b.created_at
    → AllFrom t bs
    → AllFrom t (insert_by_age b bs)
unfolding insert_by_age
AllFrom-insert t b [] h a = (h, tt)
AllFrom-insert t b (x ∷ xs) h (hx, a) = let ih = AllFrom-insert t b xs h a in ground (arith, ih)

insert-IsOldestFirst :
    (b : Backup) (bs : List Backup) → IsOldestFirst bs → IsOldestFirst (insert_by_age b bs)
unfolding insert_by_age
insert-IsOldestFirst b [] s = (tt, tt)
insert-IsOldestFirst b (x ∷ xs) (a, s) =
    let ih = insert-IsOldestFirst b xs s in
    let le = AllFrom-le b.created_at x.created_at xs in
    let ins = AllFrom-insert x.created_at b xs in ground (arith, ih, le, ins)

pub by_age-IsOldestFirst : (bs : List Backup) → IsOldestFirst (by_age bs)
unfolding by_age
by_age-IsOldestFirst [] = tt
by_age-IsOldestFirst (b ∷ bs) = insert-IsOldestFirst b (by_age bs) (by_age-IsOldestFirst bs)

-- ===== src/Backup/Slots.antt =====
-- internal/backup/service.go: the channel `semaphore` of capacity 3 that the backup goroutines pass.
use backupeer.Prelude.{
  ℕ, suc, ◌+◌, ◌*◌, ◌≤◌, ◌<◌, ◌≡◌, String, List, [], ◌∷◌, ◌++◌, arith, length, length-append,
}

-- `make(chan struct{}, 3)`
abbrev pub capacity : ℕ
capacity = 3

-- The backups whose goroutine waits for a slot, those that hold one, and those that gave it back.
pub record Slots : Type 0 where
  pub waiting : List String
  pub running : List String
  pub finished : List String

abbrev pub no_backups : Slots
no_backups = record { waiting = []; running = []; finished = [] }

-- What a backup goroutine does. Go does not say which of several waiting goroutines goes on.
pub data Work : Slots → Slots → Type 0 where
  acquire :
      (earlier later running finished : List String) (id : String)
      → length running < capacity
      → Work
          (record { waiting = earlier ++ (id ∷ later); running = running; finished = finished })
          (record { waiting = earlier ++ later; running = id ∷ running; finished = finished })
  release :
      (waiting earlier later finished : List String) (id : String)
      → Work
          (record { waiting = waiting; running = earlier ++ (id ∷ later); finished = finished })
          (record { waiting = waiting; running = earlier ++ later; finished = id ∷ finished })

-- The states that calls of StartBackup and their goroutines lead to.
pub data Reachable : Slots → Type 0 where
  initial : Reachable no_backups
  started :
      (s : Slots) (id : String) → Reachable s → Reachable (record s { waiting = id ∷ s.waiting })
  worked : (s t : Slots) → Reachable s → Work s t → Reachable t

length-insert :
    (earlier later : List String) (id : String)
    → length (earlier ++ (id ∷ later)) ≡ suc (length (earlier ++ later))
length-insert earlier later id =
    omega (arith, length-append earlier (id ∷ later), length-append earlier later)

-- At most three backups run at once.
pub Reachable-capacity : (s : Slots) → Reachable s → length s.running ≤ 3
Reachable-capacity _ initial = omega arith
Reachable-capacity _ (started s id r) = Reachable-capacity s r
Reachable-capacity _ (worked _ _ r (acquire earlier later running finished id free)) = omega arith
Reachable-capacity _ (worked _ _ r (release waiting earlier later finished id)) =
    let before = Reachable-capacity _ r in omega (arith, before, length-insert earlier later id)

-- How many steps the backups of a state still take: two for each that waits, one for each that runs.
unfoldable pub remaining : Slots → ℕ
remaining s = 2 * length s.waiting + length s.running

next-Work :
    (waiting running finished : List String)
    → 0 < 2 * length waiting + length running
    → (t : Slots) × Work (record { waiting = waiting; running = running; finished = finished }) t
next-Work waiting (id ∷ running) finished h = (_, release waiting [] running finished id)
next-Work (id ∷ waiting) [] finished h = (_, acquire [] waiting [] finished id (omega arith))
next-Work [] [] finished h = ground (arith, h)

-- While a backup waits or runs, some goroutine can go on.
pub Work-progress : (s : Slots) → 0 < remaining s → (t : Slots) × Work s t
unfolding remaining
Work-progress s h = next-Work s.waiting s.running s.finished h

-- ===== src/Monitoring/Lifecycle.antt =====
-- The starts and stops of the collector of internal/monitoring/collector.go.
use backupeer.Prelude.{ℕ, suc, ◌≤◌, ◌≡◌, refl, Bool, true, false, none, some, arith, if◌then◌else◌}
use backupeer.Monitoring.{Collector, new_collector, start, stop}

-- The collectors that calls of Start and Stop that do not panic, and loops that return, lead to. A
-- loop returns only once the channel is closed, or when the program ends.
pub data Reachable : Collector → Type 0 where
  created : Reachable new_collector
  started : (c : Collector) → Reachable c → Reachable (start c)
  stopped : (c d : Collector) → Reachable c → stop c ≡ some d → Reachable d
  returned :
      (running : Bool) (n : ℕ)
      → Reachable (record { running = running; closed = true; loops = suc n })
      → Reachable (record { running = running; closed = true; loops = n })

-- What is known of the loops.
unfoldable pub IsSound : Collector → Type 0
IsSound c =
    (c.closed ≡ false → c.loops ≡ (if c.running then 1 else 0))
    × (c.closed ≡ true → c.loops ≤ (if c.running then 2 else 1))

-- Until the channel is closed there is one loop exactly while the collector runs; after that there is
-- at most one, or two while it runs again.
pub Reachable-IsSound : (c : Collector) → Reachable c → IsSound c
unfolding IsSound new_collector start stop
Reachable-IsSound _ created = (λ h. refl, λ h. ground (arith, h))
Reachable-IsSound _ (started c r) =
    let (live, late) = Reachable-IsSound c r in ground (arith, live, late)
Reachable-IsSound _ (stopped c d r h) =
    let (live, late) = Reachable-IsSound c r in ground (arith, live, late, h)
Reachable-IsSound _ (returned running n r) =
    let (live, late) = Reachable-IsSound _ r in
    (λ h. ground (arith, h), λ h. omega (arith, late refl))

-- Once a running collector was stopped, the next Start followed by Stop panics, whatever loops
-- returned in between: the channel stays closed.
pub restart_panics :
    (c d : Collector) (n : ℕ)
    → c.running ≡ true
    → stop c ≡ some d
    → stop (start (record d { loops = n })) ≡ none
unfolding start stop
restart_panics c d n runs h = ground (arith, runs, h)

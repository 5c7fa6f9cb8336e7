-- ===== src/Monitoring/Cycle.antt =====
-- What a cycle of the collector of internal/monitoring/collector.go records.
use backupeer.Prelude.{
  ℕ, ◌+◌, ◌<◌, ◌≤◌, ◌≡◌, ◌↔◌, ◌∙◌, sym, ap, String, none, some, List, [], ◌∷◌, ◌++◌, ok, err, arith,
  map, concat, length, eq_iff, Option-cases, Result-cases, Bool-cases, inl, inr, ◌==◌,
  if◌then◌else◌,
}
use mathlib.Core.List.{append_assoc, append-nil}
use backupeer.Monitoring.{
  HealthCheck, Probe, Visit, Log, collect_health, collect_connection, visit, collect,
}

-- A server counts as healthy exactly when it answers in less than a second, and as degraded exactly
-- when it answers in less than five.
pub status-collect_health :
    (now : ℕ) (id : String) (p : Probe)
    → (((collect_health now id p).status ≡ "healthy")
        ↔ ((p.connect ≡ none) × (p.ping ≡ none) × (p.elapsed < 1000)))
      × (((collect_health now id p).status ≡ "degraded")
          ↔ ((p.connect ≡ none) × (p.ping ≡ none) × (1000 ≤ p.elapsed) × (p.elapsed < 5000)))
unfolding collect_health
status-collect_health now id p = (
  (
    (λ h. ground (arith, h, eq_iff "down" "healthy", eq_iff "degraded" "healthy")),
    (λ h. ground (arith, h)),
  ),
  (
    (λ h. ground (arith, h, eq_iff "down" "degraded", eq_iff "healthy" "degraded")),
    (λ h. ground (arith, h)),
  ),
)

module _ {Sample : Type 0} where
  -- The health check that a visit leaves: none where the connection or the store fails.
  abbrev pub recorded : Visit Sample → List HealthCheck
  recorded v = elim v.details [
    | err _ ↦ []
    | ok none ↦ []
    | ok (some conn) ↦ elim v.save [
      | some _ ↦ []
      | none ↦ collect_health v.now conn.id v.probe ∷ []
    ]
  ]

  -- Its samples: none where the server is down too.
  abbrev pub sampled : Visit Sample → List Sample
  sampled v = elim v.details [
    | err _ ↦ []
    | ok none ↦ []
    | ok (some conn) ↦ elim v.save [
      | some _ ↦ []
      | none ↦ if (collect_health v.now conn.id v.probe).status == "down" then [] else v.samples
    ]
  ]

  visit-records :
      (v : Visit Sample) (s : Log Sample)
      → ((visit v s).1.health ≡ s.health ++ recorded v)
        × ((visit v s).1.samples ≡ s.samples ++ sampled v)
  unfolding visit collect_connection
  visit-records v s =
      let no_check = append-nil s.health in
      let no_sample = append-nil s.samples in
      elim (Result-cases v.details) [
        | inr (x, e) ↦ ground (arith, e, no_check, no_sample)
        | inl (none, e) ↦ ground (arith, e, no_check, no_sample)
        | inl (some conn, e) ↦ elim (Option-cases v.save) [
          | inr (x, k) ↦ ground (arith, e, k, no_check, no_sample)
          | inl k ↦ elim (Bool-cases ((collect_health v.now conn.id v.probe).status == "down")) [
            | inl down ↦ ground (arith, e, k, down, no_sample)
            | inr up ↦ ground (arith, e, k, up)
          ]
        ]
      ]

  -- A cycle goes through all connections: it counts each once, as a success or a failure, and records
  -- the health checks and the samples of each in order, whatever fails at the others.
  pub collect-records :
      (vs : List (Visit Sample)) (s : Log Sample)
      → ((collect vs s).0.0 + (collect vs s).0.1 ≡ length vs)
        × ((collect vs s).1.health ≡ s.health ++ concat (map recorded vs))
        × ((collect vs s).1.samples ≡ s.samples ++ concat (map sampled vs))
  unfolding collect
  collect-records [] s = (omega arith, sym (append-nil s.health), sym (append-nil s.samples))
  collect-records (v ∷ vs) s =
      let seen = visit v s in
      let (health, samples) = visit-records v s in
      let (all, checks, rest) = collect-records vs seen.1 in
      let checks' =
        checks
        ∙ ap (λ h. h ++ concat (map recorded vs)) health
        ∙ append_assoc s.health (recorded v) (concat (map recorded vs)) in
      let rest' =
        rest
        ∙ ap (λ h. h ++ concat (map sampled vs)) samples
        ∙ append_assoc s.samples (sampled v) (concat (map sampled vs)) in
      elim (Option-cases seen.0) [
        | inl e ↦ rw (e, collect) (omega (arith, all), checks', rest')
        | inr (x, e) ↦ rw (e, collect) (omega (arith, all), checks', rest')
      ]

-- ===== src/Monitoring.antt =====
-- internal/monitoring/collector.go: the collector's life, its cycle over the connections and the
-- health check. The queries of the monitored servers are parameters.
pub mod Lifecycle
pub mod Cycle
pub mod Source
pub mod Decimal
pub mod Samples
pub mod Select
pub mod Catalog
pub mod Store
pub mod Handler
pub mod Collect
use backupeer.Prelude.{
  ℕ, zero, suc, ◌+◌, ◌-◌, String, Bool, true, false, Option, none, some, List, [], ◌∷◌, ◌++◌,
  Result, ok, err, ◌<>◌, ◌==◌, format_int, ltb, if◌then◌else◌,
}
use backupeer.Connection.{Connection}

-- `running`, whether `stopCh` is closed, and the loops that have not returned yet.
pub record Collector : Type 0 where
  pub running : Bool
  pub closed : Bool
  pub loops : ℕ

unfoldable pub new_collector : Collector
new_collector = record { running = false; closed = false; loops = 0 }

unfoldable pub start : Collector → Collector
start c = if c.running then c else record c { running = true; loops = suc c.loops }

-- `none` is the panic of closing a closed channel.
unfoldable pub stop : Collector → Option Collector
stop c =
    if c.running
    then (if c.closed then none else some (record c { running = false; closed = true }))
    else some c

-- `HealthCheck`
pub record HealthCheck : Type 0 where
  pub time : ℕ
  pub connection_id : String
  pub status : String
  pub response_time_ms : ℕ
  pub active_connections : ℕ
  pub error_message : String

-- What a server answers: the errors of `openSourceDB` and `Ping`, the time that the ping took in
-- milliseconds, and its active connections.
pub record Probe : Type 0 where
  pub connect : Option String
  pub ping : Option String
  pub elapsed : ℕ
  pub active : ℕ

unfoldable pub collect_health : ℕ → String → Probe → HealthCheck
collect_health now id p =
    let down : ℕ → ℕ → String → HealthCheck = λ elapsed active message. record {
      time = now;
      connection_id = id;
      status = "down";
      response_time_ms = elapsed;
      active_connections = active;
      error_message = message;
    } in
    let up : String → HealthCheck = λ status. record {
      time = now;
      connection_id = id;
      status = status;
      response_time_ms = p.elapsed;
      active_connections = p.active;
      error_message = "";
    } in
    elim p.connect [
      | some e ↦ down 0 0 e
      | none ↦ elim p.ping [
        | some e ↦ down p.elapsed 0 e
        | none ↦
            if ltb p.elapsed 1000
            then up "healthy"
            else if ltb p.elapsed 5000
            then up "degraded"
            else down p.elapsed p.active
                ("response time too high: " <> format_int p.elapsed <> "ms")
      ]
    ]

-- What one connection meets in a cycle: the answer of `GetByID`, the server, the error of saving the
-- health check, and what the further collections record (database metrics, slow queries, autovacuum,
-- locks, replication and tables), whose own errors are only logged.
pub record Visit (Sample : Type 0) : Type 0 where
  pub id : String
  pub details : Result (Option Connection)
  pub now : ℕ
  pub probe : Probe
  pub save : Option String
  pub samples : List Sample

-- What was recorded.
pub record Log (Sample : Type 0) : Type 0 where
  pub health : List HealthCheck
  pub samples : List Sample

module _ {Sample : Type 0} where
  -- `collectConnection`
  unfoldable pub collect_connection :
      Connection → Visit Sample → Log Sample → Option String × Log Sample
  collect_connection conn v s =
      let h = collect_health v.now conn.id v.probe in
      let s' = record s { health = s.health ++ (h ∷ []) } in
      elim v.save [
        | some e ↦ (some ("save health check: " <> e), s)
        | none ↦
            if h.status == "down"
            then (none, s')
            else (none, record s' { samples = s.samples ++ v.samples })
      ]

  -- One turn of the loop of `collect`.
  unfoldable pub visit : Visit Sample → Log Sample → Option String × Log Sample
  visit v s = elim v.details [
    | err e ↦ (some e, s)
    | ok none ↦ (some "connection not found", s)
    | ok (some conn) ↦ collect_connection conn v s
  ]

  -- The loop of `collect`: how many connections succeeded and failed.
  unfoldable pub collect : List (Visit Sample) → Log Sample → (ℕ × ℕ) × Log Sample
  unfolding visit
  collect [] s = ((0, 0), s)
  collect (v ∷ vs) s =
      let seen = visit v s in
      let rest = collect vs seen.1 in
      elim seen.0 [
        | none ↦ ((suc rest.0.0, rest.0.1), rest.1)
        | some _ ↦ ((rest.0.0, suc rest.0.1), rest.1)
      ]

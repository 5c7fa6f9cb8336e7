-- ===== src/Schedule/Sync.antt =====
-- The scheduler's map of entries and the cron engine agree.
use backupeer.Prelude.{
  ℕ, ◌≡◌, ◌∙◌, refl, sym, String, false, Option, none, some, List, [], ◌∷◌, Result-cases, ok, arith,
  ◌==◌, eq_iff, eq_refl, eqb, map_get, map_get-map_set, map_get-map_delete, Option-cases,
  Bool-cases, if_both, any, inl, inr, if◌then◌else◌,
}
use backupeer.Table.{Table}
use backupeer.Schedule.{Schedule}
use backupeer.Schedule.Repo as Repo
use backupeer.Schedule.Scheduler.{
  Cron, IsCron, Scheduler, remove_job, register, add_job, register_all, start,
}

-- The schedules that Start lists have distinct identifiers, since it is the primary key.
unfoldable pub HasDistinctIds : List Schedule → Type 0
HasDistinctIds [] = Unit
HasDistinctIds (sch ∷ rest) = (any (Repo.has_id sch.id) rest ≡ false) × HasDistinctIds rest

module _ {C : Cron} where
  -- Every entry of the map runs a job of its schedule, and every job stands in the map under its
  -- schedule: so a schedule has one job at most.
  pub record InSync (s : Scheduler C) : Type 0 where
    pub has_job :
        (id : String) (i : ℕ)
        → map_get id s.entries ≡ some i
        → (sch : Schedule) × (C.job i s.cron ≡ some sch) × (sch.id ≡ id)
    pub has_entry :
        (i : ℕ) (sch : Schedule) → C.job i s.cron ≡ some sch → map_get sch.id s.entries ≡ some i

  AreFree : List Schedule → Scheduler C → Type 0
  AreFree [] s = Unit
  AreFree (sch ∷ rest) s = (map_get sch.id s.entries ≡ none) × AreFree rest s

  module _ (laws : IsCron C) where
    pub remove_job-InSync : (id : String) (s : Scheduler C) → InSync s → InSync (remove_job id s)
    unfolding remove_job
    remove_job-InSync id s sync = elim (Option-cases (map_get id s.entries)) [
      | inl e ↦ rw (remove_job, e) sync
      | inr (i, e) ↦
          let (gone, at, its) = sync.has_job id i e in
          rw (remove_job, e)
            (record {
              has_job = λ k j h.
                  let kept = map_get-map_delete k id s.entries in
                  let old : map_get k s.entries ≡ some j = ground (arith, kept, h) in
                  let (sch, there, own) = sync.has_job k j old in
                  (
                    sch,
                    laws.job-remove i j s.cron
                        ∙ ground (arith, kept, h, at, its, there, own, eq_iff id k),
                    own,
                  );
              has_entry = λ j sch h.
                  let kept = map_get-map_delete sch.id id s.entries in
                  let law = laws.job-remove i j s.cron in
                  let old = sync.has_entry j sch in
                  ground (arith, kept, law, h, old, e, eq_iff id sch.id);
            })
    ]

    -- Registering a schedule that has no entry.
    register-InSync :
        (sch : Schedule) (s : Scheduler C)
        → map_get sch.id s.entries ≡ none
        → InSync s
        → InSync (register sch s).1
    unfolding register
    register-InSync sch s free sync = elim (Result-cases (C.add_func sch.cron_expr sch s.cron).0) [
      | inr (x, e) ↦
          rw (register, e)
            (record {
              has_job = λ k j h.
                  let (old, there, own) = sync.has_job k j h in
                  (old, laws.job-add_func_failed sch.cron_expr sch s.cron x j e ∙ there, own);
              has_entry = λ j sch' h.
                  sync.has_entry j sch'
                    (sym (laws.job-add_func_failed sch.cron_expr sch s.cron x j e) ∙ h);
            })
      | inl (i, e) ↦
          let fresh = laws.add_fresh sch.cron_expr sch s.cron i e in
          let law = λ (k : ℕ). laws.job-add_func sch.cron_expr sch s.cron i k e in
          rw (register, e)
            (record {
              has_job = λ k j h.
                  let set = map_get-map_set k sch.id i s.entries in
                  let same = law j in
                  let old = sync.has_job k j in
                  elim (Bool-cases (sch.id == k)) [
                    | inl own ↦ (
                      sch,
                      ground (arith, set, same, h, own),
                      ground (arith, own, eq_iff sch.id k),
                    )
                    | inr other ↦
                        let (sch', there, own) = old (ground (arith, set, h, other)) in
                        (sch', ground (arith, same, fresh, there), own)
                  ];
              has_entry = λ j sch' h.
                  let set = map_get-map_set sch'.id sch.id i s.entries in
                  let same = law j in
                  let old = sync.has_entry j sch' in
                  elim (Bool-cases (eqb i j)) [
                    | inl own ↦ ground (arith, set, same, h, own, eq_iff sch.id sch'.id)
                    | inr other ↦
                        let before = old (ground (arith, same, h, other)) in
                        ground (arith, set, before, free, other, eq_iff sch.id sch'.id)
                  ];
            })
    ]

    map_get-remove_job :
        (id : String) (s : Scheduler C) → map_get id (remove_job id s).entries ≡ none
    unfolding remove_job
    map_get-remove_job id s =
        let gone = map_get-map_delete id id s.entries in
        elim (Option-cases (map_get id s.entries)) [
          | inl e ↦ rw (remove_job, e) e
          | inr (i, e) ↦ rw (remove_job, e) (ground (arith, gone, eq_refl id))
        ]

    -- AddJob keeps the map and the cron engine in agreement, whether it replaces an entry, drops it
    -- or is refused by the engine.
    pub add_job-InSync : (sch : Schedule) (s : Scheduler C) → InSync s → InSync (add_job sch s).1
    unfolding add_job
    add_job-InSync sch s sync =
        let clean = remove_job-InSync sch.id s sync in
        let ready = register-InSync sch (remove_job sch.id s) (map_get-remove_job sch.id s) clean in
        if_both (λ (r : Option String × Scheduler C). InSync r.1) sch.enabled ready clean

    AreFree-register :
        (sch : Schedule) (rest : List Schedule) (s : Scheduler C)
        → any (Repo.has_id sch.id) rest ≡ false
        → AreFree rest s
        → AreFree rest (register sch s).1
    unfolding AreFree register
    AreFree-register sch [] s other free = tt
    AreFree-register sch (x ∷ rest) s other (none_x, free) =
        let ih = AreFree-register sch rest s in
        let set = λ (i : ℕ). map_get-map_set x.id sch.id i s.entries in
        elim (Result-cases (C.add_func sch.cron_expr sch s.cron).0) [
          | inl (i, e) ↦ (
            rw (register, e)
                (ground (arith, set i, none_x, other, eq_iff x.id sch.id, eq_iff sch.id x.id)),
            ih (ground (arith, other)) free,
          )
          | inr (m, e) ↦ (rw (register, e) none_x, ih (ground (arith, other)) free)
        ]

    register_all-InSync :
        (schedules : List Schedule) (s : Scheduler C)
        → HasDistinctIds schedules
        → AreFree schedules s
        → InSync s
        → InSync (register_all schedules s)
    unfolding register_all HasDistinctIds AreFree
    register_all-InSync [] s distinct free sync = sync
    register_all-InSync (sch ∷ rest) s (other, distinct) (own, free) sync =
        register_all-InSync rest (if sch.enabled then (register sch s).1 else s) distinct
          (if_both (AreFree rest) sch.enabled (AreFree-register sch rest s other free) free)
          (if_both InSync sch.enabled (register-InSync sch s own sync) sync)

-- The schedulers that a start and calls of AddJob and RemoveJob lead to.
pub data Reachable (C : Cron) : Scheduler C → Type 0 where
  started :
      (t : Table Schedule) (c : C.State) (schedules : List Schedule)
      → ((k : ℕ) → C.job k c ≡ none)
      → (Repo.list t).0 ≡ ok schedules
      → HasDistinctIds schedules
      → Reachable C (start {C = C} t (record { cron = c; entries = [] })).1.1
  added : (s : Scheduler C) (sch : Schedule) → Reachable C s → Reachable C (add_job sch s).1
  removed : (s : Scheduler C) (id : String) → Reachable C s → Reachable C (remove_job id s)

module _ {C : Cron} (laws : IsCron C) where
  AreFree-empty :
      (schedules : List Schedule) (c : C.State)
      → AreFree {C = C} schedules (record { cron = c; entries = [] })
  unfolding AreFree
  AreFree-empty [] c = tt
  AreFree-empty (sch ∷ rest) c = (refl, AreFree-empty rest c)

  started-InSync : (s : Scheduler C) → InSync s → InSync (record s { cron = C.start s.cron })
  started-InSync s sync = record {
    has_job = λ id i h.
        let (sch, there, own) = sync.has_job id i h in (sch, laws.job-start i s.cron ∙ there, own);
    has_entry = λ i sch h. sync.has_entry i sch (sym (laws.job-start i s.cron) ∙ h);
  }

  start-InSync :
      (t : Table Schedule) (c : C.State) (schedules : List Schedule)
      → ((k : ℕ) → C.job k c ≡ none)
      → (Repo.list t).0 ≡ ok schedules
      → HasDistinctIds schedules
      → InSync (start {C = C} t (record { cron = c; entries = [] })).1.1
  unfolding start
  start-InSync t c schedules idle listed distinct =
      let empty : Scheduler C = record { cron = c; entries = [] } in
      let sync : InSync empty = record {
        has_job = λ id i h. ground (arith, h);
        has_entry = λ i sch h. let no_job = idle i in ground (arith, h, no_job);
      } in
      rw (listed, start)
        (started-InSync (register_all schedules empty)
          (register_all-InSync laws schedules empty distinct (AreFree-empty schedules c) sync))

  -- Whatever Start, AddJob and RemoveJob have done, each entry of the map runs a job of its schedule,
  -- each job of the cron engine is the entry of its schedule, and so no schedule has two jobs.
  pub Reachable-InSync : (s : Scheduler C) → Reachable C s → InSync s
  Reachable-InSync _ (started t c schedules idle listed distinct) =
      start-InSync t c schedules idle listed distinct
  Reachable-InSync _ (added s sch r) = add_job-InSync laws sch s (Reachable-InSync s r)
  Reachable-InSync _ (removed s id r) = remove_job-InSync laws id s (Reachable-InSync s r)

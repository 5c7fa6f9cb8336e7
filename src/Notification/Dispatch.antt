-- ===== src/Notification/Dispatch.antt =====
-- What NotifyBackupResult of internal/notification/service.go sends.
use backupeer.Prelude.{
  ◌≡◌, ◌∙◌, refl, ap, String, Option, none, some, List, [], ◌∷◌, ◌++◌, arith, map, concat,
  Option-cases, inl, inr,
}
use backupeer.Table.{Table, find, query, later_faults, next_fault}
use backupeer.Notification.{
  Notification, Formats, Post, has_id, get_by_id, posts_of, posts_for, notify,
}

-- The targets that the coming statements let the service read.
unfoldable pub reads :
    List String → List (Option String) → List Notification → List (Option Notification)
reads [] faults rows = []
reads (id ∷ ids) faults rows =
    (elim (next_fault faults) [ none ↦ find (has_id id) rows | some _ ↦ none ])
    ∷ reads ids (later_faults faults) rows

abbrev pub posts_or_none : Formats → String → Option Notification → List Post
posts_or_none f message none = []
posts_or_none f message (some n) = posts_of f message n

abbrev readable : String → List (Option String) → List Notification → Option Notification
readable id faults rows = elim (next_fault faults) [ none ↦ find (has_id id) rows | some _ ↦ none ]

posts_for-get_by_id :
    (f : Formats) (message id : String) (t : Table Notification)
    → posts_for f message (get_by_id id t).0 ≡ posts_or_none f message (readable id t.faults t.rows)
unfolding get_by_id query
posts_for-get_by_id f message id t = elim (Option-cases (next_fault t.faults)) [
  | inl e ↦ elim (Option-cases (find (has_id id) t.rows)) [
    | inl k ↦ ground (arith, e, k)
    | inr (n, k) ↦ ground (arith, e, k)
  ]
  | inr (x, e) ↦ ground (arith, e)
]

after-get_by_id :
    (id : String) (t : Table Notification)
    → ((get_by_id id t).1.faults ≡ later_faults t.faults) × ((get_by_id id t).1.rows ≡ t.rows)
unfolding get_by_id query
after-get_by_id id t = (ground arith, ground arith)

-- The requests are, in the order of the targets, those of each target that can be read: one that is
-- missing, that the database fails to read or whose configuration is bad loses only its own.
pub notify-reads :
    (f : Formats) (message : String) (ids : List String) (t : Table Notification)
    → (notify f message ids t).0
      ≡ concat (map (posts_or_none f message) (reads ids t.faults t.rows))
unfolding notify reads
notify-reads f message [] t = refl
notify-reads f message (id ∷ ids) t =
    let read = posts_for-get_by_id f message id t in
    let (faults, rows) = after-get_by_id id t in
    let posts : List (Option Notification) → List Post =
      λ ns. concat (map (posts_or_none f message) ns) in
    let rest =
      notify-reads f message ids (get_by_id id t).1
      ∙ ap (λ fs. posts (reads ids fs (get_by_id id t).1.rows)) faults
      ∙ ap (λ rs. posts (reads ids (later_faults t.faults) rs)) rows in
    ap (λ p. p ++ (notify f message ids (get_by_id id t).1).0) read
    ∙ ap (λ p. posts_or_none f message (readable id t.faults t.rows) ++ p) rest

-- ===== src/Notification/Handler.antt =====
-- internal/notification/handler.go. A list that is nil is written as an empty one.
use backupeer.Prelude.{
  ℕ, String, Option, none, some, List, [], ◌∷◌, ◌||◌, Result, ok, err, ◌==◌, wrap, if◌then◌else◌,
}
use backupeer.Http.{Response, write_error, write_json}
use backupeer.Table.{Table, query}
use backupeer.Notification.{Notification, Formats, Post, get_by_id, create, update, delete, notify}

-- `NotificationRepo.List`; `by_name` is ORDER BY name.
unfoldable pub list :
    (List Notification → List Notification)
    → Table Notification
    → Result (List Notification) × Table Notification
list by_name t = let answer = query by_name t in (wrap "list notifications: " answer.0, answer.1)

unfoldable pub handle_list :
    (List Notification → List Notification)
    → Table Notification
    → Response (List Notification) × Table Notification
unfolding list
handle_list by_name t =
    let answer = list by_name t in
    (elim answer.0 [ err e ↦ write_error 500 e | ok ns ↦ write_json 200 ns ], answer.1)

-- The guards of handleCreate.
abbrev pub missing_field : Notification → Option String
missing_field n =
    if n.name == ""
    then some "name is required"
    else if n.notif_type == ""
    then some "notif_type is required"
    else if n.config_json == "" || n.config_json == "{}"
    then some "config_json is required"
    else none

-- `none` stands for a body that cannot be decoded.
unfoldable pub handle_create :
    String
    → ℕ
    → Option Notification
    → Table Notification
    → Response Notification × Table Notification
handle_create id now none t = (write_error 400 "invalid request body", t)
handle_create id now (some n) t =
    let done = create id now n t in
    elim (missing_field n) [
      | some e ↦ (write_error 400 e, t)
      | none ↦ (
        elim done.0 [
          | some e ↦ write_error 400 e
          | none ↦ write_json 201 (record n { id = id; created_at = now; updated_at = now })
        ],
        done.1,
      )
    ]

unfoldable pub handle_get : String → Table Notification → Response Notification × Table Notification
handle_get id t =
    let answer = get_by_id id t in
    (
      elim answer.0 [
        | err e ↦ write_error 500 e
        | ok none ↦ write_error 404 "notification not found"
        | ok (some n) ↦ write_json 200 n
      ],
      answer.1,
    )

unfoldable pub handle_update :
    String
    → ℕ
    → Option Notification
    → Table Notification
    → Response Notification × Table Notification
handle_update id now none t = (write_error 400 "invalid request body", t)
handle_update id now (some n) t =
    let done = update now (record n { id = id }) t in
    (
      elim done.0 [
        | some e ↦ write_error 400 e
        | none ↦ write_json 200 (record n { id = id; updated_at = now })
      ],
      done.1,
    )

unfoldable pub handle_delete :
    String → Table Notification → Response (Option Notification) × Table Notification
handle_delete id t =
    let done = delete id t in
    (elim done.0 [ some e ↦ write_error 500 e | none ↦ write_json 204 none ], done.1)

-- The answer says that the message was sent, whatever became of it; `message` is what `formatMessage`
-- makes of the test.
unfoldable pub handle_test :
    Formats
    → String
    → String
    → Table Notification
    → Response String × (List Post × Table Notification)
handle_test f message id t =
    let answer = get_by_id id t in
    elim answer.0 [
      | err e ↦ (write_error 500 e, ([], answer.1))
      | ok none ↦ (write_error 404 "notification not found", ([], answer.1))
      | ok (some n) ↦ (write_json 200 "sent", notify f message (id ∷ []) answer.1)
    ]

-- ===== src/Notification.antt =====
-- internal/notification: the notification targets and the dispatch of a message (model.go and
-- service.go), over the table of internal/repository/postgres/notification.go.
pub mod Dispatch
pub mod Handler
use backupeer.Prelude.{
  ℕ, String, Bool, not, ◌||◌, Option, none, some, List, [], ◌∷◌, ◌++◌, Result, ok, err, ◌<>◌, ◌==◌,
  wrap, wrap_error, is_one_of, any, if◌then◌else◌,
}
use backupeer.Table.{
  Table, query, exec, find, update_where, delete_where, check_violation, unique_violation,
}

pub record Notification : Type 0 where
  pub id : String
  pub name : String
  pub notif_type : String
  pub config_json : String
  pub created_at : ℕ
  pub updated_at : ℕ

pub record TelegramConfig : Type 0 where
  pub bot_token : String
  pub chat_id : String

abbrev pub has_id : String → Notification → Bool
has_id id n = n.id == id

-- CHECK(notif_type IN ...)
abbrev pub notif_types : List String
notif_types = "telegram" ∷ "discord" ∷ "slack" ∷ []

unfoldable pub get_by_id :
    String → Table Notification → Result (Option Notification) × Table Notification
get_by_id id t =
    let answer = query (find (has_id id)) t in
    (wrap ("get notification " <> id <> ": ") answer.0, answer.1)

unfoldable pub insert_row : Notification → List Notification → Result (List Notification)
insert_row n rows =
    if any (has_id n.id) rows
    then err unique_violation
    else if is_one_of n.notif_type notif_types
    then ok (rows ++ (n ∷ []))
    else err check_violation

unfoldable pub create :
    String → ℕ → Notification → Table Notification → Option String × Table Notification
unfolding insert_row
create id now n t =
    let sent = exec (insert_row (record n { id = id; created_at = now; updated_at = now })) t in
    (wrap_error "create notification: " sent.0, sent.1)

abbrev pub updated : ℕ → Notification → Notification → Notification
updated now n row = record row {
  name = n.name;
  notif_type = n.notif_type;
  config_json = n.config_json;
  updated_at = now;
}

unfoldable pub update_row : ℕ → Notification → List Notification → Result (List Notification)
update_row now n rows =
    if is_one_of n.notif_type notif_types || not (any (has_id n.id) rows)
    then ok (update_where (has_id n.id) (updated now n) rows)
    else err check_violation

unfoldable pub update : ℕ → Notification → Table Notification → Option String × Table Notification
unfolding update_row
update now n t =
    let sent = exec (update_row now n) t in
    (wrap_error ("update notification " <> n.id <> ": ") sent.0, sent.1)

unfoldable pub delete : String → Table Notification → Option String × Table Notification
delete id t =
    let sent = exec (λ rows. ok (delete_where (has_id id) rows)) t in
    (wrap_error ("delete notification " <> id <> ": ") sent.0, sent.1)

-- What `json.Unmarshal` makes of a configuration, and the text that each service is sent.
pub record Formats : Type 0 where
  pub telegram_config : String → Result TelegramConfig
  pub webhook_url : String → Result String
  pub discord_text : String → String
  pub slack_text : String → String

-- One request: the address, the chat where it has one, and the text.
pub record Post : Type 0 where
  pub url : String
  pub chat_id : Option String
  pub text : String

unfoldable pub telegram_post : Formats → String → String → List Post
telegram_post f config message = elim (f.telegram_config config) [
  | err _ ↦ []
  | ok cfg ↦
      if cfg.bot_token == "" || cfg.chat_id == ""
      then []
      else record {
        url = "https://api.telegram.org/bot" <> cfg.bot_token <> "/sendMessage";
        chat_id = some cfg.chat_id;
        text = message;
      }
        ∷ []
]

unfoldable pub webhook_post : Formats → String → String → List Post
webhook_post f config text = elim (f.webhook_url config) [
  | err _ ↦ []
  | ok url ↦ if url == "" then [] else record { url = url; chat_id = none; text = text } ∷ []
]

-- The request for one target; its answer is only printed.
unfoldable pub posts_of : Formats → String → Notification → List Post
unfolding telegram_post webhook_post
posts_of f message n =
    if n.notif_type == "telegram"
    then telegram_post f n.config_json message
    else if n.notif_type == "discord"
    then webhook_post f n.config_json (f.discord_text message)
    else if n.notif_type == "slack"
    then webhook_post f n.config_json (f.slack_text message)
    else []

-- A target that is missing or cannot be read is skipped.
abbrev pub posts_for : Formats → String → Result (Option Notification) → List Post
posts_for f message (err _) = []
posts_for f message (ok none) = []
posts_for f message (ok (some n)) = posts_of f message n

-- The loop of NotifyBackupResult over the targets; `message` is what `formatMessage` makes.
unfoldable pub notify :
    Formats → String → List String → Table Notification → List Post × Table Notification
notify f message [] t = ([], t)
notify f message (id ∷ ids) t =
    let found = get_by_id id t in
    let rest = notify f message ids found.1 in (posts_for f message found.0 ++ rest.0, rest.1)

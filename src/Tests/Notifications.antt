-- ===== src/Tests/Notifications.antt =====
-- The theorem on internal/notification/service.go at two targets, of which the first cannot be read.
use backupeer.Prelude.{◌≡◌, ◌<>◌, String, some, List, [], ◌∷◌, ok, map, concat}
use backupeer.Table.{Table}
use backupeer.Notification.{Notification, Formats, notify}
use backupeer.Notification.Dispatch.{reads, posts_or_none, notify-reads}

abbrev formats : Formats
formats = record {
  telegram_config = λ config. ok (record { bot_token = config; chat_id = "42" });
  webhook_url = λ config. ok config;
  discord_text = λ s. "**" <> s;
  slack_text = λ s. s;
}

abbrev target : String → String → Notification
target id type = record {
  id = id;
  name = "ops";
  notif_type = type;
  config_json = "https://hooks.example/" <> id;
  created_at = 0;
  updated_at = 0;
}

abbrev targets : Table Notification
targets = record {
  faults = some "connection reset" ∷ [];
  rows = target "n1" "telegram" ∷ target "n2" "discord" ∷ [];
}

abbrev both : List String
both = "n1" ∷ "n2" ∷ []

notify-reads_example :
    (notify formats "done" both targets).0
    ≡ concat (map (posts_or_none formats "done") (reads both targets.faults targets.rows))
notify-reads_example = notify-reads formats "done" both targets

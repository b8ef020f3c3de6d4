-- ===== src/Notifications.antt =====
-- src/core/notifications/mod.rs: the events that are notified, and the choice of a channel.
pub mod Slack
use bksd.Base.{ℕ, String, ◌==◌, string_eq, Option, none, some, if◌then◌else◌}
use bksd.Storage.{FilePath}

pub data JobEvent : Type 0 where
  -- job_id, device_label, device_uuid, source, destination
  started : String → String → String → FilePath → FilePath → JobEvent
  -- job_id, device_label, total_bytes, duration_secs
  completed : String → String → ℕ → ℕ → JobEvent
  -- job_id, device_label, error
  failed_job : String → String → String → JobEvent

pub data NotificationChannelType : Type 0 where
  no_channel slack : NotificationChannelType

pub record NotificationConfig : Type 0 where
  pub channel : NotificationChannelType
  pub slack_webhook : Option String

-- A channel that sends to Slack, by its webhook.
pub record SlackNotifier : Type 0 where
  pub webhook_url : String

abbrev slack_notifier : Option String → Option SlackNotifier
slack_notifier none = none
slack_notifier (some webhook) =
    if webhook == "" then none else some (record { webhook_url = webhook })

unfoldable pub create_notifier : NotificationConfig → Option SlackNotifier
create_notifier config = elim config.channel [
  | no_channel ↦ none
  | slack ↦ slack_notifier config.slack_webhook
]

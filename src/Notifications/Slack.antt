-- ===== src/Notifications/Slack.antt =====
-- src/core/notifications/slack.rs: the messages that are posted. `{:.1}` of a floating-point number and
-- the request itself are parameters.
use bksd.Base.{
  ℕ, String, ◌<>◌, Option, some, List, [], ◌∷◌, Result, ltb, min, show_nat, if◌then◌else◌,
}
use bksd.Base.Options.{◌>>=◌}
use bksd.Base.Utf8.{byte_len, take_bytes}
use bksd.Storage.{show_path}
use bksd.Storage.Host.{Float}
use bksd.Notifications.{JobEvent, started, completed, failed_job, SlackNotifier}

-- The blocks of a message, by their texts.
pub data Block : Type 0 where
  header section : String → Block
  fields : List String → Block

-- The first 8 bytes of an identifier; a cut inside a character panics.
abbrev pub short_id : String → Option String
short_id job_id = take_bytes (min 8 (byte_len job_id)) job_id

abbrev field : String → String → String
field name value = "*" <> (name <> (":*\n" <> value))

abbrev quoted : String → String
quoted s = "`" <> (s <> "`")

module _ (F : Float) (one_decimal : F.F64 → String) where
  abbrev size_mb : ℕ → F.F64
  size_mb total_bytes = F.div (F.of_u64 total_bytes) (F.of_u64 1048576)

  unfoldable pub speed_mbps : ℕ → ℕ → F.F64
  speed_mbps total_bytes duration_secs =
      if ltb 0 duration_secs
      then F.div (size_mb total_bytes) (F.of_u64 duration_secs)
      else F.zero_f64

  unfoldable pub format_message : JobEvent → Option (List Block)
  format_message (started job_id device_label device_uuid source destination) =
      short_id job_id >>= λ id. some (
        header "Backup Started"
        ∷ fields (
            field "Device" device_label
            ∷ field "Job ID" (quoted id)
            ∷ field "Source" (quoted (show_path source))
            ∷ field "Destination" (quoted (show_path destination))
            ∷ [])
        ∷ [])
  format_message (completed job_id device_label total_bytes duration_secs) =
      short_id job_id >>= λ id. some (
        header "Backup Complete"
        ∷ fields (
            field "Device" device_label
            ∷ field "Job ID" (quoted id)
            ∷ field "Size" (one_decimal (size_mb total_bytes) <> " MB")
            ∷ field "Duration" (
                show_nat duration_secs
                <> ("s (" <> (one_decimal (speed_mbps total_bytes duration_secs) <> " MB/s)")))
            ∷ [])
        ∷ [])
  format_message (failed_job job_id device_label error) = short_id job_id >>= λ id. some (
      header "Backup Failed"
      ∷ fields (field "Device" device_label ∷ field "Job ID" (quoted id) ∷ [])
      ∷ section (field "Error" ("```" <> (error <> "```")))
      ∷ [])

  -- The result of the request, whatever the status of its response; `none` is a panic.
  unfoldable pub notify :
      (String → List Block → Result String (Unit {0}))
      → SlackNotifier
      → JobEvent
      → Option (Result String (Unit {0}))
  notify post notifier event =
      format_message event >>= λ payload. some (post notifier.webhook_url payload)

-- ===== src/Tui/Drawing.antt =====
-- src/cli/tui/ui.rs: the texts of the terminal interface, without styles and the sizes of the areas. A
-- slice that is out of range or inside a character is a panic, `none`. The printing of numbers
-- with a point and of times are parameters.
pub mod Cuts
use bksd.Base.{
  ℕ, zero, suc, ◌+◌, ◌-◌, ◌*◌, ◌/◌, ◌%◌, String, ◌<>◌, Bool, true, false, Option, none, some, List,
  [], ◌∷◌, ◌++◌, map, ◌==◌, nat_eq, string_eq, ltb, leb, if◌then◌else◌, unwrap_or, show_nat, length,
  min, ◌≡◌, refl,
}
use bksd.Base.Options.{◌>>=◌}
use bksd.Base.Parse.{codes}
use bksd.Base.Utf8.{byte_len, take_bytes, drop_bytes, slice, len_utf8}
use bksd.Storage.Host.{Float}
use bksd.Transfer.{TransferStatus, ready, in_progress, copy_complete, complete, failed}
use bksd.Db.{Job, JobStatusEntry, JobWithHistory}
use bksd.Rpc.{DaemonStatus}
use bksd.Tui.{AppData, View, TuiApp, dashboard, history, detail}

-- A bordered area.
pub record Panel : Type 0 where
  pub title : String
  pub lines : List String

pub record Screen : Type 0 where
  pub header : String
  pub content : List Panel
  pub footer : String

unfoldable pub repeat : ℕ → String → String
repeat zero s = ""
repeat (suc n) s = s <> repeat n s

-- `{:>n}` and `{:<n}`
abbrev pad_left : ℕ → String → String
pad_left n s = repeat (n - length (codes s)) " " <> s

abbrev pad_right : ℕ → String → String
pad_right n s = s <> repeat (n - length (codes s)) " "

unfoldable pub progress_bar : ℕ → ℕ → String
progress_bar percentage width =
    let filled = min percentage 100 * width / 100 in
    "[" <> (repeat filled "█" <> (repeat (width - filled) "░" <> "]"))

unfoldable pub format_duration : ℕ → String
format_duration all =
    let hours = all / 3600 in
    let mins = all % 3600 / 60 in
    let secs = all % 60 in
    if ltb 0 hours
    then show_nat hours <> ("h " <> (show_nat mins <> "m"))
    else if ltb 0 mins
    then show_nat mins <> ("m " <> (show_nat secs <> "s"))
    else show_nat secs <> "s"

abbrev title_of : Option DaemonStatus → String
title_of none = "BKSD  (connecting...)"
title_of (some s) =
    "BKSD  v"
    <> (s.version
        <> ("  Uptime: "
            <> (format_duration s.uptime_secs <> (if s.simulation then " [SIM]" else ""))))

abbrev pub render_header : TuiApp → String
render_header app = title_of app.data_.daemon_status

abbrev help_text : View → String
help_text (dashboard selected) =
    "[↑↓] Navigate  [Enter] Details  [h] History  [r] Refresh  [q] Quit"
help_text (history selected offset) = "[↑↓] Navigate  [Enter] Details  [Esc] Back  [q] Quit"
help_text (detail job_id scroll) = "[Esc] Back  [q] Quit"

abbrev error_text : Option String → String
error_text none = ""
error_text (some e) = "  Error: " <> e

abbrev pub render_footer : TuiApp → String
render_footer app = "  " <> (help_text app.view <> error_text app.error)

unfoldable pub status_icon : String → String
status_icon status = if status == "Complete" then "✓" else if status == "Failed" then "✗" else "•"

abbrev pub with_dots : Option String → Option String
with_dots none = none
with_dots (some tail) = some ("..." <> tail)

-- The current file, or the last 27 bytes of a long one.
unfoldable pub short_file : String → Option String
short_file current =
    if ltb 30 (byte_len current)
    then with_dots (drop_bytes (byte_len current - 27) current)
    else some current

-- The first bytes, or all of a shorter text.
unfoldable pub short_text : ℕ → String → Option String
short_text n s = if leb n (byte_len s) then take_bytes n s else some s

abbrev pub all_drawn {ℓ} : {A : Type ℓ} → (A → Option String) → List A → Option (List String)
all_drawn f [] = some []
all_drawn f (x ∷ xs) = f x >>= λ line. all_drawn f xs >>= λ lines. some (line ∷ lines)

-- The rows of a list, numbered from `n`.
abbrev pub numbered {ℓ} : {A : Type ℓ} → ℕ → List A → List (ℕ × A)
numbered n [] = []
numbered n (x ∷ xs) = (n, x) ∷ numbered (suc n) xs

module _ (F : Float) (one_decimal : F.F64 → String) (show_time : ℕ → String) where
  abbrev quotient : ℕ → ℕ → String
  quotient bytes unit = one_decimal (F.div (F.of_u64 bytes) (F.of_u64 unit))

  unfoldable pub format_bytes : ℕ → String
  format_bytes bytes =
      if leb 1073741824 bytes
      then quotient bytes 1073741824 <> " GB"
      else if leb 1048576 bytes
      then quotient bytes 1048576 <> " MB"
      else if leb 1024 bytes
      then quotient bytes 1024 <> " KB"
      else show_nat bytes <> " B"

  unfoldable pub format_active_banner : String → TransferStatus → Option String
  format_active_banner job_id ready = some ("▶ " <> (job_id <> "  Preparing..."))
  format_active_banner job_id (in_progress total copied current percentage eta) =
      short_file current >>= λ file. some (
        "▶ "
        <> (job_id
            <> ("  "
                <> (progress_bar percentage 25
                    <> (" " <> (pad_left 3 (show_nat percentage) <> ("%  " <> file)))))))
  format_active_banner job_id copy_complete =
      some ("▶ " <> (job_id <> "  Copy complete, verifying..."))
  format_active_banner job_id (complete total_bytes duration_secs) = some (
      "✓ "
      <> (job_id
          <> ("  Complete: "
              <> (format_bytes total_bytes <> (" in " <> (show_nat duration_secs <> "s"))))))
  format_active_banner job_id (failed msg) =
      some ("✗ " <> (job_id <> ("  " <> ("Failed: " <> msg))))

  -- The first active job; the code takes any.
  abbrev pub active_panels : List (String × TransferStatus) → Option (List Panel)
  active_panels [] = some []
  active_panels ((job_id, status) ∷ rest) = do
    short_id ← take_bytes (min 8 (byte_len job_id)) job_id
    banner ← format_active_banner short_id status
    some (record { title = "Active Transfer"; lines = banner ∷ [] } ∷ [])

  unfoldable pub recent_line : ℕ → ℕ × Job → Option String
  recent_line selected (i, job) = do
    job_id ← short_text 8 job.id
    created ← short_text 16 (show_time job.created_at)
    some (
        (if i == selected then "> " else "  ")
        <> (status_icon job.status
            <> ("  " <> (job_id <> ("  " <> (created <> ("  " <> job.status)))))))

  abbrev pub listed : String → Option (List String) → Option (List Panel)
  listed title drawn = drawn >>= λ lines. some (record { title = title; lines = lines } ∷ [])

  abbrev pub render_recent_jobs : List Job → ℕ → Option (List Panel)
  render_recent_jobs [] selected =
      some (record { title = "Recent Jobs"; lines = "  No recent jobs" ∷ [] } ∷ [])
  render_recent_jobs (job ∷ jobs) selected =
      listed "Recent Jobs" (all_drawn (recent_line selected) (numbered 0 (job ∷ jobs)))

  unfoldable pub render_dashboard : AppData → ℕ → Option (List Panel)
  render_dashboard d selected = do
    active ← active_panels d.active_jobs
    recent ← render_recent_jobs d.recent_jobs selected
    some (active ++ recent)

  -- Here the slices have no test of the length; the selected row differs by its style only.
  unfoldable pub history_line : Job → Option String
  history_line job = do
    job_id ← take_bytes 8 job.id
    created ← take_bytes 16 (show_time job.created_at)
    some (
        "  "
        <> (status_icon job.status
            <> ("  " <> (job_id <> ("  " <> (created <> ("  " <> job.status)))))))

  abbrev pub render_history : List Job → Option (List Panel)
  render_history [] = some (record { title = "Job History"; lines = "  No jobs found" ∷ [] } ∷ [])
  render_history (job ∷ jobs) = listed "Job History" (all_drawn history_line (job ∷ jobs))

  abbrev described : Option String → String
  described none = ""
  described (some text) = "  " <> text

  abbrev measured : Option ℕ → Option ℕ → String
  measured (some bytes) (some secs) =
      "  " <> (format_bytes bytes <> (" in " <> (show_nat secs <> "s")))
  measured _ _ = ""

  unfoldable pub entry_line : JobStatusEntry → Option String
  entry_line entry =
      let created = show_time entry.created_at in
      let timestamp = if leb 19 (byte_len created) then slice 11 19 created else some created in
      timestamp >>= λ time. some (
        "  "
        <> (time
            <> ("  "
                <> (pad_right 12 entry.status
                    <> (described entry.description
                        <> measured entry.total_bytes entry.duration_secs)))))

  abbrev job_lines : Job → List String
  job_lines job =
      ("  Job ID:      " <> job.id)
      ∷ ("  Target:      " <> job.target_id)
      ∷ ("  Destination: " <> unwrap_or job.destination_path "-")
      ∷ ("  Created:     " <> show_time job.created_at)
      ∷ ("  Status:      " <> job.status)
      ∷ ""
      ∷ "  Status History"
      ∷ "  ─────────────────────────────────────────"
      ∷ []

  abbrev pub render_detail : Option JobWithHistory → Option (List Panel)
  render_detail none = some (record { title = "Job Details"; lines = "  Loading..." ∷ [] } ∷ [])
  render_detail (some job) =
      listed "Job Details"
        (all_drawn entry_line job.history >>= λ lines. some (job_lines job.job ++ lines))

  abbrev pub render_view : AppData → View → Option (List Panel)
  render_view d (dashboard selected) = render_dashboard d selected
  render_view d (history selected offset) = render_history d.all_jobs
  render_view d (detail job_id scroll) = render_detail d.selected_job

  unfoldable pub render : TuiApp → Option Screen
  render app = render_view app.data_ app.view >>= λ content.
      some (record { header = render_header app; content = content; footer = render_footer app })

progress_bar_runs : progress_bar 50 4 ≡ "[██░░]"
unfolding progress_bar repeat
progress_bar_runs = refl

-- A path of two-byte characters is cut inside one.
short_file_panics : short_file "éééééééééééééééé" ≡ none
unfolding short_file byte_len drop_bytes len_utf8
short_file_panics = refl

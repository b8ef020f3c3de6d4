-- ===== src/Tui/Drawing/Cuts.antt =====
-- When the terminal interface draws without a panic.
use bksd.Base.{
  ℕ, ◌≤◌, ◌≡◌, refl, String, Bool, true, false, Option, none, some, List, [], ◌∷◌, All, arith,
  Bool-cases, inl, inr, if◌then◌else◌, leb, ltb, min, Option,
}
use bksd.Base.Dict.{Dict}
use bksd.Base.Options.{◌>>=◌}
use bksd.Base.Utf8.{
  byte_len, take_bytes, slice, IsAscii, take_bytes-IsAscii, drop_bytes-IsAscii, slice-IsAscii,
}
use bksd.Storage.Host.{Float}
use bksd.Transfer.{TransferStatus, ready, in_progress, copy_complete, complete, failed}
use bksd.Db.{Job, JobStatusEntry, JobWithHistory}
use bksd.Tui.{AppData, View, TuiApp, dashboard, history, detail}
use bksd.Tui.Drawing.{
  with_dots, short_file, short_text, all_drawn, numbered, format_active_banner, active_panels,
  recent_line, listed, render_recent_jobs, render_dashboard, history_line, render_history,
  entry_line, render_detail, render_view, render,
}

-- There is no panic.
abbrev pub Draws {ℓ} : {A : Type ℓ} → Option A → Type ℓ
Draws {A = A} o = (a : A) × (o ≡ some a)

Draws-bind {ℓ κ} :
    {A : Type ℓ} {B : Type κ} (m : Option A) (f : A → Option B)
    → Draws m
    → ((a : A) → Draws (f a))
    → Draws (m >>= f)
Draws-bind m f (a, e) h = rw e (h a)

all_drawn-Draws {ℓ κ} :
    {A : Type ℓ} (P : A → Type κ) (f : A → Option String) (xs : List A)
    → ((x : A) → P x → Draws (f x))
    → All P xs
    → Draws (all_drawn f xs)
all_drawn-Draws P f [] h hs = ([], refl)
all_drawn-Draws P f (x ∷ xs) h hs =
    Draws-bind (f x) (λ line. all_drawn f xs >>= λ lines. some (line ∷ lines)) (h x hs.0)
      (λ line.
        Draws-bind (all_drawn f xs) (λ lines. some (line ∷ lines)) (all_drawn-Draws P f xs h hs.1)
          (λ lines. (line ∷ lines, refl)))

All-numbered {ℓ κ} :
    {A : Type ℓ} (P : A → Type κ) (n : ℕ) (xs : List A)
    → All P xs
    → All (λ (row : ℕ × A). P row.1) (numbered n xs)
All-numbered P n [] h = tt
All-numbered P n (x ∷ xs) h = (h.0, All-numbered P (bksd.Base.suc n) xs h.1)

take_bytes-Draws : (n : ℕ) (s : String) → IsAscii s → n ≤ byte_len s → Draws (take_bytes n s)
take_bytes-Draws n s h k = let (t, e, ascii, size) = take_bytes-IsAscii n s h k in (t, e)

short_text-Draws : (n : ℕ) (s : String) → IsAscii s → Draws (short_text n s)
unfolding short_text
short_text-Draws n s h = elim (Bool-cases (leb n (byte_len s))) [
  | inl long ↦ rw long (take_bytes-Draws n s h (ground arith))
  | inr short ↦ rw short (s, refl)
]

with_dots-Draws : (o : Option String) → Draws o → Draws (with_dots o)
with_dots-Draws o (tail, e) = rw e (_, refl)

short_file-Draws : (s : String) → IsAscii s → Draws (short_file s)
unfolding short_file
short_file-Draws s h = elim (Bool-cases (ltb 30 (byte_len s))) [
  | inl long ↦ rw long (with_dots-Draws _ (drop_bytes-IsAscii _ s h (omega arith)))
  | inr short ↦ rw short (s, refl)
]

module _ (F : Float) (one_decimal : F.F64 → String) (show_time : ℕ → String) where
  abbrev pub IsPlainStatus : TransferStatus → Type 0
  IsPlainStatus (in_progress total copied current percentage eta) = IsAscii current
  IsPlainStatus _ = Unit

  abbrev pub IsPlainActive : String × TransferStatus → Type 0
  IsPlainActive (job_id, status) = IsAscii job_id × IsPlainStatus status

  abbrev pub IsPlainJob : Job → Type 0
  IsPlainJob job = IsAscii job.id × IsAscii (show_time job.created_at)

  abbrev pub IsLongJob : Job → Type 0
  IsLongJob job =
      IsPlainJob job × (8 ≤ byte_len job.id) × (16 ≤ byte_len (show_time job.created_at))

  abbrev pub IsPlainDetail : Option JobWithHistory → Type 0
  IsPlainDetail none = Unit
  IsPlainDetail (some job) =
      All (λ (entry : JobStatusEntry). IsAscii (show_time entry.created_at)) job.history

  -- The texts that a view cuts are ASCII, and those that it cuts without a test are long enough.
  abbrev pub IsPlain : AppData → View → Type 0
  IsPlain d (dashboard selected) = All IsPlainActive d.active_jobs × All IsPlainJob d.recent_jobs
  IsPlain d (history selected offset) = All IsLongJob d.all_jobs
  IsPlain d (detail job_id scroll) = IsPlainDetail d.selected_job

  banner-Draws :
      (job_id : String) (status : TransferStatus)
      → IsPlainStatus status
      → Draws (format_active_banner F one_decimal show_time job_id status)
  unfolding format_active_banner
  banner-Draws job_id ready h = (_, refl)
  banner-Draws job_id (in_progress total copied current percentage eta) h =
      Draws-bind (short_file current) _ (short_file-Draws current h) (λ file. (_, refl))
  banner-Draws job_id copy_complete h = (_, refl)
  banner-Draws job_id (complete total duration) h = (_, refl)
  banner-Draws job_id (failed msg) h = (_, refl)

  active-Draws :
      (jobs : Dict String TransferStatus)
      → All IsPlainActive jobs
      → Draws (active_panels F one_decimal show_time jobs)
  active-Draws [] h = ([], refl)
  active-Draws ((job_id, status) ∷ rest) (h, hs) =
      Draws-bind (take_bytes (min 8 (byte_len job_id)) job_id) _
        (take_bytes-Draws _ job_id h.0 (omega arith))
        (λ short_id.
          Draws-bind (format_active_banner F one_decimal show_time short_id status) _
            (banner-Draws short_id status h.1) (λ banner. (_, refl)))

  recent_line-Draws :
      (selected : ℕ) (row : ℕ × Job)
      → IsPlainJob row.1
      → Draws (recent_line F one_decimal show_time selected row)
  unfolding recent_line
  recent_line-Draws selected (i, job) h =
      Draws-bind (short_text 8 job.id) _ (short_text-Draws 8 job.id h.0) (λ job_id.
        Draws-bind (short_text 16 (show_time job.created_at)) _
          (short_text-Draws 16 (show_time job.created_at) h.1) (λ created. (_, refl)))

  listed-Draws :
      (title : String) (o : Option (List String))
      → Draws o
      → Draws (listed F one_decimal show_time title o)
  listed-Draws title o h = Draws-bind o _ h (λ lines. (_, refl))

  recent-Draws :
      (jobs : List Job) (selected : ℕ)
      → All IsPlainJob jobs
      → Draws (render_recent_jobs F one_decimal show_time jobs selected)
  recent-Draws [] selected h = (_, refl)
  recent-Draws (job ∷ jobs) selected h = listed-Draws "Recent Jobs" _ (
      all_drawn-Draws (λ (row : ℕ × Job). IsPlainJob row.1) _ (numbered 0 (job ∷ jobs))
        (recent_line-Draws selected) (All-numbered IsPlainJob 0 (job ∷ jobs) h))

  history_line-Draws :
      (job : Job) → IsLongJob job → Draws (history_line F one_decimal show_time job)
  unfolding history_line
  history_line-Draws job h =
      Draws-bind (take_bytes 8 job.id) _ (take_bytes-Draws 8 job.id h.0.0 h.1) (λ job_id.
        Draws-bind (take_bytes 16 (show_time job.created_at)) _
          (take_bytes-Draws 16 (show_time job.created_at) h.0.1 h.2) (λ created. (_, refl)))

  history-Draws :
      (jobs : List Job) → All IsLongJob jobs → Draws (render_history F one_decimal show_time jobs)
  history-Draws [] h = (_, refl)
  history-Draws (job ∷ jobs) h =
      listed-Draws "Job History" _ (all_drawn-Draws IsLongJob _ (job ∷ jobs) history_line-Draws h)

  entry_line-Draws :
      (entry : JobStatusEntry)
      → IsAscii (show_time entry.created_at)
      → Draws (entry_line F one_decimal show_time entry)
  unfolding entry_line
  entry_line-Draws entry h = Draws-bind _ _ (time (leb 19 (byte_len created)) refl) (λ t. (_, refl))
    where
      created : String
      created = show_time entry.created_at

      time :
          (b : Bool)
          → leb 19 (byte_len created) ≡ b
          → Draws (if b then slice 11 19 created else some created)
      time true e = slice-IsAscii 11 19 created h (omega arith) (ground arith)
      time false e = (created, refl)

  detail-Draws :
      (o : Option JobWithHistory)
      → IsPlainDetail o
      → Draws (render_detail F one_decimal show_time o)
  detail-Draws none h = (_, refl)
  detail-Draws (some job) h = listed-Draws "Job Details" _ (
      Draws-bind (all_drawn (entry_line F one_decimal show_time) job.history) _
        (all_drawn-Draws _ _ job.history entry_line-Draws h) (λ lines. (_, refl)))

  view-Draws :
      (d : AppData) (view : View)
      → IsPlain d view
      → Draws (render_view F one_decimal show_time d view)
  unfolding render_dashboard
  view-Draws d (dashboard selected) h =
      Draws-bind (active_panels F one_decimal show_time d.active_jobs) _
        (active-Draws d.active_jobs h.0)
        (λ active.
          Draws-bind (render_recent_jobs F one_decimal show_time d.recent_jobs selected) _
            (recent-Draws d.recent_jobs selected h.1) (λ recent. (_, refl)))
  view-Draws d (history selected offset) h = history-Draws d.all_jobs h
  view-Draws d (detail job_id scroll) h = detail-Draws d.selected_job h

  -- The terminal interface draws every state without a panic in which the texts that the view cuts
  -- are ASCII: the identifiers and times of the jobs shown, and the path of the file that is being
  -- copied. The history cuts without a test, and its identifiers have at least 8 bytes and its times
  -- at least 16.
  pub render-Draws :
      (app : TuiApp) → IsPlain app.data_ app.view → Draws (render F one_decimal show_time app)
  unfolding render
  render-Draws app h =
      Draws-bind (render_view F one_decimal show_time app.data_ app.view) _
        (view-Draws app.data_ app.view h) (λ content. (_, refl))

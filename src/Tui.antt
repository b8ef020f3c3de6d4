-- ===== src/Tui.antt =====
-- src/cli/tui/app.rs: the state of the terminal interface and its actions. The answers of the daemon
-- to the calls of one action are a parameter of it.
pub mod Keys
pub mod Loop
pub mod Drawing
pub mod Selection
use bksd.Base.{
  ℕ, suc, ◌+◌, ◌-◌, ◌%◌, ◌^◌, String, ◌<>◌, Bool, true, false, Option, none, some, List, [], ◌∷◌,
  Result, ok, err, length, get_elem?, ltb, if◌then◌else◌,
}
use bksd.Base.Dict.{Dict}
use bksd.Transfer.{TransferStatus}
use bksd.Db.{Job, JobWithHistory}
use bksd.Rpc.{DaemonStatus}

-- Cached data fetched from the daemon.
pub record AppData : Type 0 where
  pub daemon_status : Option DaemonStatus
  pub active_jobs : Dict String TransferStatus
  pub recent_jobs : List Job
  pub all_jobs : List Job
  pub selected_job : Option JobWithHistory

pub data View : Type 0 where
  -- selected
  dashboard : ℕ → View
  -- selected, offset
  history : ℕ → ℕ → View
  -- job_id, scroll
  detail : String → ℕ → View

pub data Action : Type 0 where
  quit up down left right select back refresh show_history : Action

pub record TuiApp : Type 0 where
  pub view : View
  pub data_ : AppData
  pub running : Bool
  pub error : Option String

-- What `RpcClient` returns for the methods; `jobs_list` takes the limit and the offset.
pub record Client : Type 0 where
  pub daemon_status : Result String DaemonStatus
  pub progress_active : Result String (Dict String TransferStatus)
  pub jobs_list : ℕ → ℕ → Result String (List Job)
  pub jobs_get : String → Result String JobWithHistory

unfoldable pub new : TuiApp
new = record {
  view = dashboard 0;
  data_ = record {
    daemon_status = none;
    active_jobs = [];
    recent_jobs = [];
    all_jobs = [];
    selected_job = none;
  };
  running = true;
  error = none;
}

abbrev pub set_view : View → TuiApp → TuiApp
set_view view app = record app { view = view }

abbrev set_error : String → TuiApp → TuiApp
set_error message app = record app { error = some message }

abbrev with_progress : Result String (Dict String TransferStatus) → TuiApp → TuiApp
with_progress (ok jobs) app = record app { data_ = record app.data_ { active_jobs = jobs } }
with_progress (err e) app = set_error ("Failed to fetch progress: " <> e) app

abbrev with_recent : Result String (List Job) → TuiApp → TuiApp
with_recent (ok jobs) app = record app { data_ = record app.data_ { recent_jobs = jobs } }
with_recent (err e) app = set_error ("Failed to fetch jobs: " <> e) app

abbrev with_status : Client → Result String DaemonStatus → TuiApp → TuiApp
with_status client (err e) app = set_error ("Failed to connect: " <> e) app
with_status client (ok status) app = with_recent (client.jobs_list 20 0) (
    with_progress client.progress_active
      (record app { data_ = record app.data_ { daemon_status = some status } }))

unfoldable pub refresh_dashboard : Client → TuiApp → TuiApp
refresh_dashboard client app = with_status client client.daemon_status (record app { error = none })

-- The poll of the dashboard, which drops an error.
unfoldable pub refresh_active_jobs : Client → TuiApp → TuiApp
refresh_active_jobs client app = elim client.progress_active [
  | ok jobs ↦ record app { data_ = record app.data_ { active_jobs = jobs } }
  | err e ↦ app
]

abbrev with_history : Result String (List Job) → TuiApp → TuiApp
with_history (ok jobs) app = record app { data_ = record app.data_ { all_jobs = jobs } }
with_history (err e) app = set_error ("Failed to fetch history: " <> e) app

unfoldable pub fetch_history : Client → ℕ → TuiApp → TuiApp
fetch_history client offset app = with_history (client.jobs_list 50 offset) app

abbrev with_detail : Result String JobWithHistory → TuiApp → TuiApp
with_detail (ok job) app = record app { data_ = record app.data_ { selected_job = some job } }
with_detail (err e) app = set_error ("Failed to fetch job: " <> e) app

unfoldable pub fetch_job_detail : Client → String → TuiApp → TuiApp
fetch_job_detail client job_id app = with_detail (client.jobs_get job_id) app

unfoldable pub view_up : View → View
view_up (dashboard selected) =
    if ltb 0 selected then dashboard (selected - 1) else dashboard selected
view_up (history selected offset) =
    if ltb 0 selected then history (selected - 1) offset else history selected offset
view_up (detail job_id scroll) = detail job_id (scroll - 1)

-- The scroll is a `u16`.
unfoldable pub view_down : AppData → View → View
view_down d (dashboard selected) =
    if ltb (selected + 1) (length d.recent_jobs)
    then dashboard (selected + 1)
    else dashboard selected
view_down d (history selected offset) =
    if ltb (selected + 1) (length d.all_jobs)
    then history (selected + 1) offset
    else history selected offset
view_down d (detail job_id scroll) = detail job_id ((scroll + 1) % 2 ^ 16)

abbrev pub navigate_up : TuiApp → TuiApp
navigate_up app = set_view (view_up app.view) app

abbrev pub navigate_down : TuiApp → TuiApp
navigate_down app = set_view (view_down app.data_ app.view) app

abbrev pub open_job : Client → Option Job → TuiApp → TuiApp
open_job client none app = app
open_job client (some job) app = set_view (detail job.id 0) (fetch_job_detail client job.id app)

unfoldable pub select_item : Client → TuiApp → TuiApp
select_item client app = elim app.view [
  | dashboard selected ↦ open_job client (get_elem? app.data_.recent_jobs selected) app
  | history selected offset ↦ open_job client (get_elem? app.data_.all_jobs selected) app
  | detail job_id scroll ↦ app
]

unfoldable pub handle_action : Client → Action → TuiApp → TuiApp
handle_action client quit app = record app { running = false }
handle_action client refresh app = refresh_dashboard client app
handle_action client show_history app = set_view (history 0 0) (fetch_history client 0 app)
handle_action client back app = refresh_dashboard client (set_view (dashboard 0) app)
handle_action client up app = navigate_up app
handle_action client down app = navigate_down app
handle_action client left app = app
handle_action client right app = app
handle_action client select app = select_item client app

-- The actions so far, the newest first, each with the answers of its calls; `init` comes before them.
unfoldable pub run : Client → List (Client × Action) → TuiApp
run first [] = refresh_dashboard first new
run first ((client, action) ∷ steps) = handle_action client action (run first steps)

-- ===== src/Tui/Selection.antt =====
-- The selection of the terminal interface.
use bksd.Base.{
  ◌^◌, ◌≤◌, ◌<◌, ◌≡◌, refl, String, Option, none, some, List, [], ◌∷◌, Result, ok, err, length,
  get_elem?, arith, ◌⊎◌, inl, inr,
}
use bksd.Base.Dict.{Dict}
use bksd.Transfer.{TransferStatus}
use bksd.Db.{Job}
use bksd.Rpc.{DaemonStatus}
use bksd.Tui.{
  AppData, View, Action, TuiApp, Client, dashboard, history, detail, quit, up, down, left, right,
  select, back, refresh, show_history, new, set_view, with_progress, with_recent, with_status,
  refresh_dashboard, view_up, view_down, open_job, select_item, handle_action, run,
}

-- The selected row is one of the list, or the first while there is none; a scroll is a `u16`.
abbrev pub IsInRange : View → AppData → Type 0
IsInRange (dashboard selected) d = (selected ≡ 0) ⊎ (selected < length d.recent_jobs)
IsInRange (history selected offset) d = (selected ≡ 0) ⊎ (selected < length d.all_jobs)
IsInRange (detail job_id scroll) d = scroll < 2 ^ 16

abbrev pub IsSelecting : TuiApp → Type 0
IsSelecting app = IsInRange app.view app.data_

-- The daemon's newest jobs are never fewer than those on the screen.
abbrev pub KeepsJobs : Client → AppData → Type 0
KeepsJobs client d =
    (jobs : List Job) → client.jobs_list 20 0 ≡ ok jobs → length d.recent_jobs ≤ length jobs

pub grown :
    (view : View) (d d' : AppData)
    → length d.recent_jobs ≤ length d'.recent_jobs
    → length d.all_jobs ≤ length d'.all_jobs
    → IsInRange view d
    → IsInRange view d'
grown (dashboard selected) d d' more h (inl z) = inl z
grown (dashboard selected) d d' more h (inr k) = inr (omega arith)
grown (history selected offset) d d' more h (inl z) = inl z
grown (history selected offset) d d' more h (inr k) = inr (omega arith)
grown (detail job_id scroll) d d' more h k = k

view_up-IsInRange : (view : View) (d : AppData) → IsInRange view d → IsInRange (view_up view) d
unfolding view_up
view_up-IsInRange (dashboard selected) d h = ground arith
view_up-IsInRange (history selected offset) d h = ground arith
view_up-IsInRange (detail job_id scroll) d h = omega arith

view_down-IsInRange :
    (view : View) (d : AppData) → IsInRange view d → IsInRange (view_down d view) d
unfolding view_down
view_down-IsInRange (dashboard selected) d h = ground arith
view_down-IsInRange (history selected offset) d h = ground arith
view_down-IsInRange (detail job_id scroll) d h = omega arith

with_recent-IsSelecting :
    (r : Result String (List Job)) (app : TuiApp)
    → ((jobs : List Job) → r ≡ ok jobs → length app.data_.recent_jobs ≤ length jobs)
    → IsSelecting app
    → IsSelecting (with_recent r app)
with_recent-IsSelecting (ok jobs) app keeps h =
    grown app.view app.data_ (record app.data_ { recent_jobs = jobs }) (keeps jobs refl)
      (omega arith) h
with_recent-IsSelecting (err e) app keeps h = h

with_status-IsSelecting :
    (client : Client) (r : Result String DaemonStatus) (app : TuiApp)
    → KeepsJobs client app.data_
    → IsSelecting app
    → IsSelecting (with_status client r app)
with_status-IsSelecting client (err e) app keeps h = h
with_status-IsSelecting client (ok status) app keeps h = go client.progress_active
  where
    app' : TuiApp
    app' = record app { data_ = record app.data_ { daemon_status = some status } }

    same : IsInRange app.view app'.data_
    same = grown app.view app.data_ app'.data_ (omega arith) (omega arith) h

    go :
        (active : Result String (Dict String TransferStatus))
        → IsSelecting (with_recent (client.jobs_list 20 0) (with_progress active app'))
    go (ok jobs) =
        with_recent-IsSelecting (client.jobs_list 20 0) (with_progress (ok jobs) app') keeps (
          grown app.view app.data_ (with_progress (ok jobs) app').data_ (omega arith) (omega arith)
            h)
    go (err e) =
        with_recent-IsSelecting (client.jobs_list 20 0) (with_progress (err e) app') keeps same

pub refresh_dashboard-IsSelecting :
    (client : Client) (app : TuiApp)
    → KeepsJobs client app.data_
    → IsSelecting app
    → IsSelecting (refresh_dashboard client app)
unfolding refresh_dashboard
refresh_dashboard-IsSelecting client app keeps h =
    with_status-IsSelecting client client.daemon_status (record app { error = none }) keeps h

open_job-IsSelecting :
    (client : Client) (o : Option Job) (app : TuiApp)
    → IsSelecting app
    → IsSelecting (open_job client o app)
open_job-IsSelecting client none app h = h
open_job-IsSelecting client (some job) app h = omega arith

select_item-IsSelecting :
    (client : Client) (app : TuiApp) → IsSelecting app → IsSelecting (select_item client app)
unfolding select_item
select_item-IsSelecting client app h = go app.view refl
  where
    go : (view : View) → app.view ≡ view → IsSelecting (select_item client app)
    go (dashboard selected) e =
        rw (e, select_item)
          (open_job-IsSelecting client (get_elem? app.data_.recent_jobs selected) app h)
    go (history selected offset) e =
        rw (e, select_item)
          (open_job-IsSelecting client (get_elem? app.data_.all_jobs selected) app h)
    go (detail job_id scroll) e = rw (e, select_item) h

pub handle_action-IsSelecting :
    (client : Client) (action : Action) (app : TuiApp)
    → KeepsJobs client app.data_
    → IsSelecting app
    → IsSelecting (handle_action client action app)
unfolding handle_action
handle_action-IsSelecting client quit app keeps h = h
handle_action-IsSelecting client refresh app keeps h =
    refresh_dashboard-IsSelecting client app keeps h
handle_action-IsSelecting client show_history app keeps h = inl refl
handle_action-IsSelecting client back app keeps h =
    refresh_dashboard-IsSelecting client (set_view (dashboard 0) app) keeps (inl refl)
handle_action-IsSelecting client up app keeps h = view_up-IsInRange app.view app.data_ h
handle_action-IsSelecting client down app keeps h = view_down-IsInRange app.view app.data_ h
handle_action-IsSelecting client left app keeps h = h
handle_action-IsSelecting client right app keeps h = h
handle_action-IsSelecting client select app keeps h = select_item-IsSelecting client app h

-- Every step's answers keep the jobs of the screen at that step.
abbrev pub AllKeepJobs : Client → List (Client × Action) → Type 0
AllKeepJobs first [] = KeepsJobs first (new).data_
AllKeepJobs first ((client, action) ∷ steps) =
    KeepsJobs client (run first steps).data_ × AllKeepJobs first steps

-- After any actions the selection is on a row of the list shown, or on the first while the list is
-- empty, and a scroll is a 16-bit number, as long as the daemon never lists fewer recent jobs than
-- are on the screen.
pub run-IsSelecting :
    (first : Client) (steps : List (Client × Action))
    → AllKeepJobs first steps
    → IsSelecting (run first steps)
unfolding run new
run-IsSelecting first [] keeps = refresh_dashboard-IsSelecting first new keeps (inl refl)
run-IsSelecting first ((client, action) ∷ steps) keeps =
    handle_action-IsSelecting client action (run first steps) keeps.0
      (run-IsSelecting first steps keeps.1)

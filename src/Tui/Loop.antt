-- ===== src/Tui/Loop.antt =====
-- The loop of src/cli/tui/mod.rs: keys, and a poll of the active jobs when the dashboard has waited
-- long enough. A failure of the terminal ends the loop, and is left out with the drawing.
use bksd.Base.{
  refl, Bool, true, false, Option, none, some, List, [], ◌∷◌, Result, ok, err, if◌then◌else◌,
  String, inl, arith,
}
use bksd.Base.Dict.{Dict}
use bksd.Transfer.{TransferStatus}
use bksd.Tui.{
  View, Action, TuiApp, Client, dashboard, new, refresh_dashboard, refresh_active_jobs,
  handle_action,
}
use bksd.Tui.Keys.{InputEvent, handle_event}
use bksd.Tui.Selection.{
  IsSelecting, KeepsJobs, grown, handle_action-IsSelecting, refresh_dashboard-IsSelecting,
}

-- What the poll gives, nothing at its end, and the daemon's answers to the calls of the round.
pub record Round : Type 0 where
  pub client : Client
  pub input : Option InputEvent

abbrev pub is_dashboard : View → Bool
is_dashboard (dashboard selected) = true
is_dashboard _ = false

abbrev acted : Client → Option Action → TuiApp → TuiApp
acted client none app = app
acted client (some action) app = handle_action client action app

abbrev pub polled : Client → Option InputEvent → TuiApp → TuiApp
polled client (some event) app = acted client (handle_event event) app
polled client none app = if is_dashboard app.view then refresh_active_jobs client app else app

unfoldable pub run_round : Round → TuiApp → TuiApp
run_round round app = polled round.client round.input app

-- The newest round stands first; behind a quit no round is run.
unfoldable pub run_app : Client → List Round → TuiApp
run_app first [] = refresh_dashboard first new
run_app first (round ∷ rounds) =
    let app = run_app first rounds in if app.running then run_round round app else app

refresh_active_jobs-IsSelecting :
    (client : Client) (app : TuiApp)
    → IsSelecting app
    → IsSelecting (refresh_active_jobs client app)
unfolding refresh_active_jobs
refresh_active_jobs-IsSelecting client app h = go client.progress_active
  where
    go :
        (r : Result String (Dict String TransferStatus))
        → IsSelecting (elim r [
          | ok jobs ↦ record app { data_ = record app.data_ { active_jobs = jobs } }
          | err e ↦ app
        ])
    go (ok jobs) =
        grown app.view app.data_ (record app.data_ { active_jobs = jobs }) (omega arith)
          (omega arith) h
    go (err e) = h

either :
    (b : Bool) (x y : TuiApp) → IsSelecting x → IsSelecting y → IsSelecting (if b then x else y)
either true x y hx hy = hx
either false x y hx hy = hy

run_round-IsSelecting :
    (round : Round) (app : TuiApp)
    → KeepsJobs round.client app.data_
    → IsSelecting app
    → IsSelecting (run_round round app)
unfolding run_round
run_round-IsSelecting round app keeps h = go round.input
  where
    act : (o : Option Action) → IsSelecting (acted round.client o app)
    act none = h
    act (some action) = handle_action-IsSelecting round.client action app keeps h

    go : (input : Option InputEvent) → IsSelecting (polled round.client input app)
    go (some event) = act (handle_event event)
    go none =
        either (is_dashboard app.view) _ app (refresh_active_jobs-IsSelecting round.client app h) h

-- The answers of every round keep the jobs of the screen at that round.
abbrev pub RoundsKeepJobs : Client → List Round → Type 0
RoundsKeepJobs first [] = KeepsJobs first (new).data_
RoundsKeepJobs first (round ∷ rounds) =
    KeepsJobs round.client (run_app first rounds).data_ × RoundsKeepJobs first rounds

-- After any rounds of the loop, with keys, other events and polls that time out, the selection is on
-- a row of the list shown, or on the first while the list is empty, and a scroll is a 16-bit number,
-- as long as the daemon never lists fewer recent jobs than are on the screen.
pub run_app-IsSelecting :
    (first : Client) (rounds : List Round)
    → RoundsKeepJobs first rounds
    → IsSelecting (run_app first rounds)
unfolding run_app new
run_app-IsSelecting first [] keeps = refresh_dashboard-IsSelecting first new keeps (inl refl)
run_app-IsSelecting first (round ∷ rounds) keeps =
    let app = run_app first rounds in
    either app.running (run_round round app) app
      (run_round-IsSelecting round app keeps.0 (run_app-IsSelecting first rounds keeps.1))
      (run_app-IsSelecting first rounds keeps.1)

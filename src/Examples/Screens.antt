-- ===== src/Examples/Screens.antt =====
-- The history of two jobs on the screen.
use bksd.Base.{none, some, [], ◌∷◌, arith, true}
use bksd.Base.Utf8.{byte_len, len_utf8}
use bksd.Db.{Job}
use bksd.Tui.{TuiApp, history}
use bksd.Tui.Drawing.{render}
use bksd.Tui.Drawing.Cuts.{Draws, IsPlain, render-Draws}
use bksd.Examples.World.{fixed_point}

abbrev old_job : Job
old_job = record {
  id = "0190-a1b2";
  target_id = "u-1";
  destination_path = some "/srv/1";
  created_at = 4;
  status = "complete";
}

abbrev app : TuiApp
app = record {
  view = history 0 0;
  data_ = record {
    daemon_status = none;
    active_jobs = [];
    recent_jobs = [];
    all_jobs = old_job ∷ old_job ∷ [];
    selected_job = none;
  };
  running = true;
  error = none;
}

app-IsPlain : IsPlain fixed_point (λ x. "1.0") (λ t. "2026-11-26 04:00:00") app.data_ app.view
unfolding byte_len len_utf8
app-IsPlain = omega arith

render-Draws_example : Draws (render fixed_point (λ x. "1.0") (λ t. "2026-11-26 04:00:00") app)
render-Draws_example =
    render-Draws fixed_point (λ x. "1.0") (λ t. "2026-11-26 04:00:00") app app-IsPlain

-- ===== src/Examples/Clients.antt =====
-- A connection with a few lines, and a terminal with a few keys.
use bksd.Base.{
  ◌≤◌, ◌≡◌, refl, String, false, none, some, List, [], ◌∷◌, ok, err, map, length, arith, ◌==◌,
  string_eq, if◌then◌else◌,
}
use bksd.Transfer.{ready}
use bksd.Db.{Job, init}
use bksd.Base.{subst, ok-injective}
use bksd.Rpc.{validate, Json, Served, Connection, handle_connection}
use bksd.Rpc.Replies.{AreReplies, expected_ids, handle_connection-AreReplies}
use bksd.Tui.{Client, refresh_dashboard, refresh_active_jobs, handle_action, new, view_down}
use bksd.Tui.Selection.{IsSelecting}
use bksd.Tui.Keys.{key, other_event, down_key, handle_event, key_action}
use bksd.Tui.Loop.{Round, run_app, run_round, RoundsKeepJobs, run_app-IsSelecting}
use bksd.Web.{Socket}
use bksd.Base.{true}
use bksd.Examples.Sorting.{sorting}

-- Values are texts, and two lines are requests.
abbrev texts : Json
texts = record {
  Value = String;
  null = "null";
  parse = λ line.
      if line == "status"
      then ok (record { jsonrpc = "2.0"; method = "daemon.status"; params = none; id = some "1" })
      else if line == "note"
      then ok (record { jsonrpc = "2.0"; method = "jobs.list"; params = none; id = none })
      else if line == "old"
      then ok (record { jsonrpc = "1.0"; method = "jobs.list"; params = none; id = some "2" })
      else err "no JSON";
  list_params = λ v. err "no struct";
  id_params = λ v. ok v;
  to_value = λ p. some "payload";
}

abbrev pub served : Served
served = record {
  db = init;
  progress = record { inner = ("j-1", ready) ∷ [] };
  version = "0.1.0";
  uptime_secs = 3;
  rpc_bind = "127.0.0.1:9847";
  simulation = false;
  fault = none;
  later_fault = none;
}

abbrev connection : Connection texts
connection = record { served = λ n. served; trim = λ s. s; write_error = λ r. none }

abbrev lines : List String
lines = "status" ∷ "note" ∷ "old" ∷ "{" ∷ "" ∷ "status" ∷ []

handle_connection-AreReplies_example :
    let all = handle_connection texts sorting connection 0 (map ok lines) in
    (all.0 ≡ ok tt) × AreReplies texts (expected_ids texts connection.trim lines) all.1
handle_connection-AreReplies_example =
    handle_connection-AreReplies texts sorting connection (λ r. refl) 0 lines

-- Three of the four lines before the end are answered.
expected_ids_runs : expected_ids texts connection.trim lines ≡ "1" ∷ "2" ∷ "null" ∷ []
unfolding expected_ids validate
expected_ids_runs = refl

abbrev job : String → Job
job id = record {
  id = id;
  target_id = "u-1";
  destination_path = some "/srv/1";
  created_at = 4;
  status = "complete";
}

abbrev client : Client
client = record {
  daemon_status = ok (record {
    version = "0.1.0";
    uptime_secs = 3;
    active_jobs = 0;
    rpc_bind = "";
    simulation = false;
  });
  progress_active = ok [];
  jobs_list = λ limit offset. ok (job "j-2" ∷ job "j-1" ∷ []);
  jobs_get = λ id. err "not found";
}

-- Down, a poll that times out, a key without an action, and down again.
abbrev rounds : List Round
rounds =
    record { client = client; input = some (key (record { code = down_key; modifiers = [] })) }
    ∷ record { client = client; input = none }
    ∷ record { client = client; input = some other_event }
    ∷ record { client = client; input = some (key (record { code = down_key; modifiers = [] })) }
    ∷ []

two_jobs : (jobs : List Job) → client.jobs_list 20 0 ≡ ok jobs → 2 ≤ length jobs
two_jobs jobs e = subst (λ js. 2 ≤ length js) (ok-injective {E = String} _ jobs e) (omega arith)

enough : RoundsKeepJobs client rounds
unfolding run_app run_round handle_event key_action handle_action refresh_dashboard
    refresh_active_jobs new view_down
enough = (two_jobs, (two_jobs, (two_jobs, (two_jobs, λ jobs e. omega (arith, two_jobs jobs e)))))

run_app-IsSelecting_example : IsSelecting (run_app client rounds)
run_app-IsSelecting_example = run_app-IsSelecting client rounds enough

abbrev call_line : Json
call_line = record texts {
  parse = λ line.
      ok (record { jsonrpc = "2.0"; method = "progress.active"; params = none; id = some "7" });
}

abbrev line_connection : Connection call_line
line_connection = record { served = λ n. served; trim = λ s. s; write_error = λ r. none }

abbrev web_socket : Socket call_line
web_socket = record { served = λ n. served; print = λ r. ok r.id; sends = λ reply. true }

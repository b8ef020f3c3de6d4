-- ===== src/Examples/Commands.antt =====
-- A call of a client, and a start of the service on a machine where every command succeeds.
use bksd.Base.{
  ◌≡◌, refl, String, Bool, true, false, none, some, inl, List, [], ◌∷◌, ok, err, ◌==◌, string_eq,
  list_eq, if◌then◌else◌, is_some, Result, arith, list_beq_iff,
}
use bksd.Base.Dict
use bksd.Base.Dict.{Dict}
use bksd.Base.Programs.{Ensures}
use bksd.Storage.{FilePath, show_path}
use bksd.Transfer.{TransferEngineType}
use bksd.Notifications.{no_channel}
use bksd.Rpc.{
  Json, Request, Connection, handle, answer, validate, is_notification, handle_connection,
}
use bksd.RpcClient.{ClientJson, Network, call, outcome, request_of}
use bksd.RpcClient.Served.{IsConnected, call-handle}
use bksd.Service.{AppConfig, System}
use bksd.Service.Command.{StartRequest, run_start}
use bksd.Service.Effects.{IsSystem}
use bksd.Service.Started.{IsStarted, run_start-IsStarted}
use bksd.Examples.Sorting.{sorting}
use bksd.Examples.Clients.{served}

abbrev status_request : Request String
status_request = record { jsonrpc = "2.0"; method = "daemon.status"; params = none; id = some "1" }

-- Every line is the request for the status.
abbrev status_json : Json
status_json = record {
  Value = String;
  null = "null";
  parse = λ line. ok status_request;
  list_params = λ v. err "no struct";
  id_params = λ v. ok v;
  to_value = λ p. some "payload";
}

abbrev status_connection : Connection status_json
status_connection = record { served = λ n. served; trim = λ line. line; write_error = λ r. none }

abbrev client_json : ClientJson status_json String
client_json = record {
  request_text = λ request. ok "status";
  response_of = λ line. ok (handle status_json sorting served status_request);
  one = "1";
  from_value = λ v. ok v;
}

abbrev loopback : Network
loopback = record { connection = ok tt; write_all = λ text. ok tt; read_line = λ text. ok "reply" }

loopback-IsConnected :
    IsConnected status_json client_json sorting status_connection loopback
      (λ r. "reply")
      0
      (request_of status_json client_json "daemon.status" none)
      "status"
unfolding handle_connection answer validate is_notification
loopback-IsConnected = record {
  connected = refl;
  printed = refl;
  written = refl;
  not_blank = refl;
  not_empty = refl;
  arrives = refl;
  writes = λ r. refl;
  replied = λ r rest h. refl;
  reads_back = λ r rest h. (r, cc h, record { same_error = refl; same_result = inl refl });
}

call-handle_example :
    call status_json client_json loopback "daemon.status" none
    ≡ outcome status_json client_json (
        handle status_json sorting
          (status_connection.served 0)
          (request_of status_json client_json "daemon.status" none))
call-handle_example =
    call-handle status_json client_json sorting status_connection loopback (λ r. "reply") 0
      "daemon.status" none "status" loopback-IsConnected refl

-- The service and the files of a machine.
record Machine : Type 0 where
  running : Bool
  files : Dict FilePath String

abbrev defaults : AppConfig
defaults = record {
  backup_directory = "srv" ∷ [];
  transfer_engine = TransferEngineType.rsync;
  retry_attempts = 3;
  verbose = false;
  simulation = false;
  mount_base = "run" ∷ "bksd" ∷ [];
  log_json = false;
  rpc_enabled = true;
  rpc_bind = "127.0.0.1:9847";
  web_enabled = true;
  web_bind = "127.0.0.1:9848";
  verify_transfers = true;
  notifications = record { channel = no_channel; slack_webhook = none };
}

-- `is-active` tells whether the service runs; every other command leaves it running.
abbrev commands : List String → Machine → Result String Bool × Machine
commands args m =
    if args == ("is-active" ∷ "bksd" ∷ [])
    then (ok m.running, m)
    else (ok true, record m { running = true })

abbrev machine : System
machine = record {
  State = Machine;
  exists = λ p m. is_some (Dict.lookup p m.files);
  read_to_string = λ p m. err "not read";
  create_dir_all = λ p m. (ok tt, m);
  write = λ p text m. (ok tt, record m { files = Dict.insert p text m.files });
  systemctl = commands;
  current_exe = ok ("usr" ∷ "bin" ∷ "bksd" ∷ []);
  toml_text = λ config. ok (show_path config.backup_directory);
  toml_of = λ text. ok defaults;
}

machine-IsSystem : IsSystem machine (λ m. m.running) (λ p m. Dict.lookup p m.files)
machine-IsSystem = record {
  create_keeps = λ p q m. refl;
  write_fills = λ p text m. Dict.lookup-insert_self p text m.files;
  write_keeps =
      λ p q text m ne. ground (arith, Dict.lookup-insert q p text m.files, list_beq_iff p q);
  systemctl_keeps = λ args m. ground arith;
  is_active = λ m. refl;
  starts = λ m e. refl;
  restarts = λ m e. refl;
}

abbrev start_request : StartRequest
start_request = record {
  new_config = ok defaults;
  is_root = true;
  yes_flag = true;
  input = err "no input";
}

abbrev stopped : Machine
stopped = record { running = false; files = [] }

run_start-IsStarted_example :
    Ensures
      (IsStarted machine
        (λ m. m.running)
        (λ p m. Dict.lookup p m.files)
        machine-IsSystem
        start_request
        stopped)
      (run_start machine start_request stopped)
run_start-IsStarted_example =
    run_start-IsStarted machine (λ m. m.running) (λ p m. Dict.lookup p m.files) machine-IsSystem
      start_request stopped

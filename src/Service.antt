-- ===== src/Service.antt =====
-- src/service.rs and the configuration of src/config.rs: the systemd service that runs the daemon. The
-- file system, `systemctl` and TOML are parameters.
pub mod Command
pub mod Effects
pub mod Started
use Prim.Native.String.{[] as end_of_text, ◌∷◌ as ◌∷ˢ◌}
use bksd.Base.{
  ℕ, zero, suc, ◌-◌, String, ◌<>◌, Bool, true, false, not, ◌||◌, Option, none, some, List, [], ◌∷◌,
  Result, ok, err, ◌==◌, string_eq, list_eq, nat_eq, starts_with, length, map, if◌then◌else◌, refl,
  ◌≡◌,
}
use bksd.Base.Parse.{codes, trim, lower_code}
use bksd.Base.Programs.{Program, ◌>>=◌, return, fail, lift, context}
use bksd.Storage.{FilePath, show_path}
use bksd.Transfer.{TransferEngineType}
use bksd.Notifications.{NotificationConfig}

pub record AppConfig : Type 0 where
  pub backup_directory : FilePath
  pub transfer_engine : TransferEngineType
  pub retry_attempts : ℕ
  pub verbose : Bool
  pub simulation : Bool
  pub mount_base : FilePath
  pub log_json : Bool
  pub rpc_enabled : Bool
  pub rpc_bind : String
  pub web_enabled : Bool
  pub web_bind : String
  pub verify_transfers : Bool
  pub notifications : NotificationConfig

-- `PartialEq` of the engine types.
abbrev pub same_engine : TransferEngineType → TransferEngineType → Bool
same_engine TransferEngineType.native_copy TransferEngineType.native_copy = true
same_engine TransferEngineType.rsync TransferEngineType.rsync = true
same_engine TransferEngineType.simulated TransferEngineType.simulated = true
same_engine _ _ = false

abbrev same_bool : Bool → Bool → Bool
same_bool true b = b
same_bool false b = not b

unfoldable pub configs_differ : AppConfig → AppConfig → Bool
configs_differ a b =
    not (a.backup_directory == b.backup_directory)
    || not (same_engine a.transfer_engine b.transfer_engine)
    || not (same_bool a.verify_transfers b.verify_transfers)
    || not (same_bool a.simulation b.simulation)

abbrev pub service_path : FilePath
service_path = "etc" ∷ "systemd" ∷ "system" ∷ "bksd.service" ∷ []

abbrev pub config_dir : FilePath
config_dir = "etc" ∷ "bksd" ∷ []

abbrev pub config_path : FilePath
config_path = "etc" ∷ "bksd" ∷ "config.toml" ∷ []

abbrev pub data_dir : FilePath
data_dir = "var" ∷ "lib" ∷ "bksd" ∷ []

-- The text between the names that are filled in.
abbrev service_template : String
service_template =
    "[Unit]\nDescription=Backup Sentinel Daemon\nAfter=local-fs.target\n\n[Service]\nType=simple\nExecStart={binary_path} start {backup_dir} --foreground\nRestart=always\nRestartSec=5\n\nStartLimitBurst=5\nStartLimitIntervalSec=60\n\nProtectSystem=strict\nPrivateTmp=true\nReadWritePaths=/run/bksd /var/lib/bksd {backup_dir}\n\n[Install]\nWantedBy=multi-user.target\n"

-- `str::replace` of a pattern that is not empty, behind some characters that are skipped.
unfoldable pub replace_behind : ℕ → String → String → String → String
replace_behind skip pattern_ new end_of_text = end_of_text
replace_behind zero pattern_ new (c ∷ˢ s) =
    let found = replace_behind (length (codes pattern_) - 1) pattern_ new s in
    let other = replace_behind zero pattern_ new s in
    if starts_with (c ∷ˢ s) pattern_ then new <> found else c ∷ˢ other
replace_behind (suc skip) pattern_ new (c ∷ˢ s) = replace_behind skip pattern_ new s

abbrev replace : String → String → String → String
replace pattern_ new s = replace_behind zero pattern_ new s

unfoldable pub service_content : String → FilePath → String
service_content binary_path backup_dir =
    replace "{backup_dir}" (show_path backup_dir)
      (replace "{binary_path}" binary_path service_template)

-- What the manager asks of the system.
pub record System : Type 1 where
  pub State : Type 0
  pub exists : FilePath → State → Bool
  pub read_to_string : FilePath → State → Result String String
  pub create_dir_all : FilePath → Program State String (Unit {0})
  pub write : FilePath → String → Program State String (Unit {0})
  -- whether the command has exited with success
  pub systemctl : List String → Program State String Bool
  pub current_exe : Result String FilePath
  pub toml_text : AppConfig → Result String String
  pub toml_of : String → Result String AppConfig

module _ (X : System) where
  abbrev pub Act : Type 0 → Type 0
  Act A = Program X.State String A

  unfoldable pub is_installed : X.State → Bool
  is_installed s = X.exists service_path s

  unfoldable pub is_running : Act Bool
  is_running = context "Failed to check service status" (X.systemctl ("is-active" ∷ "bksd" ∷ []))

  abbrev parsed : Result String AppConfig → Result String (Option AppConfig)
  parsed (ok config) = ok (some config)
  parsed (err e) = err "Failed to parse config file"

  abbrev read : Result String String → Result String (Option AppConfig)
  read (ok content) = parsed (X.toml_of content)
  read (err e) = err "Failed to read config file"

  unfoldable pub load_current_config : X.State → Result String (Option AppConfig)
  load_current_config s =
      if X.exists config_path s then read (X.read_to_string config_path s) else ok none

  -- A command whose failure is an error.
  abbrev pub must_succeed : String → Bool → Act (Unit {0})
  must_succeed failure true = return tt
  must_succeed failure false = fail failure

  abbrev pub command : List String → String → String → Act (Unit {0})
  command args shown failure = context shown (X.systemctl args) >>= must_succeed failure

  unfoldable pub start : Act (Unit {0})
  start = command ("start" ∷ "bksd" ∷ []) "Failed to start service" "systemctl start bksd failed"

  unfoldable pub restart : Act (Unit {0})
  restart =
      command ("restart" ∷ "bksd" ∷ []) "Failed to restart service" "systemctl restart bksd failed"

  unfoldable pub daemon_reload : Act (Unit {0})
  daemon_reload =
      command ("daemon-reload" ∷ []) "Failed to reload systemd" "systemctl daemon-reload failed"

  unfoldable pub enable : Act (Unit {0})
  enable =
      command ("enable" ∷ "bksd" ∷ []) "Failed to enable service" "systemctl enable bksd failed"

  unfoldable pub create_directories : Act (Unit {0})
  create_directories =
      context "Failed to create /etc/bksd directory" (X.create_dir_all config_dir) >>= λ _.
      context "Failed to create /var/lib/bksd directory" (X.create_dir_all data_dir)

  unfoldable pub write_config : AppConfig → Act (Unit {0})
  write_config config =
      context "Failed to serialize config" (lift (X.toml_text config)) >>= λ content.
      context "Failed to write config file" (X.write config_path content)

  unfoldable pub write_service_file : AppConfig → Act (Unit {0})
  write_service_file config =
      context "Failed to determine binary path" (lift X.current_exe) >>= λ binary_path.
      context "Failed to write service file"
        (X.write service_path (service_content (show_path binary_path) config.backup_directory))

  unfoldable pub install_and_start : AppConfig → Act (Unit {0})
  install_and_start config = create_directories >>= λ _. write_config config >>= λ _.
      write_service_file config >>= λ _. daemon_reload >>= λ _. enable >>= λ _. start

  unfoldable pub update_config_and_restart : AppConfig → Act (Unit {0})
  update_config_and_restart config =
      write_config config >>= λ _. write_service_file config >>= λ _. daemon_reload >>= λ _. restart

-- The answer to `prompt_restart`: the line that is read, trimmed, is `y` in either case.
unfoldable pub accepts : String → Bool
accepts input = map lower_code (trim (codes input)) == codes "y"

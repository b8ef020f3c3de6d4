-- ===== src/Service/Command.antt =====
-- `run_start` of src/main.rs: what `bksd start` does without `--foreground`.
use bksd.Base.{String, Bool, true, false, not, Option, none, some, Result, ok, err, if◌then◌else◌}
use bksd.Base.Programs.{◌>>=◌, return, lift}
use bksd.Service.{
  AppConfig, System, Act, configs_differ, is_installed, is_running, load_current_config, start,
  install_and_start, update_config_and_restart, accepts,
}

-- What the command says when it ends.
pub data StartOutcome : Type 0 where
  installed restarted kept already_running started : StartOutcome

-- The command line and what is read during the command: the new configuration, the user's rights,
-- `--yes`, and the line that answers the prompt.
pub record StartRequest : Type 0 where
  pub new_config : Result String AppConfig
  pub is_root : Bool
  pub yes_flag : Bool
  pub input : Result String String

unfoldable pub check_root_privileges : StartRequest → Result String (Unit {0})
check_root_privileges request =
    if request.is_root then ok tt else err "This operation requires root privileges."

unfoldable pub prompt_restart : StartRequest → Result String Bool
prompt_restart request = elim request.input [ ok line ↦ ok (accepts line) | err e ↦ err e ]

module _ (X : System) (request : StartRequest) where
  abbrev and_report : StartOutcome → Act X (Unit {0}) → Act X StartOutcome
  and_report outcome act = act >>= λ _. return outcome

  abbrev pub restart_if : AppConfig → Bool → Act X StartOutcome
  restart_if new_config true = and_report restarted (update_config_and_restart X new_config)
  restart_if new_config false = return kept

  abbrev pub ask : AppConfig → Act X StartOutcome
  ask new_config =
      lift (if request.yes_flag then ok true else prompt_restart request) >>= restart_if new_config

  -- The match on whether the service runs and on its configuration.
  abbrev pub with_state : AppConfig → Bool → Option AppConfig → Act X StartOutcome
  with_state new_config true (some current) =
      if configs_differ current new_config then ask new_config else return already_running
  with_state new_config true none = return already_running
  with_state new_config false current = and_report started (start X)

  unfoldable pub run_start : Act X StartOutcome
  run_start = lift (check_root_privileges request) >>= λ _.
      lift request.new_config >>= λ new_config s.
      if not (is_installed X s)
      then and_report installed (install_and_start X new_config) s
      else (is_running X >>= λ running s'.
            (lift (load_current_config X s') >>= with_state new_config running) s')
          s

-- ===== src/Orchestrator.antt =====
-- src/core/orchestrator.rs: from a device's arrival to the end of its job. A job has two tasks: one
-- runs the engine and sends statuses into a channel, the other receives them. What the first will
-- have sent is settled when the job starts; the second takes one status at a step, so the steps of
-- several jobs and new devices interleave in any order.
pub mod Messages
pub mod Soundness
pub mod Jobs
pub mod Backup
pub mod Recorded
use bksd.Base.{
  ℕ, String, Bool, true, false, not, ◌&&◌, Option, none, some, List, [], ◌∷◌, ◌++◌, Result, ok, err,
  if◌then◌else◌, string_eq,
}
use bksd.Base.Dict
use bksd.Base.Dict.{Dict}
use bksd.Storage.{FilePath, Disk, show_path}
use bksd.Storage.Paths.{join_text}
use bksd.Transfer.{
  FileHash, TransferEngineType, TransferRequest, TransferResult, TransferStatus, ready, in_progress,
  copy_complete, complete, failed,
}
use bksd.NativeCopy.Engine.{EngineRun}
use bksd.Verifier.{VerifyResult}
use bksd.Progress.{ProgressTracker}
use bksd.Progress
use bksd.Db.{Db, Sqlite, Moment, SqlError, TargetDrive, create, update_status}
pub use bksd.Hardware.{BlockDevice}
use bksd.Ownership.{Accounts, get_backup_owner}
use bksd.Notifications.{JobEvent, started, completed, failed_job}

-- What the orchestrator reads of `AppConfig`, and whether there is a notifier.
pub record Config : Type 0 where
  pub backup_directory : FilePath
  pub transfer_engine : TransferEngineType
  pub verify_transfers : Bool
  pub simulation : Bool
  pub notifies : Bool

-- The engines, and `verify_from_hashes` on the disk that an engine has left.
pub record Engines : Type 0 where
  pub native_copy_run : TransferRequest → EngineRun
  pub rsync_run : TransferRequest → EngineRun
  pub simulated_run : TransferRequest → EngineRun
  pub verify : Disk → FilePath → List FileHash → Result String VerifyResult

unfoldable pub create_engine : TransferEngineType → Engines → TransferRequest → EngineRun
create_engine TransferEngineType.native_copy engines = engines.native_copy_run
create_engine TransferEngineType.rsync engines = engines.rsync_run
create_engine TransferEngineType.simulated engines = engines.simulated_run

-- The task that receives a job's statuses, with those that it has not received yet. The channel is
-- closed behind the last.
pub record Consumer : Type 0 where
  pub dev : BlockDevice
  pub pending : List TransferStatus

-- The state that the tasks share, what they have sent out, and the tasks that still receive.
pub record Daemon : Type 0 where
  pub db : Db
  pub progress : ProgressTracker
  pub notified : List JobEvent
  pub cleaned : List BlockDevice
  pub consumers : Dict String Consumer

abbrev pub verification_statuses : TransferResult → Result String VerifyResult → List TransferStatus
verification_statuses result (ok _) = complete result.total_bytes result.duration_secs ∷ []
verification_statuses result (err e) = failed e ∷ []

-- What follows `CopyComplete`. Without hashes the transfer is trusted.
abbrev pub verified_statuses :
    Bool
    → Engines
    → TransferRequest
    → Disk
    → TransferResult
    → Option (List FileHash)
    → List TransferStatus
verified_statuses verifies engines req disk result none =
    complete result.total_bytes result.duration_secs ∷ []
verified_statuses verifies engines req disk result (some hashes) =
    if verifies
    then verification_statuses result (engines.verify disk req.destination hashes)
    else complete result.total_bytes result.duration_secs ∷ []

abbrev pub result_statuses :
    Config → Engines → TransferRequest → Disk → Result String TransferResult → List TransferStatus
result_statuses config engines req disk (ok result) =
    copy_complete
    ∷ verified_statuses (config.verify_transfers && not config.simulation) engines req disk result
        result.file_hashes
result_statuses config engines req disk (err e) = failed e ∷ []

-- All that the transfer task sends: what the engine sends, and then its own statuses.
unfoldable pub transfer_task : Config → Engines → TransferRequest → List TransferStatus
transfer_task config engines req =
    let run = create_engine config.transfer_engine engines req in
    run.sent ++ result_statuses config engines req run.disk run.result

-- A path is the list of its components, so its text has no `.` and no slash twice.
unfoldable pub build_destination : Config → String → String → FilePath
build_destination config timestamp label =
    join_text (join_text config.backup_directory label) timestamp

abbrev pub notify : Config → JobEvent → Daemon → Daemon
notify config event d =
    if config.notifies then record d { notified = d.notified ++ event ∷ [] } else d

abbrev pub target_drive : BlockDevice → TargetDrive
target_drive dev = record {
  uuid = dev.uuid;
  label = dev.label;
  mount_path = show_path dev.mount_point;
  raw_size = dev.capacity;
}

abbrev pub request_of : Config → Accounts → String → String → BlockDevice → TransferRequest
request_of config accounts timestamp job_id dev = record {
  job_id = job_id;
  source = dev.mount_point;
  destination = build_destination config timestamp dev.label;
  owner = get_backup_owner accounts config.backup_directory;
}

abbrev pub set_db : Daemon → Db → Daemon
set_db d db = record d { db = db }

module _ (S : Sqlite) (config : Config) where
  -- Behind `db::jobs::create`: the job starts only if it succeeded.
  unfoldable pub start_job :
      Accounts
      → Engines
      → String
      → String
      → BlockDevice
      → Result SqlError (Unit {0}) × Db
      → Daemon
      → Daemon
  start_job accounts engines timestamp job_id dev (err e, db) d = set_db d db
  start_job accounts engines timestamp job_id dev (ok _, db) d =
      let req = request_of config accounts timestamp job_id dev in
      let d' =
        notify config (started job_id dev.label dev.uuid dev.mount_point req.destination)
          (set_db d db) in
      record d' {
        consumers =
            Dict.insert job_id (record { dev = dev; pending = transfer_task config engines req })
              d'.consumers;
      }

  -- `timestamp` is the local time in the code's format, `job_id` the new `Uuid::now_v7`.
  unfoldable pub handle_device_added :
      Accounts → Engines → Moment → String → String → BlockDevice → Daemon → Daemon
  handle_device_added accounts engines m timestamp job_id dev d =
      start_job accounts engines timestamp job_id dev
        (create S m job_id (target_drive dev)
          (show_path (build_destination config timestamp dev.label)) d.db)
        d

  unfoldable pub handle_device_removed : String → Daemon → Daemon
  handle_device_removed uuid d = d

  -- `update_status`, whose result is dropped.
  abbrev pub record_status :
      Moment → String → String → Option String → Option ℕ → Option ℕ → Daemon → Daemon
  record_status m job_id status description total_bytes duration_secs d =
      set_db d (update_status S m job_id status description total_bytes duration_secs d.db).1

  abbrev pub cleanup_device : BlockDevice → Daemon → Daemon
  cleanup_device dev d = record d { cleaned = d.cleaned ++ dev ∷ [] }

  -- The job is no longer tracked, and its task ends.
  abbrev pub end_job : String → Daemon → Daemon
  end_job job_id d = record d {
    progress = Progress.remove job_id d.progress;
    consumers = Dict.erase job_id d.consumers;
  }

  -- The match on a status, behind the update of the tracker.
  unfoldable pub persist : Moment → String → BlockDevice → TransferStatus → Daemon → Daemon
  persist m job_id dev ready d = d
  persist m job_id dev (in_progress total_bytes bytes_copied current_file percentage eta) d = d
  persist m job_id dev copy_complete d = record_status m job_id "copy_complete" none none none d
  persist m job_id dev (complete total_bytes duration_secs) d = end_job job_id (
      cleanup_device dev (
        notify config (completed job_id dev.label total_bytes duration_secs)
          (record_status m job_id "complete" none (some total_bytes) (some duration_secs) d)))
  persist m job_id dev (failed error) d = end_job job_id (
      notify config (failed_job job_id dev.label error)
        (record_status m job_id "failed" (some error) none none d))

  -- One round of the receiving task.
  abbrev pub consume : Moment → String → BlockDevice → List TransferStatus → Daemon → Daemon
  consume m job_id dev [] d = record d { consumers = Dict.erase job_id d.consumers }
  consume m job_id dev (status ∷ rest) d = persist m job_id dev status (record d {
    progress = Progress.update job_id status d.progress;
    consumers = Dict.insert job_id (record { dev = dev; pending = rest }) d.consumers;
  })

  unfoldable pub receive : Moment → String → Daemon → Daemon
  receive m job_id d = elim (Dict.lookup job_id d.consumers) [
    | none ↦ d
    | some c ↦ consume m job_id c.dev c.pending d
  ]

  -- A step of the daemon: an event of the hardware, or a job's task receives.
  pub data Action : Type 0 where
    device_added : Accounts → Engines → Moment → String → String → BlockDevice → Action
    device_removed : String → Action
    receives : Moment → String → Action

  unfoldable pub act : Action → Daemon → Daemon
  act (device_added accounts engines m timestamp job_id dev) d =
      handle_device_added accounts engines m timestamp job_id dev d
  act (device_removed uuid) d = handle_device_removed uuid d
  act (receives m job_id) d = receive m job_id d

  -- The newest action stands first.
  unfoldable pub after_actions : List Action → Daemon
  after_actions [] = record {
    db = bksd.Db.init;
    progress = Progress.new;
    notified = [];
    cleaned = [];
    consumers = [];
  }
  after_actions (a ∷ actions) = act a (after_actions actions)

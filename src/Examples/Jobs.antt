-- ===== src/Examples/Jobs.antt =====
-- The daemon with a device that arrives, and its job.
use bksd.Base.{
  ℕ, ◌≡◌, refl, String, true, false, none, some, List, [], ◌∷◌, ok, err, arith, string_eq,
}
use bksd.Storage.{
  path_exists, strip_prefix, add_dir, add_dirs_from, create_file, modify_dir, modify_file,
  show_path, show_relative,
}
use bksd.Base.Dict.{lookup, insert}
use bksd.NativeCopy.Engine.{scanned_phase, copy_phase, owner_ids_of}
use bksd.NativeCopy.Scan.{scan_directory, scan_directory_recursive, scan_entries, scan_node}
use bksd.NativeCopy.Dirs.{
  create_directory_structure, create_directory, mirror_dir, make_dir, permit_dir, chown_dir,
}
use bksd.NativeCopy.Files.{
  copy_files_with_progress, copy_loop, copy_file, file_done, initial, report_errors, send_progress,
}
use bksd.NativeCopy.File.{
  copy_single_file, append_bytes, check, copy_chunks, finish_file, from_io, open_files, preserve,
  preserve_timestamps, set_owner, try_modify,
}
use bksd.NativeCopy.Estimate.{percentage, calculate_eta}
use bksd.Storage.Paths.{join_text, components}
use bksd.Transfer.{
  TransferEngineType, TransferRequest, TransferStatus, ready, copy_complete, complete,
}
use bksd.Db.{Moment, init, create, create_transaction, upsert_target, insert_job, insert_entry}
use bksd.Ownership.{Accounts, get_backup_owner, get_owner_from_sudo_user, get_owner_from_path}
use bksd.Verifier.{
  hash_file_sync, hash_reads, verify_from_hashes, verify_loop, verify_file, compare_hash,
}
use bksd.NativeCopy.Engine.{EngineRun, default_engine, transfer}
use bksd.Orchestrator.{
  BlockDevice, Config, Engines, Action, device_added, receives, after_actions, transfer_task,
  create_engine, act, handle_device_added, start_job, build_destination, receive, persist,
}
use bksd.Orchestrator.Messages.{ends_job, transfer_task-ends}
use bksd.Orchestrator.Soundness.{IsSound}
use bksd.Orchestrator.Soundness.Receiving.Actions.{after_actions-IsSound}
use bksd.Orchestrator.Jobs.{HasEnded, receive_all}
use bksd.Orchestrator.Jobs.Ending.{AreWritten, ReadsAs, final_text, get-receive_all}
use bksd.Orchestrator.Jobs.Finish.{receive_all-HasEnded}
use bksd.Orchestrator.Backup.{
  ending, with_native, result_ending, JobIsBackup, complete-JobIsBackup, transfer_task-ending,
}
use bksd.Base.{string_eq, false}
use bksd.Storage.{show_path, show_relative}
use bksd.Db.{Job, get, job_of, latest_status, update_status, insert_status}
use bksd.Examples.World.{
  plain_hash, plain_hash-IsStreaming, fixed_point, whole_reader, whole_reader-IsFaithful, usb,
  device, host, empty_disk, elapsed, request, device-HasUniqueNames,
}
use bksd.Examples.Sorting.{sorting, sorting-IsOrdering}

abbrev config : Config
config = record {
  backup_directory = "srv" ∷ [];
  transfer_engine = TransferEngineType.native_copy;
  verify_transfers = true;
  simulation = false;
  notifies = true;
}

-- Engines that copy nothing and succeed.
abbrev idle_run : TransferRequest → EngineRun
idle_run req = record {
  result = ok (record { total_bytes = 5; duration_secs = 7; file_hashes = none });
  disk = empty_disk;
  sent = ready ∷ [];
}

abbrev idle_engines : Engines
idle_engines = record {
  native_copy_run = idle_run;
  rsync_run = idle_run;
  simulated_run = idle_run;
  verify = λ disk destination hashes. err "not called";
}

abbrev native_engines : Engines
native_engines =
    with_native plain_hash fixed_point host elapsed 7 whole_reader device empty_disk idle_engines

abbrev accounts : Accounts
accounts = record {
  sudo_user = none;
  user_from_name = λ name. none;
  user_from_uid = λ uid. none;
  group_from_gid = λ gid. none;
  metadata = λ path. none;
}

abbrev dev : BlockDevice
dev = record {
  uuid = "u-1";
  label = "USB";
  path = "dev" ∷ "sdb1" ∷ [];
  mount_point = usb;
  capacity = 100;
  filesystem = "ext4";
}

abbrev moment : ℕ → String → Moment
moment t id = record { target_at = t; job_at = t; log_at = t; log_id = id; fault = λ n. none }

-- A device has arrived, and the job has received the first of its statuses.
abbrev actions : List (Action sorting config)
actions =
    receives (moment 2 "l-2") "j-1"
    ∷ device_added accounts idle_engines (moment 1 "l-1") "now" "j-1" dev
    ∷ []

transfer_task-ends_example : ends_job (transfer_task config idle_engines request) ≡ true
transfer_task-ends_example = transfer_task-ends config idle_engines request

after_actions-IsSound_example : IsSound (after_actions sorting config actions)
after_actions-IsSound_example = after_actions-IsSound sorting config actions

abbrev pending : List TransferStatus
pending = copy_complete ∷ complete 5 7 ∷ []

job_runs :
    lookup "j-1" (after_actions sorting config actions).consumers
    ≡ some (record { dev = dev; pending = pending })
unfolding after_actions act handle_device_added start_job build_destination receive persist
    transfer_task create_engine get_backup_owner get_owner_from_sudo_user get_owner_from_path
    join_text components init create create_transaction upsert_target insert_job insert_entry lookup
    insert
job_runs = refl

receive_all-HasEnded_example :
    HasEnded config "j-1" dev pending (after_actions sorting config actions) (
      receive_all sorting config "j-1" dev
        (moment 3 "l-3" ∷ moment 4 "l-4" ∷ moment 5 "l-5" ∷ [])
        (after_actions sorting config actions))
receive_all-HasEnded_example =
    receive_all-HasEnded sorting config "j-1" dev actions pending
      (moment 3 "l-3" ∷ moment 4 "l-4" ∷ moment 5 "l-5" ∷ []) job_runs (omega arith)

job_completes : ending (transfer_task config native_engines request) ≡ some (complete 5 7)
unfolding ending transfer_task create_engine transfer hash_file_sync hash_reads verify_from_hashes
    verify_loop verify_file compare_hash path_exists strip_prefix add_dir add_dirs_from create_file
    modify_dir modify_file show_path show_relative bksd.Storage.Exec.◌>>=◌ bksd.Storage.Exec.fail
    bksd.Storage.Exec.pure bksd.Storage.Exec.update lookup insert scanned_phase copy_phase
    owner_ids_of scan_directory scan_directory_recursive scan_entries scan_node
    create_directory_structure create_directory mirror_dir make_dir permit_dir chown_dir
    copy_files_with_progress copy_loop copy_file file_done initial report_errors send_progress
    copy_single_file append_bytes check copy_chunks finish_file from_io open_files preserve
    preserve_timestamps set_owner try_modify percentage calculate_eta
job_completes = refl

complete-JobIsBackup_example :
    JobIsBackup plain_hash fixed_point host elapsed 7 whole_reader device empty_disk idle_engines
      config request 5 7
complete-JobIsBackup_example =
    complete-JobIsBackup plain_hash fixed_point host elapsed 7 whole_reader device empty_disk
      idle_engines config request plain_hash-IsStreaming device-HasUniqueNames refl 5 7
      job_completes

transfer_task-ending_example :
    ending (transfer_task config native_engines request)
    ≡ some (
        result_ending
          (transfer plain_hash fixed_point host elapsed 7 default_engine request device
            empty_disk).result)
transfer_task-ending_example =
    transfer_task-ending plain_hash fixed_point host elapsed 7 whole_reader device empty_disk
      idle_engines config request plain_hash-IsStreaming whole_reader-IsFaithful
      device-HasUniqueNames refl

abbrev running_job : Job
running_job = record {
  id = "j-1";
  target_id = "u-1";
  destination_path = some "/srv/USB/now";
  created_at = 1;
  status = "Ready";
}

job_is_there : get sorting none "j-1" (after_actions sorting config actions).db ≡ ok running_job
unfolding after_actions act handle_device_added start_job build_destination receive persist
    transfer_task create_engine get_backup_owner get_owner_from_sudo_user get_owner_from_path
    join_text components init create create_transaction upsert_target insert_job insert_entry lookup
    insert get job_of latest_status update_status insert_status show_path show_relative
job_is_there = refl

abbrev moments : List Moment
moments = moment 3 "l-3" ∷ moment 4 "l-4" ∷ []

statuses-AreWritten :
    AreWritten sorting "j-1" pending moments (after_actions sorting config actions).db
unfolding after_actions act handle_device_added start_job build_destination receive persist
    transfer_task create_engine get_backup_owner get_owner_from_sudo_user get_owner_from_path
    join_text components init create create_transaction upsert_target insert_job insert_entry lookup
    insert get job_of latest_status update_status insert_status show_path show_relative
statuses-AreWritten = ((omega arith, tt), refl, ((omega arith, (omega arith, tt)), refl, tt))

get-receive_all_example :
    ReadsAs sorting "j-1" sorting-IsOrdering config dev
      (after_actions sorting config actions)
      running_job
      (final_text running_job.status pending)
      (receive_all sorting config "j-1" dev moments (after_actions sorting config actions))
get-receive_all_example =
    get-receive_all sorting "j-1" sorting-IsOrdering config dev actions pending moments running_job
      job_runs (omega arith) job_is_there statuses-AreWritten

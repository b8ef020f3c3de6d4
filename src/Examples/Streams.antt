-- ===== src/Examples/Streams.antt =====
-- An rsync with two progress lines, and two threads that log.
use bksd.Base.{
  ◌≡◌, refl, true, false, none, some, Option, List, [], ◌∷◌, ok, err, map, ◌==◌, nat_eq, list_eq,
  if◌then◌else◌, arith,
}
use bksd.Base.Parse.{codes, parse_below, parse_digits, is_digit}
use bksd.Storage.{Bytes, Disk}
use bksd.Transfer.{TransferRequest, TransferEngineType}
use bksd.Orchestrator.{Config, Engines, transfer_task}
use bksd.Rsync.{RsyncHost, read_output, transfer, bytes_of_group, update_of, is_line_end}
use bksd.Rsync.Lines.{read_output-split_lines, progress_groups, all_but_last, split_lines, last_or}
use bksd.Rsync.Outcome.{IsOutcome, transfer-IsOutcome}
use bksd.Rsync.Task.{IsJob, transfer_task-rsync}
use bksd.Throttle.{logged, Move, loads, exchanges, after_moves, new, move, load, exchange}
use bksd.Throttle.Spacing.{AreSpaced, after_moves-AreSpaced}
use bksd.Base.Dict

-- Two lines match.
abbrev captures : Bytes → Option (Bytes × Bytes)
captures line =
    if line == codes "  1,024   1%  1MB/s"
    then some (codes "1,024", codes "1")
    else if line == codes "  2,048   2%  1MB/s"
    then some (codes "2,048", codes "2")
    else none

abbrev output : Bytes
output = codes "sending\n\r  1,024   1%  1MB/s\r  2,048   2%  1MB/s\r\nsent"

abbrev host : RsyncHost
host = record {
  create_dir_all = λ path. none;
  run = λ args. record {
    spawn = ok tt;
    has_stdout = true;
    output = output;
    wait = ok (true, "exit status: 0");
    effect = λ disk. disk;
  };
  captures = captures;
  duration_secs = 5;
}

abbrev empty_disk : Disk
empty_disk = record { files = []; dirs = [] }

abbrev request : TransferRequest
request = record {
  job_id = "j-1";
  source = "mnt" ∷ [];
  destination = "srv" ∷ "a" ∷ [];
  owner = none;
}

read_output_runs :
    read_output captures [] 0 output
    ≡ (2048, update_of (codes "1,024", codes "1") ∷ update_of (codes "2,048", codes "2") ∷ [])
unfolding read_output is_line_end bytes_of_group parse_below parse_digits is_digit
read_output_runs = refl

read_output-split_lines_example :
    let groups = progress_groups captures (all_but_last (split_lines output)) in
    read_output captures [] 0 output
    ≡ (last_or 0 (map (λ g. bytes_of_group g.0) groups), map update_of groups)
read_output-split_lines_example = read_output-split_lines captures output

transfer-IsOutcome_example :
    let run = transfer host request empty_disk in IsOutcome host request empty_disk run.result run
transfer-IsOutcome_example = transfer-IsOutcome host request empty_disk

abbrev rsync_config : Config
rsync_config = record {
  backup_directory = "srv" ∷ [];
  transfer_engine = TransferEngineType.rsync;
  verify_transfers = true;
  simulation = false;
  notifies = false;
}

abbrev rsync_engines : Engines
rsync_engines = record {
  native_copy_run = λ req. transfer host req empty_disk;
  rsync_run = λ req. transfer host req empty_disk;
  simulated_run = λ req. transfer host req empty_disk;
  verify = λ disk path hashes. err "not verified";
}

transfer_task-rsync_example :
    IsJob host rsync_config rsync_engines request empty_disk
      (transfer_task rsync_config rsync_engines request)
transfer_task-rsync_example =
    transfer_task-rsync host rsync_config rsync_engines request empty_disk refl refl

-- Both threads load before the first exchanges; only one of them logs, and a later call does.
abbrev moves : List Move
moves = exchanges 2 ∷ loads 2 700 ∷ exchanges 2 ∷ exchanges 1 ∷ loads 2 101 ∷ loads 1 100 ∷ []

moves_run : (after_moves 500 moves).events ≡ logged 700 ∷ logged 100 ∷ []
unfolding after_moves new move load exchange Dict.insert Dict.erase Dict.lookup
moves_run = refl

after_moves-AreSpaced_example : AreSpaced 500 (after_moves 500 moves).events
after_moves-AreSpaced_example = after_moves-AreSpaced 500 moves (omega arith)

-- ===== src/Rsync.antt =====
-- src/core/transfer_engine/rsync.rs: the engine that runs rsync and reads its progress. The process,
-- and what the regular expression finds in a line, are parameters.
pub mod Lines
pub mod Outcome
pub mod Task
use bksd.Base.{
  ℕ, String, ◌<>◌, Bool, true, false, not, ◌||◌, Option, none, some, List, [], ◌∷◌, ◌++◌, Result,
  ok, err, ◌==◌, nat_eq, if◌then◌else◌, unwrap_or, u64_mod, select, is_empty, refl, ◌≡◌,
}
use bksd.Base.Parse.{codes, parse_below, parse_digits, is_digit}
use bksd.Storage.{FilePath, Bytes, IoError, Disk, path_exists, add_dirs, show_path}
use bksd.Transfer.{
  FileOwner, TransferRequest, TransferResult, TransferStatus, ready, in_progress, failed,
  as_chown_arg,
}
use bksd.NativeCopy.Engine.{EngineRun, fail_run}

-- A run of the process: whether it starts and has an output, what it writes up to its end or the
-- first read that fails, its exit, as success with the status's text, and what it does to the disk.
pub record Process : Type 0 where
  pub spawn : Result String (Unit {0})
  pub has_stdout : Bool
  pub output : Bytes
  pub wait : Result String (Bool × String)
  pub effect : Disk → Disk

-- The machine during one transfer. `captures` gives the two groups that the regular expression finds
-- in the text of a line, by their characters.
pub record RsyncHost : Type 0 where
  pub create_dir_all : FilePath → Option IoError
  pub run : List String → Process
  pub captures : Bytes → Option (Bytes × Bytes)
  pub duration_secs : ℕ

abbrev owner_args : Option FileOwner → List String
owner_args none = []
owner_args (some owner) = ("--chown=" <> as_chown_arg owner) ∷ []

unfoldable pub rsync_args : TransferRequest → List String
rsync_args req =
    "-av"
    ∷ "--checksum"
    ∷ "--chmod=u+rw,g+r,o+r"
    ∷ "--info=progress2"
    ∷ "--no-inc-recursive"
    ∷ (owner_args req.owner ++ (show_path req.source <> "/") ∷ show_path req.destination ∷ [])

-- A line ends at a carriage return or a line feed.
unfoldable pub is_line_end : ℕ → Bool
is_line_end b = b == 13 || b == 10

-- The first group without its commas, as a `u64`.
unfoldable pub bytes_of_group : Bytes → ℕ
bytes_of_group group = unwrap_or (parse_below u64_mod (select (λ c. not (c == b',')) group)) 0

-- The second group, as a `u8`.
unfoldable pub percentage_of_group : Bytes → ℕ
percentage_of_group group = unwrap_or (parse_below 256 group) 0

abbrev pub update_of : Bytes × Bytes → TransferStatus
update_of (bytes, percent) =
    in_progress 0 (bytes_of_group bytes) "" (percentage_of_group percent) none

-- `last_bytes_copied`, and the updates that are sent.
abbrev pub Reading : Type 0
Reading = ℕ × List TransferStatus

abbrev pub report_line : Option (Bytes × Bytes) → ℕ → (ℕ → Reading) → Reading
report_line none last rest = rest last
report_line (some groups) last rest =
    let after = rest (bytes_of_group groups.0) in (after.0, update_of groups ∷ after.1)

module _ (captures : Bytes → Option (Bytes × Bytes)) where
  -- The loop over the bytes of the output, with `line_buffer` and `last_bytes_copied`.
  unfoldable pub read_output : Bytes → ℕ → Bytes → Reading
  read_output line last [] = (last, [])
  read_output line last (b ∷ output) =
      let skip = read_output line last output in
      let report = report_line (captures line) last (λ n. read_output [] n output) in
      let push = read_output (line ++ b ∷ []) last output in
      if is_line_end b then if is_empty line then skip else report else push

-- Behind the loop.
abbrev pub exited : ℕ → Reading → Disk → Result String (Bool × String) → EngineRun
exited duration_secs (last, updates) disk (err e) = record {
  result = err ("Failed to wait for rsync: " <> e);
  disk = disk;
  sent = ready ∷ updates;
}
exited duration_secs (last, updates) disk (ok (true, status)) = record {
  result = ok (record { total_bytes = last; duration_secs = duration_secs; file_hashes = none });
  disk = disk;
  sent = ready ∷ updates;
}
exited duration_secs (last, updates) disk (ok (false, status)) =
    fail_run ("Rsync failed with status: " <> status) disk (ready ∷ updates)

-- An error of the start is returned without a status.
abbrev pub spawned : RsyncHost → Process → Disk → Result String (Unit {0}) → Bool → EngineRun
spawned host process disk (err e) has_stdout = record {
  result = err ("Failed to spawn rsync process: " <> e);
  disk = disk;
  sent = ready ∷ [];
}
spawned host process disk (ok _) false = record {
  result = err "Failed to get stdout";
  disk = process.effect disk;
  sent = ready ∷ [];
}
spawned host process disk (ok _) true =
    exited host.duration_secs (read_output host.captures [] 0 process.output) (process.effect disk)
      process.wait

abbrev pub made : RsyncHost → TransferRequest → Disk → Option IoError → EngineRun
made host req disk (some e) =
    fail_run ("Failed to create destination directory: " <> e.message) disk (ready ∷ [])
made host req disk none =
    let process = host.run (rsync_args req) in
    spawned host process (add_dirs req.destination disk) process.spawn process.has_stdout

unfoldable pub transfer : RsyncHost → TransferRequest → Disk → EngineRun
transfer host req disk =
    if path_exists req.destination disk
    then fail_run
        ("Destination already exists: "
          <> (show_path req.destination <> ". Refusing to overwrite."))
        disk (ready ∷ [])
    else made host req disk (host.create_dir_all req.destination)

bytes_of_group_runs : bytes_of_group (codes "12,345,678") ≡ 12345678
unfolding bytes_of_group parse_below parse_digits is_digit
bytes_of_group_runs = refl

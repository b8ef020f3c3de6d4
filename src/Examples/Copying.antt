-- ===== src/Examples/Copying.antt =====
-- The native engine and the verifier on the device of the examples.
use bksd.Base.{
  ◌<◌, ◌≤◌, ◌%◌, ◌≡◌, refl, true, none, some, List, [], ◌∷◌, ◌++◌, ok, err, length, u64_mod, arith,
  if◌then◌else◌, is_empty, string_eq, list_eq,
}
use bksd.Storage.{FilePath, Disk, get_file}
use bksd.Storage.Host.{hash_of}
use bksd.Transfer.{FileHash, TransferResult}
use bksd.NativeCopy.Engine.{default_engine, transfer}
use bksd.Storage.{
  path_exists, strip_prefix, add_dir, add_dirs_from, create_file, modify_dir, modify_file,
  show_path, show_relative,
}
use bksd.Base.Dict.{lookup, insert}
use bksd.NativeCopy.Engine.{scanned_phase, copy_phase, owner_ids_of}
use bksd.NativeCopy.Scan.{scan_directory, scan_directory_recursive, scan_entries, scan_node}
use bksd.NativeCopy.Dirs.{
  create_directory_structure, create_directory, mirror_dir, make_dir, permit_dir, chown_dir,
}
use bksd.NativeCopy.Files.{
  copy_files_with_progress, copy_loop, copy_file, file_done, initial, report_errors, send_progress,
}
use bksd.NativeCopy.File.{
  copy_single_file, append_bytes, check, copy_chunks, finish_file, from_io, open_files, preserve,
  preserve_timestamps, set_owner, try_modify,
}
use bksd.NativeCopy.Estimate.{percentage, calculate_eta}
use bksd.Storage.Exec.{◌>>=◌, fail, pure, update}
use bksd.Storage.{Bytes, new_file}
use bksd.NativeCopy.Scan.Meaning.{
  fault_in, files_in, dirs_in, sum_sizes, outcome, scan_directory_lem,
}
use bksd.NativeCopy.Scan.Order.{IsUnder}
use bksd.NativeCopy.Scan.Names.{DistinctPaths}
use bksd.NativeCopy.Files.Backup.{sum_hashed, AllBackedUp, copy_files-AllBackedUp}
use bksd.NativeCopy.Scan.{FileInfo}
use bksd.NativeCopy.Files.{CopyState, CopyOptions}
use bksd.NativeCopy.File.Content.{source_content, Holds, copy_single_file-copies}
use bksd.NativeCopy.File.Frame.{Spares, copy_single_file-Spares}
use bksd.NativeCopy.Estimate.{percentage_bounds}
use bksd.NativeCopy.Engine.Success.{transfer-AllBackedUp, verify-transfer}
use bksd.NativeCopy.Engine.Safety.{get_file-transfer}
use bksd.NativeCopy.Engine.Protocol.{FollowsProtocol, transfer-FollowsProtocol}
use bksd.Verifier.{verify_from_hashes, format_mismatch_error}
use bksd.Verifier.Outcome.{mismatches_of, verify_from_hashes_lem}
use bksd.NativeCopy.Scan.Names.{HasUniqueNames}
use bksd.NativeCopy.Scan.Outcome.{scan_directory-ParentsFirst}
use bksd.NativeCopy.Engine.Protocol.{IsProgress}
use bksd.NativeCopy.Engine.{EngineRun}
use bksd.Transfer.{TransferStatus, ready}
use bksd.Simulated.{simulated_transfer, total_size, chunk_size, default_engine as simulated_engine}
use bksd.Simulated.Run.{EndsFull, simulated_transfer-ends}
use bksd.Base.{ℕ, All}
use bksd.NativeCopy.Scan.Order.{ParentsFirst}
use bksd.Examples.World.{
  plain_hash, plain_hash-IsStreaming, fixed_point, fixed_point-IsIeee, whole_reader,
  whole_reader-IsFaithful, usb, backup, device, host, empty_disk, elapsed, request,
  device-HasUniqueNames,
}

abbrev hashes : List FileHash
hashes =
    (record { relative_path = "a.txt" ∷ []; hash = 1 ∷ 2 ∷ 3 ∷ []; size = 3 })
    ∷ (record { relative_path = "d" ∷ "b.txt" ∷ []; hash = 4 ∷ 5 ∷ []; size = 2 })
    ∷ []

abbrev result : TransferResult
result = record { total_bytes = 5; duration_secs = 7; file_hashes = some hashes }

transfer_runs :
    (transfer plain_hash fixed_point host elapsed 7 default_engine request device empty_disk).result
    ≡ ok result
unfolding transfer path_exists strip_prefix add_dir add_dirs_from create_file modify_dir modify_file
    show_path show_relative ◌>>=◌ fail pure update lookup insert scanned_phase copy_phase
    owner_ids_of scan_directory scan_directory_recursive scan_entries scan_node
    create_directory_structure create_directory mirror_dir make_dir permit_dir chown_dir
    copy_files_with_progress copy_loop copy_file file_done initial report_errors send_progress
    copy_single_file append_bytes check copy_chunks finish_file from_io open_files preserve
    preserve_timestamps set_owner try_modify percentage calculate_eta
transfer_runs = refl

abbrev copied_disk : Disk
copied_disk =
    (transfer plain_hash fixed_point host elapsed 7 default_engine request device empty_disk).disk

-- Two files, of which one has changed since.
abbrev changed_disk : Disk
changed_disk = record {
  files =
      (("srv" ∷ "a.txt" ∷ [], new_file (1 ∷ 2 ∷ 3 ∷ []))
        ∷ ("srv" ∷ "d" ∷ "b.txt" ∷ [], new_file (4 ∷ []))
        ∷ []);
  dirs = [];
}

not-IsUnder : ¬ IsUnder backup ("srv" ∷ "a.txt" ∷ [])
not-IsUnder (rest, e) = absurd cc

transfer-AllBackedUp_example :
    (fault_in usb device ≡ none)
    × ((hs : List FileHash) × (result.file_hashes ≡ some hs)
        × AllBackedUp plain_hash host usb backup copied_disk (files_in usb device) hs
        × (5 ≡ sum_hashed hs % u64_mod))
transfer-AllBackedUp_example =
    transfer-AllBackedUp plain_hash fixed_point host elapsed 7 default_engine request
      plain_hash-IsStreaming device empty_disk result device-HasUniqueNames transfer_runs

verify-transfer_example :
    verify_from_hashes plain_hash whole_reader copied_disk backup hashes
    ≡ ok (record { files_verified = length (files_in usb device); bytes_verified = 5 })
verify-transfer_example =
    verify-transfer plain_hash fixed_point host elapsed 7 default_engine request
      plain_hash-IsStreaming whole_reader whole_reader-IsFaithful device empty_disk result hashes
      device-HasUniqueNames transfer_runs refl

get_file-transfer_example :
    get_file
      ("srv" ∷ "a.txt" ∷ [])
      (transfer plain_hash fixed_point host elapsed 7 default_engine request device
        changed_disk).disk
    ≡ get_file ("srv" ∷ "a.txt" ∷ []) changed_disk
get_file-transfer_example =
    get_file-transfer plain_hash fixed_point host elapsed 7 default_engine request
      ("srv" ∷ "a.txt" ∷ []) not-IsUnder device changed_disk

transfer-FollowsProtocol_example :
    let run =
      transfer plain_hash fixed_point host elapsed 7 default_engine request device changed_disk in
    FollowsProtocol run.result run.sent
transfer-FollowsProtocol_example =
    transfer-FollowsProtocol plain_hash fixed_point host elapsed 7 default_engine request device
      changed_disk

verify_from_hashes_lem_example :
    let bad = mismatches_of plain_hash changed_disk ("srv" ∷ []) hashes in
    verify_from_hashes plain_hash whole_reader changed_disk ("srv" ∷ []) hashes ≡ (
      if is_empty bad
      then ok
          (record { files_verified = length hashes; bytes_verified = sum_hashed hashes % u64_mod })
      else err (format_mismatch_error bad))
verify_from_hashes_lem_example =
    verify_from_hashes_lem plain_hash plain_hash-IsStreaming whole_reader whole_reader-IsFaithful
      changed_disk ("srv" ∷ []) hashes

percentage_bounds_example : (percentage fixed_point 3 5 ≤ 100) × (percentage fixed_point 5 5 ≡ 100)
percentage_bounds_example = percentage_bounds fixed_point fixed_point-IsIeee 3 5 (omega arith)

scan_directory_lem_example :
    scan_directory usb device
    ≡ outcome (fault_in usb device) (record {
      files = files_in usb device;
      directories = dirs_in usb device;
      total_bytes = sum_sizes (files_in usb device) % u64_mod;
    })
scan_directory_lem_example = scan_directory_lem usb device

abbrev options : CopyOptions
options = record { sync_files = true; owner_ids = some (record { uid = 1000; gid = 1000 }) }

abbrev scanned : List FileInfo
scanned =
    (record { path = usb ++ "a.txt" ∷ []; size = 3 })
    ∷ (record { path = usb ++ "d" ∷ "b.txt" ∷ []; size = 2 })
    ∷ []

scanned-DistinctPaths : DistinctPaths scanned
scanned-DistinctPaths = ((differ, tt), (tt, tt))
  where
    differ : ¬ (◌≡◌ {A = FilePath} (usb ++ "a.txt" ∷ []) (usb ++ "d" ∷ "b.txt" ∷ []))
    differ e = absurd cc

-- The loop's state behind the copy.
abbrev copied_state : CopyState
copied_state =
    (copy_files_with_progress plain_hash fixed_point host elapsed usb backup scanned 5 options
      changed_disk).1

copy_files_runs :
    copy_files_with_progress plain_hash fixed_point host elapsed usb backup scanned 5 options
      changed_disk
    ≡ (ok (5, hashes), copied_state)
unfolding copy_files_with_progress copy_loop copy_file file_done initial report_errors send_progress
    percentage calculate_eta ◌>>=◌ fail pure update lookup insert create_file modify_file
    strip_prefix show_relative show_path copy_single_file append_bytes check copy_chunks finish_file
    from_io open_files preserve preserve_timestamps set_owner try_modify
copy_files_runs = refl

copy_files-AllBackedUp_example :
    AllBackedUp plain_hash host usb backup copied_state.disk scanned hashes
    × (5 ≡ sum_hashed hashes % u64_mod)
copy_files-AllBackedUp_example =
    copy_files-AllBackedUp plain_hash fixed_point host elapsed usb backup options 5
      plain_hash-IsStreaming scanned changed_disk scanned-DistinctPaths copy_files_runs

-- The copy of the second file.
abbrev copied_file : Disk
copied_file =
    (copy_single_file plain_hash host (usb ++ "d" ∷ "b.txt" ∷ []) (backup ++ "b.txt" ∷ []) true none
      changed_disk).1

copy_single_file_runs :
    copy_single_file plain_hash host
      (usb ++ "d" ∷ "b.txt" ∷ [])
      (backup ++ "b.txt" ∷ [])
      true
      none
      changed_disk
    ≡ (ok (2, 4 ∷ 5 ∷ []), copied_file)
unfolding ◌>>=◌ fail pure update lookup insert create_file modify_file strip_prefix show_relative
    show_path copy_single_file append_bytes check copy_chunks finish_file from_io open_files
    preserve preserve_timestamps set_owner try_modify
copy_single_file_runs = refl

copy_single_file-copies_example :
    (content : Bytes) × (source_content host (usb ++ "d" ∷ "b.txt" ∷ []) ≡ ok content)
    × (2 ≡ length content % u64_mod)
    × (4 ∷ 5 ∷ [] ≡ hash_of plain_hash content)
    × Holds (backup ++ "b.txt" ∷ []) content copied_file
copy_single_file-copies_example =
    copy_single_file-copies plain_hash host plain_hash-IsStreaming (usb ++ "d" ∷ "b.txt" ∷ [])
      (backup ++ "b.txt" ∷ []) true none changed_disk copy_single_file_runs

copy_single_file-Spares_example : Spares ("srv" ∷ "a.txt" ∷ []) (
    copy_single_file plain_hash host (usb ++ "d" ∷ "b.txt" ∷ []) (backup ++ "b.txt" ∷ []) true none)
copy_single_file-Spares_example =
    copy_single_file-Spares plain_hash host ("srv" ∷ "a.txt" ∷ []) (backup ++ "b.txt" ∷ [])
      (λ same. absurd cc) (usb ++ "d" ∷ "b.txt" ∷ []) true none

scan_runs :
    scan_directory usb device
    ≡ ok (record { files = scanned; directories = (usb ++ "d" ∷ []) ∷ []; total_bytes = 5 })
unfolding scan_directory scan_directory_recursive scan_entries scan_node
scan_runs = refl

scan_directory-ParentsFirst_example :
    ParentsFirst (usb ∷ []) ((usb ++ "d" ∷ []) ∷ [])
    × (HasUniqueNames device → DistinctPaths scanned)
    × (5 ≡ sum_sizes scanned % u64_mod)
scan_directory-ParentsFirst_example =
    scan_directory-ParentsFirst usb device
      (record { files = scanned; directories = (usb ++ "d" ∷ []) ∷ []; total_bytes = 5 }) scan_runs

some_bytes : 0 < chunk_size 100
unfolding chunk_size
some_bytes = omega arith

abbrev seconds : ℕ → ℕ
seconds copied = 250

simulated_transfer-ends_example :
    (run : EngineRun) × (simulated_transfer fixed_point seconds simulated_engine 600000000 5
        changed_disk
      ≡ some run)
    × (run.result ≡ ok (record { total_bytes = total_size; duration_secs = 5; file_hashes = none }))
    × (run.disk ≡ changed_disk)
    × ((updates : List TransferStatus) × (run.sent ≡ ready ∷ updates)
        × All IsProgress updates
        × EndsFull updates)
simulated_transfer-ends_example =
    simulated_transfer-ends fixed_point seconds simulated_engine 600000000 5 changed_disk some_bytes
      (omega arith)

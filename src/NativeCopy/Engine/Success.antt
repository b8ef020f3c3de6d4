-- ===== src/NativeCopy/Engine/Success.antt =====
-- A transfer that succeeds has backed up the device.
use bksd.Base.{
  ℕ, ◌%◌, String, ◌≡◌, refl, sym, ap, subst, ◌∙◌, Option, none, some, List, Result, ok, err,
  Option-cases, Bool-cases, inl, inr, u64_mod, length, ok-injective,
}
use mathlib.Core.Option.{some-injective}
use bksd.Storage.{FilePath, Disk, path_exists}
use bksd.Storage.Host.{Host, Blake3, Float, IsStreaming}
use bksd.Transfer.{FileHash, TransferRequest, TransferResult}
use bksd.NativeCopy.Scan.{FileInfo, Listing, ScanResult, scan_directory}
use bksd.NativeCopy.Scan.Meaning.{fault_in, files_in, outcome, scan_directory_lem}
use bksd.NativeCopy.Scan.Names.{HasUniqueNames, DistinctPaths, files_in-DistinctPaths}
use bksd.NativeCopy.Files.{CopyState, copy_files_with_progress}
use bksd.NativeCopy.Files.Backup.{sum_hashed, AllBackedUp, copy_files-AllBackedUp}
use bksd.NativeCopy.Engine.{
  EngineRun, NativeCopyEngine, copied_run, options_of, copy_phase, scanned_phase, transfer,
}
use bksd.Verifier.{Reader, verify_from_hashes}
use bksd.Verifier.Files.{IsFaithful}
use bksd.Verifier.Backup.{verify-copy_files}

module _ (B : Blake3) (F : Float) (host : Host) (elapsed : FilePath → F.F64) (duration_secs : ℕ)
    (engine : NativeCopyEngine) (req : TransferRequest) where
  -- The copy of the files behind a run that succeeded.
  record CopyBehind (run : EngineRun) (files : List FileInfo) (r : TransferResult) : Type 0 where
    total : ℕ
    before : Disk
    bytes : ℕ
    hashes : List FileHash
    last : CopyState
    ran :
        copy_files_with_progress B F host elapsed req.source req.destination files total
          (options_of B F host elapsed duration_secs engine req)
          before
        ≡ (ok (bytes, hashes), last)
    result :
        r ≡ record { total_bytes = bytes; duration_secs = duration_secs; file_hashes = some hashes }
    disk : run.disk ≡ last.disk

  behind_copied :
      (files : List FileInfo) (total : ℕ) (before : Disk) (r : TransferResult)
      (copied : Result String (ℕ × List FileHash) × CopyState)
      → copy_files_with_progress B F host elapsed req.source req.destination files total
          (options_of B F host elapsed duration_secs engine req)
          before
        ≡ copied
      → (copied_run duration_secs copied).result ≡ ok r
      → CopyBehind (copied_run duration_secs copied) files r
  behind_copied files total before r (ok (n, hs), s) ran e = record {
    total = total;
    before = before;
    bytes = n;
    hashes = hs;
    last = s;
    ran = ran;
    result = sym (ok-injective {E = String} _ r e);
    disk = refl;
  }
  behind_copied files total before r (err m, s) ran e = cc

  behind_made :
      (scan : ScanResult) (r : TransferResult) (made : Result String (Unit {0}) × Disk)
      → (copy_phase B F host elapsed duration_secs engine req scan made).result ≡ ok r
      → CopyBehind (copy_phase B F host elapsed duration_secs engine req scan made) scan.files r
  unfolding copy_phase
  behind_made scan r (ok _, disk) e = behind_copied scan.files scan.total_bytes disk r _ refl e
  behind_made scan r (err m, disk) e = cc

  behind_scanned :
      (disk : Disk) (r : TransferResult) (scanned : Result String ScanResult)
      → (scanned_phase B F host elapsed duration_secs engine req disk scanned).result ≡ ok r
      → (scan : ScanResult) × (scanned ≡ ok scan)
        × CopyBehind
            (scanned_phase B F host elapsed duration_secs engine req disk scanned)
            scan.files
            r
  unfolding scanned_phase
  behind_scanned disk r (ok scan) e = (scan, refl, behind_made scan r _ e)
  behind_scanned disk r (err m) e = cc

  behind_transfer :
      (device : Listing) (disk : Disk) (r : TransferResult)
      → (transfer B F host elapsed duration_secs engine req device disk).result ≡ ok r
      → (scan : ScanResult) × (scan_directory req.source device ≡ ok scan)
        × CopyBehind (transfer B F host elapsed duration_secs engine req device disk) scan.files r
  unfolding transfer
  behind_transfer device disk r = elim (Bool-cases (path_exists req.destination disk)) [
    | inl there ↦ rw there (λ e. cc)
    | inr free ↦ rw free (elim (Option-cases (host.create_dir_all req.destination)) [
      | inl made ↦ rw (made, transfer) (behind_scanned _ r _)
      | inr (x, refused) ↦ rw (refused, transfer) (λ e. cc)
    ])
  ]

  pub duration-transfer :
      (device : Listing) (disk : Disk) (r : TransferResult)
      → (transfer B F host elapsed duration_secs engine req device disk).result ≡ ok r
      → r.duration_secs ≡ duration_secs
  duration-transfer device disk r e =
      let (scan, scanned, c) = behind_transfer device disk r e in
      ap (λ (x : TransferResult). x.duration_secs) c.result

  outcome-eq-ok :
      (o : Option String) (found scan : ScanResult)
      → outcome o found ≡ ok scan
      → (o ≡ none) × (found ≡ scan)
  outcome-eq-ok none found scan e = (refl, ok-injective {E = String} found scan e)
  outcome-eq-ok (some m) found scan e = cc

  scanned_files :
      (device : Listing) (scan : ScanResult)
      → scan_directory req.source device ≡ ok scan
      → (fault_in req.source device ≡ none) × (files_in req.source device ≡ scan.files)
  scanned_files device scan e =
      let (clean, same) =
        outcome-eq-ok (fault_in req.source device) _ scan
          (sym (scan_directory_lem req.source device) ∙ e) in
      (clean, ap (λ (x : ScanResult). x.files) same)

  -- With a hasher that hashes the concatenation of its updates: if a transfer from a device whose
  -- directories list each name once succeeds, then the scan met no fatal error, the result lists
  -- one hash for each regular file of the device in the order of the traversal, each of these
  -- files stands below the destination with the bytes of the device, and the reported total is
  -- the sum of their sizes as a 64-bit number.
  pub transfer-AllBackedUp :
      IsStreaming B
      → (device : Listing) (disk : Disk) (r : TransferResult) → HasUniqueNames device
      → (transfer B F host elapsed duration_secs engine req device disk).result ≡ ok r
      → (fault_in req.source device ≡ none)
        × ((hashes : List FileHash) × (r.file_hashes ≡ some hashes)
            × AllBackedUp B host req.source req.destination
                (transfer B F host elapsed duration_secs engine req device disk).disk
                (files_in req.source device)
                hashes
            × (r.total_bytes ≡ sum_hashed hashes % u64_mod))
  transfer-AllBackedUp S device disk r unique e =
      let (scan, scanned, c) = behind_transfer device disk r e in
      let (clean, same) = scanned_files device scan scanned in
      let distinct : DistinctPaths scan.files =
        subst DistinctPaths same (files_in-DistinctPaths req.source device unique) in
      let (backed, counted) =
        copy_files-AllBackedUp B F host elapsed req.source req.destination
          (options_of B F host elapsed duration_secs engine req) c.total S scan.files c.before
          distinct c.ran in
      (
        clean,
        (
          c.hashes,
          ap (λ (x : TransferResult). x.file_hashes) c.result,
          rw (same, c.disk) backed,
          ap (λ (x : TransferResult). x.total_bytes) c.result ∙ counted,
        ),
      )

  -- With a hasher that hashes the concatenation of its updates: a transfer that succeeds, from a
  -- device whose directories list each name once, passes its verification if the destination stays
  -- as it is and can be read: as many files are verified as the device has, and as many bytes as
  -- were reported.
  pub verify-transfer :
      IsStreaming B
      → (reader : Reader) → IsFaithful reader
      → (device : Listing) (disk : Disk) (r : TransferResult) (hashes : List FileHash)
      → HasUniqueNames device
      → (transfer B F host elapsed duration_secs engine req device disk).result ≡ ok r
      → r.file_hashes ≡ some hashes
      → verify_from_hashes B reader
          (transfer B F host elapsed duration_secs engine req device disk).disk
          req.destination
          hashes
        ≡ ok (record {
          files_verified = length (files_in req.source device);
          bytes_verified = r.total_bytes;
        })
  verify-transfer S reader R device disk r hashes unique e listed =
      let (scan, scanned, c) = behind_transfer device disk r e in
      let (clean, same) = scanned_files device scan scanned in
      let distinct : DistinctPaths scan.files =
        subst DistinctPaths same (files_in-DistinctPaths req.source device unique) in
      let entries : c.hashes ≡ hashes =
        some-injective c.hashes hashes
          (sym (ap (λ (x : TransferResult). x.file_hashes) c.result) ∙ listed) in
      rw (← entries, c.disk)
        (verify-copy_files B F host elapsed req.source req.destination
            (options_of B F host elapsed duration_secs engine req) c.total S reader R scan.files
            c.before distinct c.ran
          ∙ ap ok (rw (same, ap (λ (x : TransferResult). x.total_bytes) c.result) refl))

-- ===== src/Rsync/Outcome.antt =====
-- What a transfer by rsync reports and returns, and what its job then sends.
use bksd.Base.{
  ℕ, String, ◌≡◌, refl, ap, Bool, true, false, Option, none, some, List, [], ◌∷◌, ◌++◌, map, Result,
  ok, err, All, ◌⊎◌, inl, inr, Bool-cases,
}
use bksd.Storage.{Bytes, Disk, IoError, path_exists, add_dirs}
use bksd.Transfer.{TransferRequest, TransferResult, TransferStatus, ready, failed}
use bksd.NativeCopy.Engine.{EngineRun}
use bksd.NativeCopy.Engine.Protocol.{IsProgress}
use bksd.Rsync.{
  RsyncHost, Process, Reading, rsync_args, update_of, bytes_of_group, exited, spawned, made,
  transfer,
}
use bksd.Rsync.Lines.{last_or, progress_groups, all_but_last, split_lines, read_output-split_lines}

module _ (host : RsyncHost) (req : TransferRequest) where
  abbrev process : Process
  process = host.run (rsync_args req)

  abbrev pub groups : List (Bytes × Bytes)
  groups = progress_groups host.captures (all_but_last (split_lines process.output))

  -- The bytes of the last progress line.
  abbrev pub last_bytes : ℕ
  last_bytes = last_or 0 (map (λ g. bytes_of_group g.0) groups)

  -- rsync has been started on a new destination and has exited with success.
  pub record HasRun (disk : Disk) : Type 0 where
    pub fresh : path_exists req.destination disk ≡ false
    pub created : host.create_dir_all req.destination ≡ none
    pub started : process.spawn ≡ ok tt
    pub piped : process.has_stdout ≡ true
    pub status : String
    pub succeeded : process.wait ≡ ok (true, status)

  -- `Ready`, progress updates, and then nothing or the failure.
  abbrev pub HasFailed : String → List TransferStatus → Type 0
  HasFailed message sent =
      (updates : List TransferStatus) × All IsProgress updates
      × ((sent ≡ ready ∷ updates) ⊎ (sent ≡ ready ∷ (updates ++ failed message ∷ [])))

  abbrev pub IsOutcome : Disk → Result String TransferResult → EngineRun → Type 0
  IsOutcome disk (ok r) run =
      HasRun disk
      × (run.sent ≡ ready ∷ map update_of groups)
      × (run.disk ≡ process.effect (add_dirs req.destination disk))
      × (r ≡ record {
        total_bytes = last_bytes;
        duration_secs = host.duration_secs;
        file_hashes = none;
      })
  IsOutcome disk (err message) run =
      (¬ HasRun disk)
      × HasFailed message run.sent
      × (path_exists req.destination disk ≡ true → run.disk ≡ disk)

  IsProgress-updates : (gs : List (Bytes × Bytes)) → All IsProgress (map update_of gs)
  IsProgress-updates [] = tt
  IsProgress-updates (g ∷ gs) = (tt, IsProgress-updates gs)

  module _ (disk : Disk) (fresh : path_exists req.destination disk ≡ false)
      (created : host.create_dir_all req.destination ≡ none) where
    exited-IsOutcome :
        (r : Reading) (w : Result String (Bool × String))
        → process.spawn ≡ ok tt
        → process.has_stdout ≡ true
        → r ≡ (last_bytes, map update_of groups)
        → process.wait ≡ w
        → let run =
            exited host.duration_secs r (process.effect (add_dirs req.destination disk)) w in
          IsOutcome disk run.result run
    exited-IsOutcome (last, updates) (err e) s o h w = (
      λ run. cc (run.succeeded, w),
      (updates, rw (ap (λ (r : Reading). r.1) h) (IsProgress-updates groups), inl refl),
      λ old. cc,
    )
    exited-IsOutcome (last, updates) (ok (true, status)) s o h w = (
      record {
        fresh = fresh;
        created = created;
        started = s;
        piped = o;
        status = status;
        succeeded = w;
      },
      ap (λ (r : Reading). ready ∷ r.1) h,
      refl,
      ap
          (λ (r : Reading). record {
            total_bytes = r.0;
            duration_secs = host.duration_secs;
            file_hashes = none;
          })
          h,
    )
    exited-IsOutcome (last, updates) (ok (false, status)) s o h w = (
      λ run. not_both (run.succeeded) w,
      (updates, rw (ap (λ (r : Reading). r.1) h) (IsProgress-updates groups), inr refl),
      λ old. cc,
    )
      where
        succeeds : Result String (Bool × String) → Bool
        succeeds (ok (b, text)) = b
        succeeds (err e) = false

        not_both :
            {status' : String}
            → process.wait ≡ ok (true, status')
            → process.wait ≡ ok (false, status)
            → ⊥
        not_both x y = cc (ap succeeds x, ap succeeds y)

    spawned-IsOutcome :
        (s : Result String (Unit {0})) (o : Bool)
        → process.spawn ≡ s
        → process.has_stdout ≡ o
        → let run = spawned host process (add_dirs req.destination disk) s o in
          IsOutcome disk run.result run
    spawned-IsOutcome (err e) o s p = (λ run. cc (run.started, s), ([], tt, inl refl), λ old. cc)
    spawned-IsOutcome (ok _) false s p = (λ run. cc (run.piped, p), ([], tt, inl refl), λ old. cc)
    spawned-IsOutcome (ok _) true s p =
        exited-IsOutcome _ process.wait s p (read_output-split_lines host.captures process.output)
          refl

  made-IsOutcome :
      (disk : Disk) (o : Option IoError)
      → path_exists req.destination disk ≡ false
      → host.create_dir_all req.destination ≡ o
      → let run = made host req disk o in IsOutcome disk run.result run
  made-IsOutcome disk (some e) fresh c =
      (λ run. cc (run.created, c), ([], tt, inr refl), λ old. refl)
  made-IsOutcome disk none fresh c =
      spawned-IsOutcome disk fresh c process.spawn process.has_stdout refl refl

  -- A transfer by rsync succeeds exactly if the destination is new and can be made, and rsync starts,
  -- has an output and exits with success. It has then sent `Ready` and an update for each progress
  -- line, left the disk to rsync, and returns the bytes of the last such line, without hashes. In
  -- any other case it returns an error, behind `Ready`, updates and at most one failure with the
  -- error's text, and a destination that exists leaves the disk as it was.
  pub transfer-IsOutcome :
      (disk : Disk) → let run = transfer host req disk in IsOutcome disk run.result run
  unfolding transfer
  transfer-IsOutcome disk = elim (Bool-cases (path_exists req.destination disk)) [
    | inl old ↦ rw old (λ run. cc (run.fresh, old), ([], tt, inr refl), λ _. refl)
    | inr fresh ↦ rw fresh (made-IsOutcome disk (host.create_dir_all req.destination) fresh refl)
  ]

-- ===== src/Orchestrator/Backup.antt =====
-- A job with the native engine, from the device's tree to the status that ends it.
use bksd.Base.{
  ℕ, ◌%◌, String, ◌≡◌, refl, sym, ap, ◌∙◌, Bool, true, false, not, ◌&&◌, Option, none, some, List,
  [], ◌∷◌, ◌++◌, append_assoc, Result, ok, err, All, u64_mod,
}
use mathlib.Core.Option.{some-injective}
use bksd.Storage.{FilePath, Disk}
use bksd.Storage.Host.{Host, Blake3, Float, IsStreaming}
use bksd.Transfer.{
  FileHash, TransferEngineType, TransferRequest, TransferResult, TransferStatus, ready, in_progress,
  copy_complete, complete, failed,
}
use bksd.NativeCopy.Scan.{Listing}
use bksd.NativeCopy.Scan.Meaning.{fault_in, files_in}
use bksd.NativeCopy.Scan.Names.{HasUniqueNames}
use bksd.NativeCopy.Files.Backup.{sum_hashed, AllBackedUp}
use bksd.NativeCopy.Engine.{EngineRun, default_engine, transfer}
use bksd.NativeCopy.Engine.Protocol.{IsProgress, FollowsProtocol, transfer-FollowsProtocol}
use bksd.NativeCopy.Engine.Success.{duration-transfer, transfer-AllBackedUp, verify-transfer}
use bksd.Verifier.{Reader, VerifyResult, verify_from_hashes}
use bksd.Verifier.Files.{IsFaithful}
use bksd.Orchestrator.{
  Config, Engines, verification_statuses, verified_statuses, result_statuses, transfer_task,
  create_engine,
}

-- The first status that ends the job.
unfoldable pub ending : List TransferStatus → Option TransferStatus
ending [] = none
ending (complete total duration ∷ rest) = some (complete total duration)
ending (failed e ∷ rest) = some (failed e)
ending (_ ∷ rest) = ending rest

-- The engines with the native one at work on a device's tree and a disk, and the verification.
abbrev pub with_native :
    (B : Blake3) (F : Float)
    → Host
    → (FilePath → F.F64)
    → ℕ
    → Reader
    → Listing
    → Disk
    → Engines
    → Engines
with_native B F host elapsed duration_secs reader device disk engines = record engines {
  native_copy_run = λ req. transfer B F host elapsed duration_secs default_engine req device disk;
  verify = λ d destination hashes. verify_from_hashes B reader d destination hashes;
}

ending-progress :
    (updates rest : List TransferStatus)
    → All IsProgress updates
    → ending (updates ++ rest) ≡ ending rest
unfolding ending
ending-progress [] rest h = refl
ending-progress (ready ∷ us) rest h = absurd h.0
ending-progress (in_progress total copied current percentage eta ∷ us) rest h =
    ending-progress us rest h.1
ending-progress (copy_complete ∷ us) rest h = absurd h.0
ending-progress (complete total duration ∷ us) rest h = absurd h.0
ending-progress (failed e ∷ us) rest h = absurd h.0

-- The status that the engine's result alone would end the job with.
abbrev pub result_ending : Result String TransferResult → TransferStatus
result_ending (ok r) = complete r.total_bytes r.duration_secs
result_ending (err e) = failed e

ending-sent_ok :
    (r : TransferResult) (sent rest : List TransferStatus)
    → FollowsProtocol (ok r) sent
    → ending (sent ++ rest) ≡ ending rest
unfolding ending
ending-sent_ok r sent rest (updates, same, progress, _) =
    ap (λ xs. ending (xs ++ rest)) same ∙ ending-progress updates rest progress

ending-sent_err :
    (e : String) (sent rest : List TransferStatus)
    → FollowsProtocol (err e) sent
    → ending (sent ++ rest) ≡ some (failed e)
unfolding ending
ending-sent_err e sent rest (updates, same, progress) =
    ap (λ xs. ending (xs ++ rest)) same
    ∙ ap ending (append_assoc updates (failed e ∷ []) rest)
    ∙ ending-progress updates _ progress

-- A verification that does not succeed ends the job as failed.
ending-verified :
    (verifies : Bool) (engines : Engines) (req : TransferRequest) (disk : Disk) (r : TransferResult)
    (hashes : List FileHash) (total duration : ℕ)
    → ending (verified_statuses verifies engines req disk r (some hashes))
      ≡ some (complete total duration)
    → (complete r.total_bytes r.duration_secs ≡ complete total duration)
      × (verifies ≡ true → (v : VerifyResult) × (engines.verify disk req.destination hashes ≡ ok v))
unfolding ending
ending-verified false engines req disk r hashes total duration e =
    (some-injective _ _ e, λ h. absurd cc)
ending-verified true engines req disk r hashes total duration e =
    go (engines.verify disk req.destination hashes) refl e
  where
    go :
        (v : Result String VerifyResult)
        → engines.verify disk req.destination hashes ≡ v
        → ending (verification_statuses r v) ≡ some (complete total duration)
        → (complete r.total_bytes r.duration_secs ≡ complete total duration)
          × (◌≡◌ {A = Bool} true true
              → (v : VerifyResult) × (engines.verify disk req.destination hashes ≡ ok v))
    go (ok v) same h = (some-injective _ _ h, λ _. (v, same))
    go (err x) same h = absurd cc

failed_not_complete :
    (m : String) (total duration : ℕ)
    → ¬ (◌≡◌ {A = Option TransferStatus} (some (failed m)) (some (complete total duration)))
failed_not_complete m total duration h = cc

module _ (B : Blake3) (F : Float) (host : Host) (elapsed : FilePath → F.F64) (duration_secs : ℕ)
    (reader : Reader) (device : Listing) (disk : Disk) (engines : Engines) (config : Config)
    (req : TransferRequest) where
  abbrev used : Engines
  used = with_native B F host elapsed duration_secs reader device disk engines

  abbrev native_run : EngineRun
  native_run = transfer B F host elapsed duration_secs default_engine req device disk

  -- The statuses of the task, if the native engine is chosen.
  native_task :
      config.transfer_engine ≡ TransferEngineType.native_copy
      → transfer_task config used req
        ≡ native_run.sent ++ result_statuses config used req native_run.disk native_run.result
  unfolding transfer_task create_engine
  native_task native = rw (native, create_engine) refl

  -- What a completed job says about the device and the destination.
  pub record JobIsBackup (total duration : ℕ) : Type 0 where
    pub no_fault : fault_in req.source device ≡ none
    pub hashes : List FileHash
    pub backed_up :
        AllBackedUp B host req.source req.destination native_run.disk
          (files_in req.source device)
          hashes
    pub counted : total ≡ sum_hashed hashes % u64_mod
    pub timed : duration ≡ duration_secs
    pub verified :
        (config.verify_transfers && not config.simulation) ≡ true
        → (v : VerifyResult) × (verify_from_hashes B reader native_run.disk req.destination hashes
            ≡ ok v)

  completed_run :
      IsStreaming B
      → HasUniqueNames device
      → (total duration : ℕ) (r : TransferResult) → native_run.result ≡ ok r
      → r.duration_secs ≡ duration_secs
      → ending (result_statuses config used req native_run.disk (ok r))
        ≡ some (complete total duration)
      → JobIsBackup total duration
  unfolding ending
  completed_run S unique total duration r ran took e =
      let (clean, (hashes, listed, backed, counted)) =
        transfer-AllBackedUp B F host elapsed duration_secs default_engine req S device disk r
          unique ran in
      let (same, verified) =
        ending-verified (config.verify_transfers && not config.simulation) used req native_run.disk
          r hashes total duration
          (ap
              (λ h. ending (
                verified_statuses (config.verify_transfers && not config.simulation) used req
                  native_run.disk r h))
              (sym listed)
            ∙ e) in
      record {
        no_fault = clean;
        hashes = hashes;
        backed_up = backed;
        counted = sym (ap total_of same) ∙ counted;
        timed = sym (ap duration_of same) ∙ took;
        verified = verified;
      }
    where
      total_of : TransferStatus → ℕ
      total_of (complete t d) = t
      total_of _ = 0

      duration_of : TransferStatus → ℕ
      duration_of (complete t d) = d
      duration_of _ = 0

  -- With a hasher that hashes the concatenation of its updates: if the status that ends a job of
  -- the native engine is `Complete`, on a device whose directories list each name once, then
  -- every regular file of the device stands below the destination with the device's bytes, behind
  -- a scan without a fatal error; the reported total is the sum of the sizes as a 64-bit number
  -- and the duration is the engine's; and where verification is switched on and the daemon does
  -- not simulate, the verification of these files has succeeded.
  pub complete-JobIsBackup :
      IsStreaming B
      → HasUniqueNames device
      → config.transfer_engine ≡ TransferEngineType.native_copy
      → (total duration : ℕ)
      → ending (transfer_task config used req) ≡ some (complete total duration)
      → JobIsBackup total duration
  complete-JobIsBackup S unique native total duration e =
      go native_run.result refl
        (transfer-FollowsProtocol B F host elapsed duration_secs default_engine req device disk)
        (ap ending (sym (native_task native)) ∙ e)
    where
      go :
          (r : Result String TransferResult)
          → native_run.result ≡ r
          → FollowsProtocol r native_run.sent
          → ending (native_run.sent ++ result_statuses config used req native_run.disk r)
            ≡ some (complete total duration)
          → JobIsBackup total duration
      go (ok r) ran p h =
          completed_run S unique total duration r ran
            (duration-transfer B F host elapsed duration_secs default_engine req device disk r ran)
            (sym (ending-sent_ok r native_run.sent _ p) ∙ h)
      go (err m) ran p h =
          absurd
            (failed_not_complete m total duration (sym (ending-sent_err m native_run.sent _ p) ∙ h))

  -- With a hasher that hashes the concatenation of its updates: if the destination can be read
  -- and stays as the engine left it, verification never turns a transfer around: the job of a
  -- device whose directories list each name once ends as the engine's own result says, `Complete`
  -- with its numbers if it succeeded and `Failed` with its error if not.
  pub transfer_task-ending :
      IsStreaming B
      → IsFaithful reader
      → HasUniqueNames device
      → config.transfer_engine ≡ TransferEngineType.native_copy
      → ending (transfer_task config used req) ≡ some (result_ending native_run.result)
  transfer_task-ending S R unique native =
      ap ending (native_task native)
      ∙ go native_run.result refl
          (transfer-FollowsProtocol B F host elapsed duration_secs default_engine req device disk)
    where
      passed :
          (b : Bool) (r : TransferResult) (hashes : List FileHash) (v : VerifyResult)
          → verify_from_hashes B reader native_run.disk req.destination hashes ≡ ok v
          → ending (verified_statuses b used req native_run.disk r (some hashes))
            ≡ some (complete r.total_bytes r.duration_secs)
      passed false r hashes v same = unfold ending in refl
      passed true r hashes v same = unfold ending in rw same refl

      go :
          (r : Result String TransferResult)
          → native_run.result ≡ r
          → FollowsProtocol r native_run.sent
          → ending (native_run.sent ++ result_statuses config used req native_run.disk r)
            ≡ some (result_ending r)
      go (err m) ran p = ending-sent_err m native_run.sent _ p
      go (ok r) ran p =
          let (updates, sent, progress, (hashes, listed)) = p in
          ending-sent_ok r native_run.sent _ p
          ∙ ap
              (λ h. ending (
                copy_complete
                ∷ verified_statuses (config.verify_transfers && not config.simulation) used req
                    native_run.disk r h))
              listed
          ∙ (unfold ending in
              passed (config.verify_transfers && not config.simulation) r hashes _ (
                verify-transfer B F host elapsed duration_secs default_engine req S reader R device
                  disk r hashes unique ran listed))

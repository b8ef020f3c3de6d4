-- ===== src/Rsync/Task.antt =====
-- The job of a transfer by rsync.
use bksd.Base.{String, ◌≡◌, refl, List, [], ◌∷◌, ◌++◌, map, Result, ok, err, ◌⊎◌, inl, inr}
use bksd.Storage.{Disk}
use bksd.Transfer.{
  TransferRequest, TransferResult, TransferStatus, ready, copy_complete, complete, failed,
  TransferEngineType,
}
use bksd.NativeCopy.Engine.{EngineRun}
use bksd.Orchestrator.{Config, Engines, transfer_task, create_engine, result_statuses}
use bksd.Rsync.{RsyncHost, update_of, transfer}
use bksd.Rsync.Outcome.{groups, last_bytes, HasRun, IsOutcome, transfer-IsOutcome}

-- The statuses end in a failure.
abbrev pub EndsFailed : List TransferStatus → Type 0
EndsFailed sent =
    (front : List TransferStatus) × (message : String) × (sent ≡ front ++ failed message ∷ [])

module _ (host : RsyncHost) (config : Config) (engines : Engines) (req : TransferRequest)
    (disk : Disk) where
  abbrev pub IsJob : List TransferStatus → Type 0
  IsJob sent =
      (HasRun host req disk
        × (sent
            ≡ ready
              ∷ (map update_of (groups host req)
                  ++ copy_complete ∷ complete (last_bytes host req) host.duration_secs ∷ [])))
      ⊎ ((¬ HasRun host req disk) × EndsFailed sent)

  outcome-IsJob :
      (run : EngineRun) (r : Result String TransferResult)
      → run.result ≡ r
      → IsOutcome host req disk r run
      → IsJob (run.sent ++ result_statuses config engines req run.disk run.result)
  outcome-IsJob run (ok r) e (has_run, sent, left, result) =
      rw (e, result, sent) (inl (has_run, refl))
  outcome-IsJob run (err message) e h = rw e (inr (h.0, (run.sent, message, refl)))

  -- A job with the rsync engine sends `CopyComplete` and `Complete`, with the bytes of the last
  -- progress line, exactly if rsync has run with success on a new destination: its copy is not
  -- verified again, whatever the configuration says. Otherwise its statuses end in a failure.
  pub transfer_task-rsync :
      config.transfer_engine ≡ TransferEngineType.rsync
      → engines.rsync_run req ≡ transfer host req disk
      → IsJob (transfer_task config engines req)
  unfolding transfer_task create_engine
  transfer_task-rsync chosen run =
      rw (chosen, create_engine, run)
        (outcome-IsJob (transfer host req disk) _ refl (transfer-IsOutcome host req disk))

-- ===== src/Orchestrator/Messages.antt =====
-- The statuses of a job's transfer task: there is one that ends the job, and what comes before.
use bksd.Base.{
  String, ◌≡◌, refl, Bool, true, false, ◌&&◌, not, Option, none, some, List, Result, ok, err, any,
  any-append, arith,
}
use bksd.Storage.{Disk}
use bksd.Transfer.{
  FileHash, TransferRequest, TransferResult, TransferStatus, ready, in_progress, copy_complete,
  complete, failed,
}
use bksd.Verifier.{VerifyResult}
use bksd.Orchestrator.{
  Config, Engines, create_engine, verification_statuses, verified_statuses, result_statuses,
  transfer_task,
}

-- The statuses behind which the receiving task stops.
abbrev pub is_terminal : TransferStatus → Bool
is_terminal ready = false
is_terminal (in_progress total copied current percentage eta) = false
is_terminal copy_complete = false
is_terminal (complete total duration) = true
is_terminal (failed e) = true

abbrev pub ends_job : List TransferStatus → Bool
ends_job statuses = any is_terminal statuses

verification_statuses-end :
    (result : TransferResult) (r : Result String VerifyResult)
    → ends_job (verification_statuses result r) ≡ true
verification_statuses-end result (ok v) = refl
verification_statuses-end result (err e) = refl

verified_statuses-end :
    (verifies : Bool) (engines : Engines) (req : TransferRequest) (disk : Disk)
    (result : TransferResult) (hashes : Option (List FileHash))
    → ends_job (verified_statuses verifies engines req disk result hashes) ≡ true
verified_statuses-end verifies engines req disk result none = refl
verified_statuses-end true engines req disk result (some hashes) =
    verification_statuses-end result (engines.verify disk req.destination hashes)
verified_statuses-end false engines req disk result (some hashes) = refl

result_statuses-end :
    (config : Config) (engines : Engines) (req : TransferRequest) (disk : Disk)
    (r : Result String TransferResult)
    → ends_job (result_statuses config engines req disk r) ≡ true
result_statuses-end config engines req disk (ok result) =
    verified_statuses-end (config.verify_transfers && not config.simulation) engines req disk result
      result.file_hashes
result_statuses-end config engines req disk (err e) = refl

-- Whatever the engine and the verification do, the transfer task sends a status that ends the job.
pub transfer_task-ends :
    (config : Config) (engines : Engines) (req : TransferRequest)
    → ends_job (transfer_task config engines req) ≡ true
unfolding transfer_task
transfer_task-ends config engines req =
    let run = create_engine config.transfer_engine engines req in
    ground (
      arith,
      any-append is_terminal run.sent (result_statuses config engines req run.disk run.result),
      result_statuses-end config engines req run.disk run.result,
    )

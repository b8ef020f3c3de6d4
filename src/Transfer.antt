-- ===== src/Transfer.antt =====
-- src/core/transfer_engine.rs and `FileOwner` of src/core/ownership.rs: what an engine is asked for, what it
-- reports while it runs, and what it returns.
use bksd.Base.{ℕ, String, ◌<>◌, Option, List}
use bksd.Storage.{FilePath, Bytes}

pub record FileHash : Type 0 where
  pub relative_path : FilePath
  pub hash : Bytes
  pub size : ℕ

pub data TransferEngineType : Type 0 where
  native_copy rsync simulated : TransferEngineType

-- Represents file ownership as user:group.
pub record FileOwner : Type 0 where
  pub user : String
  pub group : String

unfoldable pub as_chown_arg : FileOwner → String
as_chown_arg o = o.user <> (":" <> o.group)

pub record TransferRequest : Type 0 where
  pub job_id : String
  pub source : FilePath
  pub destination : FilePath
  pub owner : Option FileOwner

pub record TransferResult : Type 0 where
  pub total_bytes : ℕ
  pub duration_secs : ℕ
  pub file_hashes : Option (List FileHash)

pub data TransferStatus : Type 0 where
  ready : TransferStatus
  -- total_bytes, bytes_copied, current_file, percentage, eta_seconds
  in_progress : ℕ → ℕ → String → ℕ → Option ℕ → TransferStatus
  copy_complete : TransferStatus
  -- total_bytes, duration_secs
  complete : ℕ → ℕ → TransferStatus
  failed : String → TransferStatus

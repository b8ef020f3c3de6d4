-- ===== src/Simulated.antt =====
-- src/core/transfer_engine/simulated.rs: the engine that copies nothing and reports as if it did. Its
-- sleeps are left out; `fuel` bounds the rounds of its loop.
pub mod Run
use bksd.Base.{
  ℕ, zero, suc, ◌*◌, ◌/◌, ◌%◌, String, Bool, true, false, Option, none, some, List, [], ◌∷◌, ltb,
  leb, if◌then◌else◌, add_u64, sub_u64, u64_mod, ok, ◌&&◌, not,
}
use bksd.Storage.{Disk}
use bksd.Storage.Host.{Float}
use bksd.Transfer.{TransferStatus, ready, in_progress}
use bksd.NativeCopy.Estimate.{percent_of}
use bksd.NativeCopy.Engine.{EngineRun}

pub record SimulatedEngine : Type 0 where
  pub speed_mb_per_sec : ℕ

abbrev pub default_engine : SimulatedEngine
default_engine = record { speed_mb_per_sec = 100 }

-- 500 MB
abbrev pub total_size : ℕ
total_size = 524288000

-- Two updates a second.
unfoldable pub chunk_size : ℕ → ℕ
chunk_size speed = speed * 1048576 % u64_mod / 2

-- The bytes copied behind a round.
unfoldable pub advance : ℕ → ℕ → ℕ
advance chunk copied =
    let next = add_u64 copied chunk in if ltb total_size next then total_size else next

module _ (F : Float) (elapsed : ℕ → F.F64) where
  -- The estimate, from the simulated speed.
  unfoldable pub simulated_eta : ℕ → Option ℕ
  simulated_eta copied =
      if not (F.lt (elapsed copied) F.one) && ltb copied total_size
      then some (
          F.to_u64 (
            F.ceil (
              F.div (F.of_u64 (sub_u64 total_size copied))
                (F.div (F.of_u64 copied) (elapsed copied)))))
      else none

  abbrev pub update_of : ℕ → TransferStatus
  update_of copied =
      in_progress total_size copied "simulated_file.dat" (percent_of F copied total_size)
        (simulated_eta copied)

  abbrev pub then_send :
      TransferStatus → Option (List TransferStatus) → Option (List TransferStatus)
  then_send update none = none
  then_send update (some updates) = some (update ∷ updates)

  -- The updates of the loop, unless it has not ended when the fuel has.
  unfoldable pub simulated_loop : ℕ → ℕ → ℕ → Option (List TransferStatus)
  simulated_loop zero chunk copied = if ltb copied total_size then none else some []
  simulated_loop (suc fuel) chunk copied =
      let rest = simulated_loop fuel chunk (advance chunk copied) in
      if ltb copied total_size then then_send (update_of (advance chunk copied)) rest else some []

  abbrev pub simulated_run : ℕ → Disk → Option (List TransferStatus) → Option EngineRun
  simulated_run duration_secs disk none = none
  simulated_run duration_secs disk (some updates) = some (record {
    result =
        ok (record { total_bytes = total_size; duration_secs = duration_secs; file_hashes = none });
    disk = disk;
    sent = ready ∷ updates;
  })

  unfoldable pub simulated_transfer : SimulatedEngine → ℕ → ℕ → Disk → Option EngineRun
  simulated_transfer engine fuel duration_secs disk =
      simulated_run duration_secs disk (simulated_loop fuel (chunk_size engine.speed_mb_per_sec) 0)

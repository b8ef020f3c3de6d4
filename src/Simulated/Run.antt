-- ===== src/Simulated/Run.antt =====
-- The loop of the simulated engine ends, and what it has reported.
use bksd.Base.{
  ℕ, zero, suc, ◌-◌, ◌≤◌, ◌<◌, ◌^◌, ◌≡◌, refl, ap, none, some, List, [], ◌∷◌, ok, arith, All,
  Bool-cases, inl, inr, ltb,
}
use bksd.Storage.{Disk}
use bksd.Storage.Host.{Float}
use bksd.Transfer.{TransferStatus, ready, in_progress}
use bksd.NativeCopy.Engine.{EngineRun}
use bksd.NativeCopy.Engine.Protocol.{IsProgress}
use bksd.Simulated.{
  SimulatedEngine, total_size, chunk_size, advance, update_of, then_send, simulated_loop,
  simulated_run, simulated_transfer,
}

abbrev HasCopied : ℕ → TransferStatus → Type 0
HasCopied n (in_progress total copied current percentage eta) = copied ≡ n
HasCopied n _ = ⊥

-- The last update is the one of all bytes.
abbrev pub EndsFull : List TransferStatus → Type 0
EndsFull [] = ⊥
EndsFull (u ∷ []) = HasCopied total_size u
EndsFull (u ∷ v ∷ us) = EndsFull (v ∷ us)

advance-le : (chunk copied : ℕ) → advance chunk copied ≤ total_size
unfolding advance
advance-le chunk copied = ground arith

advance-lt :
    (chunk copied : ℕ)
    → 0 < chunk
    → chunk < 2 ^ 63
    → copied < total_size
    → copied < advance chunk copied
unfolding advance
advance-lt chunk copied pos small h = ground arith

module _ (F : Float) (elapsed : ℕ → F.F64) (chunk : ℕ) (pos : 0 < chunk)
    (small : chunk < 2 ^ 63) where
  -- What the loop reports from some number of bytes on.
  record Reported (fuel copied : ℕ) : Type 0 where
    updates : List TransferStatus
    ran : simulated_loop F elapsed fuel chunk copied ≡ some updates
    progress : All IsProgress updates
    full : copied < total_size → EndsFull updates
    idle : copied ≡ total_size → updates ≡ []

  simulated_loop-Reported :
      (fuel copied : ℕ) → copied ≤ total_size → total_size - copied ≤ fuel → Reported fuel copied
  unfolding simulated_loop
  simulated_loop-Reported zero copied h enough = record {
    updates = [];
    ran = ground arith;
    progress = tt;
    full = λ k. absurd (omega arith);
    idle = λ _. refl;
  }
  simulated_loop-Reported (suc fuel) copied h enough = elim (Bool-cases (ltb copied total_size)) [
    | inr e ↦ record {
      updates = [];
      ran = rw e refl;
      progress = tt;
      full = λ k. absurd (ground arith);
      idle = λ _. refl;
    }
    | inl e ↦
        let more : copied < total_size = ground arith in
        let next = advance chunk copied in
        let r =
          simulated_loop-Reported fuel next (advance-le chunk copied)
            (omega (arith, advance-lt chunk copied pos small more)) in
        record {
          updates = update_of F elapsed next ∷ r.updates;
          ran = rw e (ap (then_send F elapsed (update_of F elapsed next)) r.ran);
          progress = (tt, r.progress);
          full = λ _. last next r.updates (advance-le chunk copied) r.full r.idle;
          idle = λ k. absurd (omega arith);
        }
  ]
    where
      last :
          (next : ℕ) (updates : List TransferStatus)
          → next ≤ total_size
          → (next < total_size → EndsFull updates)
          → (next ≡ total_size → updates ≡ [])
          → EndsFull (update_of F elapsed next ∷ updates)
      last next [] h full idle = elim (Bool-cases (ltb next total_size)) [
        | inl e ↦ absurd (full (ground arith))
        | inr e ↦ ground arith
      ]
      last next (u ∷ us) h full idle = elim (Bool-cases (ltb next total_size)) [
        | inl e ↦ full (ground arith)
        | inr e ↦ absurd (cons-nil (idle (ground arith)))
      ]
        where
          cons-nil : ¬ (◌≡◌ {A = List TransferStatus} (u ∷ us) [])
          cons-nil e = cc

-- A simulated transfer whose speed gives at least one byte a round ends, in at most as many rounds
-- as there are bytes: it has sent `Ready` and then only progress updates, the last of them with all
-- bytes copied, it leaves the disk as it is, and returns the size without hashes.
pub simulated_transfer-ends :
    (F : Float) (elapsed : ℕ → F.F64) (engine : SimulatedEngine) (fuel duration_secs : ℕ)
    (disk : Disk)
    → 0 < chunk_size engine.speed_mb_per_sec
    → total_size ≤ fuel
    → (run : EngineRun) × (simulated_transfer F elapsed engine fuel duration_secs disk ≡ some run)
      × (run.result
          ≡ ok (record {
            total_bytes = total_size;
            duration_secs = duration_secs;
            file_hashes = none;
          }))
      × (run.disk ≡ disk)
      × ((updates : List TransferStatus) × (run.sent ≡ ready ∷ updates)
          × All IsProgress updates
          × EndsFull updates)
unfolding simulated_transfer
simulated_transfer-ends F elapsed engine fuel duration_secs disk pos enough =
    let r =
      simulated_loop-Reported F elapsed (chunk_size engine.speed_mb_per_sec) pos
        (chunk_size-lt engine.speed_mb_per_sec) fuel 0 (omega arith) (omega arith) in
    (
      record {
        result = ok (record {
          total_bytes = total_size;
          duration_secs = duration_secs;
          file_hashes = none;
        });
        disk = disk;
        sent = ready ∷ r.updates;
      },
      ap (simulated_run F elapsed duration_secs disk) r.ran,
      refl,
      refl,
      (r.updates, refl, r.progress, r.full (omega arith)),
    )
  where
    chunk_size-lt : (speed : ℕ) → chunk_size speed < 2 ^ 63
    chunk_size-lt speed = unfold chunk_size in omega arith

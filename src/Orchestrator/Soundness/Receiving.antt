-- ===== src/Orchestrator/Soundness/Receiving.antt =====
-- src/core/orchestrator.rs: the receipt of a status keeps the daemon sound.
pub mod Actions
use bksd.Base.{
  ℕ, String, ◌≡◌, refl, sym, ap, ◌∙◌, Bool, true, false, Option, none, some, List, [], ◌∷◌, ◌++◌,
  Result, ok, err, inl, inr, any-append, arith, if◌then◌else◌, Bool-cases, Option-cases, is_some,
  ◌==◌, ==_iff, ==_self, string_eq,
}
use bksd.Base.Dict
use bksd.Base.Dict.{Dict, lookup-insert, lookup-erase, insert-NodupKeys, erase-NodupKeys, NodupKeys}
use mathlib.Core.Option.{some-injective}
use bksd.Transfer.{TransferStatus, ready, in_progress, copy_complete, complete, failed}
use bksd.Progress.{IsMap, get-update, get-remove, update-IsMap, remove-IsMap}
use bksd.Progress
use bksd.Db.{
  Db, JobRow, Sqlite, SqlError, Moment, TargetDrive, create, update_status, has_job, job_row, init,
}
use bksd.Db.Integrity.{IsValid, init-IsValid}
use bksd.Db.Integrity.Writes.{create-atomic, create-IsValid, update_status-IsValid}
use bksd.Db.Reading.{jobs-update_status}
use bksd.Notifications.{JobEvent, started, completed, failed_job}
use bksd.Ownership.{Accounts}
use bksd.Orchestrator.{
  BlockDevice, Config, Consumer, Daemon, Engines, Action, notify, set_db, start_job,
  handle_device_added, handle_device_removed, record_status, cleanup_device, end_job, persist,
  consume, receive, act, after_actions, transfer_task, request_of, target_drive, device_added,
  device_removed, receives, build_destination,
}
use bksd.Orchestrator.Messages.{is_terminal, ends_job, transfer_task-ends}
use bksd.Storage.{show_path}
use bksd.Orchestrator.Soundness.{
  Sound, nobody, IsSound, notify-Sound, set_db-Sound, record_status-Sound, cleanup_device-Sound,
  end_job-IsSound, untracked, no_consumers, unreceived, none_received,
}

has_job-create :
    (S : Sqlite) (m : Moment) (j : String) (drive : TargetDrive) (path i : String) (db : Db)
    → has_job i db.jobs ≡ true
    → has_job i (create S m j drive path db).1.jobs ≡ true
has_job-create S m j drive path i db there = elim (create-atomic S m j drive path db) [
  | inl (done, fresh, targets, known, jobs, entries) ↦
      ap (has_job i) jobs
      ∙ any-append (λ (r : JobRow). r.id == i) db.jobs (job_row m j drive path ∷ [])
      ∙ rw there refl
  | inr (e, refused, unchanged) ↦ ap (λ (x : Db). has_job i x.jobs) unchanged ∙ there
]

has_job-created :
    (S : Sqlite) (m : Moment) (j : String) (drive : TargetDrive) (path : String) (db : Db)
    → (create S m j drive path db).0 ≡ ok tt
    → has_job j (create S m j drive path db).1.jobs ≡ true
has_job-created S m j drive path db created = elim (create-atomic S m j drive path db) [
  | inl (done, fresh, targets, known, jobs, entries) ↦
      ap (has_job j) jobs
      ∙ any-append (λ (r : JobRow). r.id == j) db.jobs (job_row m j drive path ∷ [])
      ∙ rw (fresh, ==_self j) refl
  | inr (e, refused, unchanged) ↦ absurd (ok-err (sym created ∙ refused))
]
  where
    ok-err : {e : SqlError} → ◌≡◌ {A = Result SqlError (Unit {0})} (ok tt) (err e) → ⊥
    ok-err e = cc

module _ (S : Sqlite) (config : Config) where
  persist_terminal-IsSound :
      (m : Moment) (j : String) (dev : BlockDevice) (status : TransferStatus) (d : Daemon)
      → is_terminal status ≡ true
      → Sound (λ i. j == i) d
      → IsSound (persist S config m j dev status d)
  unfolding persist
  persist_terminal-IsSound m j dev ready d t s = absurd cc
  persist_terminal-IsSound m j dev (in_progress total copied current percentage eta) d t s =
      absurd cc
  persist_terminal-IsSound m j dev copy_complete d t s = absurd cc
  persist_terminal-IsSound m j dev (complete total duration) d t s =
      let mine = λ (i : String). j == i in
      let noted =
        record_status-Sound S config mine m j "complete" none (some total) (some duration) d s in
      end_job-IsSound S config mine j _ (λ i other. other)
        (cleanup_device-Sound S config mine dev _
          (notify-Sound S config mine (completed j dev.label total duration) _ noted))
  persist_terminal-IsSound m j dev (failed e) d t s =
      let mine = λ (i : String). j == i in
      let noted = record_status-Sound S config mine m j "failed" (some e) none none d s in
      end_job-IsSound S config mine j _ (λ i other. other)
        (notify-Sound S config mine (failed_job j dev.label e) _ noted)

  persist_other-IsSound :
      (m : Moment) (j : String) (dev : BlockDevice) (status : TransferStatus) (d : Daemon)
      → is_terminal status ≡ false
      → IsSound d
      → IsSound (persist S config m j dev status d)
  unfolding persist
  persist_other-IsSound m j dev ready d t s = s
  persist_other-IsSound m j dev (in_progress total copied current percentage eta) d t s = s
  persist_other-IsSound m j dev copy_complete d t s =
      record_status-Sound S config nobody m j "copy_complete" none none none d s
  persist_other-IsSound m j dev (complete total duration) d t s = absurd cc
  persist_other-IsSound m j dev (failed e) d t s = absurd cc

  -- The shared state behind the receipt of a status, before it is looked at.
  taken-Sound :
      (exempt : String → Bool) (j : String) (dev : BlockDevice) (status : TransferStatus)
      (rest : List TransferStatus) (d : Daemon)
      → IsSound d
      → is_some (Dict.lookup j d.consumers) ≡ true
      → (exempt j ≡ false → ends_job rest ≡ true)
      → Sound exempt (record d {
        progress = Progress.update j status d.progress;
        consumers = Dict.insert j (record { dev = dev; pending = rest }) d.consumers;
      })
  taken-Sound exempt j dev status rest d s runs last = record {
    valid = s.valid;
    tracker_map = update-IsMap j status d.progress s.tracker_map;
    consumer_map = insert-NodupKeys j _ d.consumers s.consumer_map;
    tracked = λ i. ground (
      arith,
      get-update i j status d.progress,
      lookup-insert i j (record { dev = dev; pending = rest }) d.consumers,
      s.tracked i,
    );
    known = λ i there. (elim (Bool-cases (j == i)) [
      | inl e ↦ ap (λ k. has_job k d.db.jobs) (sym ((==_iff j i).0 e)) ∙ s.known j runs
      | inr e ↦
          s.known i
            (ground (arith, lookup-insert i j (record { dev = dev; pending = rest }) d.consumers))
    ]);
    ends = λ i c there free. (elim (Bool-cases (j == i)) [
      | inl e ↦
          let same =
            some-injective (record { dev = dev; pending = rest }) c
              (ground
                (arith, lookup-insert i j (record { dev = dev; pending = rest }) d.consumers)) in
          ap (λ (k : Consumer). ends_job k.pending) (sym same)
          ∙ last (ap exempt ((==_iff j i).0 e) ∙ free)
      | inr e ↦
          s.ends i c
            (ground (arith, lookup-insert i j (record { dev = dev; pending = rest }) d.consumers))
            refl
    ]);
  }

  consume-IsSound :
      (m : Moment) (j : String) (dev : BlockDevice) (pending : List TransferStatus) (d : Daemon)
      → IsSound d
      → is_some (Dict.lookup j d.consumers) ≡ true
      → ends_job pending ≡ true
      → IsSound (consume S config m j dev pending d)
  consume-IsSound m j dev [] d s runs last = absurd cc
  consume-IsSound m j dev (status ∷ rest) d s runs last = elim (Bool-cases (is_terminal status)) [
    | inl t ↦ persist_terminal-IsSound m j dev status _ t (
        taken-Sound (λ i. j == i) j dev status rest d s runs
          (λ mine. absurd (ground (arith, ==_self j))))
    | inr t ↦
        persist_other-IsSound m j dev status _ t
          (taken-Sound nobody j dev status rest d s runs (λ _. ground arith))
  ]

  pub receive-IsSound :
      (m : Moment) (j : String) (d : Daemon) → IsSound d → IsSound (receive S config m j d)
  unfolding receive
  receive-IsSound m j d s = elim (Option-cases (Dict.lookup j d.consumers)) [
    | inl gone ↦ rw (gone, receive) s
    | inr (c, runs) ↦
        rw (runs, receive)
          (consume-IsSound m j c.dev c.pending d s (rw runs refl) (s.ends j c runs refl))
  ]

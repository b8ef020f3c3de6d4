-- ===== src/Orchestrator/Soundness/Receiving/Actions.antt =====
-- src/core/orchestrator.rs: the start of a job and every other action keep the daemon sound.
use bksd.Base.{
  String, ◌≡◌, refl, sym, ap, ◌∙◌, Bool, true, false, List, [], ◌∷◌, ◌++◌, Result, ok, err, inl,
  inr, arith, if◌then◌else◌, Bool-cases, ◌==◌, ==_iff, string_eq,
}
use bksd.Base.Dict
use bksd.Base.Dict.{Dict, lookup-insert, lookup-erase, insert-NodupKeys, erase-NodupKeys, NodupKeys}
use mathlib.Core.Option.{some-injective}
use bksd.Transfer.{TransferStatus}
use bksd.Progress.{IsMap, get-update, get-remove, update-IsMap, remove-IsMap}
use bksd.Progress
use bksd.Db.{Db, Sqlite, SqlError, Moment, has_job, init}
use bksd.Db.Integrity.{IsValid, init-IsValid}
use bksd.Db.Integrity.Writes.{create-IsValid}
use bksd.Notifications.{JobEvent, started}
use bksd.Ownership.{Accounts}
use bksd.Orchestrator.{
  BlockDevice, Config, Consumer, Daemon, Engines, Action, notify, set_db, start_job,
  handle_device_added, handle_device_removed, act, after_actions, transfer_task, request_of,
  target_drive, device_added, device_removed, receives, build_destination,
}
use bksd.Orchestrator.Messages.{ends_job, transfer_task-ends}
use bksd.Storage.{show_path}
use bksd.Orchestrator.Soundness.{
  nobody, IsSound, notify-Sound, set_db-Sound, untracked, unreceived, none_received,
}
use bksd.Orchestrator.Soundness.Receiving.{has_job-create, has_job-created, receive-IsSound}
use bksd.Orchestrator.Soundness.{
  nobody, IsSound, notify-Sound, set_db-Sound, untracked, unreceived, none_received,
}

-- A new receiving task of a job that is in the database and will be ended.
add_consumer-IsSound :
    (j : String) (dev : BlockDevice) (task : List TransferStatus) (x : Daemon)
    → IsSound x
    → has_job j x.db.jobs ≡ true
    → ends_job task ≡ true
    → IsSound
        (record x { consumers = Dict.insert j (record { dev = dev; pending = task }) x.consumers })
add_consumer-IsSound j dev task x t there last = record {
  valid = t.valid;
  tracker_map = t.tracker_map;
  consumer_map = insert-NodupKeys j _ x.consumers t.consumer_map;
  tracked = λ i.
      ground
        (arith, lookup-insert i j (record { dev = dev; pending = task }) x.consumers, t.tracked i);
  known = λ i runs. (elim (Bool-cases (j == i)) [
    | inl e ↦ ap (λ k. has_job k x.db.jobs) (sym ((==_iff j i).0 e)) ∙ there
    | inr e ↦
        t.known i
          (ground (arith, lookup-insert i j (record { dev = dev; pending = task }) x.consumers))
  ]);
  ends = λ i c runs free. (elim (Bool-cases (j == i)) [
    | inl e ↦
        let same =
          some-injective (record { dev = dev; pending = task }) c
            (ground
              (arith, lookup-insert i j (record { dev = dev; pending = task }) x.consumers)) in
        ap (λ (k : Consumer). ends_job k.pending) (sym same) ∙ last
    | inr e ↦
        t.ends i c
          (ground (arith, lookup-insert i j (record { dev = dev; pending = task }) x.consumers))
          refl
  ]);
}

module _ (S : Sqlite) (config : Config) where
  -- The job that `create` has written, with those before.
  start_job-IsSound :
      (accounts : Accounts) (engines : Engines) (timestamp j : String) (dev : BlockDevice)
      (r : Result SqlError (Unit {0}) × Db) (d : Daemon)
      → IsSound d
      → IsValid r.1
      → ((i : String) → has_job i d.db.jobs ≡ true → has_job i r.1.jobs ≡ true)
      → (r.0 ≡ ok tt → has_job j r.1.jobs ≡ true)
      → IsSound (start_job S config accounts engines timestamp j dev r d)
  unfolding start_job
  start_job-IsSound accounts engines timestamp j dev (err e, db) d s v keeps new =
      set_db-Sound S config nobody d db s v keeps
  start_job-IsSound accounts engines timestamp j dev (ok _, db) d s v keeps new =
      let req = request_of config accounts timestamp j dev in
      let d' =
        notify config (started j dev.label dev.uuid dev.mount_point req.destination)
          (set_db d db) in
      add_consumer-IsSound j dev (transfer_task config engines req) d'
        (notify-Sound S config nobody _ (set_db d db) (set_db-Sound S config nobody d db s v keeps))
        (ap (has_job j) (
            notify-jobs config.notifies
              (started j dev.label dev.uuid dev.mount_point req.destination))
          ∙ new refl)
        (transfer_task-ends config engines req)
    where
      notify-jobs :
          (b : Bool) (e : JobEvent)
          → (if b
              then record (set_db d db) { notified = d.notified ++ e ∷ [] }
              else set_db d db).db.jobs
            ≡ db.jobs
      notify-jobs true e = refl
      notify-jobs false e = refl

  handle_device_added-IsSound :
      (accounts : Accounts) (engines : Engines) (m : Moment) (timestamp j : String)
      (dev : BlockDevice) (d : Daemon)
      → IsSound d
      → IsSound (handle_device_added S config accounts engines m timestamp j dev d)
  unfolding handle_device_added
  handle_device_added-IsSound accounts engines m timestamp j dev d s =
      start_job-IsSound accounts engines timestamp j dev _ d s
        (create-IsValid S m j (target_drive dev) path d.db s.valid)
        (λ i there. has_job-create S m j (target_drive dev) path i d.db there)
        (λ done. has_job-created S m j (target_drive dev) path d.db done)
    where
      path : String
      path = show_path (build_destination config timestamp dev.label)

  act-IsSound : (a : Action S config) (d : Daemon) → IsSound d → IsSound (act S config a d)
  unfolding act handle_device_removed
  act-IsSound (device_added accounts engines m timestamp j dev) d s =
      handle_device_added-IsSound accounts engines m timestamp j dev d s
  act-IsSound (device_removed uuid) d s = s
  act-IsSound (receives m j) d s = receive-IsSound S config m j d s

  -- However hardware events and the tasks of the jobs interleave, and whichever calls of the
  -- database fail: the tables keep their keys valid, a job that is tracked is one whose task still
  -- receives, such a job is in the database, and a status that ends it is still to come.
  pub after_actions-IsSound :
      (actions : List (Action S config)) → IsSound (after_actions S config actions)
  unfolding after_actions init Progress.new
  after_actions-IsSound [] = record {
    valid = init-IsValid;
    tracker_map = tt;
    consumer_map = tt;
    tracked = λ j h. absurd (untracked j h);
    known = λ j h. absurd (unreceived j h);
    ends = λ j c h _. absurd (none_received j c h);
  }
  after_actions-IsSound (a ∷ actions) =
      act-IsSound a (after_actions S config actions) (after_actions-IsSound actions)

-- ===== src/Orchestrator/Soundness.antt =====
-- What holds of the daemon after any interleaving of its tasks.
pub mod Receiving
use bksd.Base.{
  ℕ, String, ◌≡◌, refl, sym, ap, ◌∙◌, Bool, true, false, Option, none, some, List, [], ◌∷◌, ◌++◌,
  Result, ok, err, inl, inr, any-append, arith, if◌then◌else◌, Bool-cases, Option-cases, is_some,
  ◌==◌, ==_iff, ==_self, string_eq,
}
use bksd.Base.Dict
use bksd.Base.Dict.{Dict, lookup-insert, lookup-erase, insert-NodupKeys, erase-NodupKeys, NodupKeys}
use mathlib.Core.Option.{some-injective}
use bksd.Transfer.{TransferStatus, ready, in_progress, copy_complete, complete, failed}
use bksd.Progress.{IsMap, get-update, get-remove, update-IsMap, remove-IsMap}
use bksd.Progress
use bksd.Db.{
  Db, JobRow, Sqlite, SqlError, Moment, TargetDrive, create, update_status, has_job, job_row, init,
}
use bksd.Db.Integrity.{IsValid, init-IsValid}
use bksd.Db.Integrity.Writes.{create-atomic, create-IsValid, update_status-IsValid}
use bksd.Db.Reading.{jobs-update_status}
use bksd.Notifications.{JobEvent, started, completed, failed_job}
use bksd.Ownership.{Accounts}
use bksd.Orchestrator.{
  BlockDevice, Config, Consumer, Daemon, Engines, Action, notify, set_db, start_job,
  handle_device_added, handle_device_removed, record_status, cleanup_device, end_job, persist,
  consume, receive, act, after_actions, transfer_task, request_of, target_drive, device_added,
  device_removed, receives, build_destination,
}
use bksd.Orchestrator.Messages.{is_terminal, ends_job, transfer_task-ends}
use bksd.Storage.{show_path}

-- `exempt` says of which job the pending statuses need not end it.
pub record Sound (exempt : String → Bool) (d : Daemon) : Type 0 where
  pub valid : IsValid d.db
  pub tracker_map : IsMap d.progress
  pub consumer_map : NodupKeys d.consumers
  -- Only a job that still receives is tracked.
  pub tracked :
      (j : String)
      → is_some (Progress.get j d.progress) ≡ true
      → is_some (Dict.lookup j d.consumers) ≡ true
  -- Such a job is in the database.
  pub known : (j : String) → is_some (Dict.lookup j d.consumers) ≡ true → has_job j d.db.jobs ≡ true
  -- And it will be ended.
  pub ends :
      (j : String) (c : Consumer)
      → Dict.lookup j d.consumers ≡ some c
      → exempt j ≡ false
      → ends_job c.pending ≡ true

abbrev nobody : String → Bool
nobody j = false

abbrev pub IsSound : Daemon → Type 0
IsSound d = Sound nobody d

module _ (S : Sqlite) (config : Config) (exempt : String → Bool) where
  notify-Sound : (e : JobEvent) (d : Daemon) → Sound exempt d → Sound exempt (notify config e d)
  notify-Sound e d s = go config.notifies
    where
      go : (b : Bool) → Sound exempt (if b then record d { notified = d.notified ++ e ∷ [] } else d)
      go true = record {
        valid = s.valid;
        tracker_map = s.tracker_map;
        consumer_map = s.consumer_map;
        tracked = s.tracked;
        known = s.known;
        ends = s.ends;
      }
      go false = s

  set_db-Sound :
      (d : Daemon) (db : Db)
      → Sound exempt d
      → IsValid db
      → ((j : String) → has_job j d.db.jobs ≡ true → has_job j db.jobs ≡ true)
      → Sound exempt (set_db d db)
  set_db-Sound d db s v keeps = record {
    valid = v;
    tracker_map = s.tracker_map;
    consumer_map = s.consumer_map;
    tracked = s.tracked;
    known = λ j runs. keeps j (s.known j runs);
    ends = s.ends;
  }

  record_status-Sound :
      (m : Moment) (j status : String) (description : Option String) (total duration : Option ℕ)
      (d : Daemon)
      → Sound exempt d
      → Sound exempt (record_status S config m j status description total duration d)
  record_status-Sound m j status description total duration d s =
      set_db-Sound d (update_status S m j status description total duration d.db).1 s
        (update_status-IsValid S m j status description total duration d.db s.valid)
        (λ i there.
          ap (has_job i) (jobs-update_status S m j status description total duration d.db) ∙ there)

  cleanup_device-Sound :
      (dev : BlockDevice) (d : Daemon)
      → Sound exempt d
      → Sound exempt (cleanup_device S config dev d)
  cleanup_device-Sound dev d s = record {
    valid = s.valid;
    tracker_map = s.tracker_map;
    consumer_map = s.consumer_map;
    tracked = s.tracked;
    known = s.known;
    ends = s.ends;
  }

  end_job-IsSound :
      (j : String) (d : Daemon)
      → ((i : String) → (j == i) ≡ false → exempt i ≡ false)
      → Sound exempt d
      → IsSound (end_job S config j d)
  end_job-IsSound j d only s = record {
    valid = s.valid;
    tracker_map = remove-IsMap j d.progress s.tracker_map;
    consumer_map = erase-NodupKeys j d.consumers s.consumer_map;
    tracked = λ i. ground (
      arith,
      get-remove i j d.progress s.tracker_map,
      lookup-erase i j d.consumers s.consumer_map,
      s.tracked i,
    );
    known = λ i. ground (arith, lookup-erase i j d.consumers s.consumer_map, s.known i);
    ends = λ i c there _. (elim (Bool-cases (j == i)) [
      | inl e ↦ absurd (ground (arith, lookup-erase i j d.consumers s.consumer_map))
      | inr e ↦ s.ends i c (ground (arith, lookup-erase i j d.consumers s.consumer_map)) (only i e)
    ]);
  }

untracked : (j : String) → ¬ (is_some (Progress.get j Progress.new) ≡ true)
unfolding Progress.get Progress.new Dict.lookup
untracked j h = absurd cc

abbrev no_consumers : Dict String Consumer
no_consumers = []

unreceived : (j : String) → ¬ (is_some (Dict.lookup j no_consumers) ≡ true)
unfolding Dict.lookup
unreceived j h = absurd cc

none_received : (j : String) (c : Consumer) → ¬ (Dict.lookup j no_consumers ≡ some c)
unfolding Dict.lookup
none_received j c h = absurd cc

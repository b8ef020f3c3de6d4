-- ===== src/Orchestrator/Jobs.antt =====
-- A job's end: its receiving task takes its statuses one by one until it stops.
pub mod Finish
pub mod Ending
use bksd.Base.{
  ℕ, ◌≤◌, String, ◌≡◌, refl, sym, ap, subst, ◌∙◌, true, false, none, some, List, [], ◌∷◌, ◌++◌,
  append-nil, inl, inr, arith, if◌then◌else◌, Bool-cases, length, ◌==◌, ==_self, string_eq,
}
use bksd.Base.Dict
use bksd.Base.Dict.{lookup-insert, lookup-erase, insert-NodupKeys}
use bksd.Transfer.{TransferStatus, ready, in_progress, copy_complete, complete, failed}
use bksd.Progress.{get-update, get-remove, update-IsMap}
use bksd.Progress
use bksd.Db.{Sqlite, Moment}
use bksd.Db.Reading.{jobs-update_status}
use bksd.Notifications.{JobEvent, completed, failed_job}
use bksd.Orchestrator.{
  BlockDevice, Config, Consumer, Daemon, notify, record_status, cleanup_device, end_job, persist,
  consume, receive, Action, after_actions,
}
use bksd.Orchestrator.Messages.{is_terminal, ends_job}
use bksd.Orchestrator.Soundness.{IsSound}
use bksd.Orchestrator.Soundness.Receiving.{receive-IsSound}
use bksd.Orchestrator.Soundness.Receiving.Actions.{after_actions-IsSound}

-- The event of the first status that ends the job.
unfoldable pub end_events : String → BlockDevice → List TransferStatus → List JobEvent
end_events j dev [] = []
end_events j dev (complete total duration ∷ rest) = completed j dev.label total duration ∷ []
end_events j dev (failed e ∷ rest) = failed_job j dev.label e ∷ []
end_events j dev (_ ∷ rest) = end_events j dev rest

-- The device, if that status is `Complete`.
unfoldable pub end_cleanups : BlockDevice → List TransferStatus → List BlockDevice
end_cleanups dev [] = []
end_cleanups dev (complete total duration ∷ rest) = dev ∷ []
end_cleanups dev (failed e ∷ rest) = []
end_cleanups dev (_ ∷ rest) = end_cleanups dev rest

-- The job has ended, once, and the others are as before.
pub record HasEnded (config : Config) (j : String) (dev : BlockDevice)
    (pending : List TransferStatus) (d d' : Daemon) : Type 0 where
  pub stopped : Dict.lookup j d'.consumers ≡ none
  pub untracked : Progress.get j d'.progress ≡ none
  pub notified :
      d'.notified ≡ (if config.notifies then d.notified ++ end_events j dev pending else d.notified)
  pub cleaned : d'.cleaned ≡ d.cleaned ++ end_cleanups dev pending
  pub others_tracked :
      (i : String) → (j == i) ≡ false → Progress.get i d'.progress ≡ Progress.get i d.progress
  pub others_receive :
      (i : String) → (j == i) ≡ false → Dict.lookup i d'.consumers ≡ Dict.lookup i d.consumers
  pub jobs : d'.db.jobs ≡ d.db.jobs

abbrev taken : String → BlockDevice → TransferStatus → List TransferStatus → Daemon → Daemon
taken j dev status rest d = record d {
  progress = Progress.update j status d.progress;
  consumers = Dict.insert j (record { dev = dev; pending = rest }) d.consumers;
}

module _ (S : Sqlite) (config : Config) (j : String) (dev : BlockDevice) where
  unfoldable pub receive_all : List Moment → Daemon → Daemon
  receive_all [] d = d
  receive_all (m ∷ ms) d = receive_all ms (receive S config m j d)

  receive-idle :
      (m : Moment) (d : Daemon) → Dict.lookup j d.consumers ≡ none → receive S config m j d ≡ d
  unfolding receive
  receive-idle m d gone = rw (gone, receive) refl

  receive_all-idle :
      (ms : List Moment) (d : Daemon) → Dict.lookup j d.consumers ≡ none → receive_all ms d ≡ d
  unfolding receive_all
  receive_all-idle [] d gone = refl
  receive_all-idle (m ∷ ms) d gone =
      ap (receive_all ms) (receive-idle m d gone) ∙ receive_all-idle ms d gone

  receive-eq :
      (m : Moment) (pending : List TransferStatus) (d : Daemon)
      → Dict.lookup j d.consumers ≡ some (record { dev = dev; pending = pending })
      → receive S config m j d ≡ consume S config m j dev pending d
  unfolding receive
  receive-eq m pending d runs = rw (runs, receive) refl

  -- The end of a job, from the tracker and the tasks as they stand when its last status is taken.
  ended :
      (status : TransferStatus) (rest : List TransferStatus) (d x : Daemon)
      → IsSound d
      → x.progress ≡ (taken j dev status rest d).progress
      → x.consumers ≡ (taken j dev status rest d).consumers
      → x.db.jobs ≡ d.db.jobs
      → x.notified
        ≡ (if config.notifies then d.notified ++ end_events j dev (status ∷ rest) else d.notified)
      → x.cleaned ≡ d.cleaned ++ end_cleanups dev (status ∷ rest)
      → HasEnded config j dev (status ∷ rest) d (end_job S config j x)
  ended status rest d x s progress consumers jobs notified cleaned =
      let map = update-IsMap j status d.progress s.tracker_map in
      let task : Consumer = record { dev = dev; pending = rest } in
      let keys = insert-NodupKeys j task d.consumers s.consumer_map in
      record {
        stopped =
            rw consumers
              (ground (arith, lookup-erase j j (Dict.insert j task d.consumers) keys, ==_self j));
        untracked =
            rw progress
              (ground (arith, get-remove j j (Progress.update j status d.progress) map, ==_self j));
        notified = notified;
        cleaned = cleaned;
        others_tracked = λ i other. rw progress (
            ground (
              arith,
              get-remove i j (Progress.update j status d.progress) map,
              get-update i j status d.progress,
            ));
        others_receive = λ i other. rw consumers (
            ground (
              arith,
              lookup-erase i j (Dict.insert j task d.consumers) keys,
              lookup-insert i j task d.consumers,
            ));
        jobs = jobs;
      }

  -- What `notify` leaves.
  notify-notified :
      (e : JobEvent) (d : Daemon)
      → (notify config e d).notified
        ≡ (if config.notifies then d.notified ++ e ∷ [] else d.notified)
  notify-notified e d = elim (Bool-cases config.notifies) [
    | inl on ↦ rw on refl
    | inr off ↦ rw off refl
  ]

  notify-rest :
      (e : JobEvent) (d : Daemon)
      → ((notify config e d).progress ≡ d.progress)
        × ((notify config e d).consumers ≡ d.consumers)
        × ((notify config e d).db ≡ d.db)
        × ((notify config e d).cleaned ≡ d.cleaned)
  notify-rest e d = elim (Bool-cases config.notifies) [
    | inl on ↦ rw on (refl, refl, refl, refl)
    | inr off ↦ rw off (refl, refl, refl, refl)
  ]

  ended_complete :
      (m : Moment) (total duration : ℕ) (rest : List TransferStatus) (d : Daemon)
      → IsSound d
      → HasEnded config j dev
          (complete total duration ∷ rest)
          d
          (consume S config m j dev (complete total duration ∷ rest) d)
  unfolding persist end_events end_cleanups
  ended_complete m total duration rest d s =
      let status = complete total duration in
      let noted =
        record_status S config m j "complete" none (some total) (some duration)
          (taken j dev status rest d) in
      let event = completed j dev.label total duration in
      let (progress, consumers, db, cleaned) = notify-rest event noted in
      ended status rest d (cleanup_device S config dev (notify config event noted)) s progress
        consumers
        (ap (λ (x : bksd.Db.Db). x.jobs) db
          ∙ jobs-update_status S m j "complete" none (some total) (some duration) d.db)
        (notify-notified event noted) (ap (λ xs. xs ++ dev ∷ []) cleaned)

  ended_failed :
      (m : Moment) (e : String) (rest : List TransferStatus) (d : Daemon)
      → IsSound d
      → HasEnded config j dev (failed e ∷ rest) d (consume S config m j dev (failed e ∷ rest) d)
  unfolding persist end_events end_cleanups
  ended_failed m e rest d s =
      let status = failed e in
      let noted =
        record_status S config m j "failed" (some e) none none (taken j dev status rest d) in
      let event = failed_job j dev.label e in
      let (progress, consumers, db, cleaned) = notify-rest event noted in
      ended status rest d (notify config event noted) s progress consumers
        (ap (λ (x : bksd.Db.Db). x.jobs) db
          ∙ jobs-update_status S m j "failed" (some e) none none d.db)
        (notify-notified event noted) (cleaned ∙ sym (append-nil d.cleaned))

  -- A status that does not end the job leaves its task with the rest.
  record GoesOn (status : TransferStatus) (rest : List TransferStatus) (d x : Daemon) : Type 0 where
    progress : x.progress ≡ Progress.update j status d.progress
    consumers : x.consumers ≡ Dict.insert j (record { dev = dev; pending = rest }) d.consumers
    notified : x.notified ≡ d.notified
    cleaned : x.cleaned ≡ d.cleaned
    jobs : x.db.jobs ≡ d.db.jobs
    same_events : end_events j dev (status ∷ rest) ≡ end_events j dev rest
    same_cleanups : end_cleanups dev (status ∷ rest) ≡ end_cleanups dev rest

  goes_on :
      (m : Moment) (status : TransferStatus) (rest : List TransferStatus) (d : Daemon)
      → is_terminal status ≡ false
      → GoesOn status rest d (consume S config m j dev (status ∷ rest) d)
  unfolding persist end_events end_cleanups
  goes_on m ready rest d t = record {
    progress = refl;
    consumers = refl;
    notified = refl;
    cleaned = refl;
    jobs = refl;
    same_events = refl;
    same_cleanups = refl;
  }
  goes_on m (in_progress total copied current percentage eta) rest d t = record {
    progress = refl;
    consumers = refl;
    notified = refl;
    cleaned = refl;
    jobs = refl;
    same_events = refl;
    same_cleanups = refl;
  }
  goes_on m copy_complete rest d t = record {
    progress = refl;
    consumers = refl;
    notified = refl;
    cleaned = refl;
    jobs = jobs-update_status S m j "copy_complete" none none none d.db;
    same_events = refl;
    same_cleanups = refl;
  }
  goes_on m (complete total duration) rest d t = absurd cc
  goes_on m (failed e) rest d t = absurd cc

  then_ended :
      (status : TransferStatus) (rest : List TransferStatus) (d x d' : Daemon)
      → GoesOn status rest d x
      → HasEnded config j dev rest x d'
      → HasEnded config j dev (status ∷ rest) d d'
  then_ended status rest d x d' g h = record {
    stopped = h.stopped;
    untracked = h.untracked;
    notified = h.notified ∙ rw (g.notified, g.same_events) refl;
    cleaned = h.cleaned ∙ rw (g.cleaned, g.same_cleanups) refl;
    others_tracked = λ i other.
        h.others_tracked i other
        ∙ ap (Progress.get i) g.progress
        ∙ ground (arith, get-update i j status d.progress);
    others_receive = λ i other.
        h.others_receive i other
        ∙ ap (Dict.lookup i) g.consumers
        ∙ ground (arith, lookup-insert i j (record { dev = dev; pending = rest }) d.consumers);
    jobs = h.jobs ∙ g.jobs;
  }

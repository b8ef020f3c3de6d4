-- ===== src/Orchestrator/Recorded.antt =====
-- What the database shows of a job while its task receives.
use bksd.Base.{
  ◌<◌, String, ◌≡◌, refl, ap, ◌∙◌, false, none, some, List, ◌∷◌, Result, ok, Bool-cases, inl, inr,
  All, ◌==◌, string_eq,
}
use bksd.Base.Dict
use bksd.Transfer.{TransferStatus, ready, in_progress, copy_complete, complete, failed}
use bksd.Db.{Db, Job, LogRow, Sqlite, SqlError, Moment, update_status, entries_of, get}
use bksd.Db.Ordering.{IsOrdering}
use bksd.Db.Reading.Writes.{get-update_status}
use bksd.Notifications.{JobEvent, completed, failed_job}
use bksd.Orchestrator.{BlockDevice, Config, Daemon, notify, persist, receive}

-- A status that is kept in the database, by its text there.
abbrev pub recorded_as : String → TransferStatus → String
recorded_as before copy_complete = "copy_complete"
recorded_as before (complete total duration) = "complete"
recorded_as before (failed e) = "failed"
recorded_as before _ = before

module _ (S : Sqlite) where
  -- The write that a status leads to, if any.
  abbrev pub written : Moment → String → TransferStatus → Db → Result SqlError (Unit {0}) × Db
  written m j copy_complete db = update_status S m j "copy_complete" none none none db
  written m j (complete total duration) db =
      update_status S m j "complete" none (some total) (some duration) db
  written m j (failed e) db = update_status S m j "failed" (some e) none none db
  written m j _ db = (ok tt, db)

  db-notify : (config : Config) (e : JobEvent) (d : Daemon) → (notify config e d).db ≡ d.db
  db-notify config e d = elim (Bool-cases config.notifies) [
    | inl on ↦ rw on refl
    | inr off ↦ rw off refl
  ]

  db-persist :
      (config : Config) (m : Moment) (j : String) (dev : BlockDevice) (status : TransferStatus)
      (d : Daemon)
      → (persist S config m j dev status d).db ≡ (written m j status d.db).1
  unfolding persist
  db-persist config m j dev ready d = refl
  db-persist config m j dev (in_progress total copied current percentage eta) d = refl
  db-persist config m j dev copy_complete d = refl
  db-persist config m j dev (complete total duration) d =
      db-notify config (completed j dev.label total duration) _
  db-persist config m j dev (failed e) d = db-notify config (failed_job j dev.label e) _

  pub db-receive :
      (config : Config) (m : Moment) (j : String) (dev : BlockDevice) (status : TransferStatus)
      (rest : List TransferStatus) (d : Daemon)
      → Dict.lookup j d.consumers ≡ some (record { dev = dev; pending = status ∷ rest })
      → (receive S config m j d).db ≡ (written m j status d.db).1
  unfolding receive
  db-receive config m j dev status rest d runs =
      rw (runs, receive) (db-persist config m j dev status _)

  get-written :
      IsOrdering S
      → (m : Moment) (j : String) (status : TransferStatus) (db : Db) (job : Job)
      → get S none j db ≡ ok job
      → All (λ (l : LogRow). l.created_at < m.log_at) (entries_of S j db)
      → (written m j status db).0 ≡ ok tt
      → (get S none j (written m j status db).1
          ≡ ok (record job { status = recorded_as job.status status }))
        × ((other : String)
            → (j == other) ≡ false
            → get S none other (written m j status db).1 ≡ get S none other db)
  get-written L m j ready db job there earlier done = (there, λ other differs. refl)
  get-written L m j (in_progress total copied current percentage eta) db job there earlier done =
      (there, λ other differs. refl)
  get-written L m j copy_complete db job there earlier done =
      get-update_status S L m j "copy_complete" none none none db job there earlier done
  get-written L m j (complete total duration) db job there earlier done =
      get-update_status S L m j "complete" none (some total) (some duration) db job there earlier
        done
  get-written L m j (failed e) db job there earlier done =
      get-update_status S L m j "failed" (some e) none none db job there earlier done

  -- Where ORDER BY sorts the rows and keeps each once: when a task receives a status at a later
  -- second than all the entries of its job, and the write that it leads to succeeds, the database
  -- shows the job with that status: `copy_complete`, `complete` or `failed`, and as before for
  -- `Ready` and progress, which are not written. Every other job reads as before.
  pub get-receive :
      IsOrdering S
      → (config : Config) (m : Moment) (j : String) (dev : BlockDevice) (status : TransferStatus)
        (rest : List TransferStatus) (d : Daemon) (job : Job)
      → Dict.lookup j d.consumers ≡ some (record { dev = dev; pending = status ∷ rest })
      → get S none j d.db ≡ ok job
      → All (λ (l : LogRow). l.created_at < m.log_at) (entries_of S j d.db)
      → (written m j status d.db).0 ≡ ok tt
      → (get S none j (receive S config m j d).db
          ≡ ok (record job { status = recorded_as job.status status }))
        × ((other : String)
            → (j == other) ≡ false
            → get S none other (receive S config m j d).db ≡ get S none other d.db)
  get-receive L config m j dev status rest d job runs there earlier done =
      let now = get-written L m j status d.db job there earlier done in
      let same = db-receive config m j dev status rest d runs in
      (
        ap (get S none j) same ∙ now.0,
        λ other differs. ap (get S none other) same ∙ now.1 other differs,
      )

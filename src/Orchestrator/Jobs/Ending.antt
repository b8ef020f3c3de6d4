-- ===== src/Orchestrator/Jobs/Ending.antt =====
-- What the database shows of a job when its task has ended.
use bksd.Base.{
  ◌≤◌, ◌<◌, String, ◌≡◌, refl, ap, sym, ◌∙◌, true, false, none, some, List, [], ◌∷◌, ok, length,
  arith, All, ◌==◌, string_eq, subst,
}
use bksd.Base.Dict
use bksd.Transfer.{TransferStatus, ready, in_progress, copy_complete, complete, failed}
use bksd.Db.{Db, Job, LogRow, Sqlite, Moment, entries_of, get}
use bksd.Db.Ordering.{IsOrdering}
use bksd.Orchestrator.{BlockDevice, Config, Daemon, Action, receive, consume, after_actions}
use bksd.Orchestrator.Messages.{is_terminal, ends_job}
use bksd.Orchestrator.Recorded.{recorded_as, written, db-receive, get-receive}
use bksd.Orchestrator.Soundness.{IsSound}
use bksd.Orchestrator.Soundness.Receiving.{receive-IsSound}
use bksd.Orchestrator.Soundness.Receiving.Actions.{after_actions-IsSound}
use bksd.Orchestrator.Jobs.{
  HasEnded, receive_all, receive_all-idle, receive-eq, ended_complete, ended_failed,
}
use bksd.Orchestrator.Jobs.Finish.{still}

-- The text that the job ends with, when it has begun with another: that of the first status that
-- ends it.
unfoldable pub final_text : String → List TransferStatus → String
final_text before [] = before
final_text before (complete total duration ∷ rest) = "complete"
final_text before (failed e ∷ rest) = "failed"
final_text before (copy_complete ∷ rest) = final_text "copy_complete" rest
final_text before (ready ∷ rest) = final_text before rest
final_text before (in_progress total copied current percentage eta ∷ rest) = final_text before rest

module _ (S : Sqlite) (j : String) where
  -- Each status is received at a later second than all the entries of the job, and its write
  -- succeeds, up to the one that ends the job.
  abbrev pub AreWritten : List TransferStatus → List Moment → Db → Type 0
  AreWritten [] ms db = Unit
  AreWritten (status ∷ rest) [] db = Unit
  AreWritten (status ∷ rest) (m ∷ ms) db =
      All (λ (l : LogRow). l.created_at < m.log_at) (entries_of S j db)
      × ((written S m j status db).0 ≡ ok tt)
      × AreWritten rest ms (written S m j status db).1

  module _ (L : IsOrdering S) (config : Config) (dev : BlockDevice) where
    -- The job reads as before but for its status, and the others read as before.
    abbrev pub ReadsAs : Daemon → Job → String → Daemon → Type 0
    ReadsAs d job status d' =
        (get S none j d'.db ≡ ok (record job { status = status }))
        × ((other : String) → (j == other) ≡ false → get S none other d'.db ≡ get S none other d.db)

    ended-ReadsAs :
        (m : Moment) (ms : List Moment) (status : TransferStatus) (rest : List TransferStatus)
        (d : Daemon) (job : Job)
        → Dict.lookup j d.consumers ≡ some (record { dev = dev; pending = status ∷ rest })
        → get S none j d.db ≡ ok job
        → AreWritten (status ∷ rest) (m ∷ ms) d.db
        → HasEnded config j dev (status ∷ rest) d (consume S config m j dev (status ∷ rest) d)
        → ReadsAs d job
            (recorded_as job.status status)
            (receive_all S config j dev ms (receive S config m j d))
    ended-ReadsAs m ms status rest d job runs there (earlier, done, later) ended =
        let stopped : Dict.lookup j (receive S config m j d).consumers ≡ none =
          ap (λ (x : Daemon). Dict.lookup j x.consumers)
            (receive-eq S config j dev m (status ∷ rest) d runs)
          ∙ ended.stopped in
        rw (receive_all-idle S config j dev ms (receive S config m j d) stopped)
          (get-receive S L config m j dev status rest d job runs there earlier done)

    continued-ReadsAs :
        (m : Moment) (status : TransferStatus) (rest : List TransferStatus) (d d' : Daemon)
        (job : Job) (final : String)
        → Dict.lookup j d.consumers ≡ some (record { dev = dev; pending = status ∷ rest })
        → get S none j d.db ≡ ok job
        → All (λ (l : LogRow). l.created_at < m.log_at) (entries_of S j d.db)
        → (written S m j status d.db).0 ≡ ok tt
        → ReadsAs
            (receive S config m j d)
            (record job { status = recorded_as job.status status })
            final
            d'
        → ReadsAs d job final d'
    continued-ReadsAs m status rest d d' job final runs there earlier done (now, others) = (
      now,
      λ other differs.
          others other differs
          ∙ (get-receive S L config m j dev status rest d job runs there earlier done).1 other
              differs,
    )

    -- One round of a task that goes on.
    onwards :
        (m : Moment) (ms : List Moment) (status : TransferStatus) (rest : List TransferStatus)
        (d : Daemon) (job : Job)
        → is_terminal status ≡ false
        → IsSound d
        → Dict.lookup j d.consumers ≡ some (record { dev = dev; pending = status ∷ rest })
        → get S none j d.db ≡ ok job
        → AreWritten (status ∷ rest) (m ∷ ms) d.db
        → ((job' : Job)
            → IsSound (receive S config m j d)
            → Dict.lookup j (receive S config m j d).consumers
              ≡ some (record { dev = dev; pending = rest })
            → get S none j (receive S config m j d).db ≡ ok job'
            → AreWritten rest ms (receive S config m j d).db
            → ReadsAs
                (receive S config m j d)
                job'
                (final_text job'.status rest)
                (receive_all S config j dev ms (receive S config m j d)))
        → ReadsAs d job
            (final_text (recorded_as job.status status) rest)
            (receive_all S config j dev ms (receive S config m j d))
    onwards m ms status rest d job goes s runs there (earlier, done, later) next =
        let now = get-receive S L config m j dev status rest d job runs there earlier done in
        continued-ReadsAs m status rest d (receive_all S config j dev ms (receive S config m j d))
          job _ runs there earlier done
          (next (record job { status = recorded_as job.status status })
            (receive-IsSound S config m j d s) (still S config j dev m status rest d runs goes)
            now.0
            (subst (AreWritten rest ms) (sym (db-receive S config m j dev status rest d runs))
              later))

    finish :
        (pending : List TransferStatus) (ms : List Moment) (d : Daemon) (job : Job)
        → IsSound d
        → Dict.lookup j d.consumers ≡ some (record { dev = dev; pending = pending })
        → ends_job pending ≡ true
        → length pending ≤ length ms
        → get S none j d.db ≡ ok job
        → AreWritten pending ms d.db
        → ReadsAs d job (final_text job.status pending) (receive_all S config j dev ms d)
    unfolding receive_all final_text
    finish [] ms d job s runs last enough there w = absurd cc
    finish (status ∷ rest) [] d job s runs last enough there w = absurd (omega arith)
    finish (complete total duration ∷ rest) (m ∷ ms) d job s runs last enough there w =
        ended-ReadsAs m ms _ rest d job runs there w
          (ended_complete S config j dev m total duration rest d s)
    finish (failed e ∷ rest) (m ∷ ms) d job s runs last enough there w =
        ended-ReadsAs m ms _ rest d job runs there w (ended_failed S config j dev m e rest d s)
    finish (ready ∷ rest) (m ∷ ms) d job s runs last enough there w =
        onwards m ms ready rest d job refl s runs there w (λ job' s' runs' there' w'.
          finish rest ms (receive S config m j d) job' s' runs' last (omega arith) there' w')
    finish (in_progress total copied current percentage eta ∷ rest) (m ∷ ms) d job s runs last
          enough there w =
        onwards m ms (in_progress total copied current percentage eta) rest d job refl s runs there
          w
          (λ job' s' runs' there' w'.
            finish rest ms (receive S config m j d) job' s' runs' last (omega arith) there' w')
    finish (copy_complete ∷ rest) (m ∷ ms) d job s runs last enough there w =
        onwards m ms copy_complete rest d job refl s runs there w (λ job' s' runs' there' w'.
          finish rest ms (receive S config m j d) job' s' runs' last (omega arith) there' w')

    -- In any state that interleaved tasks can lead to, when the task of a job has received as many
    -- statuses as were pending, the database shows the job as before but for its status, which is
    -- that of the first status that ends the job: `complete` or `failed`. All other jobs read as
    -- before. Each status is received at a later second than the entries of the job, and the writes
    -- succeed up to that of the end.
    pub get-receive_all :
        (actions : List (Action S config)) (pending : List TransferStatus) (ms : List Moment)
        (job : Job)
        → Dict.lookup j (after_actions S config actions).consumers
          ≡ some (record { dev = dev; pending = pending })
        → length pending ≤ length ms
        → get S none j (after_actions S config actions).db ≡ ok job
        → AreWritten pending ms (after_actions S config actions).db
        → let d = after_actions S config actions in
          ReadsAs d job (final_text job.status pending) (receive_all S config j dev ms d)
    get-receive_all actions pending ms job runs enough there w =
        let s = after_actions-IsSound S config actions in
        finish pending ms (after_actions S config actions) job s runs (s.ends j _ runs refl) enough
          there w

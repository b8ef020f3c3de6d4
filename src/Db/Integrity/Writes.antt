-- ===== src/Db/Integrity/Writes.antt =====
-- src/db/jobs.rs: the operations that write, as a whole.
use bksd.Base.{
  ℕ, ◌≡◌, refl, sym, ap, ◌∙◌, true, false, Option, List, [], ◌∷◌, ◌++◌, Result, ok, err,
  Result-cases, arith, ◌⊎◌, inl, inr, ==_self, string_eq, Bool-cases, String, ok-injective,
}
use bksd.Db.{
  TargetDrive, JobRow, LogRow, Db, SqlError, Sqlite, Moment, init, has_target, has_job, has_entry,
  upsert_target, insert_job, insert_entry, job_row, ready_entry, status_entry, finish,
  create_transaction, binds, create, insert_status, update_status, engine, bind, ◌>>=◌,
}
use bksd.Db.Integrity.{
  IsValid, has_target-upsert, upsert-IsValid, insert_job-IsValid, insert_entry-IsValid,
  init-IsValid,
}

bind-eq-ok :
    {A B : Type 0} (first : Result SqlError A) (next : A → Result SqlError B) {result : B}
    → (first >>= next) ≡ ok result
    → (between : A) × (first ≡ ok between) × (next between ≡ ok result)
bind-eq-ok (ok between) next done = (between, refl, done)
bind-eq-ok (err e) next done = absurd cc

pub inserted_job :
    (job : JobRow) (db db' : Db)
    → insert_job job db ≡ ok db'
    → (has_job job.id db.jobs ≡ false)
      × (db'.jobs ≡ db.jobs ++ job ∷ [])
      × (db'.targets ≡ db.targets)
      × (db'.job_status_log ≡ db.job_status_log)
unfolding insert_job
inserted_job job db db' = elim (Bool-cases (has_job job.id db.jobs)) [
  | inl there ↦ rw there (λ e. absurd cc)
  | inr fresh ↦ rw fresh (elim (Bool-cases (has_target job.target_id db.targets)) [
    | inr missing ↦ rw missing (λ e. absurd cc)
    | inl known ↦ rw known (λ e.
        let same = sym (ok-injective {E = SqlError} _ db' e) in
        (
          refl,
          ap (λ (d : Db). d.jobs) same,
          ap (λ (d : Db). d.targets) same,
          ap (λ (d : Db). d.job_status_log) same,
        ))
  ])
]

pub inserted_entry :
    (entry : LogRow) (db db' : Db)
    → insert_entry entry db ≡ ok db'
    → (db'.jobs ≡ db.jobs)
      × (db'.targets ≡ db.targets)
      × (db'.job_status_log ≡ db.job_status_log ++ entry ∷ [])
unfolding insert_entry
inserted_entry entry db db' = elim (Bool-cases (has_entry entry.id db.job_status_log)) [
  | inl there ↦ rw there (λ e. absurd cc)
  | inr fresh ↦ rw fresh (elim (Bool-cases (has_job entry.job_id db.jobs)) [
    | inr missing ↦ rw missing (λ e. absurd cc)
    | inl known ↦ rw known (λ e.
        let same = sym (ok-injective {E = SqlError} _ db' e) in
        (
          ap (λ (d : Db). d.jobs) same,
          ap (λ (d : Db). d.targets) same,
          ap (λ (d : Db). d.job_status_log) same,
        ))
  ])
]

module _ (S : Sqlite) where
  -- The two insertions behind a transaction that commits.
  pub inserted_by :
      (m : Moment) (job_id : String) (drive : TargetDrive) (path : String) (db db' : Db)
      → create_transaction S m job_id drive path db ≡ ok db'
      → (with_job : Db) × (insert_job
            (job_row m job_id drive path)
            (record db { targets = upsert_target m drive db.targets })
          ≡ ok with_job)
        × (insert_entry (ready_entry m job_id) with_job ≡ ok db')
  unfolding create_transaction
  inserted_by m job_id drive path db db' h =
      let (_, _, h1) = bind-eq-ok (engine (m.fault 0)) _ h in
      let (_, _, h2) = bind-eq-ok (bind (S.binds_u64 drive.raw_size)) _ h1 in
      let (_, _, h3) = bind-eq-ok (engine (m.fault 1)) _ h2 in
      let (_, _, h4) = bind-eq-ok (engine (m.fault 2)) _ h3 in
      let (with_job, put, h5) = bind-eq-ok _ _ h4 in
      let (_, _, h6) = bind-eq-ok (engine (m.fault 3)) _ h5 in
      let (with_entry, noted, h7) = bind-eq-ok _ _ h6 in
      let (_, _, h8) = bind-eq-ok (engine (m.fault 4)) _ h7 in (with_job, put, noted ∙ h8)

  create_transaction-IsValid :
      (m : Moment) (job_id : String) (drive : TargetDrive) (path : String) (db db' : Db)
      → IsValid db
      → create_transaction S m job_id drive path db ≡ ok db'
      → IsValid db'
  create_transaction-IsValid m job_id drive path db db' v h =
      let (with_job, put, noted) = inserted_by m job_id drive path db db' h in
      insert_entry-IsValid _ with_job db'
        (insert_job-IsValid _ _ with_job (upsert-IsValid m drive db v) put) noted

  finish-IsValid :
      (db : Db) (r : Result SqlError Db)
      → IsValid db
      → ((db' : Db) → r ≡ ok db' → IsValid db')
      → IsValid (finish db r).1
  finish-IsValid db (ok db') v h = h db' refl
  finish-IsValid db (err e) v h = v

  pub create-IsValid :
      (m : Moment) (job_id : String) (drive : TargetDrive) (path : String) (db : Db)
      → IsValid db
      → IsValid (create S m job_id drive path db).1
  unfolding create
  create-IsValid m job_id drive path db v =
      finish-IsValid db _ v (λ db' h. create_transaction-IsValid m job_id drive path db db' v h)

  pub noted_by :
      (m : Moment) (entry : LogRow) (db db' : Db)
      → insert_status S m entry db ≡ ok db'
      → insert_entry entry db ≡ ok db'
  unfolding insert_status
  noted_by m entry db db' h =
      let (_, _, h1) = bind-eq-ok (bind (binds S entry.total_bytes)) _ h in
      let (_, _, h2) = bind-eq-ok (bind (binds S entry.duration_secs)) _ h1 in
      let (_, _, h3) = bind-eq-ok (engine (m.fault 0)) _ h2 in h3

  pub update_status-IsValid :
      (m : Moment) (job_id status : String) (description : Option String)
      (total_bytes duration_secs : Option ℕ) (db : Db)
      → IsValid db
      → IsValid (update_status S m job_id status description total_bytes duration_secs db).1
  unfolding update_status
  update_status-IsValid m job_id status description total duration db v =
      finish-IsValid db _ v (λ db' h.
        insert_entry-IsValid (status_entry S m job_id status description total duration) db db' v
          (noted_by m _ db db' h))

  pub data Write : Type 0 where
    creates : Moment → String → TargetDrive → String → Write
    updates_status : Moment → String → String → Option String → Option ℕ → Option ℕ → Write

  unfoldable pub perform : Write → Db → Db
  perform (creates m job_id drive path) db = (create S m job_id drive path db).1
  perform (updates_status m job_id status description total duration) db =
      (update_status S m job_id status description total duration db).1

  -- The newest call stands first.
  unfoldable pub after_writes : List Write → Db
  after_writes [] = init
  after_writes (w ∷ writes) = perform w (after_writes writes)

  -- Whatever calls have been made since the tables were set up, and whichever of them failed, no
  -- primary key is there twice, every job has its target and every status entry its job.
  pub after_writes-IsValid : (writes : List Write) → IsValid (after_writes writes)
  unfolding after_writes perform
  after_writes-IsValid [] = init-IsValid
  after_writes-IsValid (creates m job_id drive path ∷ writes) =
      create-IsValid m job_id drive path (after_writes writes) (after_writes-IsValid writes)
  after_writes-IsValid (updates_status m job_id status description total duration ∷ writes) =
      update_status-IsValid m job_id status description total duration (after_writes writes)
        (after_writes-IsValid writes)

  -- Creating a job is all or nothing. If it succeeds, the identifier was new, the target is there,
  -- and one job row and one `Ready` entry stand behind the old ones; if it fails, with the engine's
  -- error at whatever statement, the tables are as before.
  pub create-atomic :
      (m : Moment) (job_id : String) (drive : TargetDrive) (path : String) (db : Db)
      → let after = create S m job_id drive path db in
        ((after.0 ≡ ok tt)
          × (has_job job_id db.jobs ≡ false)
          × (after.1.targets ≡ upsert_target m drive db.targets)
          × (has_target drive.uuid after.1.targets ≡ true)
          × (after.1.jobs ≡ db.jobs ++ job_row m job_id drive path ∷ [])
          × (after.1.job_status_log ≡ db.job_status_log ++ ready_entry m job_id ∷ []))
        ⊎ ((e : SqlError) × (after.0 ≡ err e) × (after.1 ≡ db))
  unfolding create
  create-atomic m job_id drive path db =
      elim (Result-cases (create_transaction S m job_id drive path db)) [
        | inr (e, failed) ↦ rw failed (inr (e, refl, refl))
        | inl (db', done) ↦ rw done (
            let (with_job, put, noted) = inserted_by m job_id drive path db db' done in
            let (fresh, jobs, targets, entries) = inserted_job _ _ with_job put in
            let (jobs', targets', entries') = inserted_entry _ with_job db' noted in
            inl (
              refl,
              fresh,
              targets' ∙ targets,
              rw (targets', targets)
                  (has_target-upsert m drive drive.uuid db.targets
                    ∙ ground (arith, ==_self drive.uuid)),
              jobs' ∙ jobs,
              entries' ∙ ap (λ es. es ++ ready_entry m job_id ∷ []) entries,
            ))
      ]

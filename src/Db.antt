-- ===== src/Db.antt =====
-- src/db/jobs.rs and src/db/mod.rs: the statements on the three tables.
pub mod Ordering
pub mod Integrity
pub mod Reading
pub mod Listing
pub mod History
pub mod Pages
pub use bksd.Tables.{
  TargetDrive, Target, JobRow, LogRow, Db, Job, JobStatusEntry, JobWithHistory, SqlError,
  unique_violated, foreign_key_violated, not_bindable, no_rows, engine_failed, Sqlite, Moment,
}
use bksd.Base.{
  ℕ, String, ◌<>◌, Bool, true, false, Option, none, some, List, [], ◌∷◌, ◌++◌, Result, ok, err,
  ◌==◌, string_eq, if◌then◌else◌, unwrap_or, any, select, take, drop,
}

-- The tables that `init` sets up in a new file. It turns foreign keys on for the connection.
unfoldable pub init : Db
init = record { targets = []; jobs = []; job_status_log = [] }

infixl 10 ◌>>=◌
abbrev pub ◌>>=◌ : {A B : Type 0} → Result SqlError A → (A → Result SqlError B) → Result SqlError B
ok a >>= f = f a
err e >>= f = err e

abbrev pub engine : Option SqlError → Result SqlError (Unit {0})
engine none = ok tt
engine (some e) = err e

abbrev pub has_target : String → List Target → Bool
has_target id targets = any (λ t. t.id == id) targets

abbrev pub has_job : String → List JobRow → Bool
has_job id jobs = any (λ j. j.id == id) jobs

abbrev pub has_entry : String → List LogRow → Bool
has_entry id entries = any (λ l. l.id == id) entries

-- The first statement of `create`. A target that is there keeps its size and its adapter.
unfoldable pub upsert_target : Moment → TargetDrive → List Target → List Target
upsert_target m drive [] =
    (record {
      id = drive.uuid;
      label = drive.label;
      raw_size = drive.raw_size;
      adapter = "SIMULATED";
      source = drive.mount_path;
      created_at = m.target_at;
    })
    ∷ []
upsert_target m drive (t ∷ targets) =
    if t.id == drive.uuid
    then (record t { label = drive.label; source = drive.mount_path; created_at = m.target_at })
      ∷ targets
    else t ∷ upsert_target m drive targets

unfoldable pub insert_job : JobRow → Db → Result SqlError Db
insert_job job db =
    if has_job job.id db.jobs
    then err unique_violated
    else if has_target job.target_id db.targets
    then ok (record db { jobs = db.jobs ++ job ∷ [] })
    else err foreign_key_violated

unfoldable pub insert_entry : LogRow → Db → Result SqlError Db
insert_entry entry db =
    if has_entry entry.id db.job_status_log
    then err unique_violated
    else if has_job entry.job_id db.jobs
    then ok (record db { job_status_log = db.job_status_log ++ entry ∷ [] })
    else err foreign_key_violated

abbrev pub bind : Bool → Result SqlError (Unit {0})
bind true = ok tt
bind false = err not_bindable

-- A call's answer and the tables behind it: a failure leaves them as they were, since a transaction
-- that is dropped is rolled back.
abbrev pub finish : Db → Result SqlError Db → Result SqlError (Unit {0}) × Db
finish db (ok db') = (ok tt, db')
finish db (err e) = (err e, db)

abbrev pub job_row : Moment → String → TargetDrive → String → JobRow
job_row m job_id drive destination_path = record {
  id = job_id;
  target_id = drive.uuid;
  destination_path = some destination_path;
  created_at = m.job_at;
}

abbrev pub ready_entry : Moment → String → LogRow
ready_entry m job_id = record {
  id = m.log_id;
  job_id = job_id;
  status = "Ready";
  description = some "Job created waiting for processor";
  total_bytes = none;
  duration_secs = none;
  created_at = m.log_at;
}

module _ (S : Sqlite) where
  unfoldable pub create_transaction :
      Moment → String → TargetDrive → String → Db → Result SqlError Db
  create_transaction m job_id drive destination_path db = do
    _ ← engine (m.fault 0)
    _ ← bind (S.binds_u64 drive.raw_size)
    _ ← engine (m.fault 1)
    let targets = upsert_target m drive db.targets
    _ ← engine (m.fault 2)
    with_job ←
        insert_job (job_row m job_id drive destination_path) (record db { targets = targets })
    _ ← engine (m.fault 3)
    with_entry ← insert_entry (ready_entry m job_id) with_job
    _ ← engine (m.fault 4)
    ok with_entry

  unfoldable pub create :
      Moment → String → TargetDrive → String → Db → Result SqlError (Unit {0}) × Db
  create m job_id drive destination_path db =
      finish db (create_transaction m job_id drive destination_path db)

  abbrev pub binds : Option ℕ → Bool
  binds none = true
  binds (some n) = S.binds_u64 n

  abbrev pub status_entry : Moment → String → String → Option String → Option ℕ → Option ℕ → LogRow
  status_entry m job_id status description total_bytes duration_secs = record {
    id = m.log_id;
    job_id = job_id;
    status = status;
    description = description;
    total_bytes = total_bytes;
    duration_secs = duration_secs;
    created_at = m.log_at;
  }

  unfoldable pub insert_status : Moment → LogRow → Db → Result SqlError Db
  insert_status m entry db = do
    _ ← bind (binds entry.total_bytes)
    _ ← bind (binds entry.duration_secs)
    _ ← engine (m.fault 0)
    insert_entry entry db

  unfoldable pub update_status :
      Moment
      → String
      → String
      → Option String
      → Option ℕ
      → Option ℕ
      → Db
      → Result SqlError (Unit {0}) × Db
  update_status m job_id status description total_bytes duration_secs db =
      finish db
        (insert_status m (status_entry m job_id status description total_bytes duration_secs) db)

  abbrev pub entries_of : String → Db → List LogRow
  entries_of job_id db = select (λ l. l.job_id == job_id) db.job_status_log

  abbrev pub first_status : List LogRow → Option String
  first_status [] = none
  first_status (l ∷ entries) = some l.status

  -- The subquery `SELECT status ... ORDER BY created_at DESC LIMIT 1`.
  unfoldable pub latest_status : String → Db → Option String
  latest_status job_id db =
      first_status (S.newest_first 1 0 (λ l. l.created_at) (entries_of job_id db))

  unfoldable pub job_of : Db → JobRow → Job
  job_of db j = record {
    id = j.id;
    target_id = j.target_id;
    destination_path = j.destination_path;
    created_at = j.created_at;
    status = unwrap_or (latest_status j.id db) "Unknown";
  }

  abbrev pub first_row : List JobRow → Result SqlError JobRow
  first_row [] = err no_rows
  first_row (j ∷ jobs) = ok j

  abbrev pub with_message : {A : Type 0} → String → Result SqlError A → Result String A
  with_message text (ok a) = ok a
  with_message text (err e) = err (text <> S.show_error e)

  unfoldable pub get : Option SqlError → String → Db → Result String Job
  get fault job_id db =
      with_message "Failed to get job: " (do
        _ ← engine fault
        j ← first_row (select (λ j. j.id == job_id) db.jobs)
        ok (job_of db j))

  -- The rows that a `status` filter leaves; NULL equals nothing.
  unfoldable pub has_status : Db → Option String → JobRow → Bool
  has_status db none j = true
  has_status db (some status) j = elim (latest_status j.id db) [
    | none ↦ false
    | some latest ↦ latest == status
  ]

  unfoldable pub list : Option SqlError → ℕ → ℕ → Option String → Db → Result String (List Job)
  list fault limit offset status_filter db = with_message "Failed to list jobs: " (do
    _ ← engine fault
    let rows =
        S.newest_first limit offset (λ j. j.created_at)
          (select (has_status db status_filter) db.jobs)
    ok (bksd.Base.map (job_of db) (take limit (drop offset rows))))

  abbrev pub history_entry : LogRow → JobStatusEntry
  history_entry l = record {
    id = l.id;
    status = l.status;
    description = l.description;
    total_bytes = l.total_bytes;
    duration_secs = l.duration_secs;
    created_at = l.created_at;
  }

  unfoldable pub get_with_history :
      Option SqlError → Option SqlError → String → Db → Result String JobWithHistory
  get_with_history fault later_fault job_id db = with_message "Failed to get job with history: " (do
    _ ← engine fault
    j ← first_row (select (λ j. j.id == job_id) db.jobs)
    _ ← engine later_fault
    let entries = S.oldest_first (λ l. l.created_at) (entries_of job_id db)
    ok (record { job = job_of db j; history = bksd.Base.map history_entry entries }))

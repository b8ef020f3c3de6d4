-- ===== src/Tables.antt =====
-- src/db/schema.sql and src/db/jobs.rs: the rows of the tables, what a query returns, and what SQLite
-- leaves open. A table is the list of its rows in the order in which they were inserted.
use bksd.Base.{ℕ, String, Bool, Option, List}

pub record TargetDrive : Type 0 where
  pub uuid : String
  pub label : String
  pub mount_path : String
  pub raw_size : ℕ

-- A row of `targets`. A `created_at` is a number of seconds: CURRENT_TIMESTAMP has no finer part.
pub record Target : Type 0 where
  pub id : String
  pub label : String
  pub raw_size : ℕ
  pub adapter : String
  pub source : String
  pub created_at : ℕ

-- A row of `jobs`.
pub record JobRow : Type 0 where
  pub id : String
  pub target_id : String
  pub destination_path : Option String
  pub created_at : ℕ

-- A row of `job_status_log`.
pub record LogRow : Type 0 where
  pub id : String
  pub job_id : String
  pub status : String
  pub description : Option String
  pub total_bytes : Option ℕ
  pub duration_secs : Option ℕ
  pub created_at : ℕ

pub record Db : Type 0 where
  pub targets : List Target
  pub jobs : List JobRow
  pub job_status_log : List LogRow

-- The result of a query for a job.
pub record Job : Type 0 where
  pub id : String
  pub target_id : String
  pub destination_path : Option String
  pub created_at : ℕ
  pub status : String

pub record JobStatusEntry : Type 0 where
  pub id : String
  pub status : String
  pub description : Option String
  pub total_bytes : Option ℕ
  pub duration_secs : Option ℕ
  pub created_at : ℕ

pub record JobWithHistory : Type 0 where
  pub job : Job
  pub history : List JobStatusEntry

pub data SqlError : Type 0 where
  unique_violated foreign_key_violated not_bindable no_rows : SqlError
  -- What the engine reports for other reasons: a full disk, a locked file.
  engine_failed : String → SqlError

-- What SQLite leaves open: the order of rows with equal keys, the numbers that it takes as
-- parameters, and the text of its errors.
pub record Sqlite : Type 1 where
  -- `ORDER BY key DESC` in a statement with these LIMIT and OFFSET, on which the order of rows with
  -- equal keys may depend, and `ORDER BY key ASC`
  pub newest_first : {A : Type 0} → (limit offset : ℕ) → (A → ℕ) → List A → List A
  pub oldest_first : {A : Type 0} → (A → ℕ) → List A → List A
  pub binds_u64 : ℕ → Bool
  pub show_error : SqlError → String

-- What one call of an operation finds: the clock at each of its statements, the new identifier of
-- `Uuid::now_v7`, and the failures of the engine by the statement's position.
pub record Moment : Type 0 where
  pub target_at : ℕ
  pub job_at : ℕ
  pub log_at : ℕ
  pub log_id : String
  pub fault : ℕ → Option SqlError

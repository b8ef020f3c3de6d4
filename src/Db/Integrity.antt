-- ===== src/Db/Integrity.antt =====
-- The keys of the three tables, and all-or-nothing of the operations that write.
pub mod Writes
use bksd.Base.{
  ℕ, ◌≡◌, refl, sym, ap, ◌∙◌, Bool, true, false, ◌||◌, Option, none, some, List, [], ◌∷◌, ◌++◌,
  Result, ok, err, Result-cases, if◌then◌else◌, arith, All, All-append, All-map, any, any-append,
  ◌⊎◌, inl, inr, ◌==◌, ==_iff, ==_self, string_eq, Bool-cases, String, ok-injective,
}
use bksd.Db.{
  TargetDrive, Target, JobRow, LogRow, Db, SqlError, Sqlite, Moment, init, has_target, has_job,
  has_entry, upsert_target, insert_job, insert_entry, job_row, ready_entry, status_entry, finish,
  create_transaction, binds, create, insert_status, update_status, engine, bind, ◌>>=◌,
}

module _ {A : Type 0} where
  -- No two rows have the same primary key.
  abbrev pub HasUniqueIds : (A → String) → List A → Type 0
  HasUniqueIds id [] = Unit
  HasUniqueIds id (x ∷ xs) = (any (λ y. id y == id x) xs ≡ false) × HasUniqueIds id xs

  append-HasUniqueIds :
      (id : A → String) (xs : List A) (new : A)
      → any (λ y. id y == id new) xs ≡ false
      → HasUniqueIds id xs
      → HasUniqueIds id (xs ++ new ∷ [])
  append-HasUniqueIds id [] new fresh h = (refl, tt)
  append-HasUniqueIds id (x ∷ xs) new fresh h = (
    ground (
      arith,
      any-append (λ y. id y == id x) xs (new ∷ []),
      h.0,
      fresh,
      ==_iff (id x) (id new),
      ==_iff (id new) (id x),
    ),
    append-HasUniqueIds id xs new (ground arith) h.1,
  )

-- What the keys of the schema promise.
pub record IsValid (db : Db) : Type 0 where
  pub target_ids : HasUniqueIds (λ (t : Target). t.id) db.targets
  pub job_ids : HasUniqueIds (λ (j : JobRow). j.id) db.jobs
  pub entry_ids : HasUniqueIds (λ (l : LogRow). l.id) db.job_status_log
  pub job_targets : All (λ (j : JobRow). has_target j.target_id db.targets ≡ true) db.jobs
  pub entry_jobs : All (λ (l : LogRow). has_job l.job_id db.jobs ≡ true) db.job_status_log

pub has_target-upsert :
    (m : Moment) (drive : TargetDrive) (id : String) (targets : List Target)
    → has_target id (upsert_target m drive targets) ≡ (drive.uuid == id || has_target id targets)
unfolding upsert_target
has_target-upsert m drive id [] = refl
has_target-upsert m drive id (t ∷ targets) = ground (
  arith,
  ==_iff t.id drive.uuid,
  ==_iff t.id id,
  ==_iff drive.uuid id,
  has_target-upsert m drive id targets,
)

upsert-HasUniqueIds :
    (m : Moment) (drive : TargetDrive) (targets : List Target)
    → HasUniqueIds (λ (t : Target). t.id) targets
    → HasUniqueIds (λ (t : Target). t.id) (upsert_target m drive targets)
unfolding upsert_target
upsert-HasUniqueIds m drive [] h = (refl, tt)
upsert-HasUniqueIds m drive (t ∷ targets) h = elim (Bool-cases (t.id == drive.uuid)) [
  | inl e ↦ rw e h
  | inr e ↦ rw e (
    ground (
      arith,
      has_target-upsert m drive t.id targets,
      ==_iff t.id drive.uuid,
      ==_iff drive.uuid t.id,
      h.0,
    ),
    upsert-HasUniqueIds m drive targets h.1,
  )
]

upsert-IsValid :
    (m : Moment) (drive : TargetDrive) (db : Db)
    → IsValid db
    → IsValid (record db { targets = upsert_target m drive db.targets })
upsert-IsValid m drive db v = record {
  target_ids = upsert-HasUniqueIds m drive db.targets v.target_ids;
  job_ids = v.job_ids;
  entry_ids = v.entry_ids;
  job_targets =
      All-map db.jobs (λ j h. ground (arith, has_target-upsert m drive j.target_id db.targets))
        v.job_targets;
  entry_jobs = v.entry_jobs;
}

insert_job-IsValid :
    (job : JobRow) (db db' : Db) → IsValid db → insert_job job db ≡ ok db' → IsValid db'
unfolding insert_job
insert_job-IsValid job db db' v = elim (Bool-cases (has_job job.id db.jobs)) [
  | inl there ↦ rw there (λ e. absurd cc)
  | inr fresh ↦ rw fresh (elim (Bool-cases (has_target job.target_id db.targets)) [
    | inr missing ↦ rw missing (λ e. absurd cc)
    | inl known ↦ rw known (λ e. subst_valid (ok-injective {E = SqlError} _ db' e) (record {
      target_ids = v.target_ids;
      job_ids = append-HasUniqueIds (λ (j : JobRow). j.id) db.jobs job fresh v.job_ids;
      entry_ids = v.entry_ids;
      job_targets = All-append _ db.jobs (job ∷ []) v.job_targets (known, tt);
      entry_jobs =
          All-map db.job_status_log
            (λ l h.
              ground (arith, any-append (λ (j : JobRow). j.id == l.job_id) db.jobs (job ∷ [])))
            v.entry_jobs;
    }))
  ])
]
  where
    subst_valid : {x y : Db} → x ≡ y → IsValid x → IsValid y
    subst_valid e h = bksd.Base.subst IsValid e h

insert_entry-IsValid :
    (entry : LogRow) (db db' : Db) → IsValid db → insert_entry entry db ≡ ok db' → IsValid db'
unfolding insert_entry
insert_entry-IsValid entry db db' v = elim (Bool-cases (has_entry entry.id db.job_status_log)) [
  | inl there ↦ rw there (λ e. absurd cc)
  | inr fresh ↦ rw fresh (elim (Bool-cases (has_job entry.job_id db.jobs)) [
    | inr missing ↦ rw missing (λ e. absurd cc)
    | inl known ↦ rw known (λ e.
        bksd.Base.subst IsValid (ok-injective {E = SqlError} _ db' e) (record {
          target_ids = v.target_ids;
          job_ids = v.job_ids;
          entry_ids =
              append-HasUniqueIds (λ (l : LogRow). l.id) db.job_status_log entry fresh v.entry_ids;
          job_targets = v.job_targets;
          entry_jobs = All-append _ db.job_status_log (entry ∷ []) v.entry_jobs (known, tt);
        }))
  ])
]

pub init-IsValid : IsValid init
unfolding init
init-IsValid = record {
  target_ids = tt;
  job_ids = tt;
  entry_ids = tt;
  job_targets = tt;
  entry_jobs = tt;
}

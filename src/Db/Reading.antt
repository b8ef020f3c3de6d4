-- ===== src/Db/Reading.antt =====
-- `get`, `get_with_history` and the subquery for a job's status, against the writes before them.
pub mod Writes
use bksd.Base.{
  ℕ, ◌<◌, ◌≡◌, refl, sym, ap, subst, ◌∙◌, Bool, true, false, not, ◌&&◌, Option, none, some, List,
  [], ◌∷◌, ◌++◌, append-nil, Result, ok, err, arith, All, All-append, All-map, any, select,
  select-append, count_if, count_if-append, count_if-zero, ◌⊎◌, inl, inr, ◌==◌, ==_iff, ==_self,
  string_eq, Bool-cases, String, leb, ok-injective,
}
use bksd.Db.{
  TargetDrive, JobRow, LogRow, Job, Db, SqlError, Sqlite, Moment, has_job, job_row, ready_entry,
  status_entry, create, update_status, finish, insert_status, entries_of, first_status,
  latest_status, job_of, first_row, with_message, get, engine, ◌>>=◌,
}
use bksd.Db.Ordering.{IsOrdering, IsDescending, SameRows, none_in_order}
use bksd.Db.Integrity.{IsValid}
use bksd.Db.Integrity.Writes.{create-atomic, inserted_entry, noted_by}

pub select-none : {A : Type 0} (p : A → Bool) (xs : List A) → any p xs ≡ false → select p xs ≡ []
select-none p [] h = refl
select-none p (x ∷ xs) h = ground (arith, select-none p xs)

pub jobs-update_status :
    (S : Sqlite) (m : Moment) (job_id status : String) (description : Option String)
    (total_bytes duration_secs : Option ℕ) (db : Db)
    → (update_status S m job_id status description total_bytes duration_secs db).1.jobs ≡ db.jobs
unfolding update_status
jobs-update_status S m job_id status description total duration db =
    go (insert_status S m (status_entry S m job_id status description total duration) db) refl
  where
    go :
        (r : Result SqlError Db)
        → insert_status S m (status_entry S m job_id status description total duration) db ≡ r
        → (finish db r).1.jobs ≡ db.jobs
    go (ok db') e =
        (inserted_entry (status_entry S m job_id status description total duration) db db'
          (noted_by S m _ db db' e)).0
    go (err x) e = refl

module _ (S : Sqlite) (L : IsOrdering S) where
  abbrev since : ℕ → LogRow → Bool
  since t l = leb t l.created_at

  abbrev disagrees : ℕ → String → LogRow → Bool
  disagrees t status l = leb t l.created_at && not (l.status == status)

  first_status_in_order :
      (t : ℕ) (status : String) (xs ys : List LogRow)
      → SameRows ys xs
      → IsDescending (λ l. l.created_at) ys
      → 0 < count_if (since t) xs
      → All (λ l. disagrees t status l ≡ false) xs
      → first_status S ys ≡ some status
  first_status_in_order t status xs [] same down some_since agree =
      absurd (ground (arith, same (since t)))
  first_status_in_order t status xs (y ∷ ys) same down some_since agree = ap some (
      decide (Bool-cases (since t y)) (none_in_order (disagrees t status) xs (y ∷ ys) same agree).0)
    where
      decide :
          (since t y ≡ true) ⊎ (since t y ≡ false)
          → disagrees t status y ≡ false
          → y.status ≡ status
      decide (inl late) agrees = (==_iff y.status status).0 (ground arith)
      decide (inr early) agrees = absurd (
          ground (
            arith,
            same (since t),
            count_if-zero (since t) (y ∷ ys) (early, All-map ys (λ l before. ground arith) down.0),
          ))

  -- If all the entries of a job from some time on have one status, and there is such an entry, then
  -- that is the job's status.
  pub latest_status-since :
      (t : ℕ) (status job_id : String) (db : Db)
      → 0 < count_if (since t) (entries_of S job_id db)
      → All (λ l. disagrees t status l ≡ false) (entries_of S job_id db)
      → latest_status S job_id db ≡ some status
  unfolding latest_status
  latest_status-since t status job_id db =
      first_status_in_order t status (entries_of S job_id db) _
        (L.newest-rows 1 0 (λ l. l.created_at) (entries_of S job_id db))
        (L.newest-IsDescending 1 0 (λ l. l.created_at) (entries_of S job_id db))

  no_entries :
      (job_id : String) (jobs : List JobRow) (entries : List LogRow)
      → has_job job_id jobs ≡ false
      → All (λ (l : LogRow). has_job l.job_id jobs ≡ true) entries
      → select (λ l. l.job_id == job_id) entries ≡ []
  no_entries job_id jobs [] unknown known = refl
  no_entries job_id jobs (l ∷ entries) unknown known = elim (Bool-cases (l.job_id == job_id)) [
    | inl e ↦ absurd (
        true-false
          (sym known.0 ∙ ap (λ i. has_job i jobs) ((==_iff l.job_id job_id).0 e) ∙ unknown))
    | inr e ↦ rw e (no_entries job_id jobs entries unknown known.1)
  ]
    where
      true-false : ¬ (◌≡◌ {A = Bool} true false)
      true-false e = cc

  -- An identifier that differs from a new row's selects the same rows as before.
  select-snoc_other :
      {A : Type 0} (p : A → Bool) (xs : List A) (new : A)
      → p new ≡ false
      → select p (xs ++ new ∷ []) ≡ select p xs
  select-snoc_other p xs new h =
      select-append p xs (new ∷ [])
      ∙ ap (λ zs. select p xs ++ zs) (rw h refl)
      ∙ append-nil (select p xs)

  pub get-eq :
      (id : String) (db : Db) (j : JobRow) (rest : List JobRow)
      → select (λ j. j.id == id) db.jobs ≡ j ∷ rest
      → get S none id db ≡ ok (job_of S db j)
  unfolding get
  get-eq id db j rest e = rw e refl

  pub selected_ids :
      (id : String) (jobs : List JobRow)
      → All (λ (j : JobRow). j.id ≡ id) (select (λ j. j.id == id) jobs)
  selected_ids id [] = tt
  selected_ids id (j ∷ jobs) = elim (Bool-cases (j.id == id)) [
    | inl e ↦ rw e ((==_iff j.id id).0 e, selected_ids id jobs)
    | inr e ↦ rw e (selected_ids id jobs)
  ]

  job_of-congr :
      (id : String) (db db' : Db) (j : JobRow)
      → j.id ≡ id
      → entries_of S id db' ≡ entries_of S id db
      → job_of S db' j ≡ job_of S db j
  unfolding job_of latest_status
  job_of-congr id db db' j same entries = rw (same, entries) refl

  job_of-status :
      (j : JobRow) (db : Db) (status : String)
      → latest_status S j.id db ≡ some status
      → job_of S db j ≡ record {
        id = j.id;
        target_id = j.target_id;
        destination_path = j.destination_path;
        created_at = j.created_at;
        status = status;
      }
  unfolding job_of
  job_of-status j db status e = rw e refl

  -- A job's answer is settled by the rows about it.
  get-congr :
      (id : String) (db db' : Db)
      → select (λ (j : JobRow). j.id == id) db'.jobs ≡ select (λ (j : JobRow). j.id == id) db.jobs
      → entries_of S id db' ≡ entries_of S id db
      → get S none id db' ≡ get S none id db
  unfolding get
  get-congr id db db' jobs entries =
      rw jobs (same (select (λ j. j.id == id) db.jobs) (selected_ids id db.jobs))
    where
      same :
          (rows : List JobRow)
          → All (λ (j : JobRow). j.id ≡ id) rows
          → (with_message S "Failed to get job: "
              (do _ ← engine none; j ← first_row S rows; ok (job_of S db' j)))
            ≡ (with_message S "Failed to get job: "
                (do _ ← engine none; j ← first_row S rows; ok (job_of S db j)))
      same [] h = refl
      same (j ∷ rows) h = ap ok (job_of-congr id db db' j h.0 entries)

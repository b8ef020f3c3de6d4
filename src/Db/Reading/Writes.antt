-- ===== src/Db/Reading/Writes.antt =====
-- src/db/jobs.rs: what `get` reads behind `create` and `update_status`.
use bksd.Base.{
  ℕ, ◌<◌, ◌≡◌, refl, sym, ap, subst, ◌∙◌, Bool, false, Option, none, some, List, [], ◌∷◌, ◌++◌,
  Result, ok, err, arith, All, All-append, All-map, select, select-append, count_if-append, inl,
  inr, ◌==◌, ==_self, string_eq, Bool-cases, String, ok-injective,
}
use bksd.Db.{
  TargetDrive, JobRow, LogRow, Job, Db, SqlError, Sqlite, Moment, job_row, ready_entry,
  status_entry, create, update_status, finish, insert_status, entries_of, latest_status, job_of,
  first_row, with_message, get, ◌>>=◌,
}
use bksd.Db.Ordering.{IsOrdering}
use bksd.Db.Integrity.{IsValid}
use bksd.Db.Integrity.Writes.{create-atomic, inserted_entry, noted_by}
use bksd.Db.Reading.{
  select-none, since, latest_status-since, no_entries, select-snoc_other, get-eq, selected_ids,
  job_of-status, get-congr,
}

module _ (S : Sqlite) (L : IsOrdering S) where
  -- Where ORDER BY sorts the rows and keeps each once: after a job has been created in tables
  -- whose keys are valid, it is read back as it was given, with the status `Ready`, and every
  -- other job reads as before.
  pub get-create :
      (m : Moment) (job_id : String) (drive : TargetDrive) (path : String) (db : Db)
      → IsValid db
      → (create S m job_id drive path db).0 ≡ ok tt
      → (get S none job_id (create S m job_id drive path db).1
          ≡ ok (record {
            id = job_id;
            target_id = drive.uuid;
            destination_path = some path;
            created_at = m.job_at;
            status = "Ready";
          }))
        × ((other : String)
            → (job_id == other) ≡ false
            → get S none other (create S m job_id drive path db).1 ≡ get S none other db)
  get-create m job_id drive path db v created = elim (create-atomic S m job_id drive path db) [
    | inr (e, failed, unchanged) ↦ absurd (ok-err (sym created ∙ failed))
    | inl (done, fresh, targets, known, jobs, entries) ↦
        let db' = (create S m job_id drive path db).1 in
        let ready = ready_entry m job_id in
        let row = job_row m job_id drive path in
        let rows : select (λ j. j.id == job_id) db'.jobs ≡ row ∷ [] =
          ap (select (λ j. j.id == job_id)) jobs
          ∙ select-append (λ j. j.id == job_id) db.jobs (row ∷ [])
          ∙ rw (select-none (λ (j : JobRow). j.id == job_id) db.jobs fresh, ==_self job_id) refl in
        let mine : entries_of S job_id db' ≡ ready ∷ [] =
          ap (select (λ l. l.job_id == job_id)) entries
          ∙ select-append (λ l. l.job_id == job_id) db.job_status_log (ready ∷ [])
          ∙ rw (no_entries S L job_id db.jobs db.job_status_log fresh v.entry_jobs, ==_self job_id)
              refl in
        let status : latest_status S job_id db' ≡ some "Ready" =
          latest_status-since S L 0 "Ready" job_id db' (rw mine (ground arith))
            (rw mine (ground arith, tt)) in
        (
          get-eq S L job_id db' row [] rows ∙ ap ok (job_of-status S L row db' "Ready" status),
          λ other differs.
              get-congr S L other db db'
                (ap (select (λ j. j.id == other)) jobs
                  ∙ select-snoc_other S L (λ j. j.id == other) db.jobs row differs)
                (ap (select (λ l. l.job_id == other)) entries
                  ∙ select-snoc_other S L (λ l. l.job_id == other) db.job_status_log ready differs),
        )
  ]
    where
      ok-err : {e : SqlError} → ◌≡◌ {A = Result SqlError (Unit {0})} (ok tt) (err e) → ⊥
      ok-err e = cc

  with_status :
      (db : Db) (j : JobRow) (status : String) (job : Job)
      → job_of S db j ≡ job
      → record {
        id = j.id;
        target_id = j.target_id;
        destination_path = j.destination_path;
        created_at = j.created_at;
        status = status;
      }
        ≡ record job { status = status }
  unfolding job_of
  with_status db j status job e = ap (λ (x : Job). record x { status = status }) e

  get-new_status :
      (db db' : Db) (id status : String) (job : Job)
      → get S none id db ≡ ok job
      → db'.jobs ≡ db.jobs
      → latest_status S id db' ≡ some status
      → get S none id db' ≡ ok (record job { status = status })
  unfolding get
  get-new_status db db' id status job there jobs latest =
      go (select (λ j. j.id == id) db'.jobs) (selected_ids S L id db'.jobs) (
        subst
          (λ rows.
            with_message S "Failed to get job: "
              (first_row S (select (λ j. j.id == id) rows) >>= λ j. ok (job_of S db j))
            ≡ ok job)
          (sym jobs) there)
    where
      go :
          (rows : List JobRow)
          → All (λ (j : JobRow). j.id ≡ id) rows
          → with_message S "Failed to get job: " (first_row S rows >>= λ j. ok (job_of S db j))
            ≡ ok job
          → with_message S "Failed to get job: " (first_row S rows >>= λ j. ok (job_of S db' j))
            ≡ ok (record job { status = status })
      go [] h e = absurd cc
      go (j ∷ rows) h e = ap ok (
          job_of-status S L j db' status (rw h.0 latest)
          ∙ with_status db j status job (ok-injective {E = String} (job_of S db j) job e))

  updated_entries :
      (m : Moment) (entry : LogRow) (db : Db)
      → (finish db (insert_status S m entry db)).0 ≡ ok tt
      → ((finish db (insert_status S m entry db)).1.jobs ≡ db.jobs)
        × ((finish db (insert_status S m entry db)).1.job_status_log
            ≡ db.job_status_log ++ entry ∷ [])
  updated_entries m entry db = go (insert_status S m entry db) refl
    where
      go :
          (r : Result SqlError Db)
          → insert_status S m entry db ≡ r
          → (finish db r).0 ≡ ok tt
          → ((finish db r).1.jobs ≡ db.jobs)
            × ((finish db r).1.job_status_log ≡ db.job_status_log ++ entry ∷ [])
      go (ok db') e h =
          let (jobs, targets, entries) =
            inserted_entry entry db db' (noted_by S m entry db db' e) in
          (jobs, entries)
      go (err x) e h = absurd cc

  pub select-All :
      {A : Type 0} (P : A → Type 0) (p : A → Bool) (xs : List A) → All P xs → All P (select p xs)
  select-All P p [] h = tt
  select-All P p (x ∷ xs) h = elim (Bool-cases (p x)) [
    | inl e ↦ rw e (h.0, select-All P p xs h.1)
    | inr e ↦ rw e (select-All P p xs h.1)
  ]

  -- Where ORDER BY sorts the rows and keeps each once: a status that is recorded at a later
  -- second than all the entries of its job before is the job's status from then on; every other
  -- job reads as before, whatever the clock says.
  pub get-update_status :
      (m : Moment) (job_id status : String) (description : Option String)
      (total_bytes duration_secs : Option ℕ) (db : Db) (job : Job)
      → get S none job_id db ≡ ok job
      → All (λ (l : LogRow). l.created_at < m.log_at) (entries_of S job_id db)
      → (update_status S m job_id status description total_bytes duration_secs db).0 ≡ ok tt
      → (get S none job_id
            (update_status S m job_id status description total_bytes duration_secs db).1
          ≡ ok (record job { status = status }))
        × ((other : String)
            → (job_id == other) ≡ false
            → get S none other
                (update_status S m job_id status description total_bytes duration_secs db).1
              ≡ get S none other db)
  unfolding update_status
  get-update_status m job_id status description total duration db job there earlier done =
      let entry = status_entry S m job_id status description total duration in
      let db' = (finish db (insert_status S m entry db)).1 in
      let (jobs, entries) = updated_entries m entry db done in
      let mine : entries_of S job_id db' ≡ entries_of S job_id db ++ entry ∷ [] =
        ap (select (λ l. l.job_id == job_id)) entries
        ∙ select-append (λ l. l.job_id == job_id) db.job_status_log (entry ∷ [])
        ∙ rw (==_self job_id) refl in
      let latest : latest_status S job_id db' ≡ some status =
        latest_status-since S L m.log_at status job_id db'
          (rw mine (
            ground
              (arith, count_if-append (since S L m.log_at) (entries_of S job_id db) (entry ∷ []))))
          (rw mine (
            All-append _ (entries_of S job_id db) (entry ∷ [])
              (All-map (entries_of S job_id db) (λ l before. ground arith) earlier)
              (ground (arith, ==_self status), tt))) in
      (
        get-new_status db db' job_id status job there jobs latest,
        λ other differs. get-congr S L other db db' (ap (select (λ j. j.id == other)) jobs) (
            ap (select (λ l. l.job_id == other)) entries
            ∙ select-snoc_other S L (λ l. l.job_id == other) db.job_status_log entry differs),
      )

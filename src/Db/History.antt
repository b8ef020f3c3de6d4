-- ===== src/Db/History.antt =====
-- `get_with_history` against `get`.
use bksd.Base.{String, ◌≡◌, ap, none, List, [], ◌∷◌, map, ok, ok-injective, select, ◌==◌, string_eq}
use bksd.Db.{
  JobRow, LogRow, Job, JobStatusEntry, JobWithHistory, Db, Sqlite, entries_of, job_of, first_row,
  with_message, history_entry, get, get_with_history, ◌>>=◌,
}
use bksd.Db.Ordering.{IsOrdering, IsAscending, SameRows}

module _ (S : Sqlite) (L : IsOrdering S) where
  -- Where ORDER BY sorts the rows and keeps each once: the history of a job is there if `get`
  -- finds the job: it goes with the same job, and shows every entry of the job's log once, from
  -- the oldest to the newest.
  pub get_with_history-get :
      (id : String) (db : Db) (job : Job)
      → get S none id db ≡ ok job
      → (rows : List LogRow) × (get_with_history S none none id db
          ≡ ok (record { job = job; history = map (history_entry S) rows }))
        × SameRows rows (entries_of S id db)
        × IsAscending (λ l. l.created_at) rows
  unfolding get get_with_history
  get_with_history-get id db job there = (
    S.oldest_first (λ l. l.created_at) (entries_of S id db),
    go (select (λ j. j.id == id) db.jobs) there,
    L.oldest-rows (λ l. l.created_at) (entries_of S id db),
    L.oldest-IsAscending (λ l. l.created_at) (entries_of S id db),
  )
    where
      history : List JobStatusEntry
      history = map (history_entry S) (S.oldest_first (λ l. l.created_at) (entries_of S id db))

      shown : JobRow → JobWithHistory
      shown j = record { job = job_of S db j; history = history }

      go :
          (rows : List JobRow)
          → with_message S "Failed to get job: " (first_row S rows >>= λ j. ok (job_of S db j))
            ≡ ok job
          → with_message S "Failed to get job with history: "
              (first_row S rows >>= λ j. ok (shown j))
            ≡ ok (record { job = job; history = history })
      go [] e = absurd cc
      go (j ∷ rows) e =
          ap (λ k. ok (record { job = k; history = history }))
            (ok-injective {E = String} (job_of S db j) job e)

-- ===== src/Db/Listing.antt =====
-- `list`: its pages, and the jobs that it shows.
use bksd.Base.{
  ℕ, ◌≤◌, ◌≡◌, refl, ap, ◌∙◌, Bool, true, false, not, ◌&&◌, Option, none, some, List, [], ◌∷◌, map,
  ◌↔◌, ok, arith, All, All-map, select, take, drop, length, inl, inr, PartialEq, ◌==◌, ==_iff,
  ==_self, string_eq, nat_eq, option_eq, Bool-cases, Option-cases, String, length-map,
  length-take-le, ok-injective,
}
use bksd.Db.{JobRow, Job, Db, Sqlite, latest_status, job_of, has_status, get, list}
use bksd.Base.Pages.{take-All, drop-All, All-map_list, All-differ}
use bksd.Db.Ordering.{
  drop-IsDescending, take-IsDescending, map-IsDescending, IsOrdering, IsDescending, none_in_order,
}
use bksd.Db.Integrity.{HasUniqueIds, IsValid}
use bksd.Db.Reading.{select-none, get-eq}

job_row_beq_iff :
    (a b : JobRow)
    → ((a.id == b.id
          && (a.target_id == b.target_id
              && (a.destination_path == b.destination_path && a.created_at == b.created_at)))
        ≡ true)
      ↔ (a ≡ b)
job_row_beq_iff a b = ground (
  arith,
  ==_iff a.id b.id,
  ==_iff a.target_id b.target_id,
  ==_iff a.destination_path b.destination_path,
  ==_iff a.created_at b.created_at,
)

instance abbrev job_row_eq : PartialEq JobRow
job_row_eq = record {
  eq = λ a b.
      a.id == b.id
      && (a.target_id == b.target_id
          && (a.destination_path == b.destination_path && a.created_at == b.created_at));
  eq_reflects = job_row_beq_iff;
}

module _ (S : Sqlite) where
  abbrev starts_with_row : JobRow → List JobRow → Bool
  starts_with_row j [] = false
  starts_with_row j (i ∷ rows) = i == j

  -- The job that a row's identifier finds is the row's.
  finds : Db → JobRow → Bool
  finds db j = starts_with_row j (select (λ i. i.id == j.id) db.jobs)

  alone :
      (jobs : List JobRow)
      → HasUniqueIds (λ (j : JobRow). j.id) jobs
      → All (λ (j : JobRow). select (λ i. i.id == j.id) jobs ≡ j ∷ []) jobs
  alone [] h = tt
  alone (x ∷ xs) h = (
    rw (==_self x.id) (ap (λ js. x ∷ js) (select-none (λ i. i.id == x.id) xs h.0)),
    both xs (All-differ (λ i. i.id == x.id) xs h.0) (alone xs h.1),
  )
    where
      both :
          (ys : List JobRow)
          → All (λ (y : JobRow). (y.id == x.id) ≡ false) ys
          → All (λ (j : JobRow). select (λ i. i.id == j.id) xs ≡ j ∷ []) ys
          → All (λ (j : JobRow). select (λ i. i.id == j.id) (x ∷ xs) ≡ j ∷ []) ys
      both [] d f = tt
      both (y ∷ ys) d f =
          (ground (arith, d.0, ==_iff x.id y.id, ==_iff y.id x.id, f.0), both ys d.1 f.1)

  -- What a listed job satisfies, as a test of its row.
  misses : Option String → Db → JobRow → Bool
  misses status_filter db j = not (finds db j && has_status S db status_filter j)

  -- The status asked for, if any.
  abbrev pub HasStatus : Option String → Job → Type 0
  HasStatus none job = Unit
  HasStatus (some status) job = job.status ≡ status

  selected_hit :
      (status_filter : Option String) (db : Db) (jobs : List JobRow)
      → All (λ (j : JobRow). select (λ i. i.id == j.id) db.jobs ≡ j ∷ []) jobs
      → All
          (λ (j : JobRow). misses status_filter db j ≡ false)
          (select (has_status S db status_filter) jobs)
  unfolding misses finds
  selected_hit status_filter db [] h = tt
  selected_hit status_filter db (j ∷ jobs) h = elim (Bool-cases (has_status S db status_filter j)) [
    | inl e ↦ rw e (rw (h.0, ==_self j, e) refl, selected_hit status_filter db jobs h.1)
    | inr e ↦ rw e (selected_hit status_filter db jobs h.1)
  ]

module _ (S : Sqlite) (L : IsOrdering S) where
  found_row :
      (db : Db) (j : JobRow) (rows : List JobRow)
      → select (λ i. i.id == j.id) db.jobs ≡ rows
      → starts_with_row S j rows ≡ true
      → get S none j.id db ≡ ok (job_of S db j)
  found_row db j [] e h = absurd cc
  found_row db j (i ∷ rows) e h =
      get-eq S L j.id db i rows e ∙ ap (λ k. ok (job_of S db k)) ((==_iff i j).0 h)

  shown_status :
      (status_filter : Option String) (db : Db) (j : JobRow)
      → has_status S db status_filter j ≡ true
      → HasStatus S status_filter (job_of S db j)
  unfolding has_status job_of
  shown_status none db j = λ h. tt
  shown_status (some status) db j = elim (Option-cases (latest_status S j.id db)) [
    | inl e ↦ rw (e, has_status) (λ h. absurd cc)
    | inr (latest, e) ↦ rw (e, has_status) (λ h. (==_iff latest status).0 h)
  ]

  shows :
      (status_filter : Option String) (db : Db) (j : JobRow)
      → misses S status_filter db j ≡ false
      → (get S none j.id db ≡ ok (job_of S db j)) × HasStatus S status_filter (job_of S db j)
  unfolding misses finds
  shows status_filter db j h = (
    found_row db j (select (λ i. i.id == j.id) db.jobs) refl (ground arith),
    shown_status status_filter db j (ground arith),
  )

  shows_as :
      (status_filter : Option String) (db : Db) (j : JobRow)
      → (get S none j.id db ≡ ok (job_of S db j)) × HasStatus S status_filter (job_of S db j)
      → (get S none (job_of S db j).id db ≡ ok (job_of S db j))
        × HasStatus S status_filter (job_of S db j)
  unfolding job_of
  shows_as status_filter db j h = h

  pub created_at-IsDescending :
      (db : Db) (rows : List JobRow)
      → IsDescending (λ j. j.created_at) rows
      → IsDescending (λ j. j.created_at) (map (job_of S db) rows)
  unfolding job_of
  created_at-IsDescending db rows h = map-IsDescending (job_of S db) (λ j. j.created_at) rows h

  -- Where ORDER BY sorts the rows and keeps each once: with valid keys, a list is at most as long
  -- as its limit and newest first, and each job on it is what `get` returns for its identifier
  -- and has the status that was asked for.
  pub list-get :
      (limit offset : ℕ) (status_filter : Option String) (db : Db) (jobs : List Job)
      → IsValid db
      → list S none limit offset status_filter db ≡ ok jobs
      → (length jobs ≤ limit)
        × IsDescending (λ j. j.created_at) jobs
        × All (λ (j : Job). (get S none j.id db ≡ ok j) × HasStatus S status_filter j) jobs
  unfolding list
  list-get limit offset status_filter db jobs v h =
      let key : JobRow → ℕ = λ j. j.created_at in
      let hits = select (has_status S db status_filter) db.jobs in
      let rows = S.newest_first limit offset key hits in
      let page = take limit (drop offset rows) in
      let fits : All (λ j. misses S status_filter db j ≡ false) page =
        take-All _ limit (drop offset rows) (
          drop-All _ offset rows (
            none_in_order (misses S status_filter db) hits rows
              (L.newest-rows limit offset key hits)
              (selected_hit S status_filter db db.jobs (alone S db.jobs v.job_ids)))) in
      rw (← ok-injective {E = String} _ jobs h) (
        omega (arith, length-map (job_of S db) page, length-take-le limit (drop offset rows)),
        created_at-IsDescending db page (
            take-IsDescending key limit (drop offset rows)
              (drop-IsDescending key offset rows (L.newest-IsDescending limit offset key hits))),
        All-map_list _ (job_of S db) page (
            All-map page (λ j hit. shows_as status_filter db j (shows status_filter db j hit))
              fits),
      )

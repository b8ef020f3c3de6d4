-- ===== src/Db/Pages.antt =====
-- `list`: its pages are windows of one sequence, where the times of creation settle the order.
use bksd.Base.{
  ℕ, ◌≤◌, ◌≡◌, ◌≢◌, refl, ap, sym, ◌∙◌, Bool, true, ◌&&◌, Option, none, some, List, [], ◌∷◌, map,
  ◌↔◌, ok, arith, All, count_if, select, take, drop, inl, inr, PartialEq, ◌==◌, ==_iff, ==_self,
  string_eq, nat_eq, option_eq, Bool-cases, Option-cases, String,
}
use bksd.Base.Pages.{count_if-map, take-map, drop-map, select-map}
use bksd.Db.{JobRow, Job, Db, Sqlite, latest_status, job_of, has_status, list}
use bksd.Db.Listing.{created_at-IsDescending}
use bksd.Db.Ordering.{IsOrdering, IsDescending, SameRows}

job_beq_iff :
    (a b : Job)
    → ((a.id == b.id
          && (a.target_id == b.target_id
              && (a.destination_path == b.destination_path
                  && (a.created_at == b.created_at && a.status == b.status))))
        ≡ true)
      ↔ (a ≡ b)
job_beq_iff a b = ground (
  arith,
  ==_iff a.id b.id,
  ==_iff a.target_id b.target_id,
  ==_iff a.destination_path b.destination_path,
  ==_iff a.created_at b.created_at,
  ==_iff a.status b.status,
)

instance abbrev job_eq : PartialEq Job
job_eq = record {
  eq = λ a b.
      a.id == b.id
      && (a.target_id == b.target_id
          && (a.destination_path == b.destination_path
              && (a.created_at == b.created_at && a.status == b.status)));
  eq_reflects = job_beq_iff;
}

module _ {A : Type 0} where
  -- No two rows have the same key.
  abbrev pub HaveDistinctKeys : (A → ℕ) → List A → Type 0
  HaveDistinctKeys key xs = (n : ℕ) → count_if (λ x. key x == n) xs ≤ 1

  module _ ⦃e : PartialEq A⦄ (key : A → ℕ) where
    -- What holds of all rows holds of one that is counted.
    counted-All :
        (P : A → Type 0) (y : A) (xs : List A) → 1 ≤ count_if (λ x. x == y) xs → All P xs → P y
    counted-All P y [] h hs = absurd (omega arith)
    counted-All P y (x ∷ xs) h hs = elim (Bool-cases (x == y)) [
      | inl same ↦ rw (← (==_iff x y).0 same) hs.0
      | inr other ↦ counted-All P y xs (rw other at h) hs.1
    ]

    counted-key :
        (y : A) (xs : List A)
        → 1 ≤ count_if (λ x. x == y) xs
        → 1 ≤ count_if (λ x. key x == key y) xs
    counted-key y [] h = h
    counted-key y (x ∷ xs) h = elim (Bool-cases (x == y)) [
      | inl same ↦ rw ((==_iff x y).0 same, ==_self (key y)) (omega arith)
      | inr other ↦ ground (arith, counted-key y xs (rw other at h))
    ]

    heads-eq :
        (x y : A) (xs ys : List A)
        → IsDescending key (x ∷ xs)
        → IsDescending key (y ∷ ys)
        → SameRows (x ∷ xs) (y ∷ ys)
        → HaveDistinctKeys key (x ∷ xs)
        → x ≡ y
    heads-eq x y xs ys dx dy same distinct = elim (Bool-cases (x == y)) [
      | inl e ↦ (==_iff x y).0 e
      | inr ne ↦
          let y_in : 1 ≤ count_if (λ z. z == y) xs =
            ground (arith, same (λ z. z == y), ==_self y) in
          let x_in : 1 ≤ count_if (λ z. z == x) ys =
            ground (arith, same (λ z. z == x), ==_self x, ==_iff x y, ==_iff y x) in
          let below = counted-All (λ z. key z ≤ key x) y xs y_in dx.0 in
          let above = counted-All (λ z. key z ≤ key y) x ys x_in dy.0 in
          absurd (
            ground (
              arith,
              distinct (key y),
              counted-key y xs y_in,
              ==_iff (key x) (key y),
              below,
              above,
            ))
    ]

    -- Rows with distinct keys have one order.
    descending_unique :
        (xs ys : List A)
        → IsDescending key xs
        → IsDescending key ys
        → SameRows xs ys
        → HaveDistinctKeys key xs
        → xs ≡ ys
    descending_unique [] [] dx dy same distinct = refl
    descending_unique [] (y ∷ ys) dx dy same distinct = absurd (ground (arith, same (λ _. true)))
    descending_unique (x ∷ xs) [] dx dy same distinct = absurd (ground (arith, same (λ _. true)))
    descending_unique (x ∷ xs) (y ∷ ys) dx dy same distinct =
        let e : x ≡ y = heads-eq x y xs ys dx dy same distinct in
        ap (λ z. z ∷ xs) e
        ∙ ap (λ zs. y ∷ zs)
            (descending_unique xs ys dx.1 dy.1 (λ p. ground (arith, same p, ap p e))
              (λ n. ground (arith, distinct n)))

-- The job has the status asked for, if any.
unfoldable pub is_asked : Option String → Job → Bool
is_asked none job = true
is_asked (some status) job = job.status == status

module _ (S : Sqlite) where
  is_asked-job_of :
      (status_filter : Option String) (db : Db) (j : JobRow)
      → status_filter ≢ some "Unknown"
      → is_asked status_filter (job_of S db j) ≡ has_status S db status_filter j
  unfolding is_asked job_of has_status
  is_asked-job_of none db j known = refl
  is_asked-job_of (some status) db j known = elim (Option-cases (latest_status S j.id db)) [
    | inr (latest, e) ↦ rw (e, has_status) refl
    | inl e ↦ rw (e, has_status) (ground (arith, ==_iff "Unknown" status, known))
  ]

module _ (S : Sqlite) (L : IsOrdering S) where
  -- Where ORDER BY sorts the rows and keeps each once: let `jobs` be all jobs that have the status
  -- asked for, newest first, no two of them of one second. Then a list holds exactly the `limit` jobs
  -- behind the first `offset` of these, in this order. The status asked for is not `Unknown`, the text
  -- shown for a job without an entry.
  pub list-newest :
      (limit offset : ℕ) (status_filter : Option String) (db : Db) (jobs : List Job)
      → status_filter ≢ some "Unknown"
      → SameRows jobs (select (is_asked status_filter) (map (job_of S db) db.jobs))
      → IsDescending (λ j. j.created_at) jobs
      → HaveDistinctKeys (λ j. j.created_at) jobs
      → list S none limit offset status_filter db ≡ ok (take limit (drop offset jobs))
  unfolding list
  list-newest limit offset status_filter db jobs known same newest distinct =
      let hits : List JobRow = select (has_status S db status_filter) db.jobs in
      let rows : List JobRow = S.newest_first limit offset (λ j. j.created_at) hits in
      let kept : SameRows jobs (map (job_of S db) rows) = λ p.
        same p
        ∙ ap (count_if p) (
            select-map (job_of S db) (is_asked status_filter) (has_status S db status_filter)
              db.jobs (λ j. is_asked-job_of S status_filter db j known))
        ∙ count_if-map (job_of S db) p hits
        ∙ sym (L.newest-rows limit offset (λ j. j.created_at) hits (λ j. p (job_of S db j)))
        ∙ sym (count_if-map (job_of S db) p rows) in
      let sorted : IsDescending (λ j. j.created_at) (map (job_of S db) rows) =
        created_at-IsDescending S L db rows
          (L.newest-IsDescending limit offset (λ j. j.created_at) hits) in
      ap ok (
        take-map (job_of S db) limit (drop offset rows)
        ∙ ap (take limit) (
            drop-map (job_of S db) offset rows
            ∙ ap (drop offset)
                (sym (descending_unique (λ j. j.created_at) jobs _ newest sorted kept distinct))))

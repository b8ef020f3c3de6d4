-- ===== src/Examples/Records.antt =====
-- The tables and the tracker on concrete calls, with a sort for `ORDER BY`.
use bksd.Base.{
  ℕ, ◌≤◌, ◌<◌, ◌≡◌, refl, String, true, false, none, some, List, [], ◌∷◌, ◌++◌, ok, err, ◌⊎◌,
  length, arith, All, ◌==◌, string_eq,
}
use bksd.Transfer.{ready, copy_complete}
use bksd.Progress
use bksd.Progress.{IsMap, active_count}
use bksd.Progress.History.{Call, updates, removes, after_calls, newest, live_count, after_calls_lem}
use bksd.Db.{
  TargetDrive, Job, LogRow, Db, SqlError, Moment, init, create, update_status, get, list,
  upsert_target, has_job, has_target, job_row, ready_entry, entries_of, create_transaction,
  insert_job, insert_entry, insert_status, job_of, latest_status, has_status,
}
use bksd.Db.Integrity.{IsValid}
use bksd.Db.Integrity.Writes.{
  Write, creates, updates_status, after_writes, perform, after_writes-IsValid, create-atomic,
}
use bksd.Db.Reading.Writes.{get-create, get-update_status}
use bksd.Db.Ordering.{IsDescending}
use bksd.Db.Listing.{HasStatus, list-get}
use bksd.Db.Pages.{list-newest, is_asked, HaveDistinctKeys}
use bksd.Base.{map, select, ==_iff, nat_eq}
use bksd.Db.{get_with_history, history_entry}
use bksd.Db.Ordering.{SameRows, IsAscending}
use bksd.Db.History.{get_with_history-get}
use bksd.Examples.Sorting.{sorting, sorting-IsOrdering}

abbrev calls : List Call
calls = updates "b" copy_complete ∷ removes "a" ∷ updates "a" ready ∷ []

after_calls_lem_example :
    ((j : String) → Progress.get j (after_calls calls) ≡ newest j calls)
    × IsMap (after_calls calls)
    × (active_count (after_calls calls) ≡ live_count calls)
after_calls_lem_example = after_calls_lem calls

abbrev moment : ℕ → String → Moment
moment t id = record { target_at = t; job_at = t; log_at = t; log_id = id; fault = λ n. none }

abbrev drive : TargetDrive
drive = record { uuid = "u-1"; label = "USB"; mount_path = "/mnt/usb"; raw_size = 100 }

abbrev writes : List (Write sorting)
writes =
    updates_status (moment 5 "l-3") "j-2" "copy_complete" none none none
    ∷ creates (moment 4 "l-2") "j-2" drive "/srv/2"
    ∷ creates (moment 2 "l-1") "j-1" drive "/srv/1"
    ∷ []

after_writes-IsValid_example : IsValid (after_writes sorting writes)
after_writes-IsValid_example = after_writes-IsValid sorting writes

-- The tables behind these writes.
abbrev tables : Db
tables = after_writes sorting writes

abbrev later : Moment
later = moment 9 "l-9"

create-atomic_example :
    let after = create sorting later "j-3" drive "/srv/3" tables in
    ((after.0 ≡ ok tt)
      × (has_job "j-3" tables.jobs ≡ false)
      × (after.1.targets ≡ upsert_target later drive tables.targets)
      × (has_target drive.uuid after.1.targets ≡ true)
      × (after.1.jobs ≡ tables.jobs ++ job_row later "j-3" drive "/srv/3" ∷ [])
      × (after.1.job_status_log ≡ tables.job_status_log ++ ready_entry later "j-3" ∷ []))
    ⊎ ((e : SqlError) × (after.0 ≡ err e) × (after.1 ≡ tables))
create-atomic_example = create-atomic sorting later "j-3" drive "/srv/3" tables

created : (create sorting later "j-3" drive "/srv/3" tables).0 ≡ ok tt
unfolding create create_transaction insert_job insert_entry upsert_target after_writes perform init
    update_status insert_status
created = refl

get-create_example :
    (get sorting none "j-3" (create sorting later "j-3" drive "/srv/3" tables).1
      ≡ ok (record {
        id = "j-3";
        target_id = "u-1";
        destination_path = some "/srv/3";
        created_at = 9;
        status = "Ready";
      }))
    × ((other : String)
        → ("j-3" == other) ≡ false
        → get sorting none other (create sorting later "j-3" drive "/srv/3" tables).1
          ≡ get sorting none other tables)
get-create_example =
    get-create sorting sorting-IsOrdering later "j-3" drive "/srv/3" tables
      (after_writes-IsValid sorting writes) created

abbrev second : Job
second = record {
  id = "j-2";
  target_id = "u-1";
  destination_path = some "/srv/2";
  created_at = 4;
  status = "copy_complete";
}

second_is_there : get sorting none "j-2" tables ≡ ok second
unfolding get job_of latest_status create create_transaction insert_job insert_entry upsert_target
    after_writes perform init update_status insert_status
second_is_there = refl

updated : (update_status sorting later "j-2" "complete" none (some 5) (some 7) tables).0 ≡ ok tt
unfolding create create_transaction insert_job insert_entry upsert_target after_writes perform init
    update_status insert_status
updated = refl

All-earlier : All (λ (l : LogRow). l.created_at < 9) (entries_of sorting "j-2" tables)
unfolding create create_transaction insert_job insert_entry upsert_target after_writes perform init
    update_status insert_status
All-earlier = (omega arith, (omega arith, tt))

get-update_status_example :
    (get sorting none "j-2"
        (update_status sorting later "j-2" "complete" none (some 5) (some 7) tables).1
      ≡ ok (record second { status = "complete" }))
    × ((other : String)
        → ("j-2" == other) ≡ false
        → get sorting none other
            (update_status sorting later "j-2" "complete" none (some 5) (some 7) tables).1
          ≡ get sorting none other tables)
get-update_status_example =
    get-update_status sorting sorting-IsOrdering later "j-2" "complete" none (some 5) (some 7)
      tables second second_is_there All-earlier updated

listed_jobs : list sorting none 5 0 (some "copy_complete") tables ≡ ok (second ∷ [])
unfolding list has_status job_of latest_status create create_transaction insert_job insert_entry
    upsert_target after_writes perform init update_status insert_status
listed_jobs = refl

list-get_example :
    (length (second ∷ []) ≤ 5)
    × IsDescending (λ (j : Job). j.created_at) (second ∷ [])
    × All
        (λ (j : Job).
          (get sorting none j.id tables ≡ ok j) × HasStatus sorting (some "copy_complete") j)
        (second ∷ [])
list-get_example =
    list-get sorting sorting-IsOrdering 5 0 (some "copy_complete") tables (second ∷ [])
      (after_writes-IsValid sorting writes) listed_jobs

abbrev first_job : Job
first_job = record {
  id = "j-1";
  target_id = "u-1";
  destination_path = some "/srv/1";
  created_at = 2;
  status = "Ready";
}

-- The jobs of the tables, newest first.
abbrev both_jobs : List Job
both_jobs = second ∷ first_job ∷ []

job_rows : map (job_of sorting tables) tables.jobs ≡ first_job ∷ second ∷ []
unfolding job_of latest_status create create_transaction insert_job insert_entry upsert_target
    after_writes perform init update_status insert_status
job_rows = refl

both_jobs-rows :
    SameRows both_jobs (select (is_asked none) (map (job_of sorting tables) tables.jobs))
unfolding is_asked
both_jobs-rows p = rw job_rows (ground arith)

both_jobs-HaveDistinctKeys : HaveDistinctKeys (λ (j : Job). j.created_at) both_jobs
both_jobs-HaveDistinctKeys n = ground (arith, ==_iff 4 n, ==_iff 2 n)

list-newest_example : list sorting none 1 1 none tables ≡ ok (first_job ∷ [])
list-newest_example =
    list-newest sorting sorting-IsOrdering 1 1 none tables both_jobs (λ e. cc) both_jobs-rows
      (omega arith) both_jobs-HaveDistinctKeys

get_with_history-get_example :
    (rows : List LogRow) × (get_with_history sorting none none "j-2" tables
      ≡ ok (record { job = second; history = map (history_entry sorting) rows }))
    × SameRows rows (entries_of sorting "j-2" tables)
    × IsAscending (λ l. l.created_at) rows
get_with_history-get_example =
    get_with_history-get sorting sorting-IsOrdering "j-2" tables second second_is_there

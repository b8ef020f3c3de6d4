-- ===== src/Progress.antt =====
-- src/core/progress.rs: the store of the active jobs' statuses. The lock makes each operation atomic, so
-- an operation is a function of the map.
pub mod History
use bksd.Base.{
  ℕ, ◌≡◌, String, Option, none, some, [], string_eq, length, is_some, if◌then◌else◌, ◌==◌, suc,
  refl, arith,
}
use bksd.Base.Dict
use bksd.Base.Dict.{
  Dict, NodupKeys, lookup-insert, lookup-erase, insert-NodupKeys, erase-NodupKeys, length-insert,
  length-erase,
}
use bksd.Transfer.{TransferStatus}

pub record ProgressTracker : Type 0 where
  pub inner : Dict String TransferStatus

unfoldable pub new : ProgressTracker
new = record { inner = [] }

unfoldable pub update : String → TransferStatus → ProgressTracker → ProgressTracker
update job_id status t = record { inner = Dict.insert job_id status t.inner }

unfoldable pub get : String → ProgressTracker → Option TransferStatus
get job_id t = Dict.lookup job_id t.inner

unfoldable pub remove : String → ProgressTracker → ProgressTracker
remove job_id t = record { inner = Dict.erase job_id t.inner }

unfoldable pub get_all : ProgressTracker → Dict String TransferStatus
get_all t = t.inner

unfoldable pub active_count : ProgressTracker → ℕ
active_count t = length t.inner

-- No job is tracked twice: the map is one.
abbrev pub IsMap : ProgressTracker → Type 0
IsMap t = NodupKeys t.inner

pub get-update :
    (j id : String) (status : TransferStatus) (t : ProgressTracker)
    → get j (update id status t) ≡ (if id == j then some status else get j t)
unfolding get update
get-update j id status t = lookup-insert j id status t.inner

pub get-remove :
    (j id : String) (t : ProgressTracker)
    → IsMap t
    → get j (remove id t) ≡ (if id == j then none else get j t)
unfolding get remove
get-remove j id t m = lookup-erase j id t.inner m

pub update-IsMap :
    (id : String) (status : TransferStatus) (t : ProgressTracker)
    → IsMap t
    → IsMap (update id status t)
unfolding update
update-IsMap id status t m = insert-NodupKeys id status t.inner m

pub remove-IsMap : (id : String) (t : ProgressTracker) → IsMap t → IsMap (remove id t)
unfolding remove
remove-IsMap id t m = erase-NodupKeys id t.inner m

pub active_count-update :
    (id : String) (status : TransferStatus) (t : ProgressTracker)
    → active_count (update id status t)
      ≡ (if is_some (get id t) then active_count t else suc (active_count t))
unfolding active_count update get
active_count-update id status t = length-insert id status t.inner

pub active_count-remove :
    (id : String) (t : ProgressTracker)
    → active_count t ≡ (
        if is_some (get id t) then suc (active_count (remove id t)) else active_count (remove id t))
unfolding active_count remove get
active_count-remove id t = length-erase id t.inner

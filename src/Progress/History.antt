-- ===== src/Progress/History.antt =====
-- The tracker against the history of its calls.
use Prim.Native.Nat.{pred}
use bksd.Base.Dict.{lookup}
use bksd.Base.{
  ℕ, suc, ◌≡◌, refl, String, Option, none, some, List, [], ◌∷◌, string_eq, is_some, if◌then◌else◌,
  ◌==◌, arith,
}
use bksd.Transfer.{TransferStatus}
use bksd.Progress.{
  ProgressTracker, new, update, get, remove, active_count, IsMap, get-update, get-remove,
  update-IsMap, remove-IsMap, active_count-update, active_count-remove,
}

pub data Call : Type 0 where
  updates : String → TransferStatus → Call
  removes : String → Call

unfoldable pub perform : Call → ProgressTracker → ProgressTracker
perform (updates id status) t = update id status t
perform (removes id) t = remove id t

-- The newest call stands first.
unfoldable pub after_calls : List Call → ProgressTracker
after_calls [] = new
after_calls (c ∷ calls) = perform c (after_calls calls)

-- The status of a job by the newest call about it.
unfoldable pub newest : String → List Call → Option TransferStatus
newest j [] = none
newest j (updates id status ∷ calls) = if id == j then some status else newest j calls
newest j (removes id ∷ calls) = if id == j then none else newest j calls

-- The number of jobs whose newest call is an update.
unfoldable pub live_count : List Call → ℕ
live_count [] = 0
live_count (updates id status ∷ calls) =
    if is_some (newest id calls) then live_count calls else suc (live_count calls)
live_count (removes id ∷ calls) =
    if is_some (newest id calls) then pred (live_count calls) else live_count calls

after_calls-IsMap : (calls : List Call) → IsMap (after_calls calls)
unfolding after_calls perform new
after_calls-IsMap [] = tt
after_calls-IsMap (updates id status ∷ calls) =
    update-IsMap id status (after_calls calls) (after_calls-IsMap calls)
after_calls-IsMap (removes id ∷ calls) =
    remove-IsMap id (after_calls calls) (after_calls-IsMap calls)

get-after_calls : (j : String) (calls : List Call) → get j (after_calls calls) ≡ newest j calls
unfolding after_calls perform newest new get lookup
get-after_calls j [] = refl
get-after_calls j (updates id status ∷ calls) =
    ground (arith, get-update j id status (after_calls calls), get-after_calls j calls)
get-after_calls j (removes id ∷ calls) =
    ground (
      arith,
      get-remove j id (after_calls calls) (after_calls-IsMap calls),
      get-after_calls j calls,
    )

active_count-after_calls : (calls : List Call) → active_count (after_calls calls) ≡ live_count calls
unfolding after_calls perform live_count new active_count
active_count-after_calls [] = refl
active_count-after_calls (updates id status ∷ calls) = ground (
  arith,
  active_count-update id status (after_calls calls),
  get-after_calls id calls,
  active_count-after_calls calls,
)
active_count-after_calls (removes id ∷ calls) = ground (
  arith,
  active_count-remove id (after_calls calls),
  get-after_calls id calls,
  active_count-after_calls calls,
)

-- After any calls the tracker tells of each job what the newest call about it said, tracks no job
-- twice, and counts the jobs that it has a status of.
pub after_calls_lem :
    (calls : List Call)
    → ((j : String) → get j (after_calls calls) ≡ newest j calls)
      × IsMap (after_calls calls)
      × (active_count (after_calls calls) ≡ live_count calls)
after_calls_lem calls =
    (λ j. get-after_calls j calls, after_calls-IsMap calls, active_count-after_calls calls)

-- ===== src/Throttle.antt =====
-- `LogThrottle` of src/logging.rs, for threads that call it at once: the load and the exchange of the
-- atomic number are steps of their own, so those of several threads interleave in any order.
pub mod Spacing
use bksd.Base.{
  ℕ, ◌-◌, ◌%◌, ◌^◌, Bool, ◌||◌, Option, none, some, List, [], ◌∷◌, ◌==◌, nat_eq, leb, u64_mod,
  if◌then◌else◌,
}
use bksd.Base.Dict
use bksd.Base.Dict.{Dict}

-- The value of `last_log_ms` before the first log.
abbrev pub never_logged : ℕ
never_logged = 2 ^ 64 - 1

-- A call that has returned true, with its time, and a reset.
pub data Event : Type 0 where
  logged : ℕ → Event
  was_reset : Event

-- The throttle, the calls between their load and their exchange, by thread, with the time and the
-- number that they have read, and what has happened, the newest first.
pub record LogThrottle : Type 0 where
  pub interval_ms : ℕ
  pub last_log_ms : ℕ
  pub calls : Dict ℕ (ℕ × ℕ)
  pub events : List Event

unfoldable pub new : ℕ → LogThrottle
new interval_ms = record {
  interval_ms = interval_ms % u64_mod;
  last_log_ms = never_logged;
  calls = [];
  events = [];
}

-- Whether it is the first log, or enough time has passed.
abbrev pub should : ℕ → ℕ → ℕ → Bool
should interval_ms now_ms last = last == never_logged || leb interval_ms (now_ms - last)

-- The first half of `should_log`; `now_ms` is the time since `start`, as the thread has read it.
unfoldable pub load : ℕ → ℕ → LogThrottle → LogThrottle
load thread now_ms t = record t {
  calls = Dict.insert thread (now_ms % u64_mod, t.last_log_ms) t.calls;
}

-- `compare_exchange`, where the call is to log.
abbrev pub compare_exchange : ℕ → ℕ → LogThrottle → LogThrottle
compare_exchange last now_ms t =
    if t.last_log_ms == last
    then record t { last_log_ms = now_ms; events = logged now_ms ∷ t.events }
    else t

abbrev pub finish : ℕ → Option (ℕ × ℕ) → LogThrottle → LogThrottle
finish thread none t = t
finish thread (some (now_ms, last)) t =
    let t' = record t { calls = Dict.erase thread t.calls } in
    if should t.interval_ms now_ms last then compare_exchange last now_ms t' else t'

-- The second half of `should_log`.
unfoldable pub exchange : ℕ → LogThrottle → LogThrottle
exchange thread t = finish thread (Dict.lookup thread t.calls) t

unfoldable pub reset : LogThrottle → LogThrottle
reset t = record t { last_log_ms = never_logged; events = was_reset ∷ t.events }

-- A step of a thread.
pub data Move : Type 0 where
  loads : ℕ → ℕ → Move
  exchanges : ℕ → Move
  resets : Move

unfoldable pub move : Move → LogThrottle → LogThrottle
move (loads thread now_ms) t = load thread now_ms t
move (exchanges thread) t = exchange thread t
move resets t = reset t

-- The newest move stands first.
unfoldable pub after_moves : ℕ → List Move → LogThrottle
after_moves interval_ms [] = new interval_ms
after_moves interval_ms (m ∷ moves) = move m (after_moves interval_ms moves)

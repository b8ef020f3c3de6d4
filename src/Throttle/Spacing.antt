-- ===== src/Throttle/Spacing.antt =====
-- The logs of a throttle are apart.
use bksd.Base.{
  ℕ, ◌-◌, ◌%◌, ◌≤◌, ◌<◌, ◌≡◌, refl, true, Option, none, some, List, [], ◌∷◌, u64_mod, arith, All,
  nat_eq, Bool-cases, inl, inr, sym, ◌∙◌, ==_iff, ◌==◌, subst,
}
use bksd.Base.Dict
use bksd.Base.Dict.{Dict}
use bksd.Throttle.{
  never_logged, Event, logged, was_reset, LogThrottle, new, should, load, compare_exchange, finish,
  exchange, reset, Move, loads, exchanges, resets, move, after_moves,
}

-- Two logs with no reset between them are at least the interval apart.
abbrev pub AreSpaced : ℕ → List Event → Type 0
AreSpaced interval [] = Unit
AreSpaced interval (was_reset ∷ events) = AreSpaced interval events
AreSpaced interval (logged now ∷ []) = Unit
AreSpaced interval (logged now ∷ was_reset ∷ events) = AreSpaced interval events
AreSpaced interval (logged now ∷ logged last ∷ events) =
    (interval ≤ now - last) × AreSpaced interval (logged last ∷ events)

-- The number that stands for the newest event.
abbrev last_of : List Event → ℕ
last_of [] = never_logged
last_of (was_reset ∷ events) = never_logged
last_of (logged now ∷ events) = now

abbrev AreTimes : List Event → Type 0
AreTimes [] = Unit
AreTimes (was_reset ∷ events) = AreTimes events
AreTimes (logged now ∷ events) = (now < never_logged) × AreTimes events

abbrev IsTimed : ℕ × (ℕ × ℕ) → Type 0
IsTimed (thread, (now, last)) = now < never_logged

record IsThrottling (t : LogThrottle) : Type 0 where
  last : t.last_log_ms ≡ last_of t.events
  times : AreTimes t.events
  timed : All IsTimed t.calls
  spaced : AreSpaced t.interval_ms t.events

-- The clock has not reached the value that stands for no log, some 584 million years.
abbrev pub IsInTime : Move → Type 0
IsInTime (loads thread now_ms) = now_ms < never_logged
IsInTime (exchanges thread) = Unit
IsInTime resets = Unit

AreSpaced-logged :
    (interval now last : ℕ) (events : List Event)
    → should interval now last ≡ true
    → last_of events ≡ last
    → AreTimes events
    → AreSpaced interval events
    → AreSpaced interval (logged now ∷ events)
AreSpaced-logged interval now last [] b e times h = tt
AreSpaced-logged interval now last (was_reset ∷ events) b e times h = h
AreSpaced-logged interval now last (logged before ∷ events) b e times h = (ground arith, h)

erased :
    (thread : ℕ) (t : LogThrottle)
    → IsThrottling t
    → IsThrottling (record t { calls = Dict.erase thread t.calls })
erased thread t h = record {
  last = h.last;
  times = h.times;
  timed = Dict.All-erase IsTimed thread t.calls h.timed;
  spaced = h.spaced;
}

compare_exchange-IsThrottling :
    (last now_ms : ℕ) (t : LogThrottle)
    → now_ms < never_logged
    → should t.interval_ms now_ms last ≡ true
    → IsThrottling t
    → IsThrottling (compare_exchange last now_ms t)
compare_exchange-IsThrottling last now_ms t time b h = elim (Bool-cases (t.last_log_ms == last)) [
  | inr other ↦ rw other h
  | inl same ↦ rw same (record {
    last = refl;
    times = (time, h.times);
    timed = h.timed;
    spaced =
        AreSpaced-logged t.interval_ms now_ms last t.events b
          (sym h.last ∙ (==_iff t.last_log_ms last).0 same) h.times h.spaced;
  })
]

finish-IsThrottling :
    (thread : ℕ) (o : Option (ℕ × ℕ)) (t : LogThrottle)
    → Dict.lookup thread t.calls ≡ o
    → IsThrottling t
    → IsThrottling (finish thread o t)
finish-IsThrottling thread none t e h = h
finish-IsThrottling thread (some (now_ms, last)) t e h =
    elim (Bool-cases (should t.interval_ms now_ms last)) [
      | inr early ↦ rw early (erased thread t h)
      | inl due ↦ rw due (
          compare_exchange-IsThrottling last now_ms _
            (Dict.All-lookup IsTimed thread t.calls h.timed e) due (erased thread t h))
    ]

move-IsThrottling :
    (m : Move) (t : LogThrottle) → IsInTime m → IsThrottling t → IsThrottling (move m t)
unfolding move load exchange reset
move-IsThrottling (loads thread now_ms) t time h = record {
  last = h.last;
  times = h.times;
  timed = Dict.All-insert IsTimed thread _ t.calls (omega arith) h.timed;
  spaced = h.spaced;
}
move-IsThrottling (exchanges thread) t time h =
    finish-IsThrottling thread (Dict.lookup thread t.calls) t refl h
move-IsThrottling resets t time h = record {
  last = refl;
  times = h.times;
  timed = h.timed;
  spaced = h.spaced;
}

after_moves-IsThrottling :
    (interval_ms : ℕ) (moves : List Move)
    → All IsInTime moves
    → IsThrottling (after_moves interval_ms moves)
unfolding after_moves new
after_moves-IsThrottling interval_ms [] times = record {
  last = refl;
  times = tt;
  timed = tt;
  spaced = tt;
}
after_moves-IsThrottling interval_ms (m ∷ moves) times =
    move-IsThrottling m (after_moves interval_ms moves) times.0
      (after_moves-IsThrottling interval_ms moves times.1)

interval-move : (m : Move) (t : LogThrottle) → (move m t).interval_ms ≡ t.interval_ms
unfolding move load exchange reset
interval-move (loads thread now_ms) t = refl
interval-move (exchanges thread) t = ground arith
interval-move resets t = refl

interval-after_moves :
    (interval_ms : ℕ) (moves : List Move)
    → (after_moves interval_ms moves).interval_ms ≡ interval_ms % u64_mod
unfolding after_moves new
interval-after_moves interval_ms [] = refl
interval-after_moves interval_ms (m ∷ moves) =
    interval-move m (after_moves interval_ms moves) ∙ interval-after_moves interval_ms moves

-- However the loads, exchanges and resets of any number of threads interleave, of the calls that
-- return true two with no reset between them are at least the interval apart, by the times that
-- the calls have read. The clock has not yet reached the number that stands for no log.
pub after_moves-AreSpaced :
    (interval_ms : ℕ) (moves : List Move)
    → All IsInTime moves
    → AreSpaced (interval_ms % u64_mod) (after_moves interval_ms moves).events
after_moves-AreSpaced interval_ms moves times =
    subst (λ i. AreSpaced i (after_moves interval_ms moves).events)
      (interval-after_moves interval_ms moves)
      (after_moves-IsThrottling interval_ms moves times).spaced

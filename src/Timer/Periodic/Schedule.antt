-- ===== src/Timer/Periodic/Schedule.antt =====
-- The runs of a periodic timer against its schedule.
use hongwei_notebook.Common.{
  ℕ, ◌+◌, ◌-◌, ◌*◌, ◌≤◌, ◌<◌, ◌≡◌, refl, subst, ◌/◌, List, [], ◌∷◌, ◌++◌, sub64, u64_mod, arith,
}
use hongwei_notebook.Timer.Periodic.{
  timer_max_interval_ms, PeriodicTask, round_ms, accumulate, execute, execute_all,
}
use hongwei_notebook.Timer.Wheel.{timer_resolution_ms}
use hongwei_notebook.Timer.Periodic.Drift.{
  IsPlanned, Accounts, accumulate-Accounts, fires_after, plans_next, elapsed, rounded_le,
  rounded_ge,
}

-- When the run after some runs is due, if one of them follows the other by a step.
abbrev pub due_after : (step due : ℕ) → List (ℕ × ℕ) → ℕ
due_after step due [] = due
due_after step due (run ∷ runs) = due_after step (due + step) runs

abbrev pub AreTimes : List (ℕ × ℕ) → Type 0
AreTimes [] = Unit {0}
AreTimes ((start, end) ∷ runs) = (0 < start) × (start < u64_mod) × AreTimes runs

execute_all-Accounts :
    (runs : List (ℕ × ℕ)) (due : ℕ) (t : PeriodicTask)
    → AreTimes runs
    → t.interval_ms < 65536
    → 0 < t.last_execute_time_ns
    → Accounts due t
    → Accounts (due_after (t.interval_ms * 1000000) due runs) (execute_all t runs)
      × ((execute_all t runs).interval_ms ≡ t.interval_ms)
      × (0 < (execute_all t runs).last_execute_time_ns)
unfolding execute_all execute
execute_all-Accounts [] due t times short ran h = (h, refl, ran)
execute_all-Accounts ((start, end) ∷ runs) due t times short ran h =
    execute_all-Accounts runs (due + t.interval_ms * 1000000) (execute start end t) times.2 short
      times.0 (accumulate-Accounts start end due t times.1 short ran h)

first-Accounts :
    (start end : ℕ) (t : PeriodicTask)
    → start < u64_mod
    → t.last_execute_time_ns ≡ 0
    → t.accumulated_error_ns ≡ 0
    → Accounts start (execute start end t)
unfolding execute accumulate
first-Accounts start end t small fresh none_yet = ground (arith, fresh, none_yet)

execute_all-append :
    (runs : List (ℕ × ℕ)) (start end : ℕ) (t : PeriodicTask)
    → execute_all t (runs ++ ((start, end) ∷ [])) ≡ execute start end (execute_all t runs)
unfolding execute_all
execute_all-append [] start end t = refl
execute_all-append ((s, e) ∷ runs) start end t = execute_all-append runs start end (execute s e t)

-- A wait that follows the schedule and is no shorter than a tick of the wheel.
abbrev pub IsTimed : (interval start end due next : ℕ) → Type 0
IsTimed interval start end due next =
    (timer_resolution_ms ≤ next) × IsPlanned interval start end due next

-- One more run of a task that accounts for its delays.
execute-IsTimed :
    (t : PeriodicTask) (start end due : ℕ)
    → t.interval_ms < timer_max_interval_ms
    → 0 < t.last_execute_time_ns
    → Accounts due t
    → start ≤ end
    → end < 2305843009213693952
    → due + t.interval_ms * 1000000 < 2305843009213693952
    → IsTimed t.interval_ms start end
        (due + t.interval_ms * 1000000)
        (execute start end t).next_fire_duration_ms
unfolding execute round_ms
execute-IsTimed t start end due short ran h order last near =
    let step = t.interval_ms * 1000000 in
    let h' = accumulate-Accounts start end due t (omega (arith, order, last)) short ran h in
    let e = elapsed t.interval_ms start end (due + step) short order last near in
    let waits =
      fires_after t.interval_ms ((sub64 end start + 500000) / 1000000) (accumulate start t) short
        h'.1 in
    (
      waits,
      plans_next t.interval_ms start end (due + step) short order last near
          ((sub64 end start + 500000) / 1000000) (accumulate start t)
          (rw e (rounded_le (end - start))) (rw e (rounded_ge (end - start))) h'.1 h'.0,
    )

-- A periodic timer runs first at `first`, then any number of times, and now from `start` to `end`. Then
-- the time that it waits before the next run leads to `first` plus a whole number of intervals, up to
-- one millisecond, however late the single runs were: delays do not add up. Else the wait is the
-- shortest that there is, because that time is less than three milliseconds away or past, or the run
-- took the whole interval. The wait is at least one tick of the wheel.
pub execute_all-IsTimed :
    (t : PeriodicTask) (first first_end start end : ℕ) (runs : List (ℕ × ℕ))
    → let step = t.interval_ms * 1000000 in
      let due = due_after step first runs + step in
      t.interval_ms < timer_max_interval_ms
      → t.last_execute_time_ns ≡ 0
      → t.accumulated_error_ns ≡ 0
      → 0 < first
      → first < u64_mod
      → AreTimes runs
      → start ≤ end
      → end < 2305843009213693952
      → due < 2305843009213693952
      → IsTimed t.interval_ms start end due
          (execute_all t ((first, first_end) ∷ runs ++ ((start, end) ∷ []))).next_fire_duration_ms
unfolding execute_all execute
execute_all-IsTimed t first first_end start end runs short fresh none_yet pos small times order last
      near =
    let t1 = execute first first_end t in
    let h =
      execute_all-Accounts runs first t1 times short pos
        (first-Accounts first first_end t small fresh none_yet) in
    rw (execute_all-append runs start end t1) (
      subst
        (λ i.
          IsTimed i start end (due_after (t.interval_ms * 1000000) first runs + i * 1000000)
            (execute start end (execute_all t1 runs)).next_fire_duration_ms)
        h.1
        (execute-IsTimed (execute_all t1 runs) start end
          (due_after (t.interval_ms * 1000000) first runs) (rw h.1 short) h.2 h.0 order last
          (rw h.1 near)))

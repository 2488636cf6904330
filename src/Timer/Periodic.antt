-- ===== src/Timer/Periodic.antt =====
-- Timer of IntelligentDriving/my_cyber/timer/timer.cc: starting and stopping, and the callback of a
-- periodic timer, which measures how late it runs and sets the time to its next run. `std::llround` of
-- a duration over 1e6 is exact for durations below 2^50 nanoseconds. A signed word is kept as the word
-- of the same bits.
pub mod Drift
pub mod Schedule
pub mod Started
use hongwei_notebook.Common.{
  ℕ, ◌+◌, ◌-◌, ◌*◌, ◌/◌, ◌%◌, Bool, true, false, Option, none, some, List, [], ◌∷◌, ◌==◌, ltb, leb,
  if◌then◌else◌, add64, sub64, u64_mod, ◌||◌, not,
}
use hongwei_notebook.Timer.Wheel.{
  TimerTask, TimingWheel, add_task, timer_resolution_ms, work_wheel_size, assistant_wheel_size,
}

abbrev pub timer_max_interval_ms : ℕ
timer_max_interval_ms = work_wheel_size * assistant_wheel_size * timer_resolution_ms

-- The fields of TimerTask that the callback of a periodic timer keeps.
pub record PeriodicTask : Type 0 where
  pub timer_id : ℕ
  pub interval_ms : ℕ
  pub next_fire_duration_ms : ℕ
  pub accumulated_error_ns : ℕ
  pub last_execute_time_ns : ℕ

-- `std::llround` of an unsigned number of nanoseconds over 1e6.
unfoldable pub round_ms : ℕ → ℕ
round_ms ns = (ns + 500000) / 1000000

abbrev pub is_negative : ℕ → Bool
is_negative word = leb 9223372036854775808 word

-- `std::llround` of a signed number of nanoseconds over 1e6, which rounds halves away from zero.
unfoldable pub round_signed_ms : ℕ → ℕ
unfolding round_ms
round_signed_ms word = if is_negative word then sub64 0 (round_ms (sub64 0 word)) else round_ms word

-- `a <= b` of signed words.
unfoldable pub signed_leb : ℕ → ℕ → Bool
signed_leb a b = leb (add64 a 9223372036854775808) (add64 b 9223372036854775808)

unfoldable pub next_fire : ℕ → ℕ → ℕ → ℕ
unfolding round_signed_ms signed_leb
next_fire interval_ms execute_time_ms error_ns =
    if leb interval_ms execute_time_ms
    then timer_resolution_ms
    else let error_ms = round_signed_ms error_ns in
      if signed_leb error_ms (sub64 (sub64 interval_ms execute_time_ms) timer_resolution_ms)
      then sub64 (sub64 interval_ms execute_time_ms) error_ms
      else timer_resolution_ms

unfoldable pub accumulate : ℕ → PeriodicTask → ℕ
accumulate start task =
    if task.last_execute_time_ns == 0
    then task.accumulated_error_ns
    else add64 task.accumulated_error_ns
        (sub64 (sub64 start task.last_execute_time_ns) (task.interval_ms * 1000000 % u64_mod))

-- A run of the callback from `start` to `end`, up to the AddTask at its end.
unfoldable pub execute : ℕ → ℕ → PeriodicTask → PeriodicTask
unfolding accumulate next_fire round_ms
execute start end task =
    let error = accumulate start task in
    record task {
      next_fire_duration_ms = next_fire task.interval_ms (round_ms (sub64 end start)) error;
      accumulated_error_ns = error;
      last_execute_time_ns = start;
    }

-- The task as the wheel sees it.
abbrev pub on_wheel : PeriodicTask → TimerTask
on_wheel task = record {
  timer_id = task.timer_id;
  remainder_interval_ms = 0;
  next_fire_duration_ms = task.next_fire_duration_ms;
}

-- The callback, with the AddTask at its end; nothing when the task is gone.
unfoldable pub callback :
    ℕ → ℕ → Option PeriodicTask → TimingWheel → Option PeriodicTask × TimingWheel
unfolding execute
callback start end none wheel = (none, wheel)
callback start end (some task) wheel =
    let task' = execute start end task in (some task', add_task wheel (on_wheel task'))

pub record Timer : Type 0 where
  pub timer_id : ℕ
  pub period : ℕ
  pub oneshot : Bool
  pub started : Bool
  pub task : Option PeriodicTask

unfoldable pub set_timer_option : Timer → ℕ → Bool → Timer
set_timer_option t period oneshot = record t { period = period; oneshot = oneshot }

abbrev new_task : Timer → PeriodicTask
new_task t = record {
  timer_id = t.timer_id;
  interval_ms = t.period;
  next_fire_duration_ms = t.period;
  accumulated_error_ns = 0;
  last_execute_time_ns = 0;
}

unfoldable pub init_timer_task : Timer → Timer × Bool
init_timer_task t =
    if t.period == 0 || leb timer_max_interval_ms t.period
    then (t, false)
    else (record t { task = some (new_task t) }, true)

unfoldable pub start_wheel : Timer × Bool → TimingWheel → Timer × TimingWheel
start_wheel (t, false) wheel = (t, wheel)
start_wheel (t, true) wheel =
    (t, elim t.task [ none ↦ wheel | some task ↦ add_task wheel (on_wheel task) ])

-- Start; `is_reality_mode` is what GlobalData says.
unfoldable pub start : Bool → Timer → TimingWheel → Timer × TimingWheel
unfolding init_timer_task start_wheel
start is_reality_mode t wheel =
    if not is_reality_mode
    then (t, wheel)
    else if t.started
    then (t, wheel)
    else start_wheel (init_timer_task (record t { started = true })) wheel

unfoldable pub stop : Timer → Timer
stop t = record t { started = false; task = if t.started then none else t.task }

-- Runs of the callback, one after the other, each with its start and its end.
unfoldable pub execute_all : PeriodicTask → List (ℕ × ℕ) → PeriodicTask
execute_all task [] = task
execute_all task ((start, end) ∷ runs) = execute_all (execute start end task) runs

-- ===== src/Tests/Timers.antt =====
-- Timers of timer.cc at concrete inputs: a period of 100 ms, first run at 1 s, and a run that is 30 ms
-- late and takes 5 ms.
use hongwei_notebook.Common.{ℕ, ◌≡◌, refl, true, false, List, [], ◌∷◌, none, arith}
use hongwei_notebook.Timer.Wheel.{TimingWheel}
use hongwei_notebook.Timer.Periodic.{
  PeriodicTask, Timer, execute_all, execute, next_fire, accumulate, round_ms, round_signed_ms,
  signed_leb, start, set_timer_option,
}
use hongwei_notebook.Timer.Periodic.Schedule.{IsTimed, execute_all-IsTimed}
use hongwei_notebook.Timer.Periodic.Started.{start_rejected}

abbrev every_100_ms : PeriodicTask
every_100_ms = record {
  timer_id = 1;
  interval_ms = 100;
  next_fire_duration_ms = 100;
  accumulated_error_ns = 0;
  last_execute_time_ns = 0;
}

abbrev run_of_task : List (ℕ × ℕ)
run_of_task = (1000000000, 1001000000) ∷ (1101000000, 1102000000) ∷ (1230000000, 1235000000) ∷ []

-- The third run was due at 1.2 s: the wait of 65 ms leads to 1.3 s.
catches_up : (execute_all every_100_ms run_of_task).next_fire_duration_ms ≡ 65
unfolding execute_all execute next_fire accumulate round_ms round_signed_ms signed_leb
catches_up = refl

execute_all-IsTimed_example :
    IsTimed 100 1230000000 1235000000 1200000000
      (execute_all every_100_ms run_of_task).next_fire_duration_ms
execute_all-IsTimed_example =
    execute_all-IsTimed every_100_ms 1000000000 1001000000 1230000000 1235000000
      ((1101000000, 1102000000) ∷ []) (omega arith) refl refl (omega arith) (omega arith)
      (omega arith, omega arith, tt) (omega arith) (omega arith) (omega arith)

abbrev no_period : Timer
no_period = record { timer_id = 1; period = 0; oneshot = false; started = false; task = none }

abbrev still : TimingWheel
still = record {
  running = false;
  tick_count = 0;
  work_wheel = λ i. [];
  assistant_wheel = λ i. [];
  current_work_wheel_index = 0;
  current_assistant_wheel_index = 0;
}

start_rejected_example :
    let refused = (start true no_period still).0 in
    let corrected = set_timer_option refused 100 false in
    ((start true no_period still).1 ≡ still)
    × (refused.started ≡ true)
    × (start true corrected still ≡ (corrected, still))
start_rejected_example = start_rejected no_period still still 100 false refl refl

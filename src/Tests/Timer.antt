-- ===== src/Tests/Timer.antt =====
-- my_cyber/timer at concrete inputs.
use hongwei_notebook.Common.{ℕ, ◌≡◌, refl, Bool, true, List, [], ◌∷◌, arith}
use hongwei_notebook.Timer.Wheel.{
  TimerTask, TimingWheel, add_task, add_all, advance, advance_assistant, cascade, run,
}
use hongwei_notebook.Timer.Wheel.Due.{IsAbsent, Due}
use hongwei_notebook.Timer.Wheel.Fires.{FiresAt, add_task-FiresAt}
use hongwei_notebook.Timer.Wheel.Race.{add_task_between_indices}

abbrev wheel : ℕ → TimingWheel
wheel index = record {
  running = true;
  tick_count = 0;
  work_wheel = λ _. [];
  assistant_wheel = λ _. [];
  current_work_wheel_index = index;
  current_assistant_wheel_index = 63;
}

abbrev task : ℕ → TimerTask
task duration = record { timer_id = 7; remainder_interval_ms = 0; next_fire_duration_ms = duration }

abbrev all_alive : ℕ → Bool
all_alive _ = true

abbrev round : (ℕ → Bool) × List TimerTask
round = (all_alive, [])

wheel-IsAbsent : (i : ℕ) → IsAbsent 7 (wheel i)
wheel-IsAbsent i = record { work = λ j. refl; assistant = λ j. refl }

-- Five milliseconds at index 510: three ticks, over the end of the wheel.
add_task-FiresAt_example : FiresAt 7 2 (
    run
      (round ∷ round ∷ round ∷ [])
      (advance all_alive (add_all (add_task (wheel 510) (task 5)) [])))
add_task-FiresAt_example =
    add_task-FiresAt (wheel 510) (task 5) [] all_alive (round ∷ round ∷ round ∷ []) (omega arith)
      (wheel-IsAbsent 510) (omega arith) (omega arith) refl tt
      (refl, tt, (refl, tt, (refl, tt, tt)))

run_fires :
    run
      (round ∷ round ∷ round ∷ [])
      (advance all_alive (add_all (add_task (wheel 510) (task 5)) []))
    ≡ [] ∷ [] ∷ (7 ∷ []) ∷ []
unfolding run advance add_all add_task
run_fires = refl

-- 1200 ms are 600 ticks; the task is due after 88.
add_task_between_indices_example :
    let s = advance_assistant (add_task (wheel 0) (task 1200)) in
    Due 512 7 88 (cascade all_alive s s.current_assistant_wheel_index)
add_task_between_indices_example =
    add_task_between_indices (wheel 0) (task 1200) all_alive (omega arith) (wheel-IsAbsent 0) refl
      refl (omega arith) (omega arith)

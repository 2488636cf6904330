-- ===== src/Timer/Wheel/Race.antt =====
-- The moment between the two index updates of TickFunc, which hold two different mutexes.
use hongwei_notebook.Common.{
  ℕ, suc, ◌+◌, ◌-◌, ◌/◌, ◌%◌, ◌≤◌, ◌<◌, ◌≡◌, refl, subst, Bool, true, arith,
}
use hongwei_notebook.Timer.Wheel.{
  TimerTask, TimingWheel, ticks_of, add_task, cascade, advance_assistant,
}
use hongwei_notebook.Timer.Wheel.Due.{
  IsValid, IsAbsent, Due, later, Placed, this_turn, next_turn, some_turn, add_task-Placed, index_of,
  in_assistant-InAssistant, with_remainder,
}
use hongwei_notebook.Timer.Wheel.Turn.{turned, cascade-Due}

-- The wheel as if its index had not moved yet.
abbrev before : TimingWheel → TimingWheel
before s = record s { current_work_wheel_index = 511 }

advance_assistant-eq :
    (s : TimingWheel) → s.current_work_wheel_index ≡ 0 → turned (before s) ≡ advance_assistant s
unfolding advance_assistant
advance_assistant-eq s z = ground arith

late_Placed :
    {s : TimingWheel} {t : TimerTask} (index : ℕ) {s' : TimingWheel}
    → Placed s t index s'
    → IsAbsent t.timer_id s
    → s.current_work_wheel_index ≡ 0
    → 512 ≤ index
    → index < 1024
    → Due 513 t.timer_id (suc (index - 512)) (before s')
      × (s'.current_work_wheel_index ≡ 0)
      × (s'.current_assistant_wheel_index ≡ s.current_assistant_wheel_index)
late_Placed index (this_turn h) a z lo hi = absurd (omega arith)
late_Placed index (next_turn h r q) a z lo hi = absurd (omega arith)
late_Placed {s} {t} index (some_turn h) a z lo hi =
    let one : index / 512 ≡ 1 = omega arith in
    let p =
      in_assistant-InAssistant s ((s.current_assistant_wheel_index + index / 512) % 64)
        (with_remainder t (index % 512)) a in
    (
      later (index / 512) (index % 512) (omega arith) (omega arith) (omega arith) (omega arith)
          (record { work = p.work; assistant = p.assistant; due = p.due }),
      z,
      refl,
    )

-- A task of 512 to 1023 ticks that another thread adds after TickFunc has set the work index to 0
-- and before it has moved the assistant index comes down with the cascade that follows, and is due
-- 512 ticks before its time.
pub add_task_between_indices :
    (s : TimingWheel) (t : TimerTask) (alive : ℕ → Bool)
    → IsValid s
    → IsAbsent t.timer_id s
    → alive t.timer_id ≡ true
    → s.current_work_wheel_index ≡ 0
    → 1023 ≤ t.next_fire_duration_ms
    → t.next_fire_duration_ms ≤ 2046
    → let s' = advance_assistant (add_task s t) in
      Due 512 t.timer_id
        ((t.next_fire_duration_ms + 1) / 2 - 512)
        (cascade alive s' s'.current_assistant_wheel_index)
unfolding ticks_of
add_task_between_indices s t alive v a l z lo hi =
    let p = add_task-Placed s t v (omega arith) in
    let (d, z', q) = late_Placed (index_of s t) p a z (omega arith) (omega arith) in
    let k : index_of s t - 512 ≡ (t.next_fire_duration_ms + 1) / 2 - 512 = omega arith in
    subst
      (λ r.
        Due 512 t.timer_id ((t.next_fire_duration_ms + 1) / 2 - 512)
          (cascade alive r r.current_assistant_wheel_index))
      (advance_assistant-eq (add_task s t) z')
      (subst
        (λ n. Due 512 t.timer_id n (
          cascade alive (turned (before (add_task s t)))
            (((before (add_task s t)).current_assistant_wheel_index + 1) % 64)))
        k
        (cascade-Due alive t.timer_id (index_of s t - 512) (before (add_task s t)) l refl
          (omega (arith, v.assistant_in)) d))

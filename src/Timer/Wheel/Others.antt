-- ===== src/Timer/Wheel/Others.antt =====
-- AddTask of timing_wheel.cc for the tasks of other timers.
use hongwei_notebook.Common.{ℕ, ◌%◌, ◌≤◌, ◌≡◌, ◌≢◌, ◌∙◌, List, [], ◌∷◌, arith}
use hongwei_notebook.Timer.Wheel.{TimerTask, TimerBucket, TimingWheel, add_to, add_task, add_all}
use hongwei_notebook.Timer.Wheel.Buckets.{holds, holds_for, holds-add_to, holds_for-append}
use hongwei_notebook.Timer.Wheel.Due.{
  IsValid, Due, soon, later, Placed, this_turn, next_turn, some_turn, in_work, in_assistant,
  add_task-Placed, with_remainder,
}

module _ (x : ℕ) (t : TimerTask) (other : t.timer_id ≢ x) where
  holds_other : (w : ℕ → TimerBucket) (i j : ℕ) → holds x (add_to w i t j) ≡ holds x (w j)
  holds_other w i j = holds-add_to x w i j t ∙ ground arith

  holds_for_other :
      (w : ℕ → TimerBucket) (i j k : ℕ) → holds_for x k (add_to w i t j) ≡ holds_for x k (w j)
  holds_for_other w i j k = ground (arith, holds_for-append x k (w i) (t ∷ []))

  in_work-Due : {lap k : ℕ} (s : TimingWheel) (i : ℕ) → Due lap x k s → Due lap x k (in_work s i t)
  in_work-Due s i (soon h w) =
      soon h
        (record { work = λ j. holds_other s.work_wheel i j ∙ w.work j; assistant = w.assistant })
  in_work-Due s i (later j r a b c e w) = later j r a b c e (record {
    work = λ j. holds_other s.work_wheel i j ∙ w.work j;
    assistant = w.assistant;
    due = w.due;
  })

  in_assistant-Due :
      {lap k : ℕ} (s : TimingWheel) (i : ℕ) → Due lap x k s → Due lap x k (in_assistant s i t)
  in_assistant-Due s i (soon h w) =
      soon h (record {
        work = w.work;
        assistant = λ j. holds_other s.assistant_wheel i j ∙ w.assistant j;
      })
  in_assistant-Due s i (later j r a b c e w) = later j r a b c e (record {
    work = w.work;
    assistant = λ j. holds_other s.assistant_wheel i j ∙ w.assistant j;
    due = λ k. holds_for_other s.assistant_wheel i _ k ∙ w.due k;
  })

Placed-Due_other :
    {lap x k : ℕ} {s : TimingWheel} {t : TimerTask} (index : ℕ) {s' : TimingWheel}
    → Placed s t index s'
    → t.timer_id ≢ x
    → Due lap x k s
    → Due lap x k s'
Placed-Due_other {x = x} {s = s} {t = t} index (this_turn h) n d = in_work-Due x t n s index d
Placed-Due_other {x = x} {s = s} {t = t} index (next_turn h r q) n d =
    in_work-Due x (with_remainder t (index % 512)) n s (index % 512) d
Placed-Due_other {x = x} {s = s} {t = t} index (some_turn h) n d =
    in_assistant-Due x (with_remainder t (index % 512)) n s _ d

pub Placed-IsValid :
    {s : TimingWheel} {t : TimerTask} (index : ℕ) {s' : TimingWheel}
    → Placed s t index s'
    → IsValid s
    → IsValid s'
Placed-IsValid index (this_turn h) v = omega arith
Placed-IsValid index (next_turn h r q) v = omega arith
Placed-IsValid index (some_turn h) v = omega arith

-- The tasks that others add are not of this timer, and their durations are those that a timer sets.
abbrev pub Others : ℕ → List TimerTask → Type 0
Others x [] = Unit {0}
Others x (t ∷ ts) = (t.timer_id ≢ x) × (t.next_fire_duration_ms ≤ 65536) × Others x ts

pub add_all-Due :
    {lap x k : ℕ} (ts : List TimerTask) (s : TimingWheel)
    → Others x ts
    → IsValid s
    → Due lap x k s
    → Due lap x k (add_all s ts) × IsValid (add_all s ts)
unfolding add_all
add_all-Due [] s o v d = (d, v)
add_all-Due (t ∷ ts) s o v d =
    let p = add_task-Placed s t v o.1 in
    add_all-Due ts (add_task s t) o.2 (Placed-IsValid _ p v) (Placed-Due_other _ p o.0 d)

-- ===== src/Timer/Wheel.antt =====
-- TimingWheel of IntelligentDriving/my_cyber/timer/timing_wheel.cc, with TimerBucket and the fields
-- of TimerTask that it reads. A bucket keeps weak pointers: `alive` says which timers are not gone.
-- `index & (SIZE - 1)` is `index % SIZE`, since both sizes are powers of two.
pub mod Buckets
pub mod Due
pub mod Others
pub mod Turn
pub mod Fires
pub mod Race
use hongwei_notebook.Common.{
  ℕ, ◌+◌, ◌/◌, ◌%◌, Bool, true, List, [], ◌∷◌, ◌++◌, add64, ◌==◌, ltb, ◌&&◌, if◌then◌else◌,
}

abbrev pub work_wheel_size : ℕ
work_wheel_size = 512

abbrev pub assistant_wheel_size : ℕ
assistant_wheel_size = 64

abbrev pub timer_resolution_ms : ℕ
timer_resolution_ms = 2

pub record TimerTask : Type 0 where
  pub timer_id : ℕ
  pub remainder_interval_ms : ℕ
  pub next_fire_duration_ms : ℕ

abbrev pub TimerBucket : Type 0
TimerBucket = List TimerTask

-- The buckets of a wheel, by index.
abbrev pub Buckets : Type 0
Buckets = ℕ → TimerBucket

abbrev pub update : Buckets → ℕ → TimerBucket → Buckets
update w i b j = if j == i then b else w j

pub record TimingWheel : Type 0 where
  pub running : Bool
  pub tick_count : ℕ
  pub work_wheel : Buckets
  pub assistant_wheel : Buckets
  pub current_work_wheel_index : ℕ
  pub current_assistant_wheel_index : ℕ

pub get_work_wheel_index : ℕ → ℕ
get_work_wheel_index index = index % work_wheel_size

pub get_assistant_wheel_index : ℕ → ℕ
get_assistant_wheel_index index = index % assistant_wheel_size

-- TimerBucket::AddTask
abbrev pub add_to : Buckets → ℕ → TimerTask → Buckets
add_to w i t = update w i (w i ++ t ∷ [])

-- `std::ceil(double(duration) / TIMER_RESOLUTION_MS)`, which is exact below 2^53.
pub ticks_of : ℕ → ℕ
ticks_of duration_ms = (duration_ms + 1) / timer_resolution_ms

-- `Start` of a wheel that does not run; the thread that it creates is `tick_round` below.
pub start : TimingWheel → TimingWheel
start s = record s { running = true }

-- AddTask(task, current_work_wheel_index)
pub add_task_at : TimingWheel → TimerTask → ℕ → TimingWheel
unfolding get_work_wheel_index get_assistant_wheel_index ticks_of start
add_task_at s task current =
    let s' = start s in
    let index = add64 current (ticks_of task.next_fire_duration_ms) in
    if ltb index work_wheel_size
    then record s' { work_wheel = add_to s.work_wheel index task }
    else let real = get_work_wheel_index index in
      let task' = record task { remainder_interval_ms = real } in
      let assistant_ticks = index / work_wheel_size in
      if assistant_ticks == 1 && ltb real s.current_work_wheel_index
      then record s' { work_wheel = add_to s.work_wheel real task' }
      else record s' {
        assistant_wheel =
            add_to s.assistant_wheel
              (get_assistant_wheel_index (add64 s.current_assistant_wheel_index assistant_ticks))
              task';
      }

-- AddTask(task)
unfoldable pub add_task : TimingWheel → TimerTask → TimingWheel
unfolding add_task_at
add_task s task = add_task_at s task s.current_work_wheel_index

-- The tasks of a bucket whose timer still exists, in order.
pub live : (ℕ → Bool) → TimerBucket → TimerBucket
live alive [] = []
live alive (t ∷ ts) = if alive t.timer_id then t ∷ live alive ts else live alive ts

pub ids : TimerBucket → List ℕ
ids [] = []
ids (t ∷ ts) = t.timer_id ∷ ids ts

-- Tick empties the current bucket, and hands the callbacks of its live tasks to `cyber::Async`.
pub tick : (ℕ → Bool) → TimingWheel → TimingWheel × List ℕ
unfolding live ids
tick alive s =
    let index = s.current_work_wheel_index in
    (record s { work_wheel = update s.work_wheel index [] }, ids (live alive (s.work_wheel index)))

pub push_all : Buckets → TimerBucket → Buckets
push_all w [] = w
push_all w (t ∷ ts) = push_all (add_to w t.remainder_interval_ms t) ts

pub cascade : (ℕ → Bool) → TimingWheel → ℕ → TimingWheel
unfolding live push_all
cascade alive s index = record s {
  work_wheel = push_all s.work_wheel (live alive (s.assistant_wheel index));
  assistant_wheel = update s.assistant_wheel index [];
}

pub advance_work : TimingWheel → TimingWheel
unfolding get_work_wheel_index
advance_work s = record s {
  current_work_wheel_index = get_work_wheel_index (s.current_work_wheel_index + 1);
}

pub advance_assistant : TimingWheel → TimingWheel
unfolding get_assistant_wheel_index
advance_assistant s = record s {
  current_assistant_wheel_index = get_assistant_wheel_index (s.current_assistant_wheel_index + 1);
}

unfoldable pub add_all : TimingWheel → List TimerTask → TimingWheel
add_all s [] = s
add_all s (t ∷ ts) = add_all (add_task s t) ts

-- What follows `rate.Sleep()` in the loop of TickFunc.
unfoldable pub advance : (ℕ → Bool) → TimingWheel → TimingWheel
unfolding advance_work advance_assistant cascade
advance alive s =
    let s1 = advance_work s in
    if s1.current_work_wheel_index == 0
    then (let s2 = advance_assistant s1 in cascade alive s2 s2.current_assistant_wheel_index)
    else s1

-- One round of the loop of TickFunc; other threads add `tasks` while it sleeps.
pub tick_round : (ℕ → Bool) → List TimerTask → TimingWheel → TimingWheel × List ℕ
unfolding tick add_all advance
tick_round alive tasks s =
    let (s1, fired) = tick alive s in
    let s2 = record s1 { tick_count = add64 s1.tick_count 1 } in
    (advance alive (add_all s2 tasks), fired)

-- Round after round: what each round tells about the timers that still exist, and what is added
-- while it sleeps; the result is what each round fires.
unfoldable pub run : List ((ℕ → Bool) × List TimerTask) → TimingWheel → List (List ℕ)
unfolding tick_round
run [] s = []
run ((alive, tasks) ∷ rounds) s =
    let (s', fired) = tick_round alive tasks s in fired ∷ run rounds s'

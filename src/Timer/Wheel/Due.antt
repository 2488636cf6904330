-- ===== src/Timer/Wheel/Due.antt =====
-- Where the task of a timer lies, and in how many rounds that makes it due.
use hongwei_notebook.Common.{
  ℕ, ◌+◌, ◌*◌, ◌/◌, ◌%◌, ◌≤◌, ◌<◌, ◌≡◌, ◌∙◌, inl, inr, true, false, [], ◌∷◌, arith, ◌==◌, ◌&&◌, ltb,
  Bool-cases, ltb→lt, subst,
}
use hongwei_notebook.Timer.Wheel.{TimerTask, TimingWheel, add_to, ticks_of, add_task}
use hongwei_notebook.Timer.Wheel.Buckets.{
  holds, holds_for, holds-add_to, holds_for-append, holds_for-absent,
}

pub record IsValid (s : TimingWheel) : Type 0 where
  pub work_in : s.current_work_wheel_index < 512
  pub assistant_in : s.current_assistant_wheel_index < 64

-- The timer has no task on the wheel.
pub record IsAbsent (x : ℕ) (s : TimingWheel) : Type 0 where
  pub work : (i : ℕ) → holds x (s.work_wheel i) ≡ false
  pub assistant : (i : ℕ) → holds x (s.assistant_wheel i) ≡ false

pub record InWork (x slot : ℕ) (s : TimingWheel) : Type 0 where
  pub work : (i : ℕ) → holds x (s.work_wheel i) ≡ (i == slot)
  pub assistant : (i : ℕ) → holds x (s.assistant_wheel i) ≡ false

pub record InAssistant (x remainder slot : ℕ) (s : TimingWheel) : Type 0 where
  pub work : (i : ℕ) → holds x (s.work_wheel i) ≡ false
  pub assistant : (i : ℕ) → holds x (s.assistant_wheel i) ≡ (i == slot)
  pub due : (i : ℕ) → holds_for x i (s.assistant_wheel slot) ≡ (i == remainder)

-- The task is due k rounds on from the current index; `lap` bounds k where it is in the work wheel.
pub data Due (lap x k : ℕ) (s : TimingWheel) : Type 0 where
  soon : k < lap → InWork x ((s.current_work_wheel_index + k) % 512) s → Due lap x k s
  later :
      (j remainder : ℕ)
      → 1 ≤ j
      → j ≤ 64
      → remainder < 512
      → s.current_work_wheel_index + k ≡ 512 * j + remainder
      → InAssistant x remainder ((s.current_assistant_wheel_index + j) % 64) s
      → Due lap x k s

-- The three places that AddTask chooses among.
abbrev pub in_work : TimingWheel → ℕ → TimerTask → TimingWheel
in_work s i t = record s { running = true; work_wheel = add_to s.work_wheel i t }

abbrev pub in_assistant : TimingWheel → ℕ → TimerTask → TimingWheel
in_assistant s i t = record s { running = true; assistant_wheel = add_to s.assistant_wheel i t }

abbrev pub with_remainder : TimerTask → ℕ → TimerTask
with_remainder t r = record t { remainder_interval_ms = r }

pub data Placed (s : TimingWheel) (t : TimerTask) (index : ℕ) : TimingWheel → Type 0 where
  this_turn : index < 512 → Placed s t index (in_work s index t)
  next_turn :
      512 ≤ index
      → index % 512 < s.current_work_wheel_index
      → index / 512 ≡ 1
      → Placed s t index (in_work s (index % 512) (with_remainder t (index % 512)))
  some_turn :
      512 ≤ index
      → Placed s t index (
          in_assistant s
            ((s.current_assistant_wheel_index + index / 512) % 64)
            (with_remainder t (index % 512)))

abbrev pub index_of : TimingWheel → TimerTask → ℕ
index_of s t = s.current_work_wheel_index + ticks_of t.next_fire_duration_ms

pub add_task-Placed :
    (s : TimingWheel) (t : TimerTask)
    → IsValid s
    → t.next_fire_duration_ms ≤ 65536
    → Placed s t (index_of s t) (add_task s t)
unfolding add_task
add_task-Placed s t v hi = elim (Bool-cases (ltb (index_of s t) 512)) [
  | inl e ↦ subst (Placed s t (index_of s t)) (ground arith) (this_turn (ltb→lt _ _ e))
  | inr e ↦
      elim (Bool-cases
        (index_of s t / 512 == 1 && ltb (index_of s t % 512) s.current_work_wheel_index)) [
          | inl f ↦
              subst (Placed s t (index_of s t)) (ground arith)
                (next_turn (ground arith) (ground arith) (ground arith))
          | inr f ↦ subst (Placed s t (index_of s t)) (ground arith) (some_turn (ground arith))
        ]
]

pub in_work-InWork :
    (s : TimingWheel) (i : ℕ) (t : TimerTask)
    → IsAbsent t.timer_id s
    → InWork t.timer_id i (in_work s i t)
in_work-InWork s i t a = record {
  work = λ j. holds-add_to t.timer_id s.work_wheel i j t ∙ ground (arith, a.work j);
  assistant = a.assistant;
}

pub in_assistant-InAssistant :
    (s : TimingWheel) (i : ℕ) (t : TimerTask)
    → IsAbsent t.timer_id s
    → InAssistant t.timer_id t.remainder_interval_ms i (in_assistant s i t)
in_assistant-InAssistant s i t a = record {
  work = a.work;
  assistant = λ j. holds-add_to t.timer_id s.assistant_wheel i j t ∙ ground (arith, a.assistant j);
  due = λ j. ground (
    arith,
    holds_for-append t.timer_id j (s.assistant_wheel i) (t ∷ []),
    holds_for-absent t.timer_id j (s.assistant_wheel i),
    a.assistant i,
  );
}

-- The index is 0..511 and the duration at most TIMER_MAX_INTERVAL_MS: the assistant wheel is long
-- enough.
pub Placed-Due :
    {s : TimingWheel} {t : TimerTask} {k : ℕ} (index : ℕ) {s' : TimingWheel}
    → Placed s t index s'
    → IsValid s
    → IsAbsent t.timer_id s
    → index ≡ s.current_work_wheel_index + k
    → 0 < k
    → k ≤ 32768
    → Due 513 t.timer_id k s'
Placed-Due {s} {t = t} {k = k} index (this_turn h) v a e lo hi = soon (omega arith) (
    subst (λ i. InWork t.timer_id i (in_work s index t)) (omega arith) (in_work-InWork s index t a))
Placed-Due {s} {t = t} {k = k} index (next_turn h r q) v a e lo hi = soon (omega arith) (
    subst (λ i. InWork t.timer_id i (in_work s (index % 512) (with_remainder t (index % 512))))
      (omega arith) (in_work-InWork s (index % 512) (with_remainder t (index % 512)) a))
Placed-Due {s} {t = t} {k = k} index (some_turn h) v a e lo hi =
    later (index / 512) (index % 512) (omega arith) (omega arith) (omega arith) (omega arith) (
      in_assistant-InAssistant s ((s.current_assistant_wheel_index + index / 512) % 64)
        (with_remainder t (index % 512)) a)

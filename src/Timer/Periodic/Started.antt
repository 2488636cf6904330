-- ===== src/Timer/Periodic/Started.antt =====
-- Starting a timer twice, and with a period that is refused.
use hongwei_notebook.Common.{ℕ, Bool, true, false, ◌||◌, ◌==◌, leb, ◌≡◌, refl, ap}
use hongwei_notebook.Timer.Periodic.{
  timer_max_interval_ms, Timer, init_timer_task, start_wheel, start, set_timer_option,
}
use hongwei_notebook.Timer.Wheel.{TimingWheel}

start_started :
    (t : Timer) (wheel : TimingWheel) → t.started ≡ true → start true t wheel ≡ (t, wheel)
unfolding start
start_started t wheel e = rw e refl

started_refused :
    (t : Timer) (wheel : TimingWheel)
    → t.started ≡ false
    → (t.period == 0 || leb timer_max_interval_ms t.period) ≡ true
    → start true t wheel ≡ (record t { started = true }, wheel)
unfolding start init_timer_task start_wheel
started_refused t wheel fresh bad = rw (fresh, bad) refl

-- A timer that is started with a period of 0 or of 65,536 ms and more is marked as started although it
-- adds nothing to the wheel: when it is given another period, starting it again does nothing either.
pub start_rejected :
    (t : Timer) (wheel later : TimingWheel) (period : ℕ) (oneshot : Bool)
    → t.started ≡ false
    → (t.period == 0 || leb timer_max_interval_ms t.period) ≡ true
    → let refused = (start true t wheel).0 in
      let corrected = set_timer_option refused period oneshot in
      ((start true t wheel).1 ≡ wheel)
      × (refused.started ≡ true)
      × (start true corrected later ≡ (corrected, later))
unfolding set_timer_option
start_rejected t wheel later period oneshot fresh bad =
    let e = started_refused t wheel fresh bad in
    (
      ap (λ r. r.1) e,
      ap (λ r. r.0.started) e,
      start_started (set_timer_option (start true t wheel).0 period oneshot) later
          (ap (λ r. r.0.started) e),
    )

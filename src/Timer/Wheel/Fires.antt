-- ===== src/Timer/Wheel/Fires.antt =====
-- The rounds of TickFunc (timing_wheel.cc) from the adding of a task on.
use hongwei_notebook.Common.{
  ℕ, suc, zero, ◌+◌, ◌-◌, ◌/◌, ◌≤◌, ◌<◌, ◌≡◌, refl, ◌∙◌, subst, Bool, true, false, List, [], ◌∷◌,
  arith, ◌==◌, add64,
}
use hongwei_notebook.Timer.Wheel.{
  TimerTask, TimingWheel, ticks_of, add_task, tick, advance, add_all, tick_round, run,
}
use hongwei_notebook.Timer.Wheel.Buckets.{has_id}
use hongwei_notebook.Timer.Wheel.Due.{
  IsValid, IsAbsent, Due, soon, later, add_task-Placed, Placed-Due, index_of,
}
use hongwei_notebook.Timer.Wheel.Others.{Others, add_all-Due, Placed-IsValid}
use hongwei_notebook.Timer.Wheel.Turn.{tick-fires, tick-Due, advance-Due, advance-IsValid}

-- In each round the timer still exists, and the tasks added are those of other timers.
abbrev pub Quiet : ℕ → List ((ℕ → Bool) × List TimerTask) → Type 0
Quiet x [] = Unit {0}
Quiet x ((alive, tasks) ∷ rounds) = (alive x ≡ true) × Others x tasks × Quiet x rounds

-- Of the rounds, the one k on from the first fires the timer, and none before it does.
abbrev pub FiresAt : ℕ → ℕ → List (List ℕ) → Type 0
FiresAt x k [] = Unit {0}
FiresAt x zero (fired ∷ rest) = has_id x fired ≡ true
FiresAt x (suc k) (fired ∷ rest) = (has_id x fired ≡ false) × FiresAt x k rest

counted : TimingWheel → TimingWheel
counted s = record s { tick_count = add64 s.tick_count 1 }

counted-Due : (lap x k : ℕ) (s : TimingWheel) → Due lap x k s → Due lap x k (counted s)
unfolding counted
counted-Due lap x k s (soon h w) = soon h (record { work = w.work; assistant = w.assistant })
counted-Due lap x k s (later j r a b c q w) =
    later j r a b c q (record { work = w.work; assistant = w.assistant; due = w.due })

tick-IsValid : (alive : ℕ → Bool) (s : TimingWheel) → IsValid s → IsValid (counted (tick alive s).0)
unfolding tick counted
tick-IsValid alive s v = omega arith

tick_round-eq :
    (alive : ℕ → Bool) (tasks : List TimerTask) (s : TimingWheel)
    → tick_round alive tasks s
      ≡ (advance alive (add_all (counted (tick alive s).0) tasks), (tick alive s).1)
unfolding tick_round counted
tick_round-eq alive tasks s = refl

round-Due :
    (alive : ℕ → Bool) (tasks : List TimerTask) (x k : ℕ) (s : TimingWheel)
    → alive x ≡ true
    → Others x tasks
    → IsValid s
    → Due 512 x (suc k) s
    → Due 512 x k (tick_round alive tasks s).0 × IsValid (tick_round alive tasks s).0
round-Due alive tasks x k s l o v d =
    let (d', v') =
      add_all-Due tasks (counted (tick alive s).0) o (tick-IsValid alive s v)
        (counted-Due 513 x (suc k) (tick alive s).0 (tick-Due alive x k s v d)) in
    rw tick_round-eq (advance-Due alive x k _ l v' d', advance-IsValid alive _ v')

round-fires :
    (alive : ℕ → Bool) (tasks : List TimerTask) (x k : ℕ) (s : TimingWheel)
    → alive x ≡ true
    → IsValid s
    → Due 512 x k s
    → has_id x (tick_round alive tasks s).1 ≡ (k == 0)
round-fires alive tasks x k s l v d = rw tick_round-eq (tick-fires alive x k s l v d)

run-FiresAt :
    (rounds : List ((ℕ → Bool) × List TimerTask)) (x k : ℕ) (s : TimingWheel)
    → Quiet x rounds
    → IsValid s
    → Due 512 x k s
    → FiresAt x k (run rounds s)
unfolding run
run-FiresAt [] x k s q v d = tt
run-FiresAt ((alive, tasks) ∷ rounds) x zero s q v d = round-fires alive tasks x 0 s q.0 v d
run-FiresAt ((alive, tasks) ∷ rounds) x (suc k) s q v d =
    let next = round-Due alive tasks x k s q.0 q.1 v d in
    (
      round-fires alive tasks x (suc k) s q.0 v d ∙ ground arith,
      run-FiresAt rounds x k _ q.2 next.1 next.0,
    )

-- While the tick thread sleeps, a timer that is not on the wheel adds its task, with a duration of
-- 1 to TIMER_MAX_INTERVAL_MS milliseconds; then others add theirs. As long as the timer exists and
-- its task is not added again, the rounds that follow fire it for the first time after exactly
-- ceil(duration / 2) steps of the index, two milliseconds each.
pub add_task-FiresAt :
    (s : TimingWheel) (t : TimerTask) (others : List TimerTask) (alive : ℕ → Bool)
    (rounds : List ((ℕ → Bool) × List TimerTask))
    → IsValid s
    → IsAbsent t.timer_id s
    → 0 < t.next_fire_duration_ms
    → t.next_fire_duration_ms ≤ 65536
    → alive t.timer_id ≡ true
    → Others t.timer_id others
    → Quiet t.timer_id rounds
    → FiresAt t.timer_id
        ((t.next_fire_duration_ms + 1) / 2 - 1)
        (run rounds (advance alive (add_all (add_task s t) others)))
unfolding ticks_of
add_task-FiresAt s t others alive rounds v a lo hi l o q =
    let k = (t.next_fire_duration_ms + 1) / 2 - 1 in
    let e : ticks_of t.next_fire_duration_ms ≡ suc k = omega arith in
    let p = add_task-Placed s t v hi in
    let d = Placed-Due (index_of s t) p v a refl (omega arith) (omega arith) in
    let (d', v') = add_all-Due others (add_task s t) o (Placed-IsValid (index_of s t) p v) d in
    run-FiresAt rounds t.timer_id k _ q (advance-IsValid alive _ v') (
      advance-Due alive t.timer_id k _ l v'
        (subst (λ n. Due 513 t.timer_id n (add_all (add_task s t) others)) e d'))

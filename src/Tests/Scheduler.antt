-- ===== src/Tests/Scheduler.antt =====
-- The scheduler at concrete inputs: three routines in two queues, and a wake-up.
use hongwei_notebook.Common.{
  inl, arith, ◌⊎◌, ℕ, ◌≤◌, ◌<◌, ◌≡◌, ◌≢◌, refl, true, false, List, [], ◌∷◌, some, get_elem?,
}
use hongwei_notebook.Common.Int.{pos, negsuc}
use hongwei_notebook.Common.Map.{Bytes, lookup, bytes_beq}
use hongwei_notebook.Data.Cache
use hongwei_notebook.Data.Channel.{Visitor, try_fetch, fetch}
use hongwei_notebook.Croutine.{CRoutine, RoutineState, ready, data_wait}
use hongwei_notebook.Scheduler.{Heap, max_prio}
use hongwei_notebook.Scheduler.Runnable.{IsPick, is_runnable, runnable_at}
use hongwei_notebook.Scheduler.Classic
use hongwei_notebook.Scheduler.Classic.{
  Pool, ClassicContext, SchedulerClassic, queues_of, notifies, notify_processor, dispatch_task,
}
use hongwei_notebook.Scheduler.Classic.Next.{by_priority, next_routine-IsPick}
use hongwei_notebook.Scheduler.Classic.Notified.{notify_processor-next_routine}
use hongwei_notebook.Scheduler.Classic.Dispatched.{dispatch_task-next_routine}
use hongwei_notebook.Scheduler.Choreography
use hongwei_notebook.Scheduler.Choreography.Sorted.{
  enqueues, apply, apply_all, fresh, next_routine-highest,
}
use hongwei_notebook.Scheduler.Wakeup.{
  Shared, has_unread, Reach, here, next, runs, writes, looks, clears, registers, run_next, write,
  look, clear, register_notify_callback,
}
use hongwei_notebook.Scheduler.Wakeup.Kept.{created, Reach-is_runnable}

abbrev grp : Bytes
grp = 103 ∷ []

abbrev routine : ℕ → ℕ → RoutineState → CRoutine
routine id prio state = record {
  id = id;
  name = id ∷ [];
  group_name = grp;
  priority = prio;
  processor_id = negsuc 0;
  state = state;
  wake_time = 0;
  lock = false;
  updated = true;
  force_stop = false;
}

-- A waiting routine of priority 2 and a ready one of priority 1.
abbrev heap : Heap
heap = routine 7 2 data_wait ∷ routine 8 1 ready ∷ []

abbrev clock : ℕ → ℕ
clock _ = 10

abbrev ctx : ClassicContext
ctx = record { stop = false; current_grp = grp }

abbrev queues : List (List ℕ)
queues =
    []
    ∷ (1 ∷ [])
    ∷ (0 ∷ [])
    ∷ []
    ∷ []
    ∷ []
    ∷ []
    ∷ []
    ∷ []
    ∷ []
    ∷ []
    ∷ []
    ∷ []
    ∷ []
    ∷ []
    ∷ []
    ∷ []
    ∷ []
    ∷ []
    ∷ []
    ∷ []

abbrev pool : Pool
pool = record { cr_group = (grp, queues) ∷ []; notify_grp = (grp, pos 0) ∷ [] }

abbrev classic : SchedulerClassic
classic = record {
  stop = false;
  heap = heap;
  id_cr = (7, 0) ∷ (8, 1) ∷ [];
  cr_confs = [];
  first_group = grp;
  pool = pool;
}

next_routine-IsPick_example :
    IsPick clock heap
      (by_priority (queues_of pool grp) max_prio)
      (Classic.next_routine clock ctx heap pool)
next_routine-IsPick_example = next_routine-IsPick clock ctx heap pool refl

notify_processor-next_routine_example :
    let (s', known) = notify_processor classic 7 in
    let r = Classic.next_routine clock ctx s'.heap s'.pool in
    (known ≡ true)
    × (Classic.notifies s'.pool grp ≡ pos 1)
    × ((g : ℕ) × (r.1 ≡ some g) × (g ≢ 0 → runnable_at clock r.0 0 ≡ true))
unfolding queues_of by_priority lookup bytes_beq notifies
notify_processor-next_routine_example =
    notify_processor-next_routine classic 7 0 (routine 7 2 data_wait) clock ctx 0 refl refl refl
      refl refl refl refl (0, refl) refl (omega arith)

dispatch_task-next_routine_example :
    let (s', accepted) = dispatch_task classic (routine 9 5 ready) in
    let r = Classic.next_routine clock ctx s'.heap s'.pool in
    (accepted ≡ true)
    × (dispatch_task s' (routine 9 3 ready) ≡ (s', false))
    × (Classic.notifies s'.pool grp ≡ pos 1)
    × ((g : ℕ) × (r.1 ≡ some g) × (g ≢ 2 → runnable_at clock r.0 2 ≡ true))
unfolding queues_of Classic.configure lookup bytes_beq notifies
dispatch_task-next_routine_example =
    dispatch_task-next_routine classic (routine 9 5 ready) clock ctx (routine 9 3 ready) 0 refl refl
      refl refl refl refl refl refl (omega arith)

next_routine-highest_example :
    let q = (apply_all fresh (enqueues 2 0 ∷ enqueues 1 1 ∷ enqueues 1 2 ∷ [])).cr_queue in
    (runnable_at clock heap 1 ≡ true)
    × ((i : ℕ) × (p : ℕ) × (get_elem? q i ≡ some (p, 1))
        × ((j p' g : ℕ)
            → get_elem? q j ≡ some (p', g)
            → runnable_at clock heap g ≡ true
            → (i ≤ j) × ((p' < p) ⊎ ((p' ≡ p) × (1 ≤ g)))))
unfolding apply_all apply Choreography.next_routine Choreography.emplace
next_routine-highest_example =
    next_routine-highest clock (enqueues 2 0 ∷ enqueues 1 1 ∷ enqueues 1 2 ∷ []) heap 1
      (omega arith, (omega arith, (omega arith, tt))) refl refl

abbrev visitor : Visitor ℕ ℕ
visitor = record { buffer = Cache.make 0 4; next_msg_index = 0 }

abbrev start : Shared ℕ ℕ
start = created visitor (routine 7 2 ready) 1

abbrev asleep : Shared ℕ ℕ
unfolding run_next
asleep = run_next (run_next (run_next (run_next (run_next (run_next start)))))

asleep-Reach : Reach start asleep
unfolding asleep run_next try_fetch fetch Cache.make
asleep-Reach = next (next (next (next (next (next here runs) runs) runs) runs) runs) runs

abbrev written : Shared ℕ ℕ
unfolding write look clear register_notify_callback
written = clear 0 (look 0 (write 0 42 (register_notify_callback asleep)))

written-Reach : Reach (register_notify_callback asleep) written
unfolding asleep written run_next write look clear register_notify_callback try_fetch fetch
    Cache.make
written-Reach = next (next (next here (writes 0 42 refl)) (looks 0 refl)) (clears 0 refl)

Reach-is_runnable_example : is_runnable 10 written.routine ≡ true
unfolding asleep written run_next write look clear register_notify_callback try_fetch fetch
    Cache.make Cache.store has_unread
Reach-is_runnable_example =
    Reach-is_runnable 10 1 visitor (routine 7 2 ready) refl refl asleep-Reach (inl refl)
      written-Reach refl refl refl

-- A message that is written and notified before the registration wakes nobody.
abbrev missed : Shared ℕ ℕ
unfolding write look register_notify_callback
missed = register_notify_callback (look 0 (write 0 42 asleep))

missed-Reach : Reach start missed
unfolding asleep missed run_next write look register_notify_callback try_fetch fetch Cache.make
missed-Reach = next (next (next asleep-Reach (writes 0 42 refl)) (looks 0 refl)) registers

missed_sleeps : (has_unread missed.visitor ≡ true) × (is_runnable 10 missed.routine ≡ false)
unfolding asleep missed run_next write look register_notify_callback try_fetch fetch Cache.make
    Cache.store has_unread is_runnable
missed_sleeps = (refl, refl)

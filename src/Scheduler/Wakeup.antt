-- ===== src/Scheduler/Wakeup.antt =====
-- A routine of croutine/routine_factory.h that waits for one channel, the processor that runs it and
-- the threads that write to the channel and notify it (DataDispatcher::Dispatch, DataNotifier::Notify
-- and NotifyProcessor), interleaved one access of the shared fields at a time and in one order for all
-- threads. CreateTask of scheduler/scheduler.cc hands the routine to a processor first and registers
-- the callback of the notifier afterwards, as a step of its own; until then Notify skips the null
-- callback. The handler of a message runs without yielding, and the routine is not removed.
pub mod Kept
use hongwei_notebook.Common.{
  ℕ, Bool, true, false, not, ◌&&◌, List, Option, none, some, get_elem?, set, if◌then◌else◌, ◌≡◌,
}
use hongwei_notebook.Data.Cache.{store}
use hongwei_notebook.Data.Channel.{Visitor, try_fetch}
use hongwei_notebook.Croutine.{
  CRoutine, ready, data_wait, is_ready, is_waiting, release, wake, set_update_flag, yield_to,
}

-- Where the processor and the routine stand: nobody holds the routine; before test_and_set in
-- UpdateState; after it, with what it returned, negated; in the routine, before it sets its state,
-- before TryFetch, in the handler, and before the Yield that follows a failed TryFetch.
pub data Pc : Type 0 where
  parked : Pc
  held : Pc
  swapped : Bool → Pc
  resumed : Pc
  fetching : Pc
  handling : Pc
  empty : Pc

-- A writer: at rest, before the tests of the callback in Notify and of the state in NotifyProcessor,
-- before SetUpdateFlag.
pub data Writer : Type 0 where
  idle : Writer
  filled : Writer
  clearing : Writer

pub record Shared (A W : Type 0) : Type 0 where
  pub visitor : Visitor A W
  pub routine : CRoutine
  pub pc : Pc
  pub writers : List Writer
  pub registered : Bool

module _ {A W : Type 0} where
  unfoldable pub has_unread : Visitor A W → Bool
  has_unread v = elim (try_fetch v).1 [ none ↦ false | some m ↦ true ]

  -- The next access of the processor or of the routine.
  unfoldable pub proceed : Visitor A W → CRoutine → Pc → Visitor A W × CRoutine × Pc
  unfolding release wake yield_to
  proceed v c parked = if c.lock then (v, c, parked) else (v, record c { lock = true }, held)
  proceed v c held = (v, record c { updated = true }, swapped (not c.updated))
  proceed v c (swapped was_clear) =
      let c' = if was_clear && is_waiting c.state then wake c else c in
      if is_ready c'.state then (v, c', resumed) else (v, release c', parked)
  proceed v c resumed = (v, yield_to data_wait c, fetching)
  proceed v c fetching =
      let (v', got) = try_fetch v in elim got [ none ↦ (v', c, empty) | some m ↦ (v', c, handling) ]
  proceed v c handling = (v, release (yield_to ready c), parked)
  proceed v c empty = (v, release c, parked)

  unfoldable pub run_next : Shared A W → Shared A W
  unfolding proceed
  run_next s =
      let (v, c, pc) = proceed s.visitor s.routine s.pc in
      record s { visitor = v; routine = c; pc = pc }

  unfoldable pub write : ℕ → A → Shared A W → Shared A W
  write i a s = record s {
    visitor = record s.visitor { buffer = store s.visitor.buffer a };
    writers = set s.writers i filled;
  }

  unfoldable pub look : ℕ → Shared A W → Shared A W
  look i s = record s {
    writers =
        set s.writers i (if s.registered && is_waiting s.routine.state then clearing else idle);
  }

  unfoldable pub clear : ℕ → Shared A W → Shared A W
  unfolding set_update_flag
  clear i s = record s { routine = set_update_flag s.routine; writers = set s.writers i idle }

  unfoldable pub register_notify_callback : Shared A W → Shared A W
  register_notify_callback s = record s { registered = true }

  pub data Step (s : Shared A W) : Shared A W → Type 0 where
    runs : Step s (run_next s)
    writes : (i : ℕ) (a : A) → get_elem? s.writers i ≡ some idle → Step s (write i a s)
    looks : (i : ℕ) → get_elem? s.writers i ≡ some filled → Step s (look i s)
    clears : (i : ℕ) → get_elem? s.writers i ≡ some clearing → Step s (clear i s)
    registers : Step s (register_notify_callback s)

  pub data Reach (s : Shared A W) : Shared A W → Type 0 where
    here : Reach s s
    next : {t u : Shared A W} → Reach s t → Step t u → Reach s u

-- ===== src/Croutine.antt =====
-- CRoutine of IntelligentDriving/my_cyber/croutine: the state that a processor, a notifier and the
-- routine itself share. The context switch is assembly: what a routine does until it yields is an
-- argument of `resume`. Times are counts of the steady clock.
use hongwei_notebook.Common.{ℕ, ◌+◌, Bool, true, false, not, ◌&&◌, if◌then◌else◌, ltb}
use hongwei_notebook.Common.Int.{ℤ, negsuc}
use hongwei_notebook.Common.Map.{Bytes}

pub data RoutineState : Type 0 where
  ready : RoutineState
  finished : RoutineState
  sleep : RoutineState
  io_wait : RoutineState
  data_wait : RoutineState

abbrev pub is_ready : RoutineState → Bool
is_ready ready = true
is_ready _ = false

abbrev pub is_sleep : RoutineState → Bool
is_sleep sleep = true
is_sleep _ = false

-- The test `state == DATA_WAIT || state == IO_WAIT`, which the schedulers make too.
abbrev pub is_waiting : RoutineState → Bool
is_waiting data_wait = true
is_waiting io_wait = true
is_waiting _ = false

-- `lock` and `updated` are true while their std::atomic_flag is set.
pub record CRoutine : Type 0 where
  pub id : ℕ
  pub name : Bytes
  pub group_name : Bytes
  pub priority : ℕ
  pub processor_id : ℤ
  pub state : RoutineState
  pub wake_time : ℕ
  pub lock : Bool
  pub updated : Bool
  pub force_stop : Bool

-- The constructor at the time `now`, with the setters that CreateTask calls.
unfoldable pub make : ℕ → ℕ → Bytes → Bytes → CRoutine
make now id name no_group = record {
  id = id;
  name = name;
  group_name = no_group;
  priority = 0;
  processor_id = negsuc 0;
  state = ready;
  wake_time = now;
  lock = false;
  updated = true;
  force_stop = false;
}

-- The flag afterwards is set; the result is true where it was clear before.
unfoldable pub acquire : CRoutine → CRoutine × Bool
acquire c = (record c { lock = true }, not c.lock)

unfoldable pub release : CRoutine → CRoutine
release c = record c { lock = false }

unfoldable pub set_update_flag : CRoutine → CRoutine
set_update_flag c = record c { updated = false }

unfoldable pub stop : CRoutine → CRoutine
stop c = record c { force_stop = true }

unfoldable pub wake : CRoutine → CRoutine
wake c = record c { state = ready }

-- What Yield(state), HangUp and Sleep leave behind when the stack is swapped.
unfoldable pub yield_to : RoutineState → CRoutine → CRoutine
yield_to state c = record c { state = state }

unfoldable pub hang_up : CRoutine → CRoutine
unfolding yield_to
hang_up c = yield_to data_wait c

unfoldable pub sleep_for : ℕ → ℕ → CRoutine → CRoutine
unfolding yield_to
sleep_for now duration c = yield_to sleep (record c { wake_time = now + duration })

-- The result of the source is the state that it leaves behind.
unfoldable pub update_state : ℕ → CRoutine → CRoutine
update_state now c =
    if is_sleep c.state && ltb c.wake_time now
    then record c { state = ready }
    else if not c.updated && is_waiting c.state
    then record c { state = ready; updated = true }
    else record c { updated = true }

unfoldable pub resume : (CRoutine → CRoutine) → CRoutine → CRoutine
resume run c =
    if c.force_stop
    then record c { state = finished }
    else if not (is_ready c.state)
    then c
    else run c

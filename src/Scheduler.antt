-- ===== src/Scheduler.antt =====
-- The scheduler of IntelligentDriving/my_cyber/scheduler. A std::shared_ptr to a routine is the
-- routine's index in the heap, so that the map by identifier and the queues share it.
pub mod Runnable
pub mod Classic
pub mod Wakeup
pub mod Choreography
use hongwei_notebook.Common.{
  ℕ, Bool, true, false, not, List, [], ◌∷◌, Option, none, some, get_elem?, set, if◌then◌else◌, ◌==◌,
}
use hongwei_notebook.Croutine.{CRoutine, is_ready, acquire, release, stop, update_state}

abbrev pub max_prio : ℕ
max_prio = 20

abbrev pub Heap : Type 0
Heap = List CRoutine

-- How a call ends: std::array::at throws on a priority out of range, and RemoveCRoutine spins, with
-- the heap that others see, while another thread holds the routine.
pub data Outcome (A : Type 0) : Type 0 where
  throws : Outcome A
  spins : Heap → Outcome A
  returns : A → Outcome A

-- The body of the loops of NextRoutine: the routine afterwards, and whether it is the result.
unfoldable pub examine : ℕ → CRoutine → CRoutine × Bool
unfolding acquire release update_state
examine now c =
    let (held, got) = acquire c in
    let updated = update_state now held in
    if not got
    then (held, false)
    else if is_ready updated.state
    then (updated, true)
    else (release updated, false)

-- One queue. The clock is read once for each routine, at the time `clock` gives for its index.
unfoldable pub scan : (ℕ → ℕ) → Heap → List ℕ → Heap × Option ℕ
unfolding examine
scan clock heap [] = (heap, none)
scan clock heap (cr ∷ crs) = elim (get_elem? heap cr) [
  | none ↦ scan clock heap crs
  | some c ↦
      let (c', picked) = examine (clock cr) c in
      elim picked [ true ↦ (set heap cr c', some cr) | false ↦ scan clock (set heap cr c') crs ]
]

-- What a heap holds at an index, changed by a member function.
unfoldable pub modify : (CRoutine → CRoutine) → ℕ → Heap → Heap
modify f cr heap = elim (get_elem? heap cr) [ none ↦ heap | some c ↦ set heap cr (f c) ]

module _ {E : Type 0} where
  abbrev pub keep : E → Outcome (Heap × List E × Bool) → Outcome (Heap × List E × Bool)
  keep e throws = throws
  keep e (spins h) = spins h
  keep e (returns (h, q, found)) = returns (h, e ∷ q, found)

  -- The loops of the two RemoveCRoutine, over a queue whose entries name a routine: the first routine
  -- with that identifier is stopped, waited for, taken out of the queue and released.
  unfoldable pub remove_from : (E → ℕ) → Heap → List E → ℕ → Outcome (Heap × List E × Bool)
  unfolding acquire release stop
  remove_from cr_of heap [] crid = returns (heap, [], false)
  remove_from cr_of heap (e ∷ es) crid =
      let rest = remove_from cr_of heap es crid in
      elim (get_elem? heap (cr_of e)) [
        | none ↦ keep e rest
        | some c ↦
            let (held, got) = acquire (stop c) in
            if not (c.id == crid)
            then keep e rest
            else if got
            then returns (set heap (cr_of e) (release held), es, true)
            else spins (set heap (cr_of e) held)
      ]

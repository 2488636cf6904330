-- ===== src/Base/Signal.antt =====
-- Signal, Slot and Connection of IntelligentDriving/my_cyber/base/signal.h. A shared pointer to a slot
-- is its number, in the order in which a signal makes them. A call is one step: the callbacks that an
-- emission runs are its result, and are taken not to change the signal that runs them.
use hongwei_notebook.Common.{
  ℕ, ◌+◌, Bool, true, false, List, [], ◌∷◌, ◌++◌, ◌==◌, ◌||◌, if◌then◌else◌,
}

-- L is a callback.
pub record Slot (L : Type 0) : Type 0 where
  pub pointer : ℕ
  pub cb : L
  pub connected : Bool

-- `next` is the pointer of the next slot.
pub record Signal (L : Type 0) : Type 0 where
  pub slots : List (Slot L)
  pub next : ℕ

-- The slot that a connection holds.
abbrev pub Connection : Type 0
Connection = ℕ

module _ {L : Type 0} where
  unfoldable pub make : Signal L
  make = record { slots = []; next = 0 }

  unfoldable pub remove_disconnected : List (Slot L) → List (Slot L)
  remove_disconnected [] = []
  remove_disconnected (s ∷ ss) =
      if s.connected then s ∷ remove_disconnected ss else remove_disconnected ss

  unfoldable pub clear_disconnected_slots : Signal L → Signal L
  unfolding remove_disconnected
  clear_disconnected_slots s = record s { slots = remove_disconnected s.slots }

  -- The callbacks that the slots of a copy of the list run.
  unfoldable pub run_slots : List (Slot L) → List L
  run_slots [] = []
  run_slots (s ∷ ss) = if s.connected then s.cb ∷ run_slots ss else run_slots ss

  -- operator()
  unfoldable pub emit : Signal L → Signal L × List L
  unfolding run_slots clear_disconnected_slots
  emit s = (clear_disconnected_slots s, run_slots s.slots)

  unfoldable pub connect : Signal L → L → Signal L × Connection
  connect s cb = (
    record {
      slots = s.slots ++ (record { pointer = s.next; cb = cb; connected = true } ∷ []);
      next = s.next + 1;
    },
    s.next,
  )

  -- The loop of Disconnect, and whether it found the slot.
  unfoldable pub disconnect_slot : Connection → List (Slot L) → List (Slot L)
  disconnect_slot conn [] = []
  disconnect_slot conn (s ∷ ss) =
      (if s.pointer == conn then record s { connected = false } else s) ∷ disconnect_slot conn ss

  unfoldable pub has_slot : Connection → List (Slot L) → Bool
  has_slot conn [] = false
  has_slot conn (s ∷ ss) = s.pointer == conn || has_slot conn ss

  unfoldable pub disconnect : Signal L → Connection → Signal L × Bool
  unfolding disconnect_slot has_slot clear_disconnected_slots
  disconnect s conn =
      if has_slot conn s.slots
      then (clear_disconnected_slots (record s { slots = disconnect_slot conn s.slots }), true)
      else (s, false)

  unfoldable pub disconnect_all_slots : Signal L → Signal L
  disconnect_all_slots s = record s { slots = [] }

  -- A slot that has left the list is disconnected.
  unfoldable pub is_connected_in : Connection → List (Slot L) → Bool
  is_connected_in conn [] = false
  is_connected_in conn (s ∷ ss) = if s.pointer == conn then s.connected else is_connected_in conn ss

  unfoldable pub is_connected : Signal L → Connection → Bool
  unfolding is_connected_in
  is_connected s conn = is_connected_in conn s.slots

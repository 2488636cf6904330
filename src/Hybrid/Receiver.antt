-- ===== src/Hybrid/Receiver.antt =====
-- HybridReceiver of transport/receiver/hybrid_receiver.h. What it makes its low-level receivers do is
-- its result; `hears_history` starts the thread that receives the history of a transmitter.
pub mod Calls
pub mod Hears
pub mod Heard
use hongwei_notebook.Common.{
  ℕ, Bool, true, false, not, ◌||◌, List, [], ◌∷◌, ◌++◌, Option, none, some, if◌then◌else◌,
}
use hongwei_notebook.Common.Map.{Bytes, nat_eq, has, insert, erase}
use hongwei_notebook.Hybrid.{
  OptionalMode, hybrid, intra, shm, rtps, mode_beq, CommunicationMode, obtain_config, EndAttributes,
  route, at_mode, history_channel,
}

-- The low-level receivers are those of the modes of the configuration, each mode once.
pub record HybridReceiver : Type 0 where
  pub attr : EndAttributes
  pub receivers : List OptionalMode
  pub transmitters : OptionalMode → List (ℕ × EndAttributes)
  pub mode : CommunicationMode

pub data Low : Type 0 where
  low_enable : OptionalMode → Low
  low_disable : OptionalMode → Low
  low_enable_to : OptionalMode → EndAttributes → Low
  low_disable_from : OptionalMode → EndAttributes → Low
  hears_history : Bytes → Low

-- std::set of the three modes, in the order of their numbers.
unfoldable pub modes_of : CommunicationMode → List OptionalMode → List OptionalMode
modes_of mode [] = []
modes_of mode (m ∷ ms) =
    if mode_beq mode.same_proc m || (mode_beq mode.diff_proc m || mode_beq mode.diff_host m)
    then m ∷ modes_of mode ms
    else modes_of mode ms

unfoldable pub make : Option (Option CommunicationMode) → EndAttributes → HybridReceiver
unfolding obtain_config modes_of
make conf attr =
    let mode = obtain_config conf in
    record {
      attr = attr;
      receivers = modes_of mode (hybrid ∷ intra ∷ shm ∷ rtps ∷ []);
      transmitters = λ m. [];
      mode = mode;
    }

unfoldable pub enable_each : List OptionalMode → List Low
enable_each [] = []
enable_each (m ∷ ms) = low_enable m ∷ enable_each ms

unfoldable pub disable_each : List OptionalMode → List Low
disable_each [] = []
disable_each (m ∷ ms) = low_disable m ∷ disable_each ms

-- Enable() and Disable().
unfoldable pub enable_all : HybridReceiver → List Low
unfolding enable_each
enable_all r = enable_each r.receivers

unfoldable pub disable_all : HybridReceiver → List Low
unfolding disable_each
disable_all r = disable_each r.receivers

unfoldable pub receive_history : HybridReceiver → EndAttributes → List Low
unfolding history_channel
receive_history r opposite =
    if opposite.transient_local
    then hears_history (history_channel opposite.id r.attr.id) ∷ []
    else []

-- Enable(opposite_attr)
unfoldable pub enable : HybridReceiver → EndAttributes → HybridReceiver × List Low
unfolding receive_history
enable r opposite = elim (route r.mode r.attr opposite) [
  | none ↦ (r, [])
  | some m ↦ if has opposite.id (r.transmitters m) then (r, []) else (
    record r {
      transmitters = at_mode r.transmitters m (insert opposite.id opposite (r.transmitters m));
    },
    low_enable_to m opposite ∷ receive_history r opposite,
  )
]

-- Disable(opposite_attr)
unfoldable pub disable : HybridReceiver → EndAttributes → HybridReceiver × List Low
disable r opposite = elim (route r.mode r.attr opposite) [
  | none ↦ (r, [])
  | some m ↦
      if has opposite.id (r.transmitters m)
      then (
        record r { transmitters = at_mode r.transmitters m (erase opposite.id (r.transmitters m)) },
        low_disable_from m opposite ∷ [],
      )
      else (r, [])
]

unfoldable pub leave_each : OptionalMode → List (ℕ × EndAttributes) → List Low
leave_each m [] = []
leave_each m ((id, opposite) ∷ rest) = low_disable_from m opposite ∷ leave_each m rest

-- ClearTransmitters, which the destructor calls.
unfoldable pub clear_transmitters : HybridReceiver → HybridReceiver × List Low
unfolding leave_each
clear_transmitters r = (
  record r { transmitters = λ m. [] },
  leave_each hybrid (r.transmitters hybrid)
      ++ (leave_each intra (r.transmitters intra)
          ++ (leave_each shm (r.transmitters shm) ++ leave_each rtps (r.transmitters rtps))),
)

-- ===== src/Hybrid/Transmitter.antt =====
-- HybridTransmitter of transport/transmitter/hybrid_transmitter.h. A low-level transmitter is whether it
-- is enabled: an enabled one sends, and the other refuses. A call is one step; the thread that sends the
-- history to a late reader is its list of messages.
pub mod Calls
pub mod Reaches
pub mod Late
use hongwei_notebook.Common.{
  ℕ, Bool, true, false, not, ◌&&◌, ◌||◌, List, [], ◌∷◌, ◌++◌, Option, none, some, ◌==◌,
  if◌then◌else◌,
}
use hongwei_notebook.Common.Map.{Bytes}
use hongwei_notebook.History
use hongwei_notebook.History.{History}
use hongwei_notebook.Hybrid.{
  OptionalMode, hybrid, intra, shm, rtps, mode_beq, CommunicationMode, obtain_config, EndAttributes,
  route, at_mode, history_channel,
}

-- A is a message with its MessageInfo. A mode that is in use has a transmitter; `receivers` are sets.
pub record HybridTransmitter (A : Type 0) : Type 0 where
  pub attr : EndAttributes
  pub history : History A
  pub transmitters : OptionalMode → Option Bool
  pub receivers : OptionalMode → List ℕ
  pub mode : CommunicationMode

-- What leaves the transmitter: a message by a mode, and a list of messages on the channel of a late
-- reader.
pub data Sent (A : Type 0) : Type 0 where
  sent : OptionalMode → A → Sent A
  sent_history : Bytes → List A → Sent A

-- std::set insert, erase and empty.
unfoldable pub member : ℕ → List ℕ → Bool
member k [] = false
member k (x ∷ xs) = x == k || member k xs

unfoldable pub set_insert : ℕ → List ℕ → List ℕ
unfolding member
set_insert k xs = if member k xs then xs else k ∷ xs

unfoldable pub set_erase : ℕ → List ℕ → List ℕ
set_erase k [] = []
set_erase k (x ∷ xs) = if x == k then set_erase k xs else x ∷ set_erase k xs

abbrev pub is_empty : {X : Type 0} → List X → Bool
is_empty [] = true
is_empty (x ∷ xs) = false

-- The modes of the set of InitTransmitters.
unfoldable pub in_use : CommunicationMode → OptionalMode → Bool
in_use mode m =
    mode_beq mode.same_proc m || (mode_beq mode.diff_proc m || mode_beq mode.diff_host m)

abbrev pub is_enabled : Option Bool → Bool
is_enabled none = false
is_enabled (some b) = b

-- Enable() and Disable() of a transmitter that is there.
abbrev pub switch : Bool → Option Bool → Option Bool
switch on none = none
switch on (some b) = some on

module _ {A : Type 0} where
  -- InitHistory; `configured` is the limit of the global configuration.
  unfoldable pub init_history : Option ℕ → EndAttributes → History A
  unfolding History.make History.enable
  init_history configured attr =
      let h = History.make configured attr.history in
      if attr.transient_local then History.enable h else h

  unfoldable pub make :
      Option ℕ → Option (Option CommunicationMode) → EndAttributes → HybridTransmitter A
  unfolding init_history obtain_config in_use
  make configured conf attr =
      let mode = obtain_config conf in
      record {
        attr = attr;
        history = init_history configured attr;
        transmitters = λ m. if in_use mode m then some false else none;
        receivers = λ m. [];
        mode = mode;
      }

  unfoldable pub enable_all : HybridTransmitter A → HybridTransmitter A
  enable_all t = record t { transmitters = λ m. switch true (t.transmitters m) }

  unfoldable pub disable_all : HybridTransmitter A → HybridTransmitter A
  disable_all t = record t { transmitters = λ m. switch false (t.transmitters m) }

  unfoldable pub transmit_history : HybridTransmitter A → EndAttributes → List (Sent A)
  unfolding History.get_cached_message
  transmit_history t opposite =
      let unsent = History.get_cached_message t.history [] in
      if not t.attr.transient_local
      then []
      else if is_empty unsent
      then []
      else sent_history (history_channel t.attr.id opposite.id) unsent ∷ []

  -- Enable(opposite_attr)
  unfoldable pub enable : HybridTransmitter A → EndAttributes → HybridTransmitter A × List (Sent A)
  unfolding set_insert transmit_history
  enable t opposite = elim (route t.mode t.attr opposite) [
    | none ↦ (t, [])
    | some m ↦
        let t' = record t {
          receivers = at_mode t.receivers m (set_insert opposite.id (t.receivers m));
          transmitters = at_mode t.transmitters m (switch true (t.transmitters m));
        } in
        (t', transmit_history t' opposite)
  ]

  -- Disable(opposite_attr)
  unfoldable pub disable : HybridTransmitter A → EndAttributes → HybridTransmitter A
  unfolding set_erase
  disable t opposite = elim (route t.mode t.attr opposite) [
    | none ↦ t
    | some m ↦
        let left = set_erase opposite.id (t.receivers m) in
        record t {
          receivers = at_mode t.receivers m left;
          transmitters =
              if is_empty left
              then at_mode t.transmitters m (switch false (t.transmitters m))
              else t.transmitters;
        }
  ]

  unfoldable pub by_mode : HybridTransmitter A → A → OptionalMode → List (Sent A)
  by_mode t msg m = if is_enabled (t.transmitters m) then sent m msg ∷ [] else []

  -- Transmit, which says true whatever the low-level transmitters say.
  unfoldable pub transmit : HybridTransmitter A → A → HybridTransmitter A × List (Sent A)
  unfolding by_mode History.add
  transmit t msg = (
    record t { history = History.add t.history msg },
    by_mode t msg hybrid ++ (by_mode t msg intra ++ (by_mode t msg shm ++ by_mode t msg rtps)),
  )

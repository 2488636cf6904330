-- ===== src/Dispatch/Handler.antt =====
-- ListenerHandler of transport/message/listener_handler.h: the listeners of one channel in a process,
-- for every message, or for those of one sender. A call is one step.
pub mod Listeners
pub mod Ports
pub mod Serves
pub mod Keeps
pub mod Refined
pub mod Delivers
use hongwei_notebook.Common.{
  ℕ, Bool, true, false, List, [], ◌∷◌, ◌++◌, Option, none, some, if◌then◌else◌,
}
use hongwei_notebook.Common.Map.{nat_eq, lookup, insert, erase}
use hongwei_notebook.Base.Signal
use hongwei_notebook.Base.Signal.{Signal, Connection}

abbrev pub ConnectionMap : Type 0
ConnectionMap = List (ℕ × Connection)

-- `signal_conns` is by self_id, and `signals` and `signals_conns` by oppo_id.
pub record ListenerHandler (L : Type 0) : Type 0 where
  pub signal : Signal L
  pub signal_conns : ConnectionMap
  pub signals : List (ℕ × Signal L)
  pub signals_conns : List (ℕ × ConnectionMap)

-- The connections of a sender, or none.
abbrev pub conns_of : Option ConnectionMap → ConnectionMap
conns_of none = []
conns_of (some c) = c

module _ {L : Type 0} where
  unfoldable pub make : ListenerHandler L
  make = record { signal = Signal.make; signal_conns = []; signals = []; signals_conns = [] }

  -- The signal of a sender, or a new one.
  abbrev pub signal_of : Option (Signal L) → Signal L
  signal_of none = Signal.make
  signal_of (some s) = s

  -- Connect(self_id, listener)
  unfoldable pub connect : ListenerHandler L → ℕ → L → ListenerHandler L
  connect h self_id listener =
      let (s, conn) = Signal.connect h.signal listener in
      if Signal.is_connected s conn
      then record h { signal = s; signal_conns = insert self_id conn h.signal_conns }
      else record h { signal = s }

  -- Connect(self_id, oppo_id, listener)
  unfoldable pub connect_to : ListenerHandler L → ℕ → ℕ → L → ListenerHandler L
  connect_to h self_id oppo_id listener =
      let (s, conn) = Signal.connect (signal_of (lookup oppo_id h.signals)) listener in
      let h' = record h { signals = insert oppo_id s h.signals } in
      let conns = conns_of (lookup oppo_id h.signals_conns) in
      if Signal.is_connected s conn
      then record h' { signals_conns = insert oppo_id (insert self_id conn conns) h.signals_conns }
      else h'

  -- Disconnect(self_id)
  unfoldable pub disconnect : ListenerHandler L → ℕ → ListenerHandler L
  disconnect h self_id = elim (lookup self_id h.signal_conns) [
    | none ↦ h
    | some conn ↦ record h {
      signal = (Signal.disconnect h.signal conn).0;
      signal_conns = erase self_id h.signal_conns;
    }
  ]

  -- Disconnect(self_id, oppo_id). A connection knows its signal, which is that of oppo_id.
  unfoldable pub disconnect_from : ListenerHandler L → ℕ → ℕ → ListenerHandler L
  disconnect_from h self_id oppo_id = elim (lookup oppo_id h.signals_conns) [
    | none ↦ h
    | some conns ↦ elim (lookup self_id conns) [
      | none ↦ h
      | some conn ↦ record h {
        signals =
            insert oppo_id (Signal.disconnect (signal_of (lookup oppo_id h.signals)) conn).0
              h.signals;
        signals_conns = insert oppo_id (erase self_id conns) h.signals_conns;
      }
    ]
  ]

  -- Run, with the hash value of the sender; the listeners that run, in order.
  unfoldable pub run : ListenerHandler L → ℕ → ListenerHandler L × List L
  run h oppo_id =
      let (s, first) = Signal.emit h.signal in
      let h' = record h { signal = s } in
      elim (lookup oppo_id h.signals) [
        | none ↦ (h', first)
        | some s' ↦
            let (s'', then_run) = Signal.emit s' in
            (record h' { signals = insert oppo_id s'' h.signals }, first ++ then_run)
      ]

  -- RunFromString; `none` is a text that does not parse.
  unfoldable pub run_from_string :
      {M : Type 0} → ListenerHandler L → Option M → ℕ → ListenerHandler L × List L
  run_from_string h none oppo_id = (h, [])
  run_from_string h (some msg) oppo_id = run h oppo_id

-- ===== src/Dispatch/Handler/Serves.antt =====
-- Connecting, disconnecting and emitting on a signal whose connections are kept by key.
use hongwei_notebook.Common.{ℕ, ◌≡◌, refl, true, List, [], ◌∷◌, ◌++◌, none, some}
use hongwei_notebook.Common.Map.{nat_eq, lookup, insert, erase}
use hongwei_notebook.Base.Signal
use hongwei_notebook.Base.Signal.{
  Signal, Connection, remove_disconnected, disconnect_slot, has_slot,
}
use hongwei_notebook.Dispatch.Handler.{ConnectionMap}
use hongwei_notebook.Dispatch.Handler.Ports.{
  Port, Serves, keys_of, values, listed, without, slots_of-append, keys_of-append, Below-append,
  Apart-append, insert_new, connected_last, erase-keys_of, Below-without, Apart-without,
  slot_of_key, disconnects, run_slots-slots_of, remove_disconnected-slots_of,
}

module _ {L : Type 0} where
  abbrev pub port : Signal L → ℕ → L → Port L
  port s k l = record { key = k; pointer = s.next; cb = l }

  pub connect-Serves :
      (ps : List (Port L)) (s : Signal L) (c : ConnectionMap) (k : ℕ) (l : L)
      → Serves ps s c
      → lookup k (keys_of ps) ≡ none
      → Serves (ps ++ (port s k l ∷ [])) (Signal.connect s l).0 (insert k (Signal.connect s l).1 c)
  unfolding Signal.connect
  connect-Serves ps s c k l v new = record {
    slots = rw (v.slots, slots_of-append ps (port s k l ∷ [])) refl;
    conns = rw (v.conns, insert_new k s.next ps new, keys_of-append ps (port s k l ∷ [])) refl;
    below = Below-append s.next ps (port s k l) v.below refl;
    apart = Apart-append s.next ps (port s k l) v.apart v.below refl new;
  }

  pub connect-is_connected :
      (ps : List (Port L)) (s : Signal L) (c : ConnectionMap) (l : L)
      → Serves ps s c
      → Signal.is_connected (Signal.connect s l).0 (Signal.connect s l).1 ≡ true
  unfolding Signal.connect Signal.is_connected
  connect-is_connected ps s c l v = rw v.slots (connected_last s.next l ps v.below)

  pub disconnect-Serves :
      (ps : List (Port L)) (s : Signal L) (c : ConnectionMap) (k conn : ℕ)
      → Serves ps s c
      → lookup k (keys_of ps) ≡ some conn
      → Serves (without k ps) (Signal.disconnect s conn).0 (erase k c)
  unfolding Signal.disconnect
  disconnect-Serves ps s c k conn v e =
      let found : has_slot conn s.slots ≡ true = rw v.slots (slot_of_key k conn ps e) in
      record {
        slots = rw (found, v.slots) (disconnects k conn ps v.apart e);
        conns = rw v.conns (erase-keys_of k ps);
        below = rw found (Below-without s.next k ps v.below);
        apart = Apart-without k ps v.apart;
      }

  pub emit-Serves :
      (ps : List (Port L)) (s : Signal L) (c : ConnectionMap)
      → Serves ps s c
      → (Serves ps (Signal.emit s).0 c) × ((Signal.emit s).1 ≡ values (listed ps))
  unfolding Signal.emit
  emit-Serves ps s c v = (
    record {
      slots = rw v.slots (remove_disconnected-slots_of ps);
      conns = v.conns;
      below = v.below;
      apart = v.apart;
    },
    rw v.slots (run_slots-slots_of ps),
  )

  pub make-Serves : Serves {L = L} [] Signal.make []
  unfolding Signal.make
  make-Serves = record { slots = refl; conns = refl; below = tt; apart = tt }

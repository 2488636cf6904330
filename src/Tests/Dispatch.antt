-- ===== src/Tests/Dispatch.antt =====
-- Signals, listener handlers and dispatchers at concrete inputs: listeners are numbers.
use hongwei_notebook.Common.{ℕ, ◌≡◌, refl, Bool, true, List, [], ◌∷◌, some, arith}
use hongwei_notebook.Common.Map.{Bytes, lookup, insert, erase}
use hongwei_notebook.Base.Signal
use hongwei_notebook.Base.Signal.{
  Signal, connect, emit, disconnect, disconnect_all_slots, is_connected, remove_disconnected,
  run_slots, disconnect_slot, has_slot, is_connected_in,
}
use hongwei_notebook.Dispatch.Handler
use hongwei_notebook.Dispatch.Handler.{ListenerHandler, run}
use hongwei_notebook.Dispatch.Handler.Listeners.{
  Call, connects, connects_to, disconnects, disconnects_from, runs, call, call_all,
}
use hongwei_notebook.Dispatch.Handler.Delivers.{call_all-run}
use hongwei_notebook.Dispatch.Chain.{Message}
use hongwei_notebook.Dispatch.Intra
use hongwei_notebook.Dispatch.Intra.{IntraDispatcher, add_listener, remove_listener, on_message}
use hongwei_notebook.Dispatch.Intra.Shared.{remove_listener-starves}

abbrev some_calls : List (Call ℕ)
some_calls =
    connects 1 10
    ∷ connects_to 2 7 20
    ∷ connects 3 30
    ∷ runs 7
    ∷ disconnects 1
    ∷ connects_to 4 7 40
    ∷ disconnects_from 2 8
    ∷ connects 1 11
    ∷ []

call_all-run_example : (run (call_all Handler.make some_calls) 7).1 ≡ 30 ∷ 11 ∷ 20 ∷ 40 ∷ []
unfolding lookup erase
call_all-run_example =
    call_all-run some_calls 7 (refl, (refl, (refl, (tt, (tt, (refl, (tt, (refl, tt))))))))

run_other_sender : (run (call_all Handler.make some_calls) 8).1 ≡ 30 ∷ 11 ∷ []
unfolding call_all call run Handler.make Handler.connect Handler.connect_to Handler.disconnect
    Handler.disconnect_from connect emit disconnect run_slots remove_disconnected disconnect_slot
    has_slot is_connected_in is_connected lookup Signal.make insert
run_other_sender = refl

abbrev parses : Bytes → Bytes → Bool
parses type bytes = true

abbrev position : Message
position = record { message_type = 112 ∷ []; bytes = some (5 ∷ 6 ∷ []) }

remove_listener-starves_example :
    let both : IntraDispatcher ℕ =
      add_listener (add_listener Intra.make (112 ∷ []) 9 1 10) (112 ∷ []) 9 2 20 in
    ((on_message parses both 9 position 77).1 ≡ 10 ∷ 20 ∷ [])
    × ((on_message parses (remove_listener both (112 ∷ []) 9 1) 9 position 77).1 ≡ [])
remove_listener-starves_example =
    remove_listener-starves parses 9 1 2 1 77 position 10 20 (ground arith)

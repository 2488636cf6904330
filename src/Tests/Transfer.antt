-- ===== src/Tests/Transfer.antt =====
-- A message through shared memory at concrete inputs.
use hongwei_notebook.Common.{ℕ, true, false, [], ◌∷◌, none, some, ◌≡◌, refl, arith, replicate}
use hongwei_notebook.Common.Map.{Bytes, nat_eq, lookup, insert}
use hongwei_notebook.Base.Signal
use hongwei_notebook.Dispatch
use hongwei_notebook.Dispatch.Handler
use hongwei_notebook.Dispatch.Receivers.{on_message}
use hongwei_notebook.Shm.Conf.{update, message_size_16k, message_size_more}
use hongwei_notebook.Shm.Block.{rw_lock_free, write_exclusive}
use hongwei_notebook.Shm.Memory.{increase_reference_counts, new_state}
use hongwei_notebook.Shm.Segment.{Segment, unmapped, attach}
use hongwei_notebook.Shm.Segment.Opened.{IsOpen, attach-IsOpen}
use hongwei_notebook.Shm.Notifier.{Indicator}
use hongwei_notebook.Shm.Notifier.Log.{Logs}
use hongwei_notebook.Shm.Dispatcher.{ShmDispatcher, readable_block, adapt}
use hongwei_notebook.Shm.Transmitter.{ShmTransmitter, transmit}
use hongwei_notebook.Shm.Transfer.Announces.{Announces, transmit-Announces}
use hongwei_notebook.Shm.Transfer.Sends.{HasRoom}
use hongwei_notebook.Shm.Transfer.Arrives.{Arrives, transmit-Arrives}
use hongwei_notebook.Tests.Memory.{World, extent, system, memory, same}
use hongwei_notebook.Wire.{Identity}
use hongwei_notebook.Wire.Info.{MessageInfo}

-- The first of the eight blocks is being written.
abbrev before : World
before = record {
  region = record {
    state = record (new_state message_size_more) { seq = 7 };
    locks = write_exclusive ∷ replicate 7 rw_lock_free;
  };
  sizes = λ _. record { msg_size = 0; msg_info_size = 0 };
  bytes = λ _. 0;
}

abbrev closed : Segment
closed = record {
  init = false;
  conf = update message_size_16k;
  shm_name = 57 ∷ [];
  state = none;
  managed_shm = unmapped;
  block_buf_addrs = [];
}

abbrev opened : Segment
opened = (attach system closed 0 before).1

abbrev joined : Segment
joined = (attach system closed extent (attach system closed 0 before).2).1

abbrev world : World
world = (attach system closed extent (attach system closed 0 before).2).2

opened-IsOpen : IsOpen system opened world 0
unfolding attach increase_reference_counts update
opened-IsOpen =
    let o = attach-IsOpen system closed 0 before in
    record {
      started = o.started;
      at_region = o.at_region;
      at_map = o.at_map;
      layout = refl;
      bufs = o.bufs;
    }

room : HasRoom system (λ _. extent) opened 0
unfolding attach update
room = record { state_fits = omega arith; block_fits = omega arith; mapped_whole = omega arith }

room' : HasRoom system (λ _. extent) joined extent
unfolding attach update
room' = record { state_fits = omega arith; block_fits = omega arith; mapped_whole = omega arith }

abbrev hash : Bytes → ℕ
hash [] = 0
hash (b ∷ bs) = b

abbrev identity : Identity
identity = record { content = 7 ∷ 0 ∷ 0 ∷ 0 ∷ 0 ∷ 0 ∷ 0 ∷ 1 ∷ []; hash_value = 7 }

abbrev info : MessageInfo
info = record { sender_id = identity; channel_id = 9; seq_num = 300; spare_id = identity }

abbrev dispatcher : ShmDispatcher ℕ
dispatcher = record {
  dispatcher = Dispatch.add_listener Dispatch.make readable_block 9 1 10;
  host_id = 4;
  segments = (9, joined) ∷ [];
  previous_indexes = [];
}

abbrev quiet : Indicator
quiet = record {
  next_seq = 0;
  infos = λ _. record { host_id = 0; block_index = 0; channel_id = 0 };
  seqs = λ _. 0;
}

abbrev transmitter : ShmTransmitter
transmitter = record { enabled = true; segment = some opened; channel_id = 9; host_id = 4 }

quiet-Logs : Logs quiet []
quiet-Logs = record {
  counted = refl;
  numbers = λ i lt near. absurd (omega arith);
  infos = λ i lt near. absurd (omega arith);
}

-- Channel 9 of host 4.
transmit-Arrives_example :
    Arrives system memory hash
      (λ _ _. true)
      opened
      joined
      world
      0
      9
      4
      0
      (λ _. false)
      (104 ∷ 105 ∷ [])
      info
      quiet
      dispatcher
unfolding attach increase_reference_counts update lookup
transmit-Arrives_example =
    transmit-Arrives system memory hash (λ _ _. true) opened joined world 0 extent 9 4 3
      (λ _. false) (104 ∷ 105 ∷ []) info quiet [] dispatcher opened-IsOpen
      (attach-IsOpen system closed extent (attach system closed 0 before).2) same room room' refl
      (omega arith) refl refl (λ _. refl) refl refl (omega arith) quiet-Logs (omega arith) refl refl

-- The listener that runs for it.
heard :
    adapt (λ _ _. true) (on_message dispatcher.dispatcher 9 7).1 (104 ∷ 105 ∷ []) info
    ≡ record { listener = 10; msg = 104 ∷ 105 ∷ []; info = info } ∷ []
unfolding adapt on_message Dispatch.add_listener Dispatch.make lookup insert Handler.run
    Handler.connect Handler.make Signal.make Signal.is_connected Signal.connect Signal.emit
heard = refl

-- A message that cannot be serialised.
transmit-Announces_example :
    Announces transmitter quiet
      (transmit system memory 8 (λ _. false) transmitter 2 none info world false quiet)
transmit-Announces_example =
    transmit-Announces system memory 8 (λ _. false) transmitter 2 none info world quiet false

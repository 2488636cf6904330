-- ===== src/Tests/Hybrid.antt =====
-- The hybrid ends at concrete inputs: a transmitter in process 1 of a host, and receivers of its
-- channel in the same process, in another one and on another host.
use hongwei_notebook.Common.{ℕ, ◌≡◌, refl, true, false, List, [], ◌∷◌, none, ◌↔◌}
use hongwei_notebook.Common.Int.{pos}
use hongwei_notebook.Common.Map.{bytes_beq}
use hongwei_notebook.History
use hongwei_notebook.History.{keep_last}
use hongwei_notebook.Hybrid.{
  EndAttributes, history_channel, to_string, digits, mapping_table, get_relation, obtain_config,
  shm, rtps, default_mode,
}
use hongwei_notebook.Hybrid.Transmitter
use hongwei_notebook.Hybrid.Transmitter.{Sent, sent, sent_history, transmit, enable}
use hongwei_notebook.Hybrid.Transmitter.Reaches.{sends, transmit_iff}
use hongwei_notebook.Hybrid.Transmitter.Late.{enable-late}
use hongwei_notebook.Hybrid.Receiver
use hongwei_notebook.Hybrid.Receiver.Calls
use hongwei_notebook.Hybrid.Receiver.Heard.{enable-on_message}
use hongwei_notebook.Hybrid.Receiver.Hears.{plain_shm, call_all}
use hongwei_notebook.Dispatch
use hongwei_notebook.Dispatch.Receivers.{Receiver, on_message}

abbrev end_of : ℕ → ℕ → ℕ → EndAttributes
end_of host process id = record {
  channel_name = 99 ∷ [];
  host_ip = host ∷ [];
  process_id = pos process;
  id = id;
  transient_local = true;
  history = record { history_policy = keep_last; depth = 2 };
}

abbrev own : EndAttributes
own = end_of 1 1 5

abbrev some_calls : List (Transmitter.Calls.Call ℕ)
some_calls =
    Transmitter.Calls.enables (end_of 1 1 6)
    ∷ Transmitter.Calls.transmits 71
    ∷ Transmitter.Calls.enables (end_of 1 2 7)
    ∷ Transmitter.Calls.transmits 72
    ∷ Transmitter.Calls.disables (end_of 1 1 6)
    ∷ Transmitter.Calls.transmits 73
    ∷ []

-- A message goes by shared memory: there is a receiver in another process, and none in this one.
transmit_iff_example :
    (sends shm
        (transmit (Transmitter.Calls.call_all (Transmitter.make none none own) some_calls) 74).1
      ≡ true)
    ↔ ((id : ℕ) × (Transmitter.Calls.is_live default_mode own shm id false some_calls ≡ true))
unfolding obtain_config
transmit_iff_example = transmit_iff none none own some_calls 74 shm

-- A receiver on another host that joins late gets the last two messages.
enable-late_example :
    (enable
      (Transmitter.Calls.call_all (Transmitter.make none none own) some_calls)
      (end_of 2 1 8)).1
    ≡ sent_history (53 ∷ 56 ∷ []) (72 ∷ 73 ∷ []) ∷ []
unfolding mapping_table get_relation bytes_beq obtain_config History.make history_channel
enable-late_example = enable-late none none own (end_of 2 1 8) some_calls rtps refl

abbrev listener : Receiver ℕ
listener = record {
  enabled = false;
  message_type = 114 ∷ [];
  channel_id = 9;
  id = 5;
  listener = 10;
}

abbrev joined : List Calls.Call
joined =
    Calls.enables (end_of 1 2 6)
    ∷ Calls.enables (end_of 1 2 7)
    ∷ Calls.enables (end_of 1 2 7)
    ∷ Calls.disables (end_of 1 2 6)
    ∷ []

-- The one that left is not heard.
left :
    (on_message
      (call_all plain_shm (Receiver.make none own) (listener, Dispatch.make) joined).1.1
      9
      6).1
    ≡ []
unfolding Calls.is_live mapping_table get_relation bytes_beq obtain_config
left = enable-on_message plain_shm none own listener joined 6

same_history_channel : history_channel 1 23 ≡ history_channel 12 3
unfolding history_channel to_string digits
same_history_channel = refl

-- ===== src/Dispatch/Intra/Shared.antt =====
-- Two receivers of one process on one channel, with one type of message.
use hongwei_notebook.Common.{
  ℕ, ◌≡◌, refl, ◌≢◌, Bool, true, false, [], ◌∷◌, some, arith, ne→==, ==_refl, ==_iff,
}
use hongwei_notebook.Common.Map.{Bytes, bytes_eq, nat_eq, lookup, insert, erase, beq_refl}
use hongwei_notebook.Dispatch.{Dispatcher}
use hongwei_notebook.Dispatch.Handler
use hongwei_notebook.Dispatch.Handler.{ListenerHandler, run}
use hongwei_notebook.Base.Signal
use hongwei_notebook.Dispatch.Chain
use hongwei_notebook.Dispatch.Chain.{Message}
use hongwei_notebook.Dispatch.Intra.{
  IntraDispatcher, Wrapper, runs_all, get_handler, add_listener, remove_listener, on_message, make,
}

abbrev wrapped : ℕ → ℕ → ListenerHandler Wrapper
wrapped channel a = record {
  signal = record {
    slots = record { pointer = 0; cb = runs_all channel; connected = true } ∷ [];
    next = 1;
  };
  signal_conns = (a, 0) ∷ [];
  signals = [];
  signals_conns = [];
}

abbrev serving : Bytes → ℕ → ℕ → Dispatcher Wrapper
serving t channel a = record {
  is_shutdown = false;
  msg_listeners = (channel, record { message_type = t; handler = wrapped channel a }) ∷ [];
}

known :
    (t : Bytes) (channel a : ℕ)
    → get_handler (serving t channel a) channel t ≡ (serving t channel a, some (wrapped channel a))
unfolding get_handler lookup
known t channel a = ground (arith, beq_refl channel, beq_refl t, ==_refl channel)

module _ {L : Type 0} where
  abbrev joined : Bytes → ℕ → ℕ → ℕ → L → L → IntraDispatcher L
  joined t channel a b la lb = record {
    dispatcher = serving t channel a;
    chain = record {
      handlers =
          (
            channel,
            (
              t,
              record {
                signal = record {
                  slots =
                      record { pointer = 0; cb = la; connected = true }
                      ∷ record { pointer = 1; cb = lb; connected = true }
                      ∷ [];
                  next = 2;
                };
                signal_conns = (a, 0) ∷ (b, 1) ∷ [];
                signals = [];
                signals_conns = [];
              },
            )
                ∷ [],
          )
          ∷ [];
      oppo_handlers = [];
    };
  }

  abbrev alone : Bytes → ℕ → ℕ → L → IntraDispatcher L
  alone t channel a la = record {
    dispatcher = serving t channel a;
    chain = record {
      handlers =
          (
            channel,
            (
              t,
              record {
                signal = record {
                  slots = record { pointer = 0; cb = la; connected = true } ∷ [];
                  next = 1;
                };
                signal_conns = (a, 0) ∷ [];
                signals = [];
                signals_conns = [];
              },
            )
                ∷ [],
          )
          ∷ [];
      oppo_handlers = [];
    };
  }

  alone_lem :
      (t : Bytes) (channel a : ℕ) (la : L) → add_listener make t channel a la ≡ alone t channel a la
  unfolding add_listener make Handler.connect Chain.add_listener lookup insert Signal.connect
      Signal.is_connected Handler.make Signal.make
  alone_lem t channel a la = rw (beq_refl channel) refl

  joined_lem :
      (t : Bytes) (channel a b : ℕ) (la lb : L)
      → a ≢ b
      → add_listener (alone t channel a la) t channel b lb ≡ joined t channel a b la lb
  unfolding add_listener Handler.connect Chain.add_listener lookup insert Signal.connect
      Signal.is_connected
  joined_lem t channel a b la lb ne =
      rw (known t channel a, beq_refl channel, beq_refl t, ne→== a b ne) refl

module _ {L : Type 0} (parses : Bytes → Bytes → Bool) where
  -- Each of the wrappers runs both.
  hears_both :
      (channel a b sender : ℕ) (msg : Message) (la lb : L)
      → (on_message parses (joined msg.message_type channel a b la lb) channel msg sender).1
        ≡ la ∷ lb ∷ []
  unfolding on_message lookup run insert Signal.emit
  hears_both channel a b sender msg la lb =
      ground (arith, beq_refl channel, beq_refl msg.message_type, ==_refl channel)

  hears_none :
      (channel a b leaver sender : ℕ) (msg : Message) (la lb : L)
      → (on_message parses
          (remove_listener
            (joined msg.message_type channel a b la lb)
            msg.message_type
            channel
            leaver)
          channel
          msg
          sender).1
        ≡ []
  unfolding on_message lookup run insert erase Signal.emit remove_listener Handler.disconnect
      Signal.disconnect
  hears_none channel a b leaver sender msg la lb =
      ground (arith, beq_refl channel, beq_refl msg.message_type, ==_refl channel, ==_iff a leaver)

  -- Two receivers of one process listen to one channel with one type of message. A message of that type
  -- runs both listeners. When a listener of the channel and the type is removed, of one of the two or of
  -- any other receiver, the handler of the chain goes: no message of that type runs any listener.
  pub remove_listener-starves :
      (channel a b leaver sender : ℕ) (msg : Message) (la lb : L)
      → a ≢ b
      → let t = msg.message_type in
        let both = add_listener (add_listener make t channel a la) t channel b lb in
        ((on_message parses both channel msg sender).1 ≡ la ∷ lb ∷ [])
        × ((on_message parses (remove_listener both t channel leaver) channel msg sender).1 ≡ [])
  remove_listener-starves channel a b leaver sender msg la lb ne =
      rw (alone_lem msg.message_type channel a la, joined_lem msg.message_type channel a b la lb ne)
        (hears_both channel a b sender msg la lb, hears_none channel a b leaver sender msg la lb)

-- ===== src/Dispatch/Intra.antt =====
-- IntraDispatcher of transport/dispatcher/intra_dispatcher.h. What it connects to the handler of a
-- channel are wrappers that run the chain. A message that is parsed from bytes has these bytes again.
pub mod Shared
use hongwei_notebook.Common.{
  ℕ, Bool, true, false, List, [], ◌∷◌, ◌++◌, Option, none, some, if◌then◌else◌, not, ◌&&◌,
}
use hongwei_notebook.Common.Map.{Bytes, bytes_beq, nat_eq, lookup, insert}
use hongwei_notebook.Dispatch
use hongwei_notebook.Dispatch.{Dispatcher, Typed, handler_for, put}
use hongwei_notebook.Dispatch.Handler
use hongwei_notebook.Dispatch.Handler.{ListenerHandler, run}
use hongwei_notebook.Dispatch.Chain
use hongwei_notebook.Dispatch.Chain.{ChannelChain, Message, parsed, run_all, run_oppo}

-- The two forms of `listener_wrapper`.
pub data Wrapper : Type 0 where
  runs_all : ℕ → Wrapper
  runs_oppo : ℕ → ℕ → Wrapper

pub record IntraDispatcher (L : Type 0) : Type 0 where
  pub dispatcher : Dispatcher Wrapper
  pub chain : ChannelChain L

-- GetHandler makes the handler of a channel that has none, in the map too.
unfoldable pub get_handler :
    Dispatcher Wrapper → ℕ → Bytes → Dispatcher Wrapper × Option (ListenerHandler Wrapper)
unfolding handler_for put
get_handler d channel_id message_type = elim (lookup channel_id d.msg_listeners) [
  | none ↦ (put d channel_id message_type Handler.make, some Handler.make)
  | some t ↦ (d, handler_for (some t) message_type)
]

-- What AddListener does with the handler: only the first listener of a type connects a wrapper.
unfoldable pub connect_wrapper :
    Dispatcher Wrapper × Option (ListenerHandler Wrapper)
    → Bool
    → ℕ
    → Bytes
    → (ListenerHandler Wrapper → ListenerHandler Wrapper)
    → Dispatcher Wrapper
unfolding put
connect_wrapper (d, none) created channel_id message_type connecting = d
connect_wrapper (d, some h) created channel_id message_type connecting =
    if created then put d channel_id message_type (connecting h) else d

-- The handler of a channel and the wrappers that it runs: directly for its own type, and from the
-- bytes for another.
unfoldable pub run_handler :
    (Bytes → Bytes → Bool) → Typed Wrapper → Message → ℕ → ListenerHandler Wrapper × List Wrapper
unfolding parsed
run_handler parses t msg sender =
    if bytes_beq t.message_type msg.message_type then run t.handler sender else elim msg.bytes [
      | none ↦ (t.handler, [])
      | some bytes ↦ Handler.run_from_string t.handler (parsed parses t.message_type bytes) sender
    ]

module _ {L : Type 0} where
  unfoldable pub make : IntraDispatcher L
  unfolding Dispatch.make Chain.make
  make = record { dispatcher = Dispatch.make; chain = Chain.make }

  -- AddListener(self_attr, listener)
  unfoldable pub add_listener : IntraDispatcher L → Bytes → ℕ → ℕ → L → IntraDispatcher L
  unfolding get_handler connect_wrapper
  add_listener d message_type channel_id self_id listener =
      let (chain, created) = Chain.add_listener d.chain self_id channel_id message_type listener in
      if d.dispatcher.is_shutdown then d else record {
        dispatcher =
            connect_wrapper (get_handler d.dispatcher channel_id message_type) created channel_id
              message_type (λ h. Handler.connect h self_id (runs_all channel_id));
        chain = chain;
      }

  -- AddListener(self_attr, opposite_attr, listener)
  unfoldable pub add_listener_to : IntraDispatcher L → Bytes → ℕ → ℕ → ℕ → L → IntraDispatcher L
  unfolding get_handler connect_wrapper
  add_listener_to d message_type channel_id self_id oppo_id listener =
      let (chain, created) =
        Chain.add_listener_to d.chain self_id oppo_id channel_id message_type listener in
      if d.dispatcher.is_shutdown then d else record {
        dispatcher =
            connect_wrapper (get_handler d.dispatcher channel_id message_type) created channel_id
              message_type
              (λ h. Handler.connect_to h self_id oppo_id (runs_oppo oppo_id channel_id));
        chain = chain;
      }

  -- RemoveListener(self_attr)
  unfoldable pub remove_listener : IntraDispatcher L → Bytes → ℕ → ℕ → IntraDispatcher L
  unfolding Dispatch.remove_listener Chain.remove_listener
  remove_listener d message_type channel_id self_id =
      if d.dispatcher.is_shutdown then d else record {
        dispatcher = Dispatch.remove_listener d.dispatcher channel_id self_id;
        chain = Chain.remove_listener d.chain self_id channel_id message_type;
      }

  -- RemoveListener(self_attr, opposite_attr)
  unfoldable pub remove_listener_from : IntraDispatcher L → Bytes → ℕ → ℕ → ℕ → IntraDispatcher L
  unfolding Dispatch.remove_listener_from Chain.remove_listener_from
  remove_listener_from d message_type channel_id self_id oppo_id =
      if d.dispatcher.is_shutdown then d else record {
        dispatcher = Dispatch.remove_listener_from d.dispatcher channel_id self_id oppo_id;
        chain = Chain.remove_listener_from d.chain self_id oppo_id channel_id message_type;
      }

  module _ (parses : Bytes → Bytes → Bool) where
    -- The wrappers that a handler of type `message_type` runs, one after the other. A wrapper is given
    -- the message in its handler's type.
    unfoldable pub run_wrappers :
        ChannelChain L → List Wrapper → Message → ℕ → ChannelChain L × List L
    unfolding run_all run_oppo
    run_wrappers c [] msg sender = (c, [])
    run_wrappers c (runs_all channel_id ∷ ws) msg sender =
        let (c', ran) = run_all parses c channel_id msg sender in
        let (c'', later) = run_wrappers c' ws msg sender in (c'', ran ++ later)
    run_wrappers c (runs_oppo oppo_id channel_id ∷ ws) msg sender =
        let (c', ran) = run_oppo parses c oppo_id channel_id msg sender in
        let (c'', later) = run_wrappers c' ws msg sender in (c'', ran ++ later)

    -- OnMessage, and the listeners that run.
    unfoldable pub on_message : IntraDispatcher L → ℕ → Message → ℕ → IntraDispatcher L × List L
    unfolding run_handler run_wrappers put
    on_message d channel_id msg sender =
        if d.dispatcher.is_shutdown
        then (d, [])
        else elim (lookup channel_id d.dispatcher.msg_listeners) [
          | none ↦ (d, [])
          | some t ↦
              let (h, wrappers) = run_handler parses t msg sender in
              let (chain, ran) =
                run_wrappers d.chain wrappers (record msg { message_type = t.message_type })
                  sender in
              (
                record { dispatcher = put d.dispatcher channel_id t.message_type h; chain = chain },
                ran,
              )
        ]

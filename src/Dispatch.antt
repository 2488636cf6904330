-- ===== src/Dispatch.antt =====
-- How messages find their listeners in IntelligentDriving/my_cyber/transport: Dispatcher of
-- dispatcher/dispatcher.h, and in the child modules message/listener_handler.h and the dispatchers
-- that derive from it. The type of a message is its name, and the types of a program have different
-- names. The map by channel is AtomicHashMap; the handlers that it points to change in place.
pub mod Handler
pub mod Chain
pub mod Intra
pub mod Receivers
use hongwei_notebook.Common.{ℕ, Bool, true, false, List, [], ◌∷◌, Option, none, some, if◌then◌else◌}
use hongwei_notebook.Common.Map.{Bytes, bytes_beq, nat_eq, lookup, insert, has}
use hongwei_notebook.Dispatch.Handler
use hongwei_notebook.Dispatch.Handler.{ListenerHandler}

-- A ListenerHandler with the type of its messages.
pub record Typed (L : Type 0) : Type 0 where
  pub message_type : Bytes
  pub handler : ListenerHandler L

pub record Dispatcher (L : Type 0) : Type 0 where
  pub is_shutdown : Bool
  pub msg_listeners : List (ℕ × Typed L)

module _ {L : Type 0} where
  unfoldable pub make : Dispatcher L
  make = record { is_shutdown = false; msg_listeners = [] }

  unfoldable pub shutdown : Dispatcher L → Dispatcher L
  shutdown d = record d { is_shutdown = true }

  unfoldable pub has_channel : Dispatcher L → ℕ → Bool
  has_channel d channel_id = has channel_id d.msg_listeners

  -- What AddListener finds or makes at a channel: `none` where the handler has messages of another type.
  unfoldable pub handler_for : Option (Typed L) → Bytes → Option (ListenerHandler L)
  handler_for none message_type = some Handler.make
  handler_for (some t) message_type =
      if bytes_beq t.message_type message_type then some t.handler else none

  unfoldable pub put : Dispatcher L → ℕ → Bytes → ListenerHandler L → Dispatcher L
  put d channel_id message_type h = record d {
    msg_listeners =
        insert channel_id (record { message_type = message_type; handler = h }) d.msg_listeners;
  }

  -- AddListener(self_attr, listener)
  unfoldable pub add_listener : Dispatcher L → Bytes → ℕ → ℕ → L → Dispatcher L
  unfolding handler_for put
  add_listener d message_type channel_id self_id listener =
      if d.is_shutdown
      then d
      else elim (handler_for (lookup channel_id d.msg_listeners) message_type) [
        | none ↦ d
        | some h ↦ put d channel_id message_type (Handler.connect h self_id listener)
      ]

  -- AddListener(self_attr, opposite_attr, listener)
  unfoldable pub add_listener_to : Dispatcher L → Bytes → ℕ → ℕ → ℕ → L → Dispatcher L
  unfolding handler_for put
  add_listener_to d message_type channel_id self_id oppo_id listener =
      if d.is_shutdown
      then d
      else elim (handler_for (lookup channel_id d.msg_listeners) message_type) [
        | none ↦ d
        | some h ↦ put d channel_id message_type (Handler.connect_to h self_id oppo_id listener)
      ]

  -- RemoveListener(self_attr)
  unfoldable pub remove_listener : Dispatcher L → ℕ → ℕ → Dispatcher L
  unfolding put
  remove_listener d channel_id self_id =
      if d.is_shutdown then d else elim (lookup channel_id d.msg_listeners) [
        | none ↦ d
        | some t ↦ put d channel_id t.message_type (Handler.disconnect t.handler self_id)
      ]

  -- RemoveListener(self_attr, opposite_attr)
  unfoldable pub remove_listener_from : Dispatcher L → ℕ → ℕ → ℕ → Dispatcher L
  unfolding put
  remove_listener_from d channel_id self_id oppo_id =
      if d.is_shutdown then d else elim (lookup channel_id d.msg_listeners) [
        | none ↦ d
        | some t ↦
            put d channel_id t.message_type (Handler.disconnect_from t.handler self_id oppo_id)
      ]

-- ===== src/Dispatch/Receivers.antt =====
-- ShmReceiver and RtpsReceiver of transport/receiver, which differ in the dispatcher that they use, and
-- what OnMessage of a dispatcher does with a message of its type.
pub mod Handlers
use hongwei_notebook.Common.{
  ℕ, Bool, true, false, not, List, [], ◌∷◌, Option, none, some, if◌then◌else◌,
}
use hongwei_notebook.Common.Map.{Bytes, nat_eq, lookup}
use hongwei_notebook.Dispatch
use hongwei_notebook.Dispatch.{
  Dispatcher, put, add_listener, add_listener_to, remove_listener, remove_listener_from,
}
use hongwei_notebook.Dispatch.Handler.{run}

-- `message_type` is the type that the dispatcher's handlers have, and `listener` the bound OnNewMessage.
pub record Receiver (L : Type 0) : Type 0 where
  pub enabled : Bool
  pub message_type : Bytes
  pub channel_id : ℕ
  pub id : ℕ
  pub listener : L

module _ {L : Type 0} where
  -- Enable() and Disable().
  unfoldable pub enable : Receiver L → Dispatcher L → Receiver L × Dispatcher L
  unfolding add_listener
  enable r d =
      if r.enabled
      then (r, d)
      else (record r { enabled = true }, add_listener d r.message_type r.channel_id r.id r.listener)

  unfoldable pub disable : Receiver L → Dispatcher L → Receiver L × Dispatcher L
  unfolding remove_listener
  disable r d =
      if r.enabled
      then (record r { enabled = false }, remove_listener d r.channel_id r.id)
      else (r, d)

  -- Enable(opposite_attr) and Disable(opposite_attr).
  unfoldable pub enable_to : Receiver L → Dispatcher L → ℕ → Dispatcher L
  unfolding add_listener_to
  enable_to r d oppo_id = add_listener_to d r.message_type r.channel_id r.id oppo_id r.listener

  unfoldable pub disable_from : Receiver L → Dispatcher L → ℕ → Dispatcher L
  unfolding remove_listener_from
  disable_from r d oppo_id = remove_listener_from d r.channel_id r.id oppo_id

  -- OnMessage of a message of the type of the handler, and the listeners that run.
  unfoldable pub on_message : Dispatcher L → ℕ → ℕ → Dispatcher L × List L
  unfolding put
  on_message d channel_id sender =
      if d.is_shutdown then (d, []) else elim (lookup channel_id d.msg_listeners) [
        | none ↦ (d, [])
        | some t ↦ let (h, ran) = run t.handler sender in (put d channel_id t.message_type h, ran)
      ]

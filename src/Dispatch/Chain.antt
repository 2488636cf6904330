-- ===== src/Dispatch/Chain.antt =====
-- ChannelChain of transport/dispatcher/intra_dispatcher.h: the handlers of the channels of a process by
-- the type of their messages, and again for each sender. Listeners of another type than that of a
-- message get it by way of its bytes. A map is an association list, so that the order among message
-- types is not that of their names. A handler that is removed is let go, and what Disconnect does to
-- it after that is seen by nobody.
use hongwei_notebook.Common.{
  ℕ, Bool, true, false, List, [], ◌∷◌, ◌++◌, Option, none, some, if◌then◌else◌, not,
}
use hongwei_notebook.Common.Map.{Bytes, bytes_beq, bytes_eq, nat_eq, lookup, insert, erase}
use hongwei_notebook.Dispatch.Handler
use hongwei_notebook.Dispatch.Handler.{ListenerHandler, run, run_from_string}

-- The handlers of a channel, and of all channels.
abbrev pub ByType : Type 0 → Type 0
ByType L = List (Bytes × ListenerHandler L)

abbrev pub BaseHandlers : Type 0 → Type 0
BaseHandlers L = List (ℕ × ByType L)

pub record ChannelChain (L : Type 0) : Type 0 where
  pub handlers : BaseHandlers L
  pub oppo_handlers : List (ℕ × BaseHandlers L)

-- A message of a type, and its bytes: `none` where its size or its serialisation fails.
pub record Message : Type 0 where
  pub message_type : Bytes
  pub bytes : Option Bytes

abbrev pub is_some : {A : Type 0} → Option A → Bool
is_some none = false
is_some (some a) = true

-- The entries of a key, or none.
abbrev pub entries : {A : Type 0} → Option (List A) → List A
entries none = []
entries (some l) = l

-- Whether bytes are those of a message of a type, as the parser of that type says.
unfoldable pub parsed : (Bytes → Bytes → Bool) → Bytes → Bytes → Option (Unit {0})
parsed parses message_type bytes = if parses message_type bytes then some tt else none

module _ {L : Type 0} where
  unfoldable pub make : ChannelChain L
  make = record { handlers = []; oppo_handlers = [] }

  abbrev handler_or_new : Option (ListenerHandler L) → ListenerHandler L
  handler_or_new none = Handler.make
  handler_or_new (some h) = h

  -- GetHandler: the handler of a type, and whether it is made.
  unfoldable pub get_handler : ℕ → Bytes → BaseHandlers L → ListenerHandler L × Bool
  get_handler channel_id message_type hs =
      let found = lookup message_type (entries (lookup channel_id hs)) in
      (handler_or_new found, not (is_some found))

  unfoldable pub put_handler : ℕ → Bytes → ListenerHandler L → BaseHandlers L → BaseHandlers L
  put_handler channel_id message_type h hs =
      insert channel_id (insert message_type h (entries (lookup channel_id hs))) hs

  -- RemoveHandler: a channel whose last handler goes is removed too.
  unfoldable pub remove_handler : ℕ → Bytes → BaseHandlers L → BaseHandlers L
  remove_handler channel_id message_type hs = elim (lookup channel_id hs) [
    | none ↦ hs
    | some by_type ↦ elim (erase message_type by_type) [
      | [] ↦ erase channel_id hs
      | h ∷ rest ↦ insert channel_id (h ∷ rest) hs
    ]
  ]

  -- AddListener(self_id, channel_id, ...)
  unfoldable pub add_listener : ChannelChain L → ℕ → ℕ → Bytes → L → ChannelChain L × Bool
  unfolding get_handler put_handler
  add_listener c self_id channel_id message_type listener =
      let (h, created) = get_handler channel_id message_type c.handlers in
      (
        record c {
          handlers =
              put_handler channel_id message_type (Handler.connect h self_id listener) c.handlers;
        },
        created,
      )

  -- AddListener(self_id, oppo_id, channel_id, ...)
  unfoldable pub add_listener_to : ChannelChain L → ℕ → ℕ → ℕ → Bytes → L → ChannelChain L × Bool
  unfolding get_handler put_handler
  add_listener_to c self_id oppo_id channel_id message_type listener =
      let hs = entries (lookup oppo_id c.oppo_handlers) in
      let (h, created) = get_handler channel_id message_type hs in
      let h' = Handler.connect_to h self_id oppo_id listener in
      (
        record c {
          oppo_handlers =
              insert oppo_id (put_handler channel_id message_type h' hs) c.oppo_handlers;
        },
        created,
      )

  -- RemoveListener(self_id, channel_id, message_type)
  unfoldable pub remove_listener : ChannelChain L → ℕ → ℕ → Bytes → ChannelChain L
  unfolding remove_handler
  remove_listener c self_id channel_id message_type = record c {
    handlers = remove_handler channel_id message_type c.handlers;
  }

  -- RemoveListener(self_id, oppo_id, channel_id, message_type)
  unfoldable pub remove_listener_from : ChannelChain L → ℕ → ℕ → ℕ → Bytes → ChannelChain L
  unfolding remove_handler
  remove_listener_from c self_id oppo_id channel_id message_type =
      elim (lookup oppo_id c.oppo_handlers) [
        | none ↦ c
        | some hs ↦ elim (remove_handler channel_id message_type hs) [
          | [] ↦ record c { oppo_handlers = erase oppo_id c.oppo_handlers }
          | b ∷ rest ↦ record c { oppo_handlers = insert oppo_id (b ∷ rest) c.oppo_handlers }
        ]
      ]

  -- `parses` says whether bytes are those of a message of a type.
  module _ (parses : Bytes → Bytes → Bool) where
    -- The bytes of a message of another type; nothing runs where they are empty or cannot be had.
    unfoldable pub run_bytes :
        ListenerHandler L → Bytes → Option Bytes → ℕ → ListenerHandler L × List L
    unfolding parsed
    run_bytes h message_type none sender = (h, [])
    run_bytes h message_type (some []) sender = (h, [])
    run_bytes h message_type (some (b ∷ bs)) sender =
        run_from_string h (parsed parses message_type (b ∷ bs)) sender

    -- The loop of Run over the handlers of a channel, by type.
    unfoldable pub run_types : ByType L → Message → ℕ → ByType L × List L
    unfolding run_bytes
    run_types [] msg sender = ([], [])
    run_types ((message_type, h) ∷ rest) msg sender =
        let (h', ran) =
          if bytes_beq msg.message_type message_type
          then run h sender
          else run_bytes h message_type msg.bytes sender in
        let (rest', later) = run_types rest msg sender in ((message_type, h') ∷ rest', ran ++ later)

    unfoldable pub run_channel : ℕ → BaseHandlers L → Message → ℕ → BaseHandlers L × List L
    unfolding run_types
    run_channel channel_id hs msg sender = elim (lookup channel_id hs) [
      | none ↦ (hs, [])
      | some by_type ↦
          let (by_type', ran) = run_types by_type msg sender in (insert channel_id by_type' hs, ran)
    ]

    -- Run(self_id, channel_id, ...)
    unfoldable pub run_all : ChannelChain L → ℕ → Message → ℕ → ChannelChain L × List L
    unfolding run_channel
    run_all c channel_id msg sender =
        let (hs, ran) = run_channel channel_id c.handlers msg sender in
        (record c { handlers = hs }, ran)

    -- Run(self_id, oppo_id, channel_id, ...)
    unfoldable pub run_oppo : ChannelChain L → ℕ → ℕ → Message → ℕ → ChannelChain L × List L
    unfolding run_channel
    run_oppo c oppo_id channel_id msg sender = elim (lookup oppo_id c.oppo_handlers) [
      | none ↦ (c, [])
      | some hs ↦
          let (hs', ran) = run_channel channel_id hs msg sender in
          (record c { oppo_handlers = insert oppo_id hs' c.oppo_handlers }, ran)
    ]

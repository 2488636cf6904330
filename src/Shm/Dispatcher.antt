-- ===== src/Shm/Dispatcher.antt =====
-- ShmDispatcher of IntelligentDriving/my_cyber/transport/dispatcher/shm_dispatcher.cc and
-- shm_dispatcher.h. What a round of its thread gets from the notifier is an argument; the rounds in
-- which Listen returns nothing change nothing.
use hongwei_notebook.Common.{
  ℕ, ◌+◌, Bool, true, false, List, [], ◌∷◌, none, some, if◌then◌else◌, ◌==◌,
}
use hongwei_notebook.Common.Map.{Bytes, nat_eq, lookup, insert, has}
use hongwei_notebook.Dispatch
use hongwei_notebook.Dispatch.{Dispatcher}
use hongwei_notebook.Dispatch.Receivers.{on_message}
use hongwei_notebook.Shm.Memory.{Os}
use hongwei_notebook.Shm.Buffers.{Buffers}
use hongwei_notebook.Shm.Segment.{Segment}
use hongwei_notebook.Shm.Segment.Access.{
  Outcome, returns, undefined, unfinished, acquire_block_to_read, release_read_block,
}
use hongwei_notebook.Shm.Notifier.{ReadableInfo}
use hongwei_notebook.Shm.Transmitter.{create_segment}
use hongwei_notebook.Wire.{Identity}
use hongwei_notebook.Wire.Info
use hongwei_notebook.Wire.Info.{MessageInfo}

-- L is a listener of a receiver, without the adapter that AddListener puts around it.
pub record ShmDispatcher (L : Type 0) : Type 0 where
  pub dispatcher : Dispatcher L
  pub host_id : ℕ
  pub segments : List (ℕ × Segment)
  pub previous_indexes : List (ℕ × ℕ)

-- A listener that runs, and the message that it is given.
pub record Heard (L : Type 0) : Type 0 where
  pub listener : L
  pub msg : Bytes
  pub info : MessageInfo

abbrev no_identity : Identity
no_identity = record { content = 0 ∷ 0 ∷ 0 ∷ 0 ∷ 0 ∷ 0 ∷ 0 ∷ 0 ∷ []; hash_value = 0 }

-- MessageInfo()
abbrev pub no_info : MessageInfo
no_info = record { sender_id = no_identity; channel_id = 0; seq_num = 0; spare_id = no_identity }

-- ReadableBlock, the type of the messages of the handlers.
abbrev pub readable_block : Bytes
readable_block = 82 ∷ 66 ∷ []

abbrev pub uint32_max : ℕ
uint32_max = 4294967295

module _ {L : Type 0} where
  unfoldable pub make : (Bytes → ℕ) → Bytes → ShmDispatcher L
  make hash host_ip = record {
    dispatcher = Dispatch.make;
    host_id = hash host_ip;
    segments = [];
    previous_indexes = [];
  }

  unfoldable pub shutdown : ShmDispatcher L → ShmDispatcher L
  unfolding Dispatch.shutdown
  shutdown d =
      if d.dispatcher.is_shutdown
      then d
      else record d { dispatcher = Dispatch.shutdown d.dispatcher; segments = [] }

  unfoldable pub add_segment : ShmDispatcher L → ℕ → ShmDispatcher L
  unfolding create_segment
  add_segment d channel_id = if has channel_id d.segments then d else record d {
    segments = insert channel_id (create_segment channel_id) d.segments;
    previous_indexes = insert channel_id uint32_max d.previous_indexes;
  }

  -- AddListener(self_attr, listener) and AddListener(self_attr, opposite_attr, listener).
  unfoldable pub add_listener : ShmDispatcher L → ℕ → ℕ → L → ShmDispatcher L
  unfolding Dispatch.add_listener add_segment
  add_listener d channel_id self_id listener =
      add_segment
        (record d {
          dispatcher =
              Dispatch.add_listener d.dispatcher readable_block channel_id self_id listener;
        })
        channel_id

  unfoldable pub add_listener_to : ShmDispatcher L → ℕ → ℕ → ℕ → L → ShmDispatcher L
  unfolding Dispatch.add_listener_to add_segment
  add_listener_to d channel_id self_id oppo_id listener =
      add_segment
        (record d {
          dispatcher =
              Dispatch.add_listener_to d.dispatcher readable_block channel_id self_id oppo_id
                listener;
        })
        channel_id

  -- What the adapters make of a message: a listener runs if its parser takes the bytes.
  unfoldable pub adapt : (L → Bytes → Bool) → List L → Bytes → MessageInfo → List (Heard L)
  adapt parses [] msg info = []
  adapt parses (l ∷ ls) msg info =
      let rest = adapt parses ls msg info in
      if parses l msg then record { listener = l; msg = msg; info = info } ∷ rest else rest

module _ {W L : Type 0} (os : Os W) {span : ℕ → ℕ} (memory : Buffers os span) (hash : Bytes → ℕ)
    (parses : L → Bytes → Bool) where
  -- The message info that was read and whether that succeeded, with the bytes of the message: the
  -- dispatcher runs its listeners.
  unfoldable pub hand_on :
      ShmDispatcher L → ℕ → Bool × MessageInfo → Bytes → ShmDispatcher L × List (Heard L)
  unfolding on_message adapt
  hand_on d channel_id (false, info) msg = (d, [])
  hand_on d channel_id (true, info) msg =
      let (dispatcher, ran) = on_message d.dispatcher channel_id info.sender_id.hash_value in
      (record d { dispatcher = dispatcher }, adapt parses ran msg info)

  -- The part of ReadMessage after the block of the region at a was acquired, with its buffer at b.
  unfoldable pub read_block : ShmDispatcher L → ℕ → W → ℕ → ℕ → ℕ → ShmDispatcher L × List (Heard L)
  unfolding Info.deserialize_from hand_on
  read_block d channel_id w a block b =
      let sizes = memory.sizes w a block in
      hand_on d channel_id
        (Info.deserialize_from hash no_info
          (memory.bytes w (b + sizes.msg_size) sizes.msg_info_size))
        (memory.bytes w b sizes.msg_size)

  unfoldable pub read_message :
      (ℕ → Bool) → ShmDispatcher L → ℕ → ℕ → W → Outcome (ShmDispatcher L × W × List (Heard L))
  unfolding acquire_block_to_read read_block release_read_block
  read_message spurious d channel_id block_index w = elim (lookup channel_id d.segments) [
    | none ↦ undefined
    | some s ↦ elim (acquire_block_to_read os spurious block_index s w) [
      | undefined ↦ undefined
      | unfinished ↦ unfinished
      | returns (none, s', w') ↦
          returns (record d { segments = insert channel_id s' d.segments }, w', [])
      | returns (some rb, s', w') ↦ elim rb.buf [
        | none ↦ undefined
        | some b ↦ elim s'.state [
          | none ↦ undefined
          | some a ↦
              let (d', heard) = read_block d channel_id w' a rb.block b in
              elim (release_read_block os rb s' w') [
                | none ↦ undefined
                | some w'' ↦
                    returns (record d' { segments = insert channel_id s' d.segments }, w'', heard)
              ]
        ]
      ]
    ]
  ]

  -- The round of ThreadFunc that is told of a block.
  unfoldable pub handle :
      (ℕ → Bool)
      → ShmDispatcher L
      → ReadableInfo
      → W
      → Outcome (ShmDispatcher L × W × List (Heard L))
  unfolding read_message
  handle spurious d told w =
      if told.host_id == d.host_id
      then (if has told.channel_id d.segments
          then read_message spurious
              (record d {
                previous_indexes = insert told.channel_id told.block_index d.previous_indexes;
              })
              told.channel_id told.block_index w
          else returns (d, w, []))
      else returns (d, w, [])

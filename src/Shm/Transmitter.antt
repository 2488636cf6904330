-- ===== src/Shm/Transmitter.antt =====
-- ShmTransmitter of IntelligentDriving/my_cyber/transport/transmitter/shm_transmitter.h, with a segment
-- of posix_segment.cc. A message is its ByteSize and what SerializeToArray writes, `none` where that
-- fails; the notifier is its flag and its ring.
use hongwei_notebook.Common.{ℕ, ◌+◌, Bool, true, false, [], Option, none, some, if◌then◌else◌}
use hongwei_notebook.Common.Map.{Bytes}
use hongwei_notebook.Hybrid.{to_string}
use hongwei_notebook.Shm.Conf.{update, message_size_16k}
use hongwei_notebook.Shm.Memory.{Os}
use hongwei_notebook.Shm.Buffers.{Buffers}
use hongwei_notebook.Shm.Segment.{Segment, WritableBlock, unmapped}
use hongwei_notebook.Shm.Segment.Access.{
  Outcome, returns, undefined, unfinished, acquire_block_to_write, release_written_block, destroy,
}
use hongwei_notebook.Shm.Notifier.{Indicator, notify}
use hongwei_notebook.Wire.Info
use hongwei_notebook.Wire.Info.{MessageInfo}

-- SegmentFactory::CreateSegment, where the configuration asks for a PosixSegment.
unfoldable pub create_segment : ℕ → Segment
unfolding to_string update
create_segment channel_id = record {
  init = false;
  conf = update message_size_16k;
  shm_name = to_string channel_id;
  state = none;
  managed_shm = unmapped;
  block_buf_addrs = [];
}

pub record ShmTransmitter : Type 0 where
  pub enabled : Bool
  pub segment : Option Segment
  pub channel_id : ℕ
  pub host_id : ℕ

-- `hash` is common::Hash.
unfoldable pub make : (Bytes → ℕ) → ℕ → Bytes → ShmTransmitter
make hash channel_id host_ip = record {
  enabled = false;
  segment = none;
  channel_id = channel_id;
  host_id = hash host_ip;
}

unfoldable pub enable : ShmTransmitter → ShmTransmitter
unfolding create_segment
enable t =
    if t.enabled
    then t
    else record t { enabled = true; segment = some (create_segment t.channel_id) }

module _ {W : Type 0} (os : Os W) {span : ℕ → ℕ} (memory : Buffers os span) where
  -- The transmitter alone holds its segment, so that this destroys it.
  unfoldable pub disable : ShmTransmitter → W → Outcome (ShmTransmitter × W)
  unfolding destroy
  disable t w =
      let t' = record t { enabled = false; segment = none } in
      if t.enabled
      then elim t.segment [
        | none ↦ returns (t', w)
        | some s ↦ elim (destroy os s w) [
          | undefined ↦ undefined
          | unfinished ↦ unfinished
          | returns (done, s', w') ↦ returns (t', w')
        ]
      ]
      else returns (t, w)

  -- What goes into the block of the region at a, and the buffer at b: the message and its size, and
  -- behind it the message info and its size.
  unfoldable pub write_block : W → ℕ → ℕ → ℕ → Bytes → ℕ → MessageInfo → Bool × W
  unfolding Info.serialize_into
  write_block w a block b msg msg_size info =
      let w1 = memory.put_bytes w b msg in
      let w2 =
        memory.put_sizes w1 a block (record (memory.sizes w1 a block) { msg_size = msg_size }) in
      let (done, written) = Info.serialize_into info (memory.bytes w2 (b + msg_size) Info.size) in
      let w3 = memory.put_bytes w2 (b + msg_size) written in
      if done
      then (
        true,
        memory.put_sizes w3 a block
            (record (memory.sizes w3 a block) { msg_info_size = Info.size }),
      )
      else (false, w2)

  -- The part of Transmit after a block was acquired; `none` is a null pointer that is followed or a lock
  -- outside the region.
  unfoldable pub write_message :
      WritableBlock → Segment → W → ℕ → Option Bytes → MessageInfo → Option (Bool × W)
  unfolding write_block release_written_block
  write_message wb s w msg_size serialized info = elim wb.buf [
    | none ↦ none
    | some b ↦ elim s.state [
      | none ↦ none
      | some a ↦
          let written : Bool × W = elim serialized [
            | none ↦ (false, w)
            | some msg ↦ write_block w a wb.block b msg msg_size info
          ] in
          elim (release_written_block os wb s written.1) [
            | none ↦ none
            | some w' ↦ some (written.0, w')
          ]
    ]
  ]

  unfoldable pub transmit :
      ℕ
      → (ℕ → Bool)
      → ShmTransmitter
      → ℕ
      → Option Bytes
      → MessageInfo
      → W
      → Bool
      → Indicator
      → Outcome (Bool × ShmTransmitter × W × Indicator)
  unfolding acquire_block_to_write write_message notify
  transmit fuel spurious t msg_size serialized info w is_shutdown ring =
      if t.enabled
      then elim t.segment [
        | none ↦ undefined
        | some s ↦ elim (acquire_block_to_write os fuel spurious msg_size s w) [
          | undefined ↦ undefined
          | unfinished ↦ unfinished
          | returns (none, s', w') ↦ returns (false, record t { segment = some s' }, w', ring)
          | returns (some wb, s', w') ↦ elim (write_message wb s' w' msg_size serialized info) [
            | none ↦ undefined
            | some (false, w'') ↦ returns (false, record t { segment = some s' }, w'', ring)
            | some (true, w'') ↦
                let (told, ring') = notify is_shutdown ring (record {
                  host_id = t.host_id;
                  block_index = wb.index;
                  channel_id = t.channel_id;
                }) in
                returns (told, record t { segment = some s' }, w'', ring')
          ]
        ]
      ]
      else returns (false, t, w, ring)

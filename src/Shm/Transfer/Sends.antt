-- ===== src/Shm/Transfer/Sends.antt =====
-- Transmit of ShmTransmitter in a segment that is open.
use hongwei_notebook.Common.{
  ℕ, ◌<◌, ◌≤◌, ◌+◌, ◌*◌, sym, subst, Bool, true, false, Option, some, ◌≡◌, refl, ap, ◌∙◌, arith,
  length, get_elem?, set, length-set, set-set, set-get_elem?, get_elem?-set_self,
}
use native.Mathlib.Nat.{mul-le-mul_left, mul-le-mul_right}
use hongwei_notebook.Common.Map.{Bytes}
use hongwei_notebook.Shm.Block.{rw_lock_free, write_exclusive}
use hongwei_notebook.Shm.Conf.{state_size, block_size, extra_size, message_info_size}
use hongwei_notebook.Shm.Conf.Sizes.{update_layout, update-block_buf_size}
use hongwei_notebook.Shm.Memory.{Os, Region}
use hongwei_notebook.Shm.Buffers.{Buffers, Within}
use hongwei_notebook.Shm.Segment.{Segment, WritableBlock, buf_at}
use hongwei_notebook.Shm.Segment.Opened.{IsOpen}
use hongwei_notebook.Shm.Segment.Access.{
  returns, acquire_block_to_write, change_lock, release_written_block,
}
use hongwei_notebook.Shm.Segment.Access.Released.{acquire-Writes}
use hongwei_notebook.Shm.Notifier.{ReadableInfo, Indicator, notify}
use hongwei_notebook.Shm.Transmitter.{ShmTransmitter, write_block, write_message, transmit}
use hongwei_notebook.Shm.Transfer.Contents.{Holds, write_block-Holds, Holds-save}
use hongwei_notebook.Wire.{id_size}
use hongwei_notebook.Wire.Info
use hongwei_notebook.Wire.Info.{MessageInfo}

-- The mapping of a segment has the size that its configuration says, and the compiler's sizes of a
-- state and of a block do not exceed what the configuration allows for.
pub record HasRoom {W : Type 0} (os : Os W) (span : ℕ → ℕ) (s : Segment) (a : ℕ) : Type 0 where
  pub state_fits : os.sizeof_state ≤ state_size
  pub block_fits : os.sizeof_block ≤ block_size
  pub mapped_whole : s.conf.managed_shm_size ≤ span a

-- Bytes at the start of a buffer, as far as the end of the mapping.
room_lem :
    (sizeof_state sizeof_block size count i n whole : ℕ)
    → sizeof_state ≤ state_size
    → sizeof_block ≤ block_size
    → state_size + count * block_size + count * size + extra_size ≤ whole
    → i < count
    → n ≤ size
    → sizeof_state + count * sizeof_block + i * size + n ≤ whole
room_lem sizeof_state sizeof_block size count i n whole h1 h2 all lt fits =
    omega (arith, h1, all, fits, mul-le-mul_left count h2, mul-le-mul_right size lt)

pub buf-room :
    {W : Type 0} (os : Os W) (span : ℕ → ℕ) (s : Segment) (w : W) (a i n : ℕ)
    → IsOpen os s w a
    → HasRoom os span s a
    → i < s.conf.block_num
    → n ≤ s.conf.ceiling_msg_size
    → os.sizeof_state
        + s.conf.block_num * os.sizeof_block
        + i * s.conf.block_buf_size
        + (n + Info.size)
      ≤ span a
buf-room os span s w a i n open_at room lt fits =
    let m = (os.load w a).state.ceiling_msg_size in
    let layout = (update_layout m).3 in
    let size = update-block_buf_size m in
    let c = s.conf in
    let all : state_size + c.block_num * block_size + c.block_num * c.block_buf_size + extra_size
        ≡ c.managed_shm_size =
      subst
        (λ c.
          state_size + c.block_num * block_size + c.block_num * c.block_buf_size + extra_size
          ≡ c.managed_shm_size)
        (sym open_at.layout) layout in
    let whole : c.block_buf_size ≡ c.ceiling_msg_size + message_info_size =
      subst (λ c. c.block_buf_size ≡ c.ceiling_msg_size + message_info_size) (sym open_at.layout)
        size in
    room_lem os.sizeof_state os.sizeof_block c.block_buf_size c.block_num i (n + Info.size) (span a)
      room.state_fits room.block_fits (omega (arith, all, room.mapped_whole)) lt
      (omega (arith, fits, whole))

pub buf-Within :
    {W : Type 0} (os : Os W) (span : ℕ → ℕ) (s : Segment) (w : W) (a i n : ℕ) (r : Region)
    → IsOpen os s w a
    → HasRoom os span s a
    → i < s.conf.block_num
    → n ≤ s.conf.ceiling_msg_size
    → length r.locks ≡ s.conf.block_num
    → Within os span a r (buf_at os a s.conf i) (n + Info.size)
buf-Within os span s w a i n r open_at room lt fits full =
    let h = buf-room os span s w a i n open_at room lt fits in
    rw full (omega arith, omega (arith, h))

module _ {W : Type 0} (os : Os W) {span : ℕ → ℕ} (memory : Buffers os span) where
  -- With its write lock taken, a block is released to be free.
  release_taken :
      (wb : WritableBlock) (s : Segment) (w : W) (a : ℕ)
      → s.state ≡ some a
      → wb.index < s.conf.block_num
      → get_elem? (os.load w a).locks wb.index ≡ some write_exclusive
      → let r = os.load w a in
        release_written_block os wb s w
        ≡ some (os.save w a (record r { locks = set r.locks wb.index rw_lock_free }))
  unfolding release_written_block change_lock
  release_taken wb s w a at lt taken = ground (arith, at, lt, taken)

  -- A message that was sent: the block that it is in, and what is left in memory.
  pub record Sends (s : Segment) (w : W) (a channel host : ℕ) (spurious : ℕ → Bool) (msg : Bytes)
      (info : MessageInfo) (ring : Indicator) : Type 0 where
    pub index : ℕ
    pub final : W
    pub in_range : index < s.conf.block_num
    pub transmitted :
        let t : ShmTransmitter = record {
          enabled = true;
          segment = some s;
          channel_id = channel;
          host_id = host;
        } in
        let told : ReadableInfo = record {
          host_id = host;
          block_index = index;
          channel_id = channel;
        } in
        transmit os memory s.conf.block_num spurious t (length msg) (some msg) info w false ring
        ≡ returns (true, t, final, (notify false ring told).1)
    pub was_free : get_elem? (os.load w a).locks index ≡ some rw_lock_free
    pub locks_kept : (os.load final a).locks ≡ (os.load w a).locks
    pub settled : (os.load final a).state.need_remap ≡ false
    pub held : Holds memory final a index (buf_at os a s.conf index) msg info

  written_lem :
      (s : Segment) (w w' final : W) (a b i : ℕ) (msg : Bytes) (info : MessageInfo)
      → s.state ≡ some a
      → write_block os memory w a i b msg (length msg) info ≡ (true, w')
      → let wb : WritableBlock = record { index = i; block = i; buf = some b } in
        release_written_block os wb s w' ≡ some final
        → write_message os memory wb s w (length msg) (some msg) info ≡ some (true, final)
  unfolding write_message
  written_lem s w w' final a b i msg info at written released =
      ground (arith, at, written, released)

  transmitted_lem :
      (s : Segment) (w after final : W) (channel host fuel size : ℕ) (spurious : ℕ → Bool)
      (text : Option Bytes) (info : MessageInfo) (ring : Indicator) (wb : WritableBlock)
      → acquire_block_to_write os fuel spurious size s w ≡ returns (some wb, s, after)
      → write_message os memory wb s after size text info ≡ some (true, final)
      → let t : ShmTransmitter = record {
        enabled = true;
        segment = some s;
        channel_id = channel;
        host_id = host;
      } in
        let told : ReadableInfo = record {
          host_id = host;
          block_index = wb.index;
          channel_id = channel;
        } in
        transmit os memory fuel spurious t size text info w false ring
        ≡ returns (true, t, final, (notify false ring told).1)
  unfolding transmit notify
  transmitted_lem s w after final channel host fuel size spurious text info ring wb acquired
        written =
      rw (acquired, written) refl

  pub transmit-Sends :
      (s : Segment) (w : W) (a channel host k : ℕ) (spurious : ℕ → Bool) (msg : Bytes)
      (info : MessageInfo) (ring : Indicator)
      → IsOpen os s w a
      → HasRoom os span s a
      → (os.load w a).state.need_remap ≡ false
      → length msg ≤ s.conf.ceiling_msg_size
      → length (os.load w a).locks ≡ s.conf.block_num
      → get_elem? (os.load w a).locks k ≡ some rw_lock_free
      → ((seq : ℕ) → spurious seq ≡ false)
      → length info.sender_id.content ≡ id_size
      → length info.spare_id.content ≡ id_size
      → Sends s w a channel host spurious msg info ring
  transmit-Sends s w a channel host k spurious msg info ring open_at room remap fits full free
        honest ls lp =
      let wr =
        acquire-Writes os s w a open_at spurious (length msg) k remap fits full free honest in
      let i = wr.index in
      let b = buf_at os a s.conf i in
      let wb : WritableBlock = record { index = i; block = i; buf = some b } in
      let full' : length (os.load wr.after a).locks ≡ s.conf.block_num =
        rw wr.locked (length-set (os.load w a).locks i write_exclusive ∙ full) in
      let (w4, written, kept, holds) =
        write_block-Holds os memory wr.after a i b msg info
          (buf-Within os span s w a i (length msg) (os.load wr.after a) open_at room wr.in_range
            fits full')
          ls lp in
      let taken : get_elem? (os.load w4 a).locks i ≡ some write_exclusive =
        rw (kept, wr.locked)
          (get_elem?-set_self (os.load w a).locks i write_exclusive (rw full wr.in_range)) in
      let r = record (os.load w4 a) { locks = set (os.load w4 a).locks i rw_lock_free } in
      let released = release_taken wb s w4 a open_at.at_region wr.in_range taken in
      record {
        index = i;
        final = os.save w4 a r;
        in_range = wr.in_range;
        transmitted =
            transmitted_lem s w wr.after (os.save w4 a r) channel host s.conf.block_num (length msg)
              spurious (some msg) info ring wb wr.acquired
              (written_lem s wr.after w4 (os.save w4 a r) a b i msg info open_at.at_region written
                released);
        was_free = wr.was_free;
        locks_kept =
            ap (λ x. x.locks) (os.load-save w4 a r)
            ∙ rw (kept, wr.locked)
                (set-set (os.load w a).locks i write_exclusive rw_lock_free
                  ∙ set-get_elem? (os.load w a).locks i wr.was_free);
        settled =
            ap (λ x. x.state.need_remap) (os.load-save w4 a r)
            ∙ (ap (λ x. x.state.need_remap) kept ∙ wr.settled);
        held =
            Holds-save os memory w4 a i b msg info r
              (buf-Within os span s w a i (length msg) r open_at room wr.in_range fits
                (length-set (os.load w4 a).locks i rw_lock_free ∙ rw kept full'))
              holds;
      }

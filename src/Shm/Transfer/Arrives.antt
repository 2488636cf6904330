-- ===== src/Shm/Transfer/Arrives.antt =====
-- A message from Transmit of ShmTransmitter to the listeners of a ShmDispatcher in another process.
use hongwei_notebook.Common.{
  ℕ, suc, ◌<◌, ◌≤◌, ◌+◌, ◌*◌, Bool, true, false, List, some, ◌≡◌, sym, ap, subst, ◌∙◌, arith,
  length, get_elem?, u64_mod,
}
use hongwei_notebook.Common.Map.{Bytes, nat_eq, lookup}
use hongwei_notebook.Dispatch.Receivers.{on_message}
use hongwei_notebook.Shm.Block.{rw_lock_free}
use hongwei_notebook.Shm.Conf.{update}
use hongwei_notebook.Shm.Memory.{Os}
use hongwei_notebook.Shm.Buffers.{Buffers, Shares}
use hongwei_notebook.Shm.Segment.{Segment, buf_at}
use hongwei_notebook.Shm.Segment.Opened.{IsOpen}
use hongwei_notebook.Shm.Segment.Access.{returns}
use hongwei_notebook.Shm.Notifier.{ReadableInfo, Indicator, notify, poll}
use hongwei_notebook.Shm.Notifier.Log.{Logs, poll-notify}
use hongwei_notebook.Shm.Transmitter.{ShmTransmitter, transmit}
use hongwei_notebook.Shm.Dispatcher.{ShmDispatcher, adapt, handle}
use hongwei_notebook.Shm.Transfer.Contents.{Holds, Holds-shared, received}
use hongwei_notebook.Shm.Transfer.Sends.{HasRoom, buf-room, transmit-Sends}
use hongwei_notebook.Shm.Transfer.Reads.{Reads, told_of, handle-Reads}
use hongwei_notebook.Wire.{id_size}
use hongwei_notebook.Wire.Info
use hongwei_notebook.Wire.Info.{MessageInfo}

module _ {W : Type 0} (os : Os W) {span : ℕ → ℕ} (memory : Buffers os span) (s s' : Segment) (w : W)
    (a a' : ℕ) (open_at : IsOpen os s w a) (open_at' : IsOpen os s' w a')
    (same : Shares os memory a a') (room : HasRoom os span s a)
    (room' : HasRoom os span s' a') where
  same_conf : s'.conf ≡ s.conf
  same_conf =
      open_at'.layout
      ∙ (ap (λ r. update (r.state.ceiling_msg_size)) (same.load_shared w) ∙ sym open_at.layout)

  -- What a block holds, it holds in the mapping of the other segment.
  held_there :
      (v : W) (i : ℕ) (msg : Bytes) (info : MessageInfo)
      → i < s.conf.block_num
      → length msg ≤ s.conf.ceiling_msg_size
      → Holds memory v a i (buf_at os a s.conf i) msg info
      → Holds memory v a' i (buf_at os a' s'.conf i) msg info
  held_there v i msg info lt fits h =
      let c = s.conf in
      let d = os.sizeof_state + c.block_num * os.sizeof_block + i * c.block_buf_size in
      let here : Holds memory v a i (a + d) msg info =
        subst (λ b. Holds memory v a i b msg info) (omega arith) h in
      let fits_there : d + (length msg + Info.size) ≤ span a' =
        subst
          (λ c.
            os.sizeof_state
              + c.block_num * os.sizeof_block
              + i * c.block_buf_size
              + (length msg + Info.size)
            ≤ span a')
          same_conf
          (buf-room os span s' w a' i (length msg) open_at' room'
            (subst (λ c. i < c.block_num) (sym same_conf) lt)
            (subst (λ c. length msg ≤ c.ceiling_msg_size) (sym same_conf) fits)) in
      let there : buf_at os a' c i ≡ a' + d = omega arith in
      subst (λ b. Holds memory v a' i b msg info)
        (sym (ap (λ e. buf_at os a' e i) same_conf ∙ there))
        (Holds-shared os memory v a a' i d msg info same
          (buf-room os span s w a i (length msg) open_at room lt fits) fits_there here)

module _ {W L : Type 0} (os : Os W) {span : ℕ → ℕ} (memory : Buffers os span) (hash : Bytes → ℕ)
    (parses : L → Bytes → Bool) where
  -- The way of a message: the announcement, the world and the ring after Transmit, and the world after
  -- the round of the dispatcher.
  pub record Arrives (s s' : Segment) (w : W) (a channel host seen : ℕ) (spurious : ℕ → Bool)
      (msg : Bytes) (info : MessageInfo) (ring : Indicator) (d : ShmDispatcher L) : Type 0 where
    pub told : ReadableInfo
    pub sent_world : W
    pub sent_ring : Indicator
    pub read_world : W
    pub transmitted :
        let t : ShmTransmitter = record {
          enabled = true;
          segment = some s;
          channel_id = channel;
          host_id = host;
        } in
        transmit os memory s.conf.block_num spurious t (length msg) (some msg) info w false ring
        ≡ returns (true, t, sent_world, sent_ring)
    pub polled : poll sent_ring seen ≡ some (told, suc seen)
    pub handled :
        let sender = hash info.sender_id.content in
        handle os memory hash parses spurious d told sent_world
        ≡ returns (
          told_of d s' told sender,
          read_world,
          adapt parses (on_message d.dispatcher channel sender).1 msg (received hash info),
        )
    pub locks_kept : (os.load read_world a).locks ≡ (os.load w a).locks

  -- Two processes of a host have the segment of a channel open, mapped at two addresses as one memory
  -- of at least the size that the configuration says, and the compiler's sizes of a state and of a
  -- block are no larger than those it allows for; the segment need not be mapped anew, has all its
  -- locks and one that is free; the accesses of memory have no failures without a reason. A message
  -- that fits the ceiling is transmitted: then Transmit returns true, a listener of the notifier that
  -- has seen all announcements so far gets that of the message next, and the round of the dispatcher
  -- that is told of it runs the listeners of the channel for the sender of the message, each that can
  -- parse it with just the bytes and the info that were transmitted. All locks are then as they were.
  pub transmit-Arrives :
      (s s' : Segment) (w : W) (a a' channel host k : ℕ) (spurious : ℕ → Bool) (msg : Bytes)
      (info : MessageInfo) (ring : Indicator) (past : List ReadableInfo) (d : ShmDispatcher L)
      → IsOpen os s w a
      → IsOpen os s' w a'
      → Shares os memory a a'
      → HasRoom os span s a
      → HasRoom os span s' a'
      → (os.load w a).state.need_remap ≡ false
      → length msg ≤ s.conf.ceiling_msg_size
      → length (os.load w a).locks ≡ s.conf.block_num
      → get_elem? (os.load w a).locks k ≡ some rw_lock_free
      → ((n : ℕ) → spurious n ≡ false)
      → length info.sender_id.content ≡ id_size
      → length info.spare_id.content ≡ id_size
      → info.seq_num < u64_mod
      → Logs ring past
      → length past + 1 < u64_mod
      → d.host_id ≡ host
      → lookup channel d.segments ≡ some s'
      → Arrives s s' w a channel host (length past) spurious msg info ring d
  transmit-Arrives s s' w a a' channel host k spurious msg info ring past d open_at open_at' same
        room room' remap fits full free honest ls lp q logs count here known =
      let sent =
        transmit-Sends os memory s w a channel host k spurious msg info ring open_at room remap fits
          full free honest ls lp in
      let i = sent.index in
      let told : ReadableInfo = record { host_id = host; block_index = i; channel_id = channel } in
      let v = sent.final in
      let conf = same_conf os memory s s' w a a' open_at open_at' same room room' in
      let shared = same.load_shared v in
      let read : Reads os memory hash parses d s' v a' spurious told msg info =
        handle-Reads os memory hash parses d s' w v a' spurious told msg info here known open_at'
          room' (subst (λ c. length msg ≤ c.ceiling_msg_size) (sym conf) fits)
          (subst (λ c. i < c.block_num) (sym conf) sent.in_range)
          (ap (λ r. r.state.need_remap) shared ∙ sent.settled)
          (ap (λ r. length r.locks) shared
            ∙ (ap length sent.locks_kept ∙ (full ∙ ap (λ c. c.block_num) (sym conf))))
          (ap (λ r. get_elem? r.locks i) shared
            ∙ (ap (λ l. get_elem? l i) sent.locks_kept ∙ sent.was_free))
          honest
          (held_there os memory s s' w a a' open_at open_at' same room room' v i msg info
            sent.in_range fits sent.held)
          ls lp q in
      record {
        told = told;
        sent_world = v;
        sent_ring = (notify false ring told).1;
        read_world = read.final;
        transmitted = sent.transmitted;
        polled = poll-notify ring past told logs count;
        handled = read.handled;
        locks_kept =
            ap (λ r. r.locks) (sym (same.load_shared read.final))
            ∙ (read.locks_kept ∙ (ap (λ r. r.locks) shared ∙ sent.locks_kept));
      }

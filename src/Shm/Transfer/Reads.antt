-- ===== src/Shm/Transfer/Reads.antt =====
-- The round of ShmDispatcher that is told of a block, where the segment of the channel is open.
use hongwei_notebook.Common.{
  ℕ, ◌<◌, ◌≤◌, Bool, true, false, List, some, ◌≡◌, ap, ◌∙◌, arith, length, get_elem?, set,
  length-set, set-set, set-get_elem?, get_elem?-set_self, u64_mod, ==_refl,
}
use hongwei_notebook.Common.Int.{pos}
use hongwei_notebook.Common.Map.{Bytes, nat_eq, lookup, insert, has}
use hongwei_notebook.Dispatch.Receivers.{on_message}
use hongwei_notebook.Shm.Block.{rw_lock_free}
use hongwei_notebook.Shm.Memory.{Os}
use hongwei_notebook.Shm.Buffers.{Buffers}
use hongwei_notebook.Shm.Segment.{Segment, WritableBlock, buf_at}
use hongwei_notebook.Shm.Segment.Opened.{IsOpen}
use hongwei_notebook.Shm.Segment.Access.{
  returns, change_lock, acquire_block_to_read, update_to_read, lock_for_read, read_tries,
  release_read_block,
}
use hongwei_notebook.Shm.Notifier.{ReadableInfo}
use hongwei_notebook.Shm.Dispatcher.{ShmDispatcher, Heard, adapt, read_block, read_message, handle}
use hongwei_notebook.Shm.Transfer.Contents.{Holds, Holds-save, read_block-Holds, received}
use hongwei_notebook.Shm.Transfer.Sends.{HasRoom, buf-Within}
use hongwei_notebook.Wire.{id_size}
use hongwei_notebook.Wire.Info.{MessageInfo}

module _ {W : Type 0} (os : Os W) where
  acquired_lem :
      (s : Segment) (v : W) (a b i : ℕ) (spurious : ℕ → Bool)
      → s.init ≡ true
      → s.state ≡ some a
      → i < s.conf.block_num
      → lookup i s.block_buf_addrs ≡ some b
      → (os.load v a).state.need_remap ≡ false
      → get_elem? (os.load v a).locks i ≡ some rw_lock_free
      → ((n : ℕ) → spurious n ≡ false)
      → let r = os.load v a in
        acquire_block_to_read os spurious i s v
        ≡ returns (
          some (record { index = i; block = i; buf = some b }),
          s,
          os.save v a (record r { locks = set r.locks i (pos 1) }),
        )
  unfolding acquire_block_to_read update_to_read lock_for_read read_tries
  acquired_lem s v a b i spurious started at lt buf settled free honest =
      ground (arith, started, at, lt, buf, settled, free, honest 4)

  released_lem :
      (s : Segment) (v : W) (a b i : ℕ)
      → s.state ≡ some a
      → i < s.conf.block_num
      → get_elem? (os.load v a).locks i ≡ some (pos 1)
      → let r = os.load v a in
        release_read_block os (record { index = i; block = i; buf = some b }) s v
        ≡ some (os.save v a (record r { locks = set r.locks i rw_lock_free }))
  unfolding release_read_block change_lock
  released_lem s v a b i at lt taken = ground (arith, at, lt, taken)

-- What the dispatcher is after a message of `sender`.
abbrev pub told_of : {L : Type 0} → ShmDispatcher L → Segment → ReadableInfo → ℕ → ShmDispatcher L
told_of d s told sender = record {
  dispatcher = (on_message d.dispatcher told.channel_id sender).0;
  host_id = d.host_id;
  segments = insert told.channel_id s d.segments;
  previous_indexes = insert told.channel_id told.block_index d.previous_indexes;
}

module _ {W L : Type 0} (os : Os W) {span : ℕ → ℕ} (memory : Buffers os span) (hash : Bytes → ℕ)
    (parses : L → Bytes → Bool) where
  read_lem :
      (d d' : ShmDispatcher L) (channel i a b : ℕ) (s : Segment) (v v1 v2 : W) (spurious : ℕ → Bool)
      (heard : List (Heard L))
      → lookup channel d.segments ≡ some s
      → let rb : WritableBlock = record { index = i; block = i; buf = some b } in
        acquire_block_to_read os spurious i s v ≡ returns (some rb, s, v1)
        → s.state ≡ some a
        → read_block os memory hash parses d channel v1 a i b ≡ (d', heard)
        → release_read_block os rb s v1 ≡ some v2
        → read_message os memory hash parses spurious d channel i v
          ≡ returns (record d' { segments = insert channel s d.segments }, v2, heard)
  unfolding read_message
  read_lem d d' channel i a b s v v1 v2 spurious heard known acquired at read released =
      ground (arith, known, acquired, at, read, released)

  handled_lem :
      (d d' : ShmDispatcher L) (told : ReadableInfo) (s : Segment) (v v' : W) (spurious : ℕ → Bool)
      (heard : List (Heard L))
      → d.host_id ≡ told.host_id
      → lookup told.channel_id d.segments ≡ some s
      → read_message os memory hash parses spurious
          (record d {
            previous_indexes = insert told.channel_id told.block_index d.previous_indexes;
          })
          told.channel_id
          told.block_index
          v
        ≡ returns (d', v', heard)
      → handle os memory hash parses spurious d told v ≡ returns (d', v', heard)
  unfolding handle has
  handled_lem d d' told s v v' spurious heard host known read =
      ground (arith, host, known, read, ==_refl told.host_id)

  -- A message that was read: what is left in memory, and who hears it.
  pub record Reads (d : ShmDispatcher L) (s : Segment) (v : W) (a : ℕ) (spurious : ℕ → Bool)
      (told : ReadableInfo) (msg : Bytes) (info : MessageInfo) : Type 0 where
    pub final : W
    pub handled :
        handle os memory hash parses spurious d told v
        ≡ returns (
          told_of d s told (hash info.sender_id.content),
          final,
          adapt parses
              (on_message d.dispatcher told.channel_id (hash info.sender_id.content)).1
              msg
              (received hash info),
        )
    pub locks_kept : (os.load final a).locks ≡ (os.load v a).locks

  pub handle-Reads :
      (d : ShmDispatcher L) (s : Segment) (w v : W) (a : ℕ) (spurious : ℕ → Bool)
      (told : ReadableInfo) (msg : Bytes) (info : MessageInfo)
      → d.host_id ≡ told.host_id
      → lookup told.channel_id d.segments ≡ some s
      → IsOpen os s w a
      → HasRoom os span s a
      → length msg ≤ s.conf.ceiling_msg_size
      → told.block_index < s.conf.block_num
      → (os.load v a).state.need_remap ≡ false
      → length (os.load v a).locks ≡ s.conf.block_num
      → get_elem? (os.load v a).locks told.block_index ≡ some rw_lock_free
      → ((n : ℕ) → spurious n ≡ false)
      → Holds memory v a told.block_index (buf_at os a s.conf told.block_index) msg info
      → length info.sender_id.content ≡ id_size
      → length info.spare_id.content ≡ id_size
      → info.seq_num < u64_mod
      → Reads d s v a spurious told msg info
  handle-Reads d s w v a spurious told msg info host known open_at room fits lt settled full free
        honest held ls lp q =
      let i = told.block_index in
      let c = told.channel_id in
      let b = buf_at os a s.conf i in
      let r = os.load v a in
      let r1 = record r { locks = set r.locks i (pos 1) } in
      let v1 = os.save v a r1 in
      let kept = os.load-save v a r1 in
      let taken : get_elem? (os.load v1 a).locks i ≡ some (pos 1) =
        ap (λ x. get_elem? x.locks i) kept ∙ get_elem?-set_self r.locks i (pos 1) (rw full lt) in
      let r2 = record (os.load v1 a) { locks = set (os.load v1 a).locks i rw_lock_free } in
      let v2 = os.save v1 a r2 in
      let d1 = record d { previous_indexes = insert c i d.previous_indexes } in
      let o = on_message d.dispatcher c (hash info.sender_id.content) in
      let heard = adapt parses o.1 msg (received hash info) in
      let held1 =
        Holds-save os memory v a i b msg info r1
          (buf-Within os span s w a i (length msg) r1 open_at room lt fits
            (length-set r.locks i (pos 1) ∙ full))
          held in
      let read =
        read_lem d1 (record d1 { dispatcher = o.0 }) c i a b s v v1 v2 spurious heard known
          (acquired_lem os s v a b i spurious open_at.started open_at.at_region lt
            (open_at.bufs i lt) settled free honest)
          open_at.at_region
          (read_block-Holds os memory hash parses d1 c v1 a i b msg info held1 ls lp q)
          (released_lem os s v1 a b i open_at.at_region lt taken) in
      record {
        final = v2;
        handled =
            handled_lem d (told_of d s told (hash info.sender_id.content)) told s v v2 spurious
              heard host known read;
        locks_kept =
            ap (λ x. x.locks) (os.load-save v1 a r2)
            ∙ (ap (λ x. set x.locks i rw_lock_free) kept
                ∙ (set-set r.locks i (pos 1) rw_lock_free ∙ set-get_elem? r.locks i free));
      }
